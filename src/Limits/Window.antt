-- ===== src/Limits/Window.antt =====
-- The deque of a sliding window of src/toxicjoin/api/limits.py against the whole record of times.
use toxicjoin.Prelude.{
  ℕ, ◌+◌, ◌≤◌, ◌<◌, ◌≡◌, refl, List, [], ◌∷◌, ◌++◌, arith, ltb, filter, filter-append, Bool-cases,
  inl, inr,
}
use toxicjoin.Limits.{prune}

-- Every time of the list is at least the given one, and at most the other.
abbrev pub AllBetween : ℕ → ℕ → List ℕ → Type 0
AllBetween low high [] = Unit
AllBetween low high (t ∷ ts) = (low ≤ t) × (t ≤ high) × AllBetween low high ts

-- The times never fall, and none is later than `now`.
abbrev pub IsRecord : ℕ → List ℕ → Type 0
IsRecord now [] = Unit
IsRecord now (t ∷ ts) = (t ≤ now) × AllBetween t now ts × IsRecord now ts

-- The times that are still inside the window at `now`.
unfoldable pub recent : ℕ → ℕ → List ℕ → List ℕ
recent window now ts = filter (λ t. ltb now (t + window)) ts

AllBetween-widen :
    (low low' high high' : ℕ) (ts : List ℕ)
    → low' ≤ low
    → high ≤ high'
    → AllBetween low high ts
    → AllBetween low' high' ts
AllBetween-widen low low' high high' [] h k a = tt
AllBetween-widen low low' high high' (t ∷ ts) h k a =
    (omega arith, omega arith, AllBetween-widen low low' high high' ts h k a.2)

pub IsRecord-later :
    (now later : ℕ) (ts : List ℕ) → now ≤ later → IsRecord now ts → IsRecord later ts
IsRecord-later now later [] h r = tt
IsRecord-later now later (t ∷ ts) h r = (
  omega arith,
  AllBetween-widen t t now later ts (omega arith) h r.1,
  IsRecord-later now later ts h r.2,
)

AllBetween-append :
    (low high t : ℕ) (ts : List ℕ)
    → low ≤ t
    → t ≤ high
    → AllBetween low high ts
    → AllBetween low high (ts ++ t ∷ [])
AllBetween-append low high t [] h k a = (h, k, tt)
AllBetween-append low high t (s ∷ ts) h k a = (a.0, a.1, AllBetween-append low high t ts h k a.2)

pub IsRecord-append : (now : ℕ) (ts : List ℕ) → IsRecord now ts → IsRecord now (ts ++ now ∷ [])
IsRecord-append now [] r = (omega arith, tt, tt)
IsRecord-append now (t ∷ ts) r =
    (r.0, AllBetween-append t now now ts r.0 (omega arith) r.1, IsRecord-append now ts r.2)

recent_all :
    (window now low high : ℕ) (ts : List ℕ)
    → now < low + window
    → AllBetween low high ts
    → recent window now ts ≡ ts
unfolding recent
recent_all window now low high [] h a = refl
recent_all window now low high (t ∷ ts) h a =
    ground (arith, recent_all window now low high ts h a.2)

-- In a record the loop of `prune` removes exactly what has left the window.
pub prune-eq-recent :
    (window now last : ℕ) (ts : List ℕ)
    → IsRecord last ts
    → prune window now ts ≡ recent window now ts
unfolding prune recent
prune-eq-recent window now last [] r = refl
prune-eq-recent window now last (t ∷ ts) r =
    ground (arith, prune-eq-recent window now last ts r.2, recent_all window now t last ts)

AllBetween-recent :
    (window now low high : ℕ) (ts : List ℕ)
    → AllBetween low high ts
    → AllBetween low high (recent window now ts)
unfolding recent
AllBetween-recent window now low high [] a = tt
AllBetween-recent window now low high (t ∷ ts) a = elim (Bool-cases (ltb now (t + window))) [
  | inl kept ↦ rw kept (a.0, a.1, AllBetween-recent window now low high ts a.2)
  | inr gone ↦ rw gone (AllBetween-recent window now low high ts a.2)
]

pub IsRecord-recent :
    (window now last : ℕ) (ts : List ℕ) → IsRecord last ts → IsRecord last (recent window now ts)
unfolding recent
IsRecord-recent window now last [] r = tt
IsRecord-recent window now last (t ∷ ts) r = elim (Bool-cases (ltb now (t + window))) [
  | inl kept ↦
      rw kept
        (r.0, AllBetween-recent window now t last ts r.1, IsRecord-recent window now last ts r.2)
  | inr gone ↦ rw gone (IsRecord-recent window now last ts r.2)
]

-- What is forgotten at `now` has left every later window too.
pub recent-recent :
    (window now later : ℕ) (ts : List ℕ)
    → now ≤ later
    → recent window later (recent window now ts) ≡ recent window later ts
unfolding recent
recent-recent window now later [] h = refl
recent-recent window now later (t ∷ ts) h = ground (arith, recent-recent window now later ts)

pub recent-append :
    (window now : ℕ) (ts us : List ℕ)
    → recent window now (ts ++ us) ≡ recent window now ts ++ recent window now us
unfolding recent
recent-append window now ts us = filter-append _ ts us
