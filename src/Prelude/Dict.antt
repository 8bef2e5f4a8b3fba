-- ===== src/Prelude/Dict.antt =====
-- Python's `dict` as the list of its items in insertion order.
use Prim.Native.Nat.{◌+◌, ◌≤◌}
use mathlib.Core.Path.{◌≡◌, refl, ap}
use mathlib.Core.Logic.{◌⊎◌, inl, inr}
use mathlib.Core.Bool.{Bool, true, false}
use mathlib.Core.Option.{Option, none, some}
use mathlib.Core.List.{List, [], ◌∷◌}
use native.Mathlib.Omega.{arith}
use toxicjoin.Prelude.Tests.{Eq, ◌==◌, if◌then◌else◌, Bool-cases}
use toxicjoin.Prelude.Members.{In}
use toxicjoin.Prelude.Lists.{length}

abbrev pub Dict {ℓ κ} : Type ℓ → Type κ → Type (ℓ ⊔ κ)
Dict K V = List (K × V)

module _ {ℓ κ} {K : Type ℓ} {V : Type κ} ⦃e : Eq K⦄ where
  -- d.get(k)
  unfoldable pub get : K → Dict K V → Option V
  get k [] = none
  get k ((j, v) ∷ d) = if j == k then some v else get k d

  -- d[k] = v
  unfoldable pub put : K → V → Dict K V → Dict K V
  put k v [] = (k, v) ∷ []
  put k v ((j, w) ∷ d) = if j == k then (j, v) ∷ d else (j, w) ∷ put k v d

  -- d.pop(k, None)
  unfoldable pub pop : K → Dict K V → Dict K V
  pop k [] = []
  pop k ((j, w) ∷ d) = let rest = pop k d in if j == k then rest else (j, w) ∷ rest

  -- k in d
  abbrev pub has : K → Dict K V → Bool
  has k d = elim (get k d) [ none ↦ false | some v ↦ true ]

  pub get-put :
      (k j : K) (v : V) (d : Dict K V) → get j (put k v d) ≡ (if k == j then some v else get j d)
  unfolding get put
  get-put k j v [] = refl
  get-put k j v ((i, w) ∷ d) =
      ground (arith, e.beq_iff k j, e.beq_iff i k, e.beq_iff i j, get-put k j v d)

  pub get-pop : (k j : K) (d : Dict K V) → get j (pop k d) ≡ (if k == j then none else get j d)
  unfolding get pop
  get-pop k j [] = ground arith
  get-pop k j ((i, w) ∷ d) =
      ground (arith, e.beq_iff k j, e.beq_iff i k, e.beq_iff i j, get-pop k j d)

  pub length-put_new :
      (k : K) (v : V) (d : Dict K V) → get k d ≡ none → length (put k v d) ≡ length d + 1
  unfolding get put
  length-put_new k v [] h = omega arith
  length-put_new k v ((i, w) ∷ d) h = ground (arith, length-put_new k v d)

  pub length-put_old :
      (k : K) (v w : V) (d : Dict K V) → get k d ≡ some w → length (put k v d) ≡ length d
  unfolding get put
  length-put_old k v w [] h = cc
  length-put_old k v w ((i, x) ∷ d) h = ground (arith, length-put_old k v w d)

  pub length-put-le : (k : K) (v : V) (d : Dict K V) → length (put k v d) ≤ length d + 1
  unfolding put
  length-put-le k v [] = omega arith
  length-put-le k v ((i, w) ∷ d) = ground (arith, length-put-le k v d)

  pub has-cons :
      (k j : K) (v : V) (d : Dict K V) → has k ((j, v) ∷ d) ≡ (if j == k then true else has k d)
  unfolding get
  has-cons k j v d = ground arith

  pub get_of_has : (k : K) (d : Dict K V) → has k d ≡ true → (v : V) × (get k d ≡ some v)
  get_of_has k d h = ground arith

  pub length-pop-le : (k : K) (d : Dict K V) → length (pop k d) ≤ length d
  unfolding pop
  length-pop-le k [] = omega arith
  length-pop-le k ((i, w) ∷ d) = ground (arith, length-pop-le k d)

  pub length-pop-lt :
      (k : K) (v : V) (d : Dict K V) → get k d ≡ some v → length (pop k d) + 1 ≤ length d
  unfolding get pop
  length-pop-lt k v [] h = cc
  length-pop-lt k v ((i, w) ∷ d) h = ground (arith, length-pop-lt k v d, length-pop-le k d)

module _ {K V : Type 0} ⦃e : Eq K⦄ where
  pub put-In :
      (k : K) (v : V) (d : Dict K V) (entry : K × V)
      → In entry (put k v d)
      → (entry.1 ≡ v) ⊎ In entry d
  unfolding put
  put-In k v [] entry (inl same) = inl (ap (λ x. x.1) same)
  put-In k v [] entry (inr i) = absurd i
  put-In k v ((j, w) ∷ d) entry i = elim (Bool-cases (j == k)) [
    | inl hit ↦
        let i' : In entry ((j, v) ∷ d) = rw hit at i in
        elim i' [ inl same ↦ inl (ap (λ x. x.1) same) | inr old ↦ inr (inr old) ]
    | inr other ↦
        let i' : In entry ((j, w) ∷ put k v d) = rw other at i in
        elim i' [
          | inl same ↦ inr (inl same)
          | inr later ↦ elim (put-In k v d entry later) [
            | inl same ↦ inl same
            | inr old ↦ inr (inr old)
          ]
        ]
  ]

  pub get-In :
      (k : K) (v : V) (d : Dict K V)
      → get k d ≡ some v
      → (entry : K × V) × In entry d × (entry.1 ≡ v)
  unfolding get
  get-In k v [] h = cc
  get-In k v ((j, w) ∷ d) h = elim (Bool-cases (j == k)) [
    | inl hit ↦
        let h' : ◌≡◌ {A = Option V} (some w) (some v) = rw hit at h in ((j, w), inl refl, cc)
    | inr other ↦
        let h' : get k d ≡ some v = rw other at h in
        let (entry, there, same) = get-In k v d h' in (entry, inr there, same)
  ]

pub ruleset dict_laws = (get-put, get-pop)
