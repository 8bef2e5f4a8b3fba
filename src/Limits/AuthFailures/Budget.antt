-- ===== src/Limits/AuthFailures/Budget.antt =====
-- The failures of a key and the size of the table, of src/toxicjoin/api/limits.py.
use toxicjoin.Prelude.{
  ℕ, suc, ◌+◌, ◌≤◌, ◌≡◌, refl, sym, ap, ◌∙◌, ◌⊎◌, String, String_eq, Bool, true, false, List, [],
  ◌∷◌, ◌++◌, arith, leb, ltb, ◌==◌, ==_self, get_last?, length, is_empty, get_or, none, some,
  Result, ok, raise, Bool-cases, Option-cases, inl, inr, if◌then◌else◌,
}
use native.Mathlib.Nat.{le_refl}
use toxicjoin.Prelude.Dict
use toxicjoin.Prelude.Dict.{
  Dict, get-put, get-pop, length-put_new, length-put_old, length-pop-lt, length-pop-le,
  length-put-le, has-cons, get_of_has,
}
use toxicjoin.Limits.{TrafficLimitError, prune}
use toxicjoin.Limits.Window.{IsRecord, recent, prune-eq-recent, recent-recent, recent-append}
use toxicjoin.Limits.AuthFailures.{
  AuthFailureLimiter, Failures, check, prune_all, newest, stalest_from, drop_stalest, evict_stalest,
  make_room, add_failure, record_failure,
}

-- The failures of a key that the table holds.
abbrev pub times_of : String → Failures → List ℕ
times_of key failures = get_or [] (Dict.get key failures)

abbrev pub is_refused : Result TrafficLimitError (Unit {0}) → Bool
is_refused (ok u) = false
is_refused (raise e) = true

length_of_empty : (ts : List ℕ) → is_empty ts ≡ true → length ts ≡ 0
length_of_empty [] h = refl
length_of_empty (t ∷ ts) h = cc

empty_of : (ts : List ℕ) → is_empty ts ≡ true → ts ≡ []
empty_of [] h = refl
empty_of (t ∷ ts) h = cc

module _ (l : AuthFailureLimiter) (second now : ℕ) (key : String) (failures : Failures)
    (recorded : IsRecord now (times_of key failures)) where
  -- With a positive budget and the failures of a key in the order of their times, none later than
  -- now, `check` refuses the key exactly when its failures inside the window reach the budget.
  pub check-refuses :
      1 ≤ l.max_failures
      → is_refused (check l second now key failures).0
        ≡ leb l.max_failures (length (recent l.window now (times_of key failures)))
  unfolding check
  check-refuses positive = elim (Option-cases (Dict.get key failures)) [
    | inl e ↦ rw (e, check) (unfold recent in ground arith)
    | inr (ts, e) ↦
        rw (e, check)
          (ground (
            arith,
            prune-eq-recent l.window now now ts (rw e at recorded),
            length_of_empty (recent l.window now ts),
          ))
  ]

  -- The table after a check of a key with failures.
  get-check :
      (q : String) (ts : List ℕ)
      → Dict.get key failures ≡ some ts
      → Dict.get q (check l second now key failures).1 ≡ (
          if key == q
          then (if is_empty (prune l.window now ts) then none else some (prune l.window now ts))
          else Dict.get q failures)
  unfolding check
  get-check q ts e =
      rw (e, check)
        (elim (Bool-cases (is_empty (prune l.window now ts))) [
          | inl gone ↦ rw gone (get-pop key q failures)
          | inr left ↦
              rw left (elim (Bool-cases (leb l.max_failures (length (prune l.window now ts)))) [
                | inl full ↦ rw full (get-put key q _ failures)
                | inr room ↦ rw room (get-put key q _ failures)
              ])
        ])

  get_or-pruned : (ts : List ℕ) → get_or [] (if is_empty ts then none else some ts) ≡ ts
  get_or-pruned [] = refl
  get_or-pruned (t ∷ ts) = refl

  -- With the failures of the checked key in order, `check` forgets no failure of any key that is
  -- still inside the window, now or later.
  pub check_keeps :
      (q : String) (later : ℕ)
      → now ≤ later
      → recent l.window later (times_of q (check l second now key failures).1)
        ≡ recent l.window later (times_of q failures)
  check_keeps q later h = elim (Option-cases (Dict.get key failures)) [
    | inl e ↦ unfold check in rw (e, check)
    | inr (ts, e) ↦ rw (get-check q ts e) (elim (Bool-cases (key == q)) [
      | inl same ↦
          rw (same, get_or-pruned, prune-eq-recent l.window now now ts (rw e at recorded))
            (recent-recent l.window now later ts h
              ∙ ap (λ o. recent l.window later (get_or [] o))
                  (sym e ∙ ap (λ k. Dict.get k failures) ((String_eq.beq_iff key q).0 same)))
      | inr other ↦ rw other
    ])
  ]

-- `stalest_from` names a key of the table.
has-stalest :
    (best : String) (time : ℕ) (d failures : Failures)
    → Dict.has best d ≡ true
    → ((q : String) → Dict.has q failures ≡ true → Dict.has q d ≡ true)
    → Dict.has (stalest_from best time failures) d ≡ true
unfolding stalest_from
has-stalest best time d [] h sub = h
has-stalest best time d ((key, times) ∷ failures) h sub =
    elim (Bool-cases (ltb (newest times) time)) [
      | inl newer ↦ rw newer (has-stalest key _ d failures (sub key head) tail)
      | inr older ↦ rw older (has-stalest best time d failures h tail)
    ]
  where
    head : Dict.has key ((key, times) ∷ failures) ≡ true
    head = rw (has-cons key key times failures, ==_self key)

    tail : (q : String) → Dict.has q failures ≡ true → Dict.has q d ≡ true
    tail q there = sub q (rw has-cons (ground arith))

length-drop_stalest :
    (failures : Failures)
    → 1 ≤ length failures
    → (rest : Failures) × (drop_stalest failures ≡ ok rest) × (length rest + 1 ≤ length failures)
unfolding drop_stalest
length-drop_stalest [] h = absurd (omega arith)
length-drop_stalest ((key, times) ∷ failures) h = (
  _,
  refl,
  (let found = get_of_has (stalest_from key (newest times) failures) ((key, times) ∷ failures) (
        has-stalest key (newest times) _ failures
          (rw (has-cons key key times failures, ==_self key))
          (λ q there. rw has-cons (ground arith))) in
      length-pop-lt _ found.0 _ found.1),
)

length-prune_all-le :
    (window now : ℕ) (failures : Failures)
    → length (prune_all window now failures) ≤ length failures
unfolding prune_all
length-prune_all-le window now [] = omega arith
length-prune_all-le window now ((key, times) ∷ failures) =
    ground (arith, length-prune_all-le window now failures)

get_last?-append : (t : ℕ) (ts : List ℕ) → get_last? (ts ++ t ∷ []) ≡ some t
get_last?-append t [] = refl
get_last?-append t (u ∷ []) = refl
get_last?-append t (u ∷ v ∷ ts) = get_last?-append t (v ∷ ts)

module _ (l : AuthFailureLimiter) (now : ℕ) (key : String) (failures : Failures)
    (positive : 1 ≤ l.max_tracked_keys) (fits : length failures ≤ l.max_tracked_keys) where
  evict_stalest_room :
      (roomy : Failures) × (evict_stalest l now failures ≡ ok roomy)
      × (length roomy + 1 ≤ l.max_tracked_keys)
  unfolding evict_stalest
  evict_stalest_room =
      elim (Bool-cases (ltb (length (prune_all l.window now failures)) l.max_tracked_keys)) [
        | inl room ↦ (prune_all l.window now failures, rw room, ground arith)
        | inr full ↦
            let (rest, dropped, shorter) =
              length-drop_stalest (prune_all l.window now failures) (ground arith) in
            (rest, rw (full, dropped), omega (arith, length-prune_all-le l.window now failures))
      ]

  make_room_bound :
      (roomy : Failures) × (make_room l now key failures ≡ ok roomy)
      × ((times : List ℕ) → length (Dict.put key times roomy) ≤ l.max_tracked_keys)
  unfolding make_room
  make_room_bound = elim (Option-cases (Dict.get key failures)) [
    | inl new ↦ elim (Bool-cases (leb l.max_tracked_keys (length failures))) [
      | inl full ↦
          let (roomy, evicted, room) = evict_stalest_room in
          (roomy, ground (arith, evicted), λ times. omega (arith, length-put-le key times roomy))
      | inr room ↦
          (failures, ground arith, λ times. ground (arith, length-put-le key times failures))
    ]
    | inr (old, known) ↦ (
      failures,
      ground arith,
      λ times. omega (arith, length-put_old key times old failures known),
    )
  ]

  -- With a table within its bound of at least one key, recording a failure never raises, keeps
  -- the table within the bound, and makes the time the last failure of the key.
  pub record_failure_bound :
      (after : Failures) × (record_failure l now key failures ≡ ok after)
      × (length after ≤ l.max_tracked_keys)
      × (get_last? (times_of key after) ≡ some now)
  unfolding record_failure add_failure
  record_failure_bound =
      let (roomy, made, bound) = make_room_bound in
      (
        add_failure l now key roomy,
        ground (arith, made),
        bound _,
        rw (get-put, ==_self key) (get_last?-append now (prune l.window now (times_of key roomy))),
      )

-- Recording a failure of a key that is in the table or for which there is room adds it to that
-- key inside the window, and to no other key.
pub record_failure_counts :
    (l : AuthFailureLimiter) (now : ℕ) (key : String) (failures : Failures)
    → IsRecord now (times_of key failures)
    → Dict.has key failures ≡ true ⊎ (suc (length failures) ≤ l.max_tracked_keys)
    → (after : Failures) × (record_failure l now key failures ≡ ok after)
      × ((q : String)
          → recent l.window now (times_of q after) ≡ (
              if key == q
              then recent l.window now (times_of q failures) ++ recent l.window now (now ∷ [])
              else recent l.window now (times_of q failures)))
unfolding record_failure make_room add_failure
record_failure_counts l now key failures recorded room = (
  add_failure l now key failures,
  ground arith,
  λ q. rw get-put (elim (Bool-cases (key == q)) [
    | inl same ↦ rw (
      same,
      recent-append,
      prune-eq-recent l.window now now _ recorded,
      recent-recent l.window now now (times_of key failures) (le_refl now),
      ← (String_eq.beq_iff key q).0 same,
    )
    | inr other ↦ rw other
  ]),
)
