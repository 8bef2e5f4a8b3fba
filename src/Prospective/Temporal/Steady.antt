-- ===== src/Prospective/Temporal/Steady.antt =====
-- When the fifth predicate of src/toxicjoin/prospective/forbidden.py leaves a path clear: no release is
-- seen at two snapshots.
use toxicjoin.Prelude.{
  ◌≡◌, ◌≢◌, ◌⊎◌, false≢true, inl, inr, refl, sym, ap, ◌∙◌, subst, String, String_eq, Bool, true,
  not, ◌&&◌, none, some, List, [], ◌∷◌, ◌++◌, ◌==◌, filter, map, contains, contains-from_keys,
  from_keys, In, filter-In, In-filter, In-map, In-flat_map, flat_map-In, List-cases, Bool-cases,
  Option-cases, arith, sorted,
}
use toxicjoin.Disclosure.Ledger.{OptionString_eq}
use toxicjoin.Prospective.{temporal_differencing}
use toxicjoin.Prospective.Forbidden.{
  TemporalReleaseObservation, Candidate, matched, reason_clear, clear, evaluation_of,
  judge_candidates, observed_le, insert_observation, sorted_observations, unlike, differing,
  kept_observations, observations_of, temporal_candidates, temporal_difference,
  sensitive_replay_across_snapshots,
}
use toxicjoin.Prospective.Temporal.Pairs.{IsAt}

abbrev pub Observations : Type 0
Observations = List TemporalReleaseObservation

module _ {A : Type 0} where
  filter-true : (p : A → Bool) (a : A) (xs : List A) → In a (filter p xs) → p a ≡ true
  filter-true p a [] i = absurd i
  filter-true p a (x ∷ xs) i = elim (Bool-cases (p x)) [
    | inr left ↦ let i' : In a (filter p xs) = rw left at i in filter-true p a xs i'
    | inl kept ↦
        let i' : In a (x ∷ filter p xs) = rw kept at i in
        elim i' [ inl same ↦ ap p same ∙ kept | inr later ↦ filter-true p a xs later ]
  ]

  In-empty : (a : A) (xs : List A) → In a xs → xs ≡ [] → ⊥
  In-empty a xs i empty = subst (λ ys. In a ys) empty i

contains_of_In : (s : String) (xs : List String) → In s xs → contains s xs ≡ true
contains_of_In s [] i = absurd i
contains_of_In s (x ∷ xs) (inl same) =
    let own : (x == s) ≡ true = (String_eq.beq_iff x s).1 (sym same) in ground (arith, own)
contains_of_In s (x ∷ xs) (inr i) = ground (arith, contains_of_In s xs i)

In-of_contains : (s : String) (xs : List String) → contains s xs ≡ true → In s xs
In-of_contains s [] h = false≢true h
In-of_contains s (x ∷ xs) h = elim (Bool-cases (x == s)) [
  | inl own ↦ inl (sym ((String_eq.beq_iff x s).0 own))
  | inr other ↦ inr (In-of_contains s xs (ground (arith, h, other)))
]

insert-In :
    (x y : TemporalReleaseObservation) (xs : Observations)
    → In y (insert_observation x xs)
    → (y ≡ x) ⊎ In y xs
insert-In x y [] i = i
insert-In x y (z ∷ zs) i = elim (Bool-cases (observed_le x z)) [
  | inl first ↦ let i' : In y (x ∷ z ∷ zs) = rw first at i in i'
  | inr later ↦
      let i' : In y (z ∷ insert_observation x zs) = rw later at i in
      elim i' [
        | inl head ↦ inr (inl head)
        | inr rest ↦ elim (insert-In x y zs rest) [ inl new ↦ inl new | inr old ↦ inr (inr old) ]
      ]
]

In-insert :
    (x y : TemporalReleaseObservation) (xs : Observations)
    → (y ≡ x) ⊎ In y xs
    → In y (insert_observation x xs)
In-insert x y [] i = i
In-insert x y (z ∷ zs) i = elim (Bool-cases (observed_le x z)) [
  | inl first ↦ rw first i
  | inr later ↦ rw later (elim i [
    | inl new ↦ inr (In-insert x y zs (inl new))
    | inr (inl head) ↦ inl head
    | inr (inr old) ↦ inr (In-insert x y zs (inr old))
  ])
]

sorted-In :
    (y : TemporalReleaseObservation) (xs : Observations) → In y (sorted_observations xs) → In y xs
sorted-In y [] i = i
sorted-In y (x ∷ xs) i = elim (insert-In x y (sorted_observations xs) i) [
  | inl same ↦ inl same
  | inr old ↦ inr (sorted-In y xs old)
]

In-sorted :
    (y : TemporalReleaseObservation) (xs : Observations) → In y xs → In y (sorted_observations xs)
In-sorted y [] i = i
In-sorted y (x ∷ xs) (inl same) = In-insert x y (sorted_observations xs) (inl same)
In-sorted y (x ∷ xs) (inr i) = In-insert x y (sorted_observations xs) (inr (In-sorted y xs i))

-- No release is seen at two snapshots.
abbrev pub Steady : Observations → Type 0
Steady path =
    (o o' : TemporalReleaseObservation) (x y : String × String)
    → In o path
    → In o' path
    → IsAt o x
    → IsAt o' y
    → x.0 ≡ y.0
    → x.1 ≡ y.1

kept-In :
    (o : TemporalReleaseObservation) (path : Observations) (x : String × String)
    → In o path
    → IsAt o x
    → In o (kept_observations path)
kept-In o path x i at =
    In-filter
      (λ (o : TemporalReleaseObservation).
        o.sensitive_release && not (o.warehouse_snapshot_sha256 == none))
      o path i
      (elim (Bool-cases (o.warehouse_snapshot_sha256 == none)) [
        | inr known ↦ ground (arith, known, at.sensitive)
        | inl absent ↦
            let same = (OptionString_eq.beq_iff o.warehouse_snapshot_sha256 none).0 absent in
            let h : some x.1 ≡ none = sym at.snapshot ∙ same in cc
      ])

In-kept :
    (o : TemporalReleaseObservation) (path : Observations)
    → In o (kept_observations path)
    → In o path × (s : String) × IsAt o (o.release_semantic_sha256, s)
In-kept o path i =
    let p = λ (o : TemporalReleaseObservation).
      o.sensitive_release && not (o.warehouse_snapshot_sha256 == none) in
    let h = filter-true p o path i in
    elim (Option-cases o.warehouse_snapshot_sha256) [
      | inr (s, known) ↦ (
        filter-In p o path i,
        s,
        record { sensitive = ground (arith, h); release = refl; snapshot = known },
      )
      | inl absent ↦
          let no_ = (OptionString_eq.beq_iff o.warehouse_snapshot_sha256 none).1 absent in
          absurd (false≢true (ground (arith, h, no_)))
    ]

undiffering-same :
    (release : String) (first : TemporalReleaseObservation) (rest : Observations)
    → differing release (first ∷ rest) ≡ []
    → (o : TemporalReleaseObservation) → In o (first ∷ rest)
    → o.warehouse_snapshot_sha256 ≡ first.warehouse_snapshot_sha256
undiffering-same release first rest h o (inl same) = ap (λ x. x.warehouse_snapshot_sha256) same
undiffering-same release first rest h o (inr i) = elim (List-cases (filter (unlike first) rest)) [
  | inr (second, more, found) ↦
      let h' : ◌≡◌ {A = List Candidate}
          (record {
            atoms = sorted (first.observation_sha256 ∷ second.observation_sha256 ∷ []);
            releases = release ∷ [];
            reason = sensitive_replay_across_snapshots;
          }
            ∷ [])
          [] =
        rw (differing, found) at h in
      cc
  | inl empty ↦ elim (Bool-cases (unlike first o)) [
    | inl other ↦ absurd (In-empty o _ (In-filter (unlike first) o rest i other) empty)
    | inr same ↦
        (OptionString_eq.beq_iff o.warehouse_snapshot_sha256 first.warehouse_snapshot_sha256).0
          (ground (arith, same))
  ]
]

same-undiffering :
    (release : String) (list : Observations)
    → ((o o' : TemporalReleaseObservation)
        → In o list
        → In o' list
        → o.warehouse_snapshot_sha256 ≡ o'.warehouse_snapshot_sha256)
    → differing release list ≡ []
same-undiffering release [] h = refl
same-undiffering release (first ∷ rest) h = elim (List-cases (filter (unlike first) rest)) [
  | inl empty ↦ rw (differing, empty) refl
  | inr (second, more, found) ↦
      let i : In second (filter (unlike first) rest) =
        subst (λ xs. In second xs) (sym found) (inl refl) in
      let other = filter-true (unlike first) second rest i in
      let same =
        (OptionString_eq.beq_iff _ _).1
          (h second first (inr (filter-In (unlike first) second rest i)) (inl refl)) in
      absurd (false≢true (ground (arith, other, same)))
]

candidates-Steady :
    (path : Observations) → temporal_candidates (kept_observations path) ≡ [] → Steady path
candidates-Steady path none_ o o' x y i j at at' same =
    let kept = kept_observations path in
    let r = x.0 in
    let release_of = λ (o : TemporalReleaseObservation). o.release_semantic_sha256 in
    let of_release = λ (o : TemporalReleaseObservation). o.release_semantic_sha256 == r in
    let listed : In r (from_keys [] (map release_of kept)) =
      In-of_contains r (from_keys [] (map release_of kept)) (
        contains-from_keys r [] (map release_of kept)
        ∙ contains_of_In r (map release_of kept) (
            subst (λ s. In s (map release_of kept)) at.release
              (In-map release_of o kept (kept-In o path x i at)))) in
    let inside : In o (observations_of kept r) = In-sorted o (filter of_release kept) (
      In-filter of_release o kept (kept-In o path x i at)
        ((String_eq.beq_iff o.release_semantic_sha256 r).1 at.release)) in
    let inside' : In o' (observations_of kept r) = In-sorted o' (filter of_release kept) (
      In-filter of_release o' kept (kept-In o' path y j at')
        ((String_eq.beq_iff o'.release_semantic_sha256 r).1 (at'.release ∙ sym same))) in
    let flat : differing r (observations_of kept r) ≡ [] =
      elim (List-cases (differing r (observations_of kept r))) [
        | inl empty ↦ empty
        | inr (c, more, some_) ↦ absurd (
            In-empty c _
              (In-flat_map (λ release. differing release (observations_of kept release)) r c
                (from_keys [] (map release_of kept)) listed
                (subst (λ xs. In c xs) (sym some_) (inl refl)))
              none_)
      ] in
    elim (List-cases (observations_of kept r)) [
      | inl empty ↦ absurd (In-empty o _ inside empty)
      | inr (first, rest, split) ↦
          let flat' = subst (λ xs. differing r xs ≡ []) split flat in
          let a = undiffering-same r first rest flat' o (subst (λ xs. In o xs) split inside) in
          let b = undiffering-same r first rest flat' o' (subst (λ xs. In o' xs) split inside') in
          let c : some x.1 ≡ some y.1 = sym at.snapshot ∙ a ∙ sym b ∙ at'.snapshot in cc
    ]

Steady-candidates :
    (path : Observations) → Steady path → temporal_candidates (kept_observations path) ≡ []
Steady-candidates path steady =
    let kept = kept_observations path in
    let release_of = λ (o : TemporalReleaseObservation). o.release_semantic_sha256 in
    elim (List-cases (temporal_candidates kept)) [
      | inl empty ↦ empty
      | inr (c, more, some_) ↦
          let (r, there, i) =
            flat_map-In (λ release. differing release (observations_of kept release)) c
              (from_keys [] (map release_of kept)) (subst (λ xs. In c xs) (sym some_) (inl refl)) in
          let of_release = λ (o : TemporalReleaseObservation). o.release_semantic_sha256 == r in
          let seen : (o : TemporalReleaseObservation)
              → In o (observations_of kept r)
              → In o path × (s : String) × IsAt o (r, s) =
            λ o j.
              let k = sorted-In o (filter of_release kept) j in
              let own =
                (String_eq.beq_iff o.release_semantic_sha256 r).0
                  (filter-true of_release o kept k) in
              let (inside, s, at) = In-kept o path (filter-In of_release o kept k) in
              (
                inside,
                s,
                record { sensitive = at.sensitive; release = own; snapshot = at.snapshot },
              ) in
          absurd (
            In-empty c _ i (
              same-undiffering r (observations_of kept r) (λ o o' j j'.
                let (a, s, at) = seen o j in
                let (a', s', at') = seen o' j' in
                at.snapshot
                ∙ ap some (steady o o' (r, s) (r, s') a a' at at' refl)
                ∙ sym at'.snapshot)))
    ]

-- The predicate is clear exactly when no release is seen at two snapshots.
pub unmatched-Steady :
    (path : Observations) → (temporal_difference (some path)).status ≢ matched → Steady path
unfolding temporal_difference judge_candidates evaluation_of
unmatched-Steady path h =
    candidates-Steady path (elim (List-cases (temporal_candidates (kept_observations path))) [
      | inl empty ↦ empty
      | inr (c, more, some_) ↦ absurd (h (rw some_ refl))
    ])

pub Steady-clear :
    (path : Observations)
    → Steady path
    → temporal_difference (some path) ≡ evaluation_of temporal_differencing clear reason_clear [] []
unfolding temporal_difference judge_candidates
Steady-clear path steady =
    ap (λ cs. judge_candidates temporal_differencing (λ c. c.releases ++ c.atoms) cs)
      (Steady-candidates path steady)
