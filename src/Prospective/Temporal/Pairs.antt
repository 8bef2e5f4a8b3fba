-- ===== src/Prospective/Temporal/Pairs.antt =====
-- The pairs that the key of a node in src/toxicjoin/prospective/ppmc_search.py commits to.
use toxicjoin.Prelude.{
  ◌≡◌, ◌⊎◌, inl, inr, refl, sym, ap, ◌∙◌, subst, String, String_eq, true, some, List, [], ◌∷◌, ◌++◌,
  In, Bool-cases, Option-cases, arith,
}
use toxicjoin.Disclosure.Ledger.{OptionString_eq}
use toxicjoin.Prospective.Forbidden.{TemporalReleaseObservation}
use toxicjoin.Prospective.Temporal.{is_pair, pair_le, with_pair, with_observation, pairs_from}

is_pair-eq : (x y : String × String) → is_pair x y ≡ true → x ≡ y
is_pair-eq x y h =
    let r : x.0 ≡ y.0 = (String_eq.beq_iff x.0 y.0).0 (ground (arith, h)) in
    let s : x.1 ≡ y.1 = (String_eq.beq_iff x.1 y.1).0 (ground (arith, h)) in cc

-- What joins a sorted set is in it, and nothing leaves.
In-with_pair :
    (x y : String × String) (xs : List (String × String))
    → (y ≡ x) ⊎ In y xs
    → In y (with_pair x xs)
unfolding with_pair
In-with_pair x y [] i = i
In-with_pair x y (z ∷ zs) i = elim (Bool-cases (is_pair x z)) [
  | inl same ↦ rw same (elim i [ inl new ↦ inl (new ∙ is_pair-eq x z same) | inr old ↦ old ])
  | inr other ↦ elim (Bool-cases (pair_le x z)) [
    | inl first ↦ rw (other, first) i
    | inr later ↦
        rw (other, later)
          (elim i [
            | inl new ↦ inr (In-with_pair x y zs (inl new))
            | inr (inl head) ↦ inl head
            | inr (inr old) ↦ inr (In-with_pair x y zs (inr old))
          ])
  ]
]

with_pair-In :
    (x y : String × String) (xs : List (String × String))
    → In y (with_pair x xs)
    → (y ≡ x) ⊎ In y xs
unfolding with_pair
with_pair-In x y [] i = i
with_pair-In x y (z ∷ zs) i = elim (Bool-cases (is_pair x z)) [
  | inl same ↦ let i' : In y (z ∷ zs) = rw same at i in inr i'
  | inr other ↦ elim (Bool-cases (pair_le x z)) [
    | inl first ↦ let i' : In y (x ∷ z ∷ zs) = rw (other, first) at i in i'
    | inr later ↦
        let i' : In y (z ∷ with_pair x zs) = rw (other, later) at i in
        elim i' [
          | inl head ↦ inr (inl head)
          | inr rest ↦ elim (with_pair-In x y zs rest) [
            | inl new ↦ inl new
            | inr old ↦ inr (inr old)
          ]
        ]
  ]
]

-- The observation is of a sensitive release at this snapshot.
pub record IsAt (o : TemporalReleaseObservation) (pair : String × String) : Type 0 where
  pub sensitive : o.sensitive_release ≡ true
  pub release : o.release_semantic_sha256 ≡ pair.0
  pub snapshot : o.warehouse_snapshot_sha256 ≡ some pair.1

In-with_observation :
    (pairs : List (String × String)) (o : TemporalReleaseObservation) (y : String × String)
    → IsAt o y ⊎ In y pairs
    → In y (with_observation pairs o)
unfolding with_observation
In-with_observation pairs o y (inl at) =
    rw (at.sensitive, at.snapshot)
      (In-with_pair (o.release_semantic_sha256, y.1) y pairs
        (inl (ap (λ r. (r, y.1)) (sym at.release))))
In-with_observation pairs o y (inr i) = elim (Bool-cases o.sensitive_release) [
  | inr no_ ↦ rw no_ i
  | inl yes_ ↦ elim (Option-cases o.warehouse_snapshot_sha256) [
    | inl absent ↦ rw (yes_, absent) i
    | inr (snapshot, known) ↦
        rw (yes_, known) (In-with_pair (o.release_semantic_sha256, snapshot) y pairs (inr i))
  ]
]

with_observation-In :
    (pairs : List (String × String)) (o : TemporalReleaseObservation) (y : String × String)
    → In y (with_observation pairs o)
    → IsAt o y ⊎ In y pairs
unfolding with_observation
with_observation-In pairs o y i = elim (Bool-cases o.sensitive_release) [
  | inr no_ ↦ let i' : In y pairs = rw no_ at i in inr i'
  | inl yes_ ↦ elim (Option-cases o.warehouse_snapshot_sha256) [
    | inl absent ↦ let i' : In y pairs = rw (yes_, absent) at i in inr i'
    | inr (snapshot, known) ↦
        let i' : In y (with_pair (o.release_semantic_sha256, snapshot) pairs) =
          rw (yes_, known) at i in
        elim (with_pair-In (o.release_semantic_sha256, snapshot) y pairs i') [
          | inl new ↦ inl (record {
            sensitive = yes_;
            release = ap (λ p. p.0) (sym new);
            snapshot = known ∙ ap (λ p. some p.1) (sym new);
          })
          | inr old ↦ inr old
        ]
  ]
]

-- The pairs of a path are those of its observations.
pub In-pairs_from :
    (pairs : List (String × String)) (path : List TemporalReleaseObservation) (y : String × String)
    → In y pairs ⊎ ((o : TemporalReleaseObservation) × In o path × IsAt o y)
    → In y (pairs_from pairs path)
unfolding pairs_from
In-pairs_from pairs [] y (inl i) = i
In-pairs_from pairs [] y (inr (o, i, at)) = absurd i
In-pairs_from pairs (p ∷ rest) y (inl i) =
    In-pairs_from (with_observation pairs p) rest y (inl (In-with_observation pairs p y (inr i)))
In-pairs_from pairs (p ∷ rest) y (inr (o, i, at)) = elim i [
  | inl same ↦
      In-pairs_from (with_observation pairs p) rest y
        (inl (In-with_observation pairs p y (inl (subst (λ x. IsAt x y) same at))))
  | inr later ↦ In-pairs_from (with_observation pairs p) rest y (inr (o, later, at))
]

pub pairs_from-In :
    (pairs : List (String × String)) (path : List TemporalReleaseObservation) (y : String × String)
    → In y (pairs_from pairs path)
    → In y pairs ⊎ ((o : TemporalReleaseObservation) × In o path × IsAt o y)
unfolding pairs_from
pairs_from-In pairs [] y i = inl i
pairs_from-In pairs (p ∷ rest) y i = elim (pairs_from-In (with_observation pairs p) rest y i) [
  | inr (o, later, at) ↦ inr (o, inr later, at)
  | inl there ↦ elim (with_observation-In pairs p y there) [
    | inl at ↦ inr (p, inl refl, at)
    | inr old ↦ inl old
  ]
]

pub pairs_from-end :
    (pairs : List (String × String)) (path : List TemporalReleaseObservation)
    (o : TemporalReleaseObservation)
    → pairs_from pairs (path ++ o ∷ []) ≡ with_observation (pairs_from pairs path) o
unfolding pairs_from
pairs_from-end pairs [] o = refl
pairs_from-end pairs (p ∷ rest) o = pairs_from-end (with_observation pairs p) rest o
