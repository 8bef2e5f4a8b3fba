-- ===== src/Prospective/Temporal/Order.antt =====
-- The order of the observations of a temporal path in src/toxicjoin/prospective/ppmc_search.py, and
-- what one action does to a path.
use toxicjoin.Prelude.{
  ℕ, ◌≤◌, ◌<◌, ◌≡◌, ◌⊎◌, inl, inr, refl, sym, subst, String, String_eq, true, any, none, some, List,
  [], ◌∷◌, ◌++◌, In, In-append, Bool-cases, Option-cases, arith,
}
use toxicjoin.Disclosure.{DisclosureSemanticRelease}
use toxicjoin.Prospective.Forbidden.{
  DisclosureState, observed_le, sorted_observations, TemporalReleaseObservation,
}
use toxicjoin.Prospective.Temporal.{
  FutureAction, ObservationHash, observation_of, semantic_is_sensitive, is_historical,
  initial_temporal_path, extend_temporal_path, pairs_from, Key_eq,
}
use toxicjoin.Prospective.Temporal.Pairs.{In-pairs_from, pairs_from-In}
use toxicjoin.Prospective.Temporal.Steady.{Observations, Steady}

-- The observations of a path come at later and later steps, none after the given one.
abbrev pub Increasing : Observations → Type 0
Increasing [] = Unit
Increasing (o ∷ rest) =
    ((p : TemporalReleaseObservation) → In p rest → o.step_index < p.step_index) × Increasing rest

abbrev pub Below : ℕ → Observations → Type 0
Below n path = (o : TemporalReleaseObservation) → In o path → o.step_index ≤ n

pub sorted-Increasing : (path : Observations) → Increasing path → sorted_observations path ≡ path
sorted-Increasing [] h = refl
sorted-Increasing (o ∷ []) h = refl
sorted-Increasing (o ∷ p ∷ rest) (first, later) =
    let same = sorted-Increasing (p ∷ rest) later in
    let low = first p (inl refl) in
    let before : observed_le o p ≡ true = ground (arith, low) in rw same (rw before refl)

pub Increasing-end :
    (path : Observations) (o : TemporalReleaseObservation)
    → Increasing path
    → ((p : TemporalReleaseObservation) → In p path → p.step_index < o.step_index)
    → Increasing (path ++ o ∷ [])
Increasing-end [] o h low = ((λ p i. absurd i), tt)
Increasing-end (x ∷ rest) o (first, later) low = (
  λ p i. elim (In-append p rest (o ∷ []) i) [
    | inl old ↦ first p old
    | inr (inl new) ↦ subst (λ q. x.step_index < q.step_index) (sym new) (low x (inl refl))
    | inr (inr none_) ↦ absurd none_
  ],
  Increasing-end rest o later (λ p i. low p (inr i)),
)

pub Steady-pairs : (p q : Observations) → pairs_from [] p ≡ pairs_from [] q → Steady p → Steady q
Steady-pairs p q same steady o o' x y i j at at' agree =
    elim (pairs_from-In [] p x
      (subst (λ xs. In x xs) (sym same) (In-pairs_from [] q x (inr (o, i, at))))) [
        | inl none_ ↦ absurd none_
        | inr (o1, i1, at1) ↦
            elim (pairs_from-In [] p y
              (subst (λ xs. In y xs) (sym same) (In-pairs_from [] q y (inr (o', j, at'))))) [
                | inl none_ ↦ absurd none_
                | inr (o2, i2, at2) ↦ steady o1 o2 x y i1 i2 at1 at2 agree
              ]
      ]

-- What an action does to every path: nothing, it makes it unknown, or it adds one observation.
module _ (hash : ObservationHash) (a : FutureAction) (next : DisclosureState) where
  abbrev pub Stays : Type 0
  Stays = (p : Observations) (n : ℕ) → extend_temporal_path hash p a next n ≡ some p

  abbrev pub Lost : Type 0
  Lost = (p : Observations) (n : ℕ) → extend_temporal_path hash p a next n ≡ none

  abbrev pub Grows : String → String → Type 0
  Grows release snapshot =
      (p : Observations) (n : ℕ)
      → extend_temporal_path hash p a next n
        ≡ some (sorted_observations (p ++ observation_of hash n release snapshot ∷ []))

  pub extension-cases :
      Stays ⊎ (Lost ⊎ ((release : String) × (snapshot : String) × Grows release snapshot))
  unfolding extend_temporal_path
  extension-cases = elim (Option-cases a.semantic) [
    | inl advance ↦ inl (λ p n. rw (extend_temporal_path, advance) refl)
    | inr (semantic, released) ↦ elim (Bool-cases (semantic_is_sensitive semantic)) [
      | inr plain ↦ inl (λ p n. rw (extend_temporal_path, released, plain) refl)
      | inl sensitive ↦ elim (Option-cases next.warehouse_snapshot_sha256) [
        | inl unknown ↦
            inr (inl (λ p n. rw (extend_temporal_path, released, sensitive, unknown) refl))
        | inr (snapshot, known) ↦ inr (
            inr (
              semantic.semantic_sha256,
              snapshot,
              λ p n. rw (extend_temporal_path, released, sensitive, known) refl,
            ))
      ]
    ]
  ]

pub some-same : {T : Type 0} (x y : T) → some x ≡ some y → x ≡ y
some-same x y h = cc

pub none-some : {T : Type 0} (x : T) → none ≡ some x → ⊥
none-some x h = cc

-- The path of the initial state is empty or has one observation, at step 0.
pub initial-Increasing :
    (hash : ObservationHash) (state : DisclosureState) (semantic : DisclosureSemanticRelease)
    (base : List String) (start : Observations)
    → initial_temporal_path hash state semantic base ≡ some start
    → Increasing start × Below 0 start
unfolding initial_temporal_path
initial-Increasing hash state semantic base start h =
    elim (Bool-cases (any (is_historical base) state.released_atoms)) [
      | inl past ↦ let h' : none ≡ some start = rw past at h in absurd (none-some start h')
      | inr fresh ↦ elim (Bool-cases (semantic_is_sensitive semantic)) [
        | inr plain ↦
            let h' : some [] ≡ some start = rw (fresh, plain) at h in
            let same = some-same [] start h' in
            (subst Increasing same tt, subst (Below 0) same (λ o i. absurd i))
        | inl sensitive ↦ elim (Option-cases state.warehouse_snapshot_sha256) [
          | inl unknown ↦
              let h' : none ≡ some start = rw (fresh, sensitive, unknown) at h in
              absurd (none-some start h')
          | inr (snapshot, known) ↦
              let o = observation_of hash 0 semantic.semantic_sha256 snapshot in
              let h' : some (o ∷ []) ≡ some start = rw (fresh, sensitive, known) at h in
              let same = some-same (o ∷ []) start h' in
              (
                subst Increasing same ((λ p i. absurd i), tt),
                subst (Below 0) same (λ p i. elim i [
                  | inl own ↦ subst (λ q. q.step_index ≤ 0) (sym own) (omega arith)
                  | inr none_ ↦ absurd none_
                ]),
              )
        ]
      ]
    ]
