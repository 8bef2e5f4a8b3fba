-- ===== src/Prospective/Temporal.antt =====
-- src/toxicjoin/prospective/ppmc_search.py: the temporal path of a node of the search and its key. The
-- hashes are parameters: that of an observation, and that of the pairs of a key, whose digests are of
-- a type D.
pub mod Pairs
pub mod Steady
mod Order
pub mod Faithful
use Prim.Native.String.{compare}
use text.Mathlib.Text.{is_le}
use toxicjoin.Prelude.{
  ℕ, String, String_eq, Bool, true, false, not, ◌&&◌, ◌||◌, Option, none, some, List, [], ◌∷◌, ◌++◌,
  Eq, ◌==◌, any, contains, map, if◌then◌else◌, ◌≡◌, ◌↔◌, arith, ap, refl,
}
use toxicjoin.Models.{Category_eq, sensitive_attribute}
use toxicjoin.Disclosure.{DisclosureSemanticRelease}
use toxicjoin.Prospective.{LocalOracleDecision, ForbiddenStateEvaluation, Transition}
use toxicjoin.Prospective.Search.{Model}
use toxicjoin.Prospective.Twin.{DisclosureAtom, AtomKind_eq, Role_eq, column_exposure, output}
use toxicjoin.Prospective.Forbidden.{
  TemporalReleaseObservation, DisclosureState, GovernanceTrustBinding, EvaluationHash,
  OptionCategory_eq, sorted_observations, evaluate_forbidden_state,
}

-- The fields of a `FutureAction` that the path and the search read; a snapshot advance is the one
-- without a semantic release.
pub record FutureAction : Type 0 where
  pub semantic : Option DisclosureSemanticRelease
  pub action_sha256 : String

-- `_semantic_is_sensitive`
pub semantic_is_sensitive : DisclosureSemanticRelease → Bool
semantic_is_sensitive semantic =
    any (λ o. any (λ source. source.category == sensitive_attribute) o.sources) semantic.outputs

-- The hash of an observation, which commits to its step, its release and its snapshot.
abbrev pub ObservationHash : Type 0
ObservationHash = ℕ → String → String → String

-- `build_temporal_release_observation`, of a sensitive release at a known snapshot
abbrev pub observation_of : ObservationHash → ℕ → String → String → TemporalReleaseObservation
observation_of hash step release snapshot = record {
  step_index = step;
  release_semantic_sha256 = release;
  warehouse_snapshot_sha256 = some snapshot;
  sensitive_release = true;
  observation_sha256 = hash step release snapshot;
}

-- A released output of a sensitive attribute that is not among the base release.
abbrev pub is_historical : List String → DisclosureAtom → Bool
is_historical base a =
    not (contains a.atom_sha256 base)
    && a.kind == column_exposure
    && a.column_role == some output
    && a.category == some sensitive_attribute

-- `_initial_temporal_path`, with the release and the facts that the grammar is based on
pub initial_temporal_path :
    ObservationHash
    → DisclosureState
    → DisclosureSemanticRelease
    → List String
    → Option (List TemporalReleaseObservation)
initial_temporal_path hash state semantic base =
    if any (is_historical base) state.released_atoms
    then none
    else if not (semantic_is_sensitive semantic)
    then some []
    else elim state.warehouse_snapshot_sha256 [
      | none ↦ none
      | some snapshot ↦ some (observation_of hash 0 semantic.semantic_sha256 snapshot ∷ [])
    ]

-- `_extend_temporal_path`; the path is sorted as `build_temporal_path_context` sorts it
pub extend_temporal_path :
    ObservationHash
    → List TemporalReleaseObservation
    → FutureAction
    → DisclosureState
    → ℕ
    → Option (List TemporalReleaseObservation)
extend_temporal_path hash path action post_state step = elim action.semantic [
  | none ↦ some path
  | some semantic ↦
      if not (semantic_is_sensitive semantic)
      then some path
      else elim post_state.warehouse_snapshot_sha256 [
        | none ↦ none
        | some snapshot ↦ some (
            sorted_observations
              (path ++ observation_of hash step semantic.semantic_sha256 snapshot ∷ []))
      ]
]

abbrev pub is_pair : String × String → String × String → Bool
is_pair x y = x.0 == y.0 && x.1 == y.1

-- The order of pairs of texts.
abbrev pair_le : String × String → String × String → Bool
pair_le x y = if x.0 == y.0 then is_le (compare x.1 y.1) else is_le (compare x.0 y.0)

-- One more element of a sorted set.
pub with_pair : String × String → List (String × String) → List (String × String)
with_pair x [] = x ∷ []
with_pair x (y ∷ ys) =
    let rest = with_pair x ys in
    if is_pair x y then y ∷ ys else if pair_le x y then x ∷ y ∷ ys else y ∷ rest

-- The pair of an observation of a sensitive release at a known snapshot.
pub with_observation : List (String × String) → TemporalReleaseObservation → List (String × String)
with_observation pairs o =
    if o.sensitive_release
    then elim o.warehouse_snapshot_sha256 [
      | none ↦ pairs
      | some snapshot ↦ with_pair (o.release_semantic_sha256, snapshot) pairs
    ]
    else pairs

-- `sorted({... for item in path.observations})`, the set being filled from the front
pub pairs_from : List (String × String) → List TemporalReleaseObservation → List (String × String)
pairs_from pairs [] = pairs
pairs_from pairs (o ∷ rest) = pairs_from (with_observation pairs o) rest

-- `_search_node_key`
pub record SearchNodeKey (D : Type 0) : Type 0 where
  pub state_sha256 : String
  pub temporal_signature : D

module _ {D : Type 0} ⦃e : Eq D⦄ where
  abbrev pub is_key : SearchNodeKey D → SearchNodeKey D → Bool
  is_key x y = x.state_sha256 == y.state_sha256 && x.temporal_signature == y.temporal_signature

  pub is_key_iff : (x y : SearchNodeKey D) → (is_key x y ≡ true) ↔ (x ≡ y)
  is_key_iff x y = (
    λ h.
        let s : x.state_sha256 ≡ y.state_sha256 =
          (String_eq.beq_iff x.state_sha256 y.state_sha256).0 (ground (arith, h)) in
        let t : x.temporal_signature ≡ y.temporal_signature =
          (e.beq_iff x.temporal_signature y.temporal_signature).0 (ground (arith, h)) in
        cc,
    λ h.
        let s = (String_eq.beq_iff x.state_sha256 y.state_sha256).1 (ap (λ k. k.state_sha256) h) in
        let t =
          (e.beq_iff x.temporal_signature y.temporal_signature).1
            (ap (λ k. k.temporal_signature) h) in
        ground (arith, s, t),
  )

  instance abbrev pub Key_eq : Eq (SearchNodeKey D)
  Key_eq = record { beq = is_key; beq_iff = is_key_iff }

module _ {D : Type 0} ⦃e : Eq D⦄ (signature : List (String × String) → D) where
  pub search_node_key : DisclosureState → List TemporalReleaseObservation → SearchNodeKey D
  search_node_key state path = record {
    state_sha256 = state.state_sha256;
    temporal_signature = signature (pairs_from [] path);
  }

  -- The search with its own paths, keys and predicates, over the transitions, the oracle
  -- and the validation of the inputs.
  abbrev pub ppmc_model :
      ObservationHash
      → EvaluationHash
      → ℕ
      → Option GovernanceTrustBinding
      → List FutureAction
      → (DisclosureState → FutureAction → Transition DisclosureState)
      → (DisclosureState → FutureAction → Option LocalOracleDecision)
      → (DisclosureState → Bool)
      → String
      → Model DisclosureState FutureAction (List TemporalReleaseObservation) (SearchNodeKey D)
  ppmc_model observation evaluation minimum binding actions apply oracle valid bound_to = record {
    actions = actions;
    apply = apply;
    oracle = oracle;
    evaluate = λ s path. evaluate_forbidden_state evaluation s minimum binding path;
    extend = extend_temporal_path observation;
    search_node_key = search_node_key;
    state_sha256 = λ s. s.state_sha256;
    action_sha256 = λ a. a.action_sha256;
    is_valid = valid;
    initial_state_sha256 = bound_to;
  }
