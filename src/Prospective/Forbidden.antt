-- ===== src/Prospective/Forbidden.antt =====
-- src/toxicjoin/prospective/forbidden.py: the six predicates on a state of disclosures. The hashes of
-- the predicates' evaluations are left out; that of a state's evaluation is a parameter.
pub mod Clear
mod Tests
use Prim.Native.String.{compare}
use text.Mathlib.Text.{is_le}
use toxicjoin.Prelude.{
  ℕ, String, String_eq, Bool, true, false, not, ◌&&◌, ◌||◌, Option, none, some, List, [], ◌∷◌, ◌++◌,
  map, Eq, eq_of, ◌==◌, any, all, filter, flat_map, contains, from_keys, sorted, get_or, get_last?,
  is_empty, length, ltb, leb, if◌then◌else◌,
}
use toxicjoin.Prelude.Dict
use toxicjoin.Prelude.Dict.{Dict}
use toxicjoin.Models.{
  SensitivityCategory, Category-discrete, Category_eq, direct_identifier, stable_pseudonym,
  sensitive_attribute, ProjectionExposureKind, ProjectionExposureKind_eq, group_key,
}
use toxicjoin.Disclosure.Ledger.{OptionString_eq}
use toxicjoin.Prospective.{
  ForbiddenPredicateId, ForbiddenStateEvaluation, direct_sensitive_linkage,
  stable_linkable_sensitive, small_cohort_sensitive, cross_release_composition,
  temporal_differencing, untrusted_governance_authorization,
}
use toxicjoin.Prospective.Twin.{
  DisclosureAtom, AtomKind_eq, Role_eq, column_exposure, minimum_group_size, output, group_key_role,
  identifier_categories, linkable_output_kinds, revealing_output_kinds, sorted_by,
}

pub data ForbiddenPredicateStatus : Type 0 where
  matched clear indeterminate : ForbiddenPredicateStatus

unfoldable pub Status-discrete : Discrete ForbiddenPredicateStatus
Status-discrete = hlevel

instance abbrev pub Status_eq : Eq ForbiddenPredicateStatus
Status_eq = eq_of Status-discrete

pub data ForbiddenReasonCode : Type 0 where
  reason_clear : ForbiddenReasonCode
  direct_and_sensitive_linkable_same_release : ForbiddenReasonCode
  stable_and_sensitive_linkable_same_release : ForbiddenReasonCode
  sensitive_group_below_minimum : ForbiddenReasonCode
  sensitive_group_minimum_missing : ForbiddenReasonCode
  identifier_and_sensitive_across_releases : ForbiddenReasonCode
  sensitive_replay_across_snapshots : ForbiddenReasonCode
  temporal_path_context_missing : ForbiddenReasonCode
  governance_binding_missing : ForbiddenReasonCode
  governance_commitment_mismatch : ForbiddenReasonCode
  governance_not_trusted : ForbiddenReasonCode

pub record GovernanceTrustBinding : Type 0 where
  pub governance_commitment_sha256 : String
  pub trusted : Bool

pub record TemporalReleaseObservation : Type 0 where
  pub step_index : ℕ
  pub release_semantic_sha256 : String
  pub warehouse_snapshot_sha256 : Option String
  pub sensitive_release : Bool
  pub observation_sha256 : String

pub record ForbiddenPredicateEvaluation : Type 0 where
  pub predicate_id : ForbiddenPredicateId
  pub status : ForbiddenPredicateStatus
  pub reason_code : ForbiddenReasonCode
  pub witness_atom_sha256s : List String
  pub witness_release_sha256s : List String

-- The fields of a `DisclosureState` that the predicates and the search read.
pub record DisclosureState : Type 0 where
  pub state_sha256 : String
  pub warehouse_snapshot_sha256 : Option String
  pub governance_commitment_sha256 : String
  pub released_atoms : List DisclosureAtom

-- A match and its witnesses.
pub record Candidate : Type 0 where
  pub atoms : List String
  pub releases : List String
  pub reason : ForbiddenReasonCode

-- `_evaluation`
unfoldable pub evaluation_of :
    ForbiddenPredicateId
    → ForbiddenPredicateStatus
    → ForbiddenReasonCode
    → List String
    → List String
    → ForbiddenPredicateEvaluation
evaluation_of id status reason atoms releases = record {
  predicate_id = id;
  status = status;
  reason_code = reason;
  witness_atom_sha256s = sorted (from_keys [] atoms);
  witness_release_sha256s = sorted (from_keys [] releases);
}

-- The order of tuples of texts.
abbrev texts_le : List String → List String → Bool
texts_le [] ys = true
texts_le (x ∷ xs) [] = false
texts_le (x ∷ xs) (y ∷ ys) = if x == y then texts_le xs ys else is_le (compare x y)

-- `min`: the first of the least.
abbrev least_from : (Candidate → List String) → Candidate → List Candidate → Candidate
least_from by best [] = best
least_from by best (c ∷ cs) = least_from by (if texts_le (by best) (by c) then best else c) cs

-- Clear without candidates, else matched with the least of them.
unfoldable pub judge_candidates :
    ForbiddenPredicateId → (Candidate → List String) → List Candidate → ForbiddenPredicateEvaluation
judge_candidates id by [] = evaluation_of id clear reason_clear [] []
judge_candidates id by (c ∷ cs) =
    let best = least_from by c cs in evaluation_of id matched best.reason best.atoms best.releases

-- The loop of `_by_release`.
unfoldable pub group_from :
    Dict String (List DisclosureAtom) → List DisclosureAtom → Dict String (List DisclosureAtom)
group_from d [] = d
group_from d (a ∷ rest) = elim a.release_semantic_sha256 [
  | none ↦ group_from d rest
  | some r ↦ group_from (Dict.put r (get_or [] (Dict.get r d) ++ a ∷ []) d) rest
]

-- `_by_release`
unfoldable pub by_release : List DisclosureAtom → Dict String (List DisclosureAtom)
by_release atoms =
    map (λ group. (group.0, sorted_by (λ a. a.atom_sha256) group.1)) (group_from [] atoms)

unfoldable pub OptionCategory-discrete : Discrete (Option SensitivityCategory)
OptionCategory-discrete = hlevel Category-discrete

instance abbrev pub OptionCategory_eq : Eq (Option SensitivityCategory)
OptionCategory_eq = eq_of OptionCategory-discrete

abbrev pub of_category : SensitivityCategory → List DisclosureAtom → List DisclosureAtom
of_category c atoms = filter (λ a. a.category == some c) atoms

-- A pair of an identifier and a sensitive attribute.
abbrev pub linkage : ForbiddenReasonCode → List String → DisclosureAtom → DisclosureAtom → Candidate
linkage reason releases identifier sensitive = record {
  atoms = sorted (identifier.atom_sha256 ∷ sensitive.atom_sha256 ∷ []);
  releases = releases;
  reason = reason;
}

abbrev pub release_linkages :
    SensitivityCategory → ForbiddenReasonCode → String × List DisclosureAtom → List Candidate
release_linkages category reason (release, atoms) =
    flat_map
      (λ identifier.
        map (linkage reason (release ∷ []) identifier) (of_category sensitive_attribute atoms))
      (of_category category atoms)

-- `_same_release_linkage`
unfoldable pub same_release_linkage :
    ForbiddenPredicateId
    → SensitivityCategory
    → ForbiddenReasonCode
    → Dict String (List DisclosureAtom)
    → ForbiddenPredicateEvaluation
same_release_linkage id category reason releases =
    judge_candidates id (λ c. c.atoms ++ c.releases)
      (flat_map (release_linkages category reason) releases)

abbrev pub cross_linkages : List DisclosureAtom → DisclosureAtom → List Candidate
cross_linkages sensitive identifier =
    flat_map
      (λ s.
        if identifier.release_semantic_sha256 == s.release_semantic_sha256
        then []
        else linkage identifier_and_sensitive_across_releases
            (sorted (
              get_or "" identifier.release_semantic_sha256
              ∷ get_or "" s.release_semantic_sha256
              ∷ []))
            identifier s
          ∷ [])
      sensitive

abbrev pub is_identifier : DisclosureAtom → Bool
is_identifier a = elim a.category [ none ↦ false | some c ↦ contains c identifier_categories ]

-- `_cross_release_composition`
unfoldable pub cross_release : List DisclosureAtom → ForbiddenPredicateEvaluation
cross_release linkable =
    judge_candidates cross_release_composition (λ c. c.atoms ++ c.releases)
      (flat_map (cross_linkages (of_category sensitive_attribute linkable))
        (filter is_identifier linkable))

-- `_untrusted_governance`
unfoldable pub untrusted_governance :
    DisclosureState → Option GovernanceTrustBinding → ForbiddenPredicateEvaluation
untrusted_governance state none =
    evaluation_of untrusted_governance_authorization matched governance_binding_missing [] []
untrusted_governance state (some binding) =
    if not (binding.governance_commitment_sha256 == state.governance_commitment_sha256)
    then evaluation_of untrusted_governance_authorization matched governance_commitment_mismatch []
        []
    else if not binding.trusted
    then evaluation_of untrusted_governance_authorization matched governance_not_trusted [] []
    else evaluation_of untrusted_governance_authorization clear reason_clear [] []

abbrev pub has_kind : ProjectionExposureKind → DisclosureAtom → Bool
has_kind kind a = elim a.exposure_kind [ none ↦ false | some k ↦ k == kind ]

abbrev pub has_kind_in : List ProjectionExposureKind → DisclosureAtom → Bool
has_kind_in kinds a = elim a.exposure_kind [ none ↦ false | some k ↦ contains k kinds ]

-- The fact with the least group size, and of those the least hash.
abbrev least_minimum : DisclosureAtom → List DisclosureAtom → DisclosureAtom
least_minimum best [] = best
least_minimum best (a ∷ rest) =
    let size = get_or 0 a.minimum_group_size in
    let least = get_or 0 best.minimum_group_size in
    least_minimum
      (if ltb least size || (leb least size && is_le (compare best.atom_sha256 a.atom_sha256))
        then best
        else a)
      rest

-- The candidate of a release whose sensitive output is grouped below the minimum, or without one.
abbrev cohort_candidates :
    ℕ → Dict String (List DisclosureAtom) → String × List DisclosureAtom → List Candidate
cohort_candidates minimum every (release, revealing) =
    let all_atoms = get_or [] (Dict.get release every) in
    let groups =
      filter
        (λ a.
          a.kind == column_exposure
          && (a.column_role == some group_key_role || has_kind group_key a))
        all_atoms in
    let shas =
      map (λ (a : DisclosureAtom). a.atom_sha256)
        (groups ++ of_category sensitive_attribute revealing) in
    let base = sorted (from_keys [] shas) in
    if is_empty (of_category sensitive_attribute revealing) || is_empty groups
    then []
    else elim (filter (λ a. a.kind == minimum_group_size) all_atoms) [
      | [] ↦
          record { atoms = base; releases = release ∷ []; reason = sensitive_group_minimum_missing }
          ∷ []
      | a ∷ rest ↦
          let least = least_minimum a rest in
          if ltb (get_or 0 least.minimum_group_size) minimum
          then record {
            atoms = sorted (base ++ least.atom_sha256 ∷ []);
            releases = release ∷ [];
            reason = sensitive_group_below_minimum;
          }
            ∷ []
          else []
    ]

-- `_small_cohort_sensitive`
unfoldable pub small_cohort :
    ℕ
    → Dict String (List DisclosureAtom)
    → Dict String (List DisclosureAtom)
    → ForbiddenPredicateEvaluation
small_cohort minimum revealing every =
    judge_candidates small_cohort_sensitive (λ c. c.releases ++ c.atoms)
      (flat_map (cohort_candidates minimum every) revealing)

-- The order by the step, then by the hash.
abbrev pub observed_le : TemporalReleaseObservation → TemporalReleaseObservation → Bool
observed_le x y =
    ltb x.step_index y.step_index
    || (leb x.step_index y.step_index && is_le (compare x.observation_sha256 y.observation_sha256))

-- `sorted` by it
abbrev pub insert_observation :
    TemporalReleaseObservation → List TemporalReleaseObservation → List TemporalReleaseObservation
insert_observation x [] = x ∷ []
insert_observation x (y ∷ ys) = if observed_le x y then x ∷ y ∷ ys else y ∷ insert_observation x ys

abbrev pub sorted_observations : List TemporalReleaseObservation → List TemporalReleaseObservation
sorted_observations [] = []
sorted_observations (x ∷ xs) = insert_observation x (sorted_observations xs)

-- Of another snapshot than the first observation.
abbrev pub unlike : TemporalReleaseObservation → TemporalReleaseObservation → Bool
unlike first o = not (o.warehouse_snapshot_sha256 == first.warehouse_snapshot_sha256)

-- The first observation, and the first after it of another snapshot.
abbrev pub differing : String → List TemporalReleaseObservation → List Candidate
differing release [] = []
differing release (first ∷ rest) = elim (filter (unlike first) rest) [
  | [] ↦ []
  | second ∷ _ ↦
      record {
        atoms = sorted (first.observation_sha256 ∷ second.observation_sha256 ∷ []);
        releases = release ∷ [];
        reason = sensitive_replay_across_snapshots;
      }
      ∷ []
]

-- The observations of sensitive releases at known snapshots.
abbrev pub kept_observations : List TemporalReleaseObservation → List TemporalReleaseObservation
kept_observations observations =
    filter
      (λ (o : TemporalReleaseObservation).
        o.sensitive_release && not (o.warehouse_snapshot_sha256 == none))
      observations

-- Those of one release, in their order.
abbrev pub observations_of :
    List TemporalReleaseObservation → String → List TemporalReleaseObservation
observations_of kept release =
    sorted_observations (filter (λ o. o.release_semantic_sha256 == release) kept)

-- What differs, for each release.
abbrev pub temporal_candidates : List TemporalReleaseObservation → List Candidate
temporal_candidates kept =
    flat_map (λ release. differing release (observations_of kept release))
      (from_keys [] (map (λ (o : TemporalReleaseObservation). o.release_semantic_sha256) kept))

-- `_temporal_differencing`
unfoldable pub temporal_difference :
    Option (List TemporalReleaseObservation) → ForbiddenPredicateEvaluation
temporal_difference none =
    evaluation_of temporal_differencing indeterminate temporal_path_context_missing [] []
temporal_difference (some observations) =
    judge_candidates temporal_differencing (λ c. c.releases ++ c.atoms)
      (temporal_candidates (kept_observations observations))

abbrev pub output_atoms : DisclosureState → List DisclosureAtom
output_atoms state =
    filter (λ a. a.kind == column_exposure && a.column_role == some output) state.released_atoms

abbrev pub linkable : DisclosureState → List DisclosureAtom
linkable state = filter (has_kind_in linkable_output_kinds) (output_atoms state)

-- The six predicates, in their order.
unfoldable pub predicates_of :
    DisclosureState
    → ℕ
    → Option GovernanceTrustBinding
    → Option (List TemporalReleaseObservation)
    → List ForbiddenPredicateEvaluation
predicates_of state minimum binding path =
    same_release_linkage direct_sensitive_linkage direct_identifier
      direct_and_sensitive_linkable_same_release (by_release (linkable state))
    ∷ same_release_linkage stable_linkable_sensitive stable_pseudonym
        stable_and_sensitive_linkable_same_release (by_release (linkable state))
    ∷ small_cohort minimum
        (by_release (filter (has_kind_in revealing_output_kinds) (output_atoms state)))
        (by_release state.released_atoms)
    ∷ cross_release (linkable state)
    ∷ temporal_difference path
    ∷ untrusted_governance state binding
    ∷ []

abbrev pub with_status :
    ForbiddenPredicateStatus → List ForbiddenPredicateEvaluation → List ForbiddenPredicateId
with_status status predicates =
    map (λ (p : ForbiddenPredicateEvaluation). p.predicate_id)
      (filter (λ p. p.status == status) predicates)

-- The limits on the witnesses of an evaluation; the construction raises beyond them.
abbrev pub fits : ForbiddenPredicateEvaluation → Bool
fits p = leb (length p.witness_atom_sha256s) 16 && leb (length p.witness_release_sha256s) 8

-- The hash of an evaluation commits to the state, the policy, the binding, the path and the predicates.
abbrev pub EvaluationHash : Type 0
EvaluationHash =
    DisclosureState
    → ℕ
    → Option GovernanceTrustBinding
    → Option (List TemporalReleaseObservation)
    → List ForbiddenPredicateEvaluation
    → String

-- `evaluate_forbidden_state`; `none` is the error that a witness over its limit raises
unfoldable pub evaluate_forbidden_state :
    EvaluationHash
    → DisclosureState
    → ℕ
    → Option GovernanceTrustBinding
    → Option (List TemporalReleaseObservation)
    → Option ForbiddenStateEvaluation
evaluate_forbidden_state hash state minimum binding path =
    let predicates = predicates_of state minimum binding path in
    if all fits predicates
    then some (record {
      evaluation_sha256 = hash state minimum binding path predicates;
      matched_predicates = with_status matched predicates;
      indeterminate_predicates = with_status indeterminate predicates;
      forbidden = not (is_empty (with_status matched predicates));
    })
    else none
