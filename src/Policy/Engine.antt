-- ===== src/Policy/Engine.antt =====
-- `PolicyEngine.evaluate` of src/toxicjoin/policy/engine.py, in its order: the reasons to block, then
-- the threshold of a grouped query, then the release.
pub mod Outcome
pub mod Reasons
pub mod Repair
pub mod Tests
use toxicjoin.Prelude.{
  ℕ, String, Bool, true, false, not, ◌&&◌, ◌||◌, Option, none, some, List, [], ◌∷◌, ◌++◌, map, ltb,
  leb, String_eq, ◌==◌, is_empty, any, contains, from_keys, if◌then◌else◌,
}
use toxicjoin.Prelude.Dict.{Dict}
use toxicjoin.Models.{
  Decision, allow, rewrite, block, SensitivityCategory, direct_identifier, stable_pseudonym,
  quasi_identifier, sensitive_attribute, Category_eq, subject_identifier_categories, ReasonCode,
  ReasonCode_eq, direct_sensitive_linkage, compositional_reidentification_risk, small_group_risk,
  untrusted_subject_key, unresolved_column, unclassified_column, no_compositional_risk, ColumnRef,
  key, ProjectionExposureKind_eq, nested_scope, PolicyInput, PolicyDecision, EvidenceValue, number,
  optional_number, flag, optional_text, texts, categories, optional_category, exposures, lineage,
}
use toxicjoin.Policy.{
  PolicyConfig, effective_categories, category_count, unresolved, semantic_projected_context,
  has_protected_conditional_aggregate, subject_governed_category, lineage_evidence,
}

abbrev pub reason_if : Bool → ReasonCode → List ReasonCode
reason_if test reason = if test then reason ∷ [] else []

-- What `evaluate` reads of the projected columns: the exposed ones where the plan lists exposures.
pub risk_categories : PolicyInput → List SensitivityCategory
risk_categories input =
    let (context, semantic_mode) = semantic_projected_context input in
    if semantic_mode
    then effective_categories context
    else effective_categories input.projected_context

pub quasi_count : PolicyInput → ℕ
quasi_count input =
    let (context, semantic_mode) = semantic_projected_context input in
    if semantic_mode
    then category_count context quasi_identifier
    else category_count input.projected_context quasi_identifier

abbrev pub has_nested_scope : PolicyInput → Bool
has_nested_scope input = any (λ e. e.kind == nested_scope) input.query_plan.projected_exposures

pub has_direct_linkage : PolicyInput → Bool
has_direct_linkage input =
    contains direct_identifier (risk_categories input)
    && contains sensitive_attribute (risk_categories input)

pub has_composition_risk : PolicyConfig → PolicyInput → Bool
has_composition_risk config input =
    not input.query_plan.is_grouped
    && contains stable_pseudonym (risk_categories input)
    && contains sensitive_attribute (risk_categories input)
    && ((semantic_projected_context input).1
        || leb config.quasi_identifier_threshold (quasi_count input))

-- The list `block_reasons`, in the order in which the method appends to it.
pub block_reasons : PolicyConfig → PolicyInput → List ReasonCode
block_reasons config input =
    input.upstream_failures
    ++ (reason_if (not (is_empty (unresolved input)) && config.fail_closed) unclassified_column
        ++ (reason_if
              ((semantic_projected_context input).1 && config.fail_closed && has_nested_scope input)
              unresolved_column
            ++ (reason_if (has_protected_conditional_aggregate input)
                  compositional_reidentification_risk
                ++ (reason_if (has_direct_linkage input) direct_sensitive_linkage
                    ++ reason_if (has_composition_risk config input)
                        compositional_reidentification_risk))))

-- `subject_category in SUBJECT_IDENTIFIER_CATEGORIES`
abbrev pub is_governed_identifier : Option SensitivityCategory → Bool
is_governed_identifier none = false
is_governed_identifier (some category) = contains category subject_identifier_categories

abbrev pub same_key : Option ColumnRef → Option ColumnRef → Bool
same_key none detected = false
same_key (some expected) none = false
same_key (some expected) (some detected) = key expected == key detected

pub threshold_subject_matches : PolicyInput → Bool
threshold_subject_matches input =
    same_key input.subject_key input.query_plan.minimum_group_size_subject
    && is_governed_identifier (subject_governed_category input)

pub trusted_threshold : PolicyInput → Option ℕ
trusted_threshold input =
    if threshold_subject_matches input then input.minimum_group_size_present else none

abbrev pub is_below : Option ℕ → ℕ → Bool
is_below none minimum = true
is_below (some threshold) minimum = ltb threshold minimum

abbrev key_of : Option ColumnRef → Option String
key_of none = none
key_of (some r) = some (key r)

pub sensitive_anywhere : PolicyInput → Bool
sensitive_anywhere input =
    contains sensitive_attribute (effective_categories input.all_referenced_context)

pub threshold_evidence : PolicyInput → Dict String EvidenceValue
threshold_evidence input =
    ("detected_minimum_group_size", optional_number input.minimum_group_size_present)
    ∷ ("expected_subject_key", optional_text (key_of input.subject_key))
    ∷ (
      "detected_threshold_subject",
      optional_text (key_of input.query_plan.minimum_group_size_subject),
    )
    ∷ ("subject_governed_category", optional_category (subject_governed_category input))
    ∷ (
      "subject_is_governed_identifier",
      flag (is_governed_identifier (subject_governed_category input)),
    )
    ∷ ("threshold_subject_matches", flag (threshold_subject_matches input))
    ∷ []

-- The entries that the evidence of a block and of a release begin with.
pub exposure_evidence : PolicyInput → Dict String EvidenceValue
exposure_evidence input =
    let (context, semantic_mode) = semantic_projected_context input in
    ("projected_categories", categories (map (λ c. c.category) input.projected_context))
    ∷ ("semantic_projected_categories", categories (map (λ c. c.category) context))
    ∷ ("effective_projected_categories", categories (effective_categories input.projected_context))
    ∷ ("effective_semantic_projected_categories", categories (effective_categories context))
    ∷ ("semantic_exposure_mode", flag semantic_mode)
    ∷ ("projected_exposures", exposures input.query_plan.projected_exposures)
    ∷ ("referenced_categories", categories (map (λ c. c.category) input.all_referenced_context))
    ∷ (
      "effective_referenced_categories",
      categories (effective_categories input.all_referenced_context),
    )
    ∷ ("lineage_sources", lineage (lineage_evidence input.all_referenced_context))
    ∷ []

pub decision_evidence : PolicyInput → Dict String EvidenceValue
decision_evidence input =
    exposure_evidence input
    ++ ("unresolved_columns", texts (unresolved input))
      ∷ ("quasi_identifier_count", number (quasi_count input))
      ∷ []

abbrev decide_as :
    PolicyConfig → Decision → List ReasonCode → Dict String EvidenceValue → Bool → PolicyDecision
decide_as config decision reasons evidence required = record {
  decision = decision;
  reason_codes = reasons;
  policy_version = config.version;
  evidence = evidence;
  rewrite_required = required;
}

pub blocked : PolicyConfig → PolicyInput → PolicyDecision
blocked config input =
    decide_as config block (from_keys [] (block_reasons config input)) (decision_evidence input)
      false

pub untrusted_subject : PolicyConfig → PolicyInput → PolicyDecision
untrusted_subject config input =
    decide_as config block (untrusted_subject_key ∷ [])
      (("required_minimum_group_size", number config.minimum_group_size)
        ∷ ("required_subject_categories", categories subject_identifier_categories)
        ∷ (threshold_evidence input
            ++ ("lineage_sources", lineage (lineage_evidence input.all_referenced_context)) ∷ []))
      false

pub small_groups : PolicyConfig → PolicyInput → PolicyDecision
small_groups config input =
    decide_as config rewrite (small_group_risk ∷ [])
      (("required_minimum_group_size", number config.minimum_group_size)
        ∷ (threshold_evidence input
            ++ (("projected_exposures", exposures input.query_plan.projected_exposures)
                ∷ ("lineage_sources", lineage (lineage_evidence input.all_referenced_context))
                ∷ (
                  "effective_referenced_categories",
                  categories (effective_categories input.all_referenced_context),
                )
                ∷ [])))
      true

pub released : PolicyConfig → PolicyInput → PolicyDecision
released config input =
    decide_as config allow (no_compositional_risk ∷ [])
      (exposure_evidence input
        ++ (("trusted_minimum_group_size", optional_number (trusted_threshold input))
            ∷ (
              "trusted_threshold_subject",
              optional_text (
                  if threshold_subject_matches input
                  then key_of input.query_plan.minimum_group_size_subject
                  else none),
            )
            ∷ threshold_evidence input))
      false

pub evaluate : PolicyConfig → PolicyInput → PolicyDecision
evaluate config input =
    if not (is_empty (block_reasons config input))
    then blocked config input
    else if not (input.query_plan.is_grouped && sensitive_anywhere input)
    then released config input
    else if not (is_governed_identifier (subject_governed_category input))
    then untrusted_subject config input
    else if is_below (trusted_threshold input) config.minimum_group_size
    then small_groups config input
    else released config input
