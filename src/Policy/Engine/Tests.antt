-- ===== src/Policy/Engine/Tests.antt =====
-- Runs of the policy engine, and the theorems at concrete queries.
use toxicjoin.Prelude.{
  ◌≡◌, ◌∙◌, ◌↔◌, refl, arith, String, String-discrete, pair_discrete, true, false, none, some, [],
  ◌∷◌, from_keys, contains,
}
use toxicjoin.Models.{
  allow, rewrite, block, SensitivityCategory, stable_pseudonym, sensitive_attribute, ReasonCode,
  ReasonCode_eq, key, Category-discrete, ReasonCode-discrete, Decision-discrete,
  ProjectionExposureKind-discrete, query_complexity_limit, unclassified_column, unclassified,
  ColumnRef, ColumnContext, QueryPlan, PolicyInput,
}
use mathlib.Core.Bool.{decide}
use toxicjoin.Policy.{
  PolicyConfig, unresolved, is_unresolved, semantic_projected_context,
  has_protected_conditional_aggregate, subject_governed_category, governed_category,
  effective_categories, effective_category_entries, column_entries, category_count, exposed_keys,
  by_key_from,
}
use toxicjoin.Policy.Categories.{any_shows}
use toxicjoin.Policy.Engine.{
  evaluate, block_reasons, blocked, untrusted_subject, small_groups, released, trusted_threshold,
  threshold_subject_matches, sensitive_anywhere, has_direct_linkage, has_composition_risk,
  risk_categories, quasi_count,
}
use toxicjoin.Policy.Engine.Outcome.{
  decision_lem, sensitive_anywhere_lem, IsReleasable, evaluate-allow_iff,
}
use toxicjoin.Policy.Engine.Reasons.{
  IsConsistent, evaluate_upstream, evaluate-IsConsistent, evaluate-allow_unflagged,
}
use toxicjoin.Policy.Engine.Repair.{with_threshold, evaluate-with_threshold}

program : Unit {0}
unfolding evaluate block_reasons blocked untrusted_subject small_groups released trusted_threshold
    threshold_subject_matches sensitive_anywhere has_direct_linkage has_composition_risk
    risk_categories quasi_count unresolved is_unresolved semantic_projected_context
    has_protected_conditional_aggregate subject_governed_category governed_category
    effective_categories effective_category_entries column_entries category_count exposed_keys
    by_key_from any_shows key from_keys pair_discrete decide Category-discrete ReasonCode-discrete
    Decision-discrete ProjectionExposureKind-discrete String-discrete
program = tt

abbrev pub config : PolicyConfig
config = record {
  version = "1.0.0";
  minimum_group_size = 5;
  quasi_identifier_threshold = 2;
  fail_closed = true;
  categories = [];
}

abbrev column : String → ColumnRef
column name = record { dataset = "claims"; field_path = name; alias = none }

abbrev governed : String → SensitivityCategory → ColumnContext
governed name category = record {
  ref = column name;
  category = category;
  datahub_urn = none;
  tags = [];
  glossary_terms = [];
  lineage_sources = [];
  resolved = true;
}

-- SELECT diagnosis, COUNT(DISTINCT member) FROM claims GROUP BY diagnosis
abbrev plan : QueryPlan
plan = record {
  statement_type = "SELECT";
  source_datasets = "claims" ∷ [];
  projected_columns = column "diagnosis" ∷ [];
  projected_exposures = [];
  referenced_columns = column "diagnosis" ∷ column "member" ∷ [];
  join_columns = [];
  group_by_columns = column "diagnosis" ∷ [];
  aggregate_functions = "count" ∷ [];
  minimum_group_size_present = none;
  minimum_group_size_subject = none;
  is_grouped = true;
  contains_wildcard = false;
  analysis_warnings = [];
}

abbrev query : PolicyInput
query = record {
  task_purpose = "counts by diagnosis";
  query_plan = plan;
  projected_context = governed "diagnosis" sensitive_attribute ∷ [];
  all_referenced_context =
      governed "diagnosis" sensitive_attribute ∷ governed "member" stable_pseudonym ∷ [];
  subject_key = some (column "member");
  minimum_group_size_present = none;
  upstream_failures = [];
}

abbrev failed : PolicyInput
failed = record query { upstream_failures = query_complexity_limit ∷ [] }

abbrev unknown : PolicyInput
unknown = record query { all_referenced_context = governed "diagnosis" unclassified ∷ [] }

evaluate-allow_example :
    ((evaluate config (with_threshold 5 query)).decision ≡ allow)
    ↔ IsReleasable config (with_threshold 5 query)
evaluate-allow_example = evaluate-allow_iff config (with_threshold 5 query)

query-rewrite : (evaluate config query).decision ≡ rewrite
unfolding program
query-rewrite = decision_lem config query ∙ rw sensitive_anywhere_lem refl

evaluate-with_threshold_example : (evaluate config (with_threshold 7 query)).decision ≡ allow
evaluate-with_threshold_example = evaluate-with_threshold config 7 query query-rewrite (omega arith)

abbrev pub repaired : PolicyInput
repaired = with_threshold 7 query

pub repaired_allowed :
    ((evaluate config repaired).decision ≡ allow)
    × ((evaluate config repaired).rewrite_required ≡ false)
repaired_allowed =
    let allowed = evaluate-with_threshold config 7 query query-rewrite (omega arith) in
    (allowed, evaluate-allow_unflagged config (with_threshold 7 query) allowed)

evaluate_upstream_example :
    ((evaluate config failed).decision ≡ block)
    × (contains query_complexity_limit (evaluate config failed).reason_codes ≡ true)
unfolding mathlib.Core.Bool.decide toxicjoin.Models.ReasonCode-discrete
evaluate_upstream_example = evaluate_upstream config failed query_complexity_limit refl

evaluate-IsConsistent_example : IsConsistent config (evaluate config query)
evaluate-IsConsistent_example = evaluate-IsConsistent config query
