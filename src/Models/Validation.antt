-- ===== src/Models/Validation.antt =====
-- The validators of src/toxicjoin/models.py: what a model's constructor checks before it returns.
use toxicjoin.Prelude.{
  Bool, true, false, not, ◌||◌, Option, none, some, List, ◌++◌, map, String, ◌==◌, String_eq,
  Bool_eq, flat_map, contains, all, is_distinct, is_empty, Result, ok, require, ◌>>◌,
}
use toxicjoin.Models.{
  Decision_eq, rewrite, ColumnContext, ColumnRef, key, unclassified, Category_eq, QueryPlan,
  PolicyDecision, ProjectionExposure,
}

pub data ValueError : Type 0 where
  unresolved_not_unclassified : ValueError
  duplicate_lineage_source : ValueError
  missing_referenced : ValueError
  missing_projected : ValueError
  threshold_without_subject : ValueError
  rewrite_not_required : ValueError
  required_not_rewrite : ValueError

unfoldable pub validate_governed_context : ColumnContext → Result ValueError ColumnContext
validate_governed_context c = do
  require (c.resolved || c.category == unclassified) unresolved_not_unclassified
  require (is_distinct (map (λ s. key s.ref) c.lineage_sources)) duplicate_lineage_source
  ok c

-- `keys.issubset(others)`
abbrev pub is_subset : List String → List String → Bool
is_subset keys others = all (λ k. contains k others) keys

abbrev pub keys : List ColumnRef → List String
keys = map key

abbrev pub exposure_sources : List ProjectionExposure → List String
exposure_sources es = flat_map (λ e. keys e.source_columns) es

abbrev pub is_some {ℓ} : {A : Type ℓ} → Option A → Bool
is_some none = false
is_some (some a) = true

unfoldable pub validate_query_plan_consistency : QueryPlan → Result ValueError QueryPlan
validate_query_plan_consistency p = do
  let referenced = keys p.referenced_columns
  let structural = keys p.projected_columns ++ (keys p.join_columns ++ keys p.group_by_columns)
  require (is_empty referenced || is_subset structural referenced) missing_referenced
  let projected = keys p.projected_columns
  require (is_empty projected || is_subset (exposure_sources p.projected_exposures) projected)
      missing_projected
  require (is_some p.minimum_group_size_present == is_some p.minimum_group_size_subject)
      threshold_without_subject
  ok p

unfoldable pub decision_and_rewrite_flag_match : PolicyDecision → Result ValueError PolicyDecision
decision_and_rewrite_flag_match d = do
  require (not (d.decision == rewrite) || d.rewrite_required) rewrite_not_required
  require (d.decision == rewrite || not d.rewrite_required) required_not_rewrite
  ok d
