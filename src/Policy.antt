-- ===== src/Policy.antt =====
-- src/toxicjoin/policy/engine.py: what the engine computes from the governed context of a query.
mod Categories
mod Conditional
pub mod Engine
use toxicjoin.Prelude.{
  ℕ, ◌+◌, String, Bool, true, false, not, ◌&&◌, ◌||◌, Option, none, some, List, [], ◌∷◌, ◌++◌, map,
  Eq, eq_of, pair_discrete, String-discrete, String_eq, ◌==◌, is_empty, any, count_if, filter,
  filter_map, flat_map, contains, from_keys, sorted, if◌then◌else◌,
}
use toxicjoin.Prelude.Dict
use toxicjoin.Prelude.Dict.{Dict}
use toxicjoin.Models.{
  SensitivityCategory, direct_identifier, stable_pseudonym, quasi_identifier, sensitive_attribute,
  unclassified, Category-discrete, Category_eq, ColumnRef, key, LineageSource, ProjectionExposure,
  ProjectionExposureKind_eq, ColumnContext, PolicyInput, raw_value, transformed_raw_value,
  group_key, aggregate_operand, conditional_aggregate, nested_scope,
}

pub record PolicyConfig : Type 0 where
  pub version : String
  pub minimum_group_size : ℕ
  pub quasi_identifier_threshold : ℕ
  pub fail_closed : Bool
  pub categories : List SensitivityCategory

-- A category of a governed column, the dictionary key of `_effective_category_entries`.
abbrev pub Entry : Type 0
Entry = String × SensitivityCategory

instance abbrev pub Entry_eq : Eq Entry
Entry_eq = eq_of (pair_discrete String-discrete Category-discrete)

-- The column's own category, then those of the sources that it was materialised from.
pub column_entries : ColumnContext → List Entry
column_entries c = (key c.ref, c.category) ∷ map (λ s. (key s.ref, s.category)) c.lineage_sources

pub effective_category_entries : List ColumnContext → List Entry
effective_category_entries columns = from_keys [] (flat_map column_entries columns)

pub effective_categories : List ColumnContext → List SensitivityCategory
effective_categories columns = map (λ e. e.1) (effective_category_entries columns)

pub category_count : List ColumnContext → SensitivityCategory → ℕ
category_count columns category =
    count_if (λ e. e.1 == category) (effective_category_entries columns)

-- {column.ref.key: column for column in columns}: the last column of a key stays.
pub by_key_from : Dict String ColumnContext → List ColumnContext → Dict String ColumnContext
by_key_from d [] = d
by_key_from d (c ∷ cs) = by_key_from (Dict.put (key c.ref) c d) cs

abbrev pub by_key : List ColumnContext → Dict String ColumnContext
by_key = by_key_from []

-- A column that governance has not resolved and classified, its sources included.
pub is_unresolved : ColumnContext → Bool
is_unresolved c =
    not c.resolved
    || c.category == unclassified
    || any (λ s. s.category == unclassified) c.lineage_sources

pub unresolved : PolicyInput → List String
unresolved input = map (λ c. key c.ref) (filter is_unresolved input.all_referenced_context)

abbrev pub exposes_value : ProjectionExposure → Bool
exposes_value e = contains e.kind (
    raw_value ∷ transformed_raw_value ∷ group_key ∷ aggregate_operand ∷ conditional_aggregate
    ∷ nested_scope ∷ [])

pub exposed_keys : List ProjectionExposure → List String
exposed_keys exposures =
    from_keys [] (flat_map (λ e. map key e.source_columns) (filter exposes_value exposures))

-- The columns whose values the output shows, and whether the plan says so at all.
pub semantic_projected_context : PolicyInput → List ColumnContext × Bool
semantic_projected_context input =
    if is_empty input.query_plan.projected_exposures then (input.projected_context, false) else (
      filter_map (λ k. Dict.get k (by_key input.projected_context))
          (sorted (exposed_keys input.query_plan.projected_exposures)),
      true,
    )

abbrev pub protected_categories : List SensitivityCategory
protected_categories =
    direct_identifier ∷ stable_pseudonym ∷ quasi_identifier ∷ sensitive_attribute ∷ unclassified
    ∷ []

-- An operand of a conditional aggregate that is not known to be low risk.
pub is_protected_source : Option ColumnContext → Bool
is_protected_source none = true
is_protected_source (some c) =
    not c.resolved
    || contains c.category protected_categories
    || any (λ s. contains s.category protected_categories) c.lineage_sources

pub has_protected_conditional_aggregate : PolicyInput → Bool
has_protected_conditional_aggregate input =
    let columns = by_key input.projected_context in
    any
      (λ e.
        e.kind == conditional_aggregate
        && any (λ r. is_protected_source (Dict.get (key r) columns)) e.source_columns)
      input.query_plan.projected_exposures

-- The category of the first referenced column with the subject's key, if it is resolved.
pub governed_category : String → List ColumnContext → Option SensitivityCategory
governed_category k [] = none
governed_category k (c ∷ cs) =
    if key c.ref == k
    then (if c.resolved then some c.category else none)
    else governed_category k cs

pub subject_governed_category : PolicyInput → Option SensitivityCategory
subject_governed_category input = elim input.subject_key [
  | none ↦ none
  | some subject ↦ governed_category (key subject) input.all_referenced_context
]

pub lineage_from :
    Dict String (List LineageSource) → List ColumnContext → Dict String (List LineageSource)
lineage_from d [] = d
lineage_from d (c ∷ cs) = lineage_from (Dict.put (key c.ref) c.lineage_sources d) cs

pub lineage_evidence : List ColumnContext → Dict String (List LineageSource)
lineage_evidence columns = lineage_from [] (filter (λ c. not (is_empty c.lineage_sources)) columns)
