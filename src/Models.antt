-- ===== src/Models.antt =====
-- src/toxicjoin/models.py: the governed metadata that the policy engine reads and the decision that
-- it returns. An enumeration of texts is a data type; a frozen model is a record.
pub mod Validation
use Prim.Native.String.{◌++◌}
use toxicjoin.Prelude.{
  ℕ, String, Bool, Option, List, [], ◌∷◌, Eq, eq_of, String-discrete, String_eq, Result,
}
use toxicjoin.Prelude.Dict.{Dict}

pub data Decision : Type 0 where
  allow rewrite block : Decision

unfoldable pub Decision-discrete : Discrete Decision
Decision-discrete = hlevel

instance abbrev pub Decision_eq : Eq Decision
Decision_eq = eq_of Decision-discrete

pub data SensitivityCategory : Type 0 where
  direct_identifier : SensitivityCategory
  stable_pseudonym : SensitivityCategory
  quasi_identifier : SensitivityCategory
  sensitive_attribute : SensitivityCategory
  public_or_low_risk : SensitivityCategory
  unclassified : SensitivityCategory

unfoldable pub Category-discrete : Discrete SensitivityCategory
Category-discrete = hlevel

instance abbrev pub Category_eq : Eq SensitivityCategory
Category_eq = eq_of Category-discrete

-- Who may be the privacy subject of a distinct-count threshold.
abbrev pub subject_identifier_categories : List SensitivityCategory
subject_identifier_categories = direct_identifier ∷ stable_pseudonym ∷ []

pub data ReasonCode : Type 0 where
  direct_sensitive_linkage : ReasonCode
  compositional_reidentification_risk : ReasonCode
  cumulative_disclosure_risk : ReasonCode
  disclosure_state_unavailable : ReasonCode
  small_group_risk : ReasonCode
  untrusted_subject_key : ReasonCode
  unresolved_dataset : ReasonCode
  unresolved_column : ReasonCode
  unclassified_column : ReasonCode
  unsupported_statement : ReasonCode
  multiple_statements : ReasonCode
  ambiguous_column : ReasonCode
  query_complexity_limit : ReasonCode
  result_size_limit : ReasonCode
  datahub_unavailable : ReasonCode
  datahub_context_stale : ReasonCode
  datahub_context_drift : ReasonCode
  rewrite_failed : ReasonCode
  verification_failed : ReasonCode
  no_compositional_risk : ReasonCode

unfoldable pub ReasonCode-discrete : Discrete ReasonCode
ReasonCode-discrete = hlevel

instance abbrev pub ReasonCode_eq : Eq ReasonCode
ReasonCode_eq = eq_of ReasonCode-discrete

pub record ColumnRef : Type 0 where
  pub dataset : String
  pub field_path : String
  pub alias : Option String

unfoldable pub ColumnRef-discrete : Discrete ColumnRef
ColumnRef-discrete = hlevel String-discrete

instance abbrev pub ColumnRef_eq : Eq ColumnRef
ColumnRef_eq = eq_of ColumnRef-discrete

-- f"{self.dataset}.{self.field_path}"
unfoldable pub key : ColumnRef → String
key r = r.dataset ++ "." ++ r.field_path

pub record LineageSource : Type 0 where
  pub ref : ColumnRef
  pub category : SensitivityCategory
  pub datahub_urn : Option String

pub data ProjectionExposureKind : Type 0 where
  raw_value : ProjectionExposureKind
  transformed_raw_value : ProjectionExposureKind
  group_key : ProjectionExposureKind
  aggregate_operand : ProjectionExposureKind
  aggregate_value : ProjectionExposureKind
  conditional_aggregate : ProjectionExposureKind
  filter_only : ProjectionExposureKind
  join_only : ProjectionExposureKind
  nested_scope : ProjectionExposureKind

unfoldable pub ProjectionExposureKind-discrete : Discrete ProjectionExposureKind
ProjectionExposureKind-discrete = hlevel

instance abbrev pub ProjectionExposureKind_eq : Eq ProjectionExposureKind
ProjectionExposureKind_eq = eq_of ProjectionExposureKind-discrete

pub record ProjectionExposure : Type 0 where
  pub output_name : String
  pub kind : ProjectionExposureKind
  pub source_columns : List ColumnRef

pub record ColumnContext : Type 0 where
  pub ref : ColumnRef
  pub category : SensitivityCategory
  pub datahub_urn : Option String
  pub tags : List String
  pub glossary_terms : List String
  pub lineage_sources : List LineageSource
  pub resolved : Bool

pub record QueryPlan : Type 0 where
  pub statement_type : String
  pub source_datasets : List String
  pub projected_columns : List ColumnRef
  pub projected_exposures : List ProjectionExposure
  pub referenced_columns : List ColumnRef
  pub join_columns : List ColumnRef
  pub group_by_columns : List ColumnRef
  pub aggregate_functions : List String
  pub minimum_group_size_present : Option ℕ
  pub minimum_group_size_subject : Option ColumnRef
  pub is_grouped : Bool
  pub contains_wildcard : Bool
  pub analysis_warnings : List String

pub record PolicyInput : Type 0 where
  pub task_purpose : String
  pub query_plan : QueryPlan
  pub projected_context : List ColumnContext
  pub all_referenced_context : List ColumnContext
  pub subject_key : Option ColumnRef
  pub minimum_group_size_present : Option ℕ
  pub upstream_failures : List ReasonCode

-- What an entry of the evidence dictionary holds.
pub data EvidenceValue : Type 0 where
  number : ℕ → EvidenceValue
  optional_number : Option ℕ → EvidenceValue
  flag : Bool → EvidenceValue
  text : String → EvidenceValue
  optional_text : Option String → EvidenceValue
  texts : List String → EvidenceValue
  categories : List SensitivityCategory → EvidenceValue
  optional_category : Option SensitivityCategory → EvidenceValue
  exposures : List ProjectionExposure → EvidenceValue
  lineage : Dict String (List LineageSource) → EvidenceValue

pub record PolicyDecision : Type 0 where
  pub decision : Decision
  pub reason_codes : List ReasonCode
  pub policy_version : String
  pub evidence : Dict String EvidenceValue
  pub rewrite_required : Bool
