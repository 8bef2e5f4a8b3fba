-- ===== src/Disclosure.antt =====
-- src/toxicjoin/disclosure/models.py: the governed payload that the ledger keeps. A time is a number
-- of clock ticks.
pub mod Composition
pub mod Ledger
use native.Mathlib.Decide.{ℕ_discrete}
use Prim.Native.String.{◌++◌}
use toxicjoin.Prelude.{ℕ, String, Bool, Option, List, Eq, eq_of, String-discrete}
use toxicjoin.Models.{
  SensitivityCategory, Category-discrete, ProjectionExposureKind, ProjectionExposureKind-discrete,
}

pub data CompositionRule : Type 0 where
  unprotected_release : CompositionRule
  first_protected_release : CompositionRule
  protected_release_within_budget : CompositionRule
  repeat_identical_release : CompositionRule
  repeat_protected_release_block : CompositionRule
  idempotent_replay : CompositionRule
  cumulative_variation_block : CompositionRule
  cumulative_budget_exhausted : CompositionRule
  legacy_history_block : CompositionRule

-- The window is in ticks.
pub record DisclosureBudget : Type 0 where
  pub max_protected_releases : ℕ
  pub window : ℕ

pub record GovernedColumn : Type 0 where
  pub dataset_urn : String
  pub field_path : String
  pub category : SensitivityCategory

-- f"{self.dataset_urn}#{self.field_path}"
unfoldable pub column_key_of : GovernedColumn → String
column_key_of c = c.dataset_urn ++ "#" ++ c.field_path

pub record GovernedSubjectDomain : Type 0 where
  pub field_path : String
  pub category : SensitivityCategory
  pub dataset_urns : List String
  pub governance_domains : List String
  pub namespace_sha256 : String

pub record DisclosureScope : Type 0 where
  pub principal_id : String
  pub agent_id : Option String
  pub subject : GovernedSubjectDomain
  pub scope_sha256 : String

pub record DisclosureAuditIdentity : Type 0 where
  pub credential_id : String

pub record SemanticOutput : Type 0 where
  pub kind : ProjectionExposureKind
  pub sources : List GovernedColumn

pub record DisclosureSemanticRelease : Type 0 where
  pub source_dataset_urns : List String
  pub outputs : List SemanticOutput
  pub referenced_columns : List GovernedColumn
  pub join_columns : List GovernedColumn
  pub group_keys : List GovernedColumn
  pub aggregate_functions : List String
  pub minimum_group_size_present : Option ℕ
  pub semantic_sha256 : String

pub record DisclosureComposition : Type 0 where
  pub protected_release : Bool
  pub release_family_sha256 : String
  pub cohort_hmac_sha256 : String

pub record DisclosureEvent : Type 0 where
  pub scope : DisclosureScope
  pub audit_identity : DisclosureAuditIdentity
  pub receipt_id : String
  pub policy_version : String
  pub semantic : DisclosureSemanticRelease
  pub composition : Option DisclosureComposition

unfoldable pub DisclosureEvent-discrete : Discrete DisclosureEvent
DisclosureEvent-discrete =
    hlevel (String-discrete, ℕ_discrete, Category-discrete, ProjectionExposureKind-discrete)

instance abbrev pub DisclosureEvent_eq : Eq DisclosureEvent
DisclosureEvent_eq = eq_of DisclosureEvent-discrete

-- A record without its own hash, which is what `compute_record_sha256` reads.
pub record Provisional : Type 0 where
  pub schema_version : String
  pub record_id : String
  pub sequence : ℕ
  pub created_at : ℕ
  pub event : DisclosureEvent
  pub event_sha256 : String
  pub previous_content_sha256 : Option String

pub record DisclosureRecord : Type 0 where
  pub base : Provisional
  pub open base use *
  pub content_sha256 : String

unfoldable pub DisclosureRecord-discrete : Discrete DisclosureRecord
DisclosureRecord-discrete = hlevel (String-discrete, ℕ_discrete, DisclosureEvent-discrete)

instance abbrev pub DisclosureRecord_eq : Eq DisclosureRecord
DisclosureRecord_eq = eq_of DisclosureRecord-discrete

pub record DisclosureCommitment : Type 0 where
  pub record_id : String
  pub receipt_id : String
  pub scope_sha256 : String
  pub event_sha256 : String
  pub content_sha256 : String

unfoldable pub DisclosureCommitment-discrete : Discrete DisclosureCommitment
DisclosureCommitment-discrete = hlevel String-discrete

instance abbrev pub DisclosureCommitment_eq : Eq DisclosureCommitment
DisclosureCommitment_eq = eq_of DisclosureCommitment-discrete

pub record DisclosureCompositionEvaluation : Type 0 where
  pub allowed : Bool
  pub rule : CompositionRule
  pub protected_release : Bool
  pub prior_protected_count : ℕ

pub record DisclosureCompositionDecision : Type 0 where
  pub allowed : Bool
  pub rule : CompositionRule
  pub protected_release : Bool
  pub prior_protected_count : ℕ
  pub commitment : Option DisclosureCommitment

-- What the ledger takes from outside the program: the hashes, the keyed hash, the SQL canonicaliser
-- (`none` where it raises) and `str.casefold`.
pub record Externals : Type 0 where
  pub event_sha256 : DisclosureEvent → String
  pub record_sha256 : Provisional → String
  pub cohort_hmac : String → String
  pub canonicalize_cohort_sql : String → Option String
  pub casefold : String → String
