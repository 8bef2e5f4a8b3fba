-- ===== src/Execution/Digest.antt =====
-- The hashed payloads of src/toxicjoin/execute/authorization.py. The JSON text of a payload and
-- its SHA-256 are parameters.
use Prim.Native.String.{compare}
use text.Mathlib.Text.{is_le}
use toxicjoin.Prelude.{String, Bool, Option, none, some, List, [], ◌∷◌, map, sorted, if◌then◌else◌}
use toxicjoin.Models.{
  SensitivityCategory, direct_identifier, stable_pseudonym, quasi_identifier, sensitive_attribute,
  public_or_low_risk, unclassified, ReasonCode, direct_sensitive_linkage,
  compositional_reidentification_risk, cumulative_disclosure_risk, disclosure_state_unavailable,
  small_group_risk, untrusted_subject_key, unresolved_dataset, unresolved_column,
  unclassified_column, unsupported_statement, multiple_statements, ambiguous_column,
  query_complexity_limit, result_size_limit, datahub_unavailable, datahub_context_stale,
  datahub_context_drift, rewrite_failed, verification_failed, no_compositional_risk, key,
  ColumnContext, QueryPlan, PolicyDecision,
}
use toxicjoin.Policy.{PolicyConfig}
use toxicjoin.Auth.{RequestIdentity}
use toxicjoin.Context.{ContextResolution}

-- `SensitivityCategory.value`
pub category_value : SensitivityCategory → String
category_value direct_identifier = "DIRECT_IDENTIFIER"
category_value stable_pseudonym = "STABLE_PSEUDONYM"
category_value quasi_identifier = "QUASI_IDENTIFIER"
category_value sensitive_attribute = "SENSITIVE_ATTRIBUTE"
category_value public_or_low_risk = "PUBLIC_OR_LOW_RISK"
category_value unclassified = "UNCLASSIFIED"

-- `ReasonCode.value`
pub reason_value : ReasonCode → String
reason_value direct_sensitive_linkage = "DIRECT_SENSITIVE_LINKAGE"
reason_value compositional_reidentification_risk = "COMPOSITIONAL_REIDENTIFICATION_RISK"
reason_value cumulative_disclosure_risk = "CUMULATIVE_DISCLOSURE_RISK"
reason_value disclosure_state_unavailable = "DISCLOSURE_STATE_UNAVAILABLE"
reason_value small_group_risk = "SMALL_GROUP_RISK"
reason_value untrusted_subject_key = "UNTRUSTED_SUBJECT_KEY"
reason_value unresolved_dataset = "UNRESOLVED_DATASET"
reason_value unresolved_column = "UNRESOLVED_COLUMN"
reason_value unclassified_column = "UNCLASSIFIED_COLUMN"
reason_value unsupported_statement = "UNSUPPORTED_STATEMENT"
reason_value multiple_statements = "MULTIPLE_STATEMENTS"
reason_value ambiguous_column = "AMBIGUOUS_COLUMN"
reason_value query_complexity_limit = "QUERY_COMPLEXITY_LIMIT"
reason_value result_size_limit = "RESULT_SIZE_LIMIT"
reason_value datahub_unavailable = "DATAHUB_UNAVAILABLE"
reason_value datahub_context_stale = "DATAHUB_CONTEXT_STALE"
reason_value datahub_context_drift = "DATAHUB_CONTEXT_DRIFT"
reason_value rewrite_failed = "REWRITE_FAILED"
reason_value verification_failed = "VERIFICATION_FAILED"
reason_value no_compositional_risk = "NO_COMPOSITIONAL_RISK"

pub record ContextEntry : Type 0 where
  pub key : String
  pub category : String
  pub datahub_urn : Option String
  pub tags : List String
  pub glossary_terms : List String
  pub resolved : Bool

pub record NormalizedContext : Type 0 where
  pub all_referenced_context : List ContextEntry
  pub projected_context_keys : List String
  pub failures : List String

abbrev entry_of : ColumnContext → ContextEntry
entry_of c = record {
  key = key c.ref;
  category = category_value c.category;
  datahub_urn = c.datahub_urn;
  tags = sorted c.tags;
  glossary_terms = sorted c.glossary_terms;
  resolved = c.resolved;
}

-- `sorted` by the key of an entry, which keeps the order of entries with the same key.
abbrev insert_entry : ContextEntry → List ContextEntry → List ContextEntry
insert_entry e [] = e ∷ []
insert_entry e (f ∷ fs) = if is_le (compare e.key f.key) then e ∷ f ∷ fs else f ∷ insert_entry e fs

abbrev sorted_entries : List ContextEntry → List ContextEntry
sorted_entries [] = []
sorted_entries (e ∷ es) = insert_entry e (sorted_entries es)

-- `_normalized_context`
pub normalized_context : ContextResolution → NormalizedContext
normalized_context r = record {
  all_referenced_context = sorted_entries (map entry_of r.all_referenced_context);
  projected_context_keys = sorted (map (λ c. key c.ref) r.projected_context);
  failures = sorted (map reason_value r.failures);
}

-- The hash of each kind of payload.
pub record Hashes : Type 0 where
  pub text : String → String
  pub query_plan : QueryPlan → String
  pub context : NormalizedContext → String
  pub policy : PolicyConfig → String
  pub decision : PolicyDecision → String
  pub identity : RequestIdentity → String

pub hash_context : Hashes → ContextResolution → String
hash_context h r = h.context (normalized_context r)

-- `_hash_identity`
pub hash_identity : Hashes → Option RequestIdentity → Option String
hash_identity h none = none
hash_identity h (some i) = some (h.identity i)

-- The hash of the parent that a query was rewritten from, where there is one.
pub hash_parent : Hashes → Option String → Option String
hash_parent h none = none
hash_parent h (some sql) = some (h.text sql)
