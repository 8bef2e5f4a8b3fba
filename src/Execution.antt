-- ===== src/Execution.antt =====
-- src/toxicjoin/execute/authorization.py: the capability for one exact execution, its error codes and
-- the text that its context is hashed from.
pub mod Digest
pub mod Authorizer
use toxicjoin.Prelude.{ℕ, String, Bool, Option, Result}
use toxicjoin.Prelude.Dict.{Dict}
use toxicjoin.Models.{ColumnRef, QueryPlan}
use toxicjoin.Auth.{RequestIdentity}
use toxicjoin.Context.{GovernanceContextBinding, ContextResolver}
use toxicjoin.Disclosure.{DisclosureCommitment}
use toxicjoin.Disclosure.Ledger.{Database}

-- The codes of `ExecutionAuthorizationError`; the last is the failure of an `assert`.
pub data ExecutionAuthorizationError : Type 0 where
  unsupported_dialect privacy_proof_binding_required : ExecutionAuthorizationError
  invalid_task_purpose sql_analysis_failed policy_not_allow : ExecutionAuthorizationError
  context_stale context_drift context_resolution_failed : ExecutionAuthorizationError
  disclosure_commitment_required disclosure_ledger_unavailable : ExecutionAuthorizationError
  disclosure_identity_required disclosure_commitment_invalid : ExecutionAuthorizationError
  disclosure_commitment_replayed invalid_mac not_yet_valid : ExecutionAuthorizationError
  expired invalid_ttl dialect_mismatch subject_mismatch : ExecutionAuthorizationError
  identity_mismatch rewrite_parent_mismatch task_mismatch : ExecutionAuthorizationError
  sql_mismatch query_plan_mismatch context_mismatch : ExecutionAuthorizationError
  policy_mismatch decision_mismatch authorization_replayed : ExecutionAuthorizationError
  assertion_failed : ExecutionAuthorizationError

-- A capability without its code of authentication, which is what `_mac` reads.
pub record Unsigned : Type 0 where
  pub authorization_id : String
  pub issued_at : ℕ
  pub expires_at : ℕ
  pub dialect : String
  pub sql_sha256 : String
  pub query_plan_sha256 : String
  pub context_sha256 : String
  pub governance_binding : Option GovernanceContextBinding
  pub policy_sha256 : String
  pub policy_decision_sha256 : String
  pub task_purpose_sha256 : String
  pub request_identity_sha256 : Option String
  pub subject_key : ColumnRef
  pub rewrite_parent_sha256 : Option String
  pub disclosure_commitment : Option DisclosureCommitment

pub record ExecutionAuthorization : Type 0 where
  pub unsigned : Unsigned
  pub open unsigned use *
  pub mac_sha256 : String

-- The arguments that `issue` and `verify_and_consume` share; of the proof, whether there is one.
pub record Request : Type 0 where
  pub sql : String
  pub task_purpose : String
  pub subject_key : ColumnRef
  pub has_privacy_proof : Bool
  pub dialect : String
  pub rewrite_parent_sql : Option String

-- What one call observes: the clock, the identity of the request, the provider of the context, and
-- the identifier that `secrets` gives.
pub record Moment : Type 0 where
  pub now : ℕ
  pub identity : Option RequestIdentity
  pub resolver : ContextResolver
  pub fresh_id : String

-- The state that the calls share: the ledger's database, where there is one, and `_consumed_ids`.
pub record State : Type 0 where
  pub ledger : Option Database
  pub consumed : Dict String ℕ
