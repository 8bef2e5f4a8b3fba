-- ===== src/Execution/Authorizer.antt =====
-- `ExecutionAuthorizer` in src/toxicjoin/execute/authorization.py: `issue` and `verify_and_consume`,
-- with the state that they share passed on. An error of `verify_and_consume` still keeps what it has
-- done to the consumed identifiers.
pub mod Steps
pub mod Sound
mod Tests
pub mod RoundTrip
pub mod Issued
pub mod SingleUse
pub mod OneCapability
use Prim.Native.Nat.{◌+◌}
use toxicjoin.Prelude.{
  ℕ, String, String_eq, Bool, true, false, not, ◌&&◌, Option, none, some, List, [], ◌∷◌, ◌==◌, ltb,
  filter, Result, ok, raise, require, require_all, ◌>>=◌, ◌>>◌, if◌then◌else◌,
}
use toxicjoin.Prelude.Dict
use toxicjoin.Prelude.Dict.{Dict}
use toxicjoin.Models.{allow, Decision_eq, ColumnRef, ColumnRef_eq, QueryPlan, PolicyDecision}
use toxicjoin.Policy.{PolicyConfig}
use toxicjoin.Policy.Engine.{evaluate}
use toxicjoin.Auth.{RequestIdentity}
use toxicjoin.Context.{
  ContextResolution, to_policy_input, GovernanceContextError, stale, drift, other,
  GovernanceContextBinding, ContextResolver, resolve_with_governance_binding,
  current_governance_binding, require_same_governance_binding,
}
use toxicjoin.Disclosure.{DisclosureEvent, DisclosureCommitment, Externals}
use toxicjoin.Disclosure.Ledger.{LedgerError, replayed, Database, OptionString_eq}
use toxicjoin.Disclosure.Ledger.Operations.{
  verify_commitment, claim_commitment, verify_authorization_claim,
}
use toxicjoin.Execution.{
  ExecutionAuthorizationError, unsupported_dialect, privacy_proof_binding_required,
  invalid_task_purpose, sql_analysis_failed, policy_not_allow, context_stale, context_drift,
  context_resolution_failed, disclosure_commitment_required, disclosure_ledger_unavailable,
  disclosure_identity_required, disclosure_commitment_invalid, disclosure_commitment_replayed,
  invalid_mac, not_yet_valid, expired, invalid_ttl, dialect_mismatch, subject_mismatch,
  identity_mismatch, rewrite_parent_mismatch, task_mismatch, sql_mismatch, query_plan_mismatch,
  context_mismatch, policy_mismatch, decision_mismatch, authorization_replayed, assertion_failed,
  Unsigned, ExecutionAuthorization, Request, Moment, State,
}
use toxicjoin.Execution.Digest.{Hashes, hash_context, hash_identity, hash_parent}

-- What the constructor keeps, and what the authority takes from elsewhere: `analyze_sql` (`none`
-- where it raises), `build_disclosure_event_from_resolver` (`none` where it raises), `str.strip`, the
-- keyed hash, and one second and a nanosecond in ticks.
pub record Authority : Type 0 where
  pub config : PolicyConfig
  pub require_disclosure_commitment : Bool
  pub ttl : ℕ
  pub skew : ℕ
  pub tolerance : ℕ
  pub hashes : Hashes
  pub mac : Unsigned → String
  pub disclosure : Externals
  pub strip : String → String
  pub analyze_sql : String → String → Option QueryPlan
  pub build_event :
      RequestIdentity
      → ContextResolver
      → ContextResolution
      → QueryPlan
      → ColumnRef
      → String
      → String
      → Option DisclosureEvent

-- The exceptions of the ledger under `except (DisclosureLedgerError, ..., ValueError)`.
abbrev pub as_invalid {ℓ} :
    {A : Type ℓ} → Result LedgerError A → Result ExecutionAuthorizationError A
as_invalid (ok a) = ok a
as_invalid (raise e) = raise disclosure_commitment_invalid

-- `DisclosureCommitmentReplay` is told apart first.
abbrev pub as_replayed {ℓ} :
    {A : Type ℓ} → Result LedgerError A → Result ExecutionAuthorizationError A
as_replayed (ok a) = ok a
as_replayed (raise replayed) = raise disclosure_commitment_replayed
as_replayed (raise e) = raise disclosure_commitment_invalid

-- The exceptions of a resolver.
abbrev pub as_context_error {ℓ} :
    {A : Type ℓ} → Result GovernanceContextError A → Result ExecutionAuthorizationError A
as_context_error (ok a) = ok a
as_context_error (raise stale) = raise context_stale
as_context_error (raise drift) = raise context_drift
as_context_error (raise other) = raise context_resolution_failed

abbrev pub some_or {ℓ} :
    {A : Type ℓ} → ExecutionAuthorizationError → Option A → Result ExecutionAuthorizationError A
some_or error none = raise error
some_or error (some a) = ok a

-- `_revalidate_governance_binding`
pub revalidate_governance_binding :
    Moment → Option GovernanceContextBinding → Result ExecutionAuthorizationError (Unit {0})
revalidate_governance_binding m expected = as_context_error (do
  actual ← current_governance_binding m.resolver
  require_same_governance_binding expected actual)

-- `decision.decision != Decision.ALLOW or decision.rewrite_required`, negated
abbrev pub is_allowed : PolicyDecision → Bool
is_allowed d = d.decision == allow && not d.rewrite_required

module _ (a : Authority) where
  -- `_evaluate`
  pub evaluate_request : Request → QueryPlan → ContextResolution → PolicyDecision
  evaluate_request req plan resolution =
      evaluate a.config (to_policy_input resolution req.task_purpose plan req.subject_key)

  -- `_resolve_with_binding`, and `_require_expected_governance_binding` of what it found
  pub resolve_expected :
      Moment
      → QueryPlan
      → Option GovernanceContextBinding
      → Result ExecutionAuthorizationError (ContextResolution × Option GovernanceContextBinding)
  resolve_expected m plan expected = do
    (resolution, actual) ← as_context_error (resolve_with_governance_binding m.resolver plan)
    as_context_error (require_same_governance_binding expected actual)
    ok (resolution, actual)

  -- The event of a request, for the receipt of its commitment.
  abbrev pub event_for :
      Moment
      → RequestIdentity
      → Request
      → QueryPlan
      → ContextResolution
      → DisclosureCommitment
      → Option DisclosureEvent
  event_for m identity req plan resolution commitment =
      a.build_event identity m.resolver resolution plan req.subject_key commitment.receipt_id
        (evaluate_request req plan resolution).policy_version

  -- `_verify_disclosure_commitment`
  pub verify_disclosure_commitment :
      Moment
      → Option Database
      → Request
      → QueryPlan
      → ContextResolution
      → Option DisclosureCommitment
      → Result ExecutionAuthorizationError (Unit {0})
  verify_disclosure_commitment m ledger req plan resolution none =
      require (not a.require_disclosure_commitment) disclosure_commitment_required
  verify_disclosure_commitment m ledger req plan resolution (some commitment) = do
    db ← some_or disclosure_ledger_unavailable ledger
    identity ← some_or disclosure_identity_required m.identity
    event ←
        some_or disclosure_commitment_invalid (event_for m identity req plan resolution commitment)
    _ ← as_invalid (verify_commitment a.disclosure db commitment event req.sql)
    ok tt

  -- The capability for a request, as `issue` fills it in.
  pub unsigned_for :
      Moment
      → Request
      → Option DisclosureCommitment
      → QueryPlan
      → ContextResolution
      → Option GovernanceContextBinding
      → Unsigned
  unsigned_for m req commitment plan resolution binding = record {
    authorization_id = m.fresh_id;
    issued_at = m.now;
    expires_at = m.now + a.ttl;
    dialect = req.dialect;
    sql_sha256 = a.hashes.text req.sql;
    query_plan_sha256 = a.hashes.query_plan plan;
    context_sha256 = hash_context a.hashes resolution;
    governance_binding = binding;
    policy_sha256 = a.hashes.policy a.config;
    policy_decision_sha256 = a.hashes.decision (evaluate_request req plan resolution);
    task_purpose_sha256 = a.hashes.text req.task_purpose;
    request_identity_sha256 = hash_identity a.hashes m.identity;
    subject_key = req.subject_key;
    rewrite_parent_sha256 = hash_parent a.hashes req.rewrite_parent_sql;
    disclosure_commitment = commitment;
  }

  abbrev pub sign : Unsigned → ExecutionAuthorization
  sign u = record { unsigned = u; mac_sha256 = a.mac u }

  -- The claim of `issue`: a commitment is claimed for the new identifier.
  pub claim_for :
      Moment
      → Option Database
      → Option DisclosureCommitment
      → Result ExecutionAuthorizationError (Option Database)
  claim_for m ledger none = ok ledger
  claim_for m ledger (some commitment) = do
    db ← some_or assertion_failed ledger
    db' ← as_replayed (claim_commitment a.disclosure db commitment m.fresh_id)
    ok (some db')

  -- `issue`
  pub issue :
      Moment
      → State
      → Request
      → Option DisclosureCommitment
      → Option GovernanceContextBinding
      → Result ExecutionAuthorizationError (ExecutionAuthorization × State)
  issue m st req commitment expected = do
    require_all (
        (req.dialect == "duckdb", unsupported_dialect)
        ∷ (not req.has_privacy_proof, privacy_proof_binding_required)
        ∷ (not (a.strip req.task_purpose == ""), invalid_task_purpose)
        ∷ [])
    plan ← some_or sql_analysis_failed (a.analyze_sql req.sql req.dialect)
    (resolution, binding) ← resolve_expected m plan expected
    require (is_allowed (evaluate_request req plan resolution)) policy_not_allow
    verify_disclosure_commitment m st.ledger req plan resolution commitment
    revalidate_governance_binding m binding
    ledger ← claim_for m st.ledger commitment
    ok (sign (unsigned_for m req commitment plan resolution binding), record st { ledger = ledger })

  -- The guards of `verify_and_consume` before the analysis, in order.
  abbrev pub presented_checks :
      Moment → ExecutionAuthorization → Request → List (Bool × ExecutionAuthorizationError)
  presented_checks m auth req =
      (req.dialect == "duckdb", unsupported_dialect)
      ∷ (not req.has_privacy_proof, privacy_proof_binding_required)
      ∷ (a.mac auth.unsigned == auth.mac_sha256, invalid_mac)
      ∷ (not (ltb (m.now + a.skew) auth.issued_at), not_yet_valid)
      ∷ (ltb m.now auth.expires_at, expired)
      ∷ (not (ltb (auth.issued_at + a.ttl + a.tolerance) auth.expires_at), invalid_ttl)
      ∷ (auth.dialect == req.dialect, dialect_mismatch)
      ∷ (auth.subject_key == req.subject_key, subject_mismatch)
      ∷ (auth.request_identity_sha256 == hash_identity a.hashes m.identity, identity_mismatch)
      ∷ (
        auth.rewrite_parent_sha256 == hash_parent a.hashes req.rewrite_parent_sql,
        rewrite_parent_mismatch,
      )
      ∷ (auth.task_purpose_sha256 == a.hashes.text req.task_purpose, task_mismatch)
      ∷ (auth.sql_sha256 == a.hashes.text req.sql, sql_mismatch)
      ∷ []

  -- Those on the context, the policy and the decision.
  abbrev pub governed_checks :
      ExecutionAuthorization
      → Request
      → QueryPlan
      → ContextResolution
      → List (Bool × ExecutionAuthorizationError)
  governed_checks auth req plan resolution =
      (auth.context_sha256 == hash_context a.hashes resolution, context_mismatch)
      ∷ (auth.policy_sha256 == a.hashes.policy a.config, policy_mismatch)
      ∷ (is_allowed (evaluate_request req plan resolution), policy_not_allow)
      ∷ (
        auth.policy_decision_sha256 == a.hashes.decision (evaluate_request req plan resolution),
        decision_mismatch,
      )
      ∷ []

  -- The claim of the capability's commitment is still its own.
  pub verify_claim_for :
      Option Database → ExecutionAuthorization → Result ExecutionAuthorizationError (Unit {0})
  verify_claim_for ledger auth = elim auth.disclosure_commitment [
    | none ↦ ok tt
    | some commitment ↦ do
      db ← some_or assertion_failed ledger
      as_invalid (verify_authorization_claim a.disclosure db commitment auth.authorization_id)
  ]

  -- `verify_and_consume` up to its lock
  pub verify :
      Moment
      → Option Database
      → ExecutionAuthorization
      → Request
      → Result ExecutionAuthorizationError QueryPlan
  verify m ledger auth req = do
    require_all (presented_checks m auth req)
    plan ← some_or sql_analysis_failed (a.analyze_sql req.sql req.dialect)
    require (auth.query_plan_sha256 == a.hashes.query_plan plan) query_plan_mismatch
    (resolution, binding) ← resolve_expected m plan auth.governance_binding
    require_all (governed_checks auth req plan resolution)
    verify_disclosure_commitment m ledger req plan resolution auth.disclosure_commitment
    revalidate_governance_binding m auth.governance_binding
    verify_claim_for ledger auth
    ok plan

-- The identifiers whose capability has not expired yet.
pub live : ℕ → Dict String ℕ → Dict String ℕ
live now consumed = filter (λ entry. ltb now entry.1) consumed

-- What `verify_and_consume` does under its lock.
pub consume :
    ℕ
    → State
    → ExecutionAuthorization
    → QueryPlan
    → Result ExecutionAuthorizationError QueryPlan × State
consume now st auth plan =
    let kept = live now st.consumed in
    if Dict.has auth.authorization_id kept
    then (raise authorization_replayed, record st { consumed = kept })
    else (ok plan, record st { consumed = Dict.put auth.authorization_id auth.expires_at kept })

-- `verify_and_consume`
pub verify_and_consume :
    Authority
    → Moment
    → State
    → ExecutionAuthorization
    → Request
    → Result ExecutionAuthorizationError QueryPlan × State
verify_and_consume a m st auth req = elim (verify a m st.ledger auth req) [
  | raise e ↦ (raise e, st)
  | ok plan ↦ consume m.now st auth plan
]
