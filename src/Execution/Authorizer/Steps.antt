-- ===== src/Execution/Authorizer/Steps.antt =====
-- What the steps of `issue` and `verify_and_consume` in src/toxicjoin/execute/authorization.py have
-- found when they return.
use toxicjoin.Prelude.{
  ◌≡◌, refl, sym, ap, ◌∙◌, subst, ◌↔◌, true, false, Option, none, some, arith, ◌==◌, Result, ok,
  raise, >>=-eq-ok, require-eq-ok, ok-injective,
}
use toxicjoin.Models.{allow, Decision_eq, QueryPlan}
use toxicjoin.Auth.{RequestIdentity}
use toxicjoin.Context.{
  ContextResolution, to_policy_input, GovernanceContextError, stale, drift, other,
  GovernanceContextBinding, Binding_eq, resolve_with_governance_binding, current_governance_binding,
  require_same_governance_binding, require_same_governance_binding_iff,
}
use toxicjoin.Disclosure.{DisclosureCommitment, DisclosureEvent, DisclosureRecord}
use toxicjoin.Disclosure.Ledger.{LedgerError, Database}
use toxicjoin.Disclosure.Ledger.Operations.{verify_commitment, verify_authorization_claim}
use toxicjoin.Execution.{
  ExecutionAuthorizationError, disclosure_commitment_required, disclosure_commitment_invalid,
  ExecutionAuthorization, Request, Moment,
}
use toxicjoin.Execution.Authorizer.{
  Authority, as_invalid, as_replayed, as_context_error, some_or, revalidate_governance_binding,
  is_allowed, evaluate_request, event_for, resolve_expected, verify_disclosure_commitment,
  verify_claim_for,
}
use toxicjoin.Policy.Engine.Outcome.{IsReleasable, evaluate-allow_iff}

pub some_or-eq-ok {ℓ} :
    {A : Type ℓ} (e : ExecutionAuthorizationError) (o : Option A) {x : A}
    → some_or e o ≡ ok x
    → o ≡ some x
some_or-eq-ok e none h = cc
some_or-eq-ok e (some y) h = ap some (ok-injective _ _ h)

as_context_error-eq-ok {ℓ} :
    {A : Type ℓ} (r : Result GovernanceContextError A) {x : A}
    → as_context_error r ≡ ok x
    → r ≡ ok x
as_context_error-eq-ok (ok y) h = ap ok (ok-injective _ _ h)
as_context_error-eq-ok (raise stale) h = cc
as_context_error-eq-ok (raise drift) h = cc
as_context_error-eq-ok (raise other) h = cc

as_invalid-eq-ok {ℓ} :
    {A : Type ℓ} (r : Result LedgerError A) {x : A} → as_invalid r ≡ ok x → r ≡ ok x
as_invalid-eq-ok (ok y) h = ap ok (ok-injective _ _ h)
as_invalid-eq-ok (raise e) h = cc

pub as_replayed-eq-ok {ℓ} :
    {A : Type ℓ} (r : Result LedgerError A) {x : A} → as_replayed r ≡ ok x → r ≡ ok x
as_replayed-eq-ok (ok y) h = ap ok (ok-injective _ _ h)
as_replayed-eq-ok (raise e) h = ground arith

-- The context is the provider's current one exactly when the step returns.
pub revalidate_iff :
    (m : Moment) (expected : Option GovernanceContextBinding)
    → (revalidate_governance_binding m expected ≡ ok tt)
      ↔ (current_governance_binding m.resolver ≡ ok expected)
unfolding revalidate_governance_binding
revalidate_iff m expected = (
  λ h.
      let (actual, found, same) =
        >>=-eq-ok (current_governance_binding m.resolver) _ (as_context_error-eq-ok _ h) in
      found ∙ ap ok (sym ((require_same_governance_binding_iff expected actual).0 same)),
  λ found. rw (found, (require_same_governance_binding_iff expected expected).1 refl) refl,
)

module _ (a : Authority) where
  pub resolve_expected_iff :
      (m : Moment) (plan : QueryPlan) (expected actual : Option GovernanceContextBinding)
      (resolution : ContextResolution)
      → (resolve_expected a m plan expected ≡ ok (resolution, actual)) ↔ (
          (resolve_with_governance_binding m.resolver plan ≡ ok (resolution, actual))
          × (expected ≡ actual))
  unfolding resolve_expected
  resolve_expected_iff m plan expected actual resolution = (
    λ h.
        let ((r, b), found, h1) =
          >>=-eq-ok (as_context_error (resolve_with_governance_binding m.resolver plan)) _ h in
        let (u, same, h2) =
          >>=-eq-ok (as_context_error (require_same_governance_binding expected b)) _ h1 in
        let e = ok-injective (r, b) (resolution, actual) h2 in
        (
          as_context_error-eq-ok _ found ∙ ap ok e,
          (require_same_governance_binding_iff expected b).0 (as_context_error-eq-ok _ same)
              ∙ ap (λ p. p.1) e,
        ),
    λ (found, same).
        rw (found, same, (require_same_governance_binding_iff actual actual).1 refl) refl,
  )

  -- A decision that `is_allowed` accepts comes of a releasable query.
  pub allowed-IsReleasable :
      (req : Request) (plan : QueryPlan) (resolution : ContextResolution)
      → is_allowed (evaluate_request a req plan resolution) ≡ true
      → IsReleasable a.config (to_policy_input resolution req.task_purpose plan req.subject_key)
  unfolding evaluate_request
  allowed-IsReleasable req plan resolution h =
      let test : ((evaluate_request a req plan resolution).decision == allow) ≡ true =
        ground (arith, h) in
      (evaluate-allow_iff a.config _).0
        ((Decision_eq.beq_iff (evaluate_request a req plan resolution).decision allow).0 test)

  -- What has been checked of a commitment.
  pub record IsCommitted (m : Moment) (ledger : Option Database) (req : Request) (plan : QueryPlan)
      (resolution : ContextResolution) (commitment : DisclosureCommitment) : Type 0 where
    pub db : Database
    pub has_ledger : ledger ≡ some db
    pub identity : RequestIdentity
    pub is_known : m.identity ≡ some identity
    pub event : DisclosureEvent
    pub is_built : event_for a m identity req plan resolution commitment ≡ some event
    pub stored : DisclosureRecord
    pub verified : verify_commitment a.disclosure db commitment event req.sql ≡ ok stored

  IsCommitted-some :
      (m : Moment) (ledger : Option Database) (req : Request) (plan : QueryPlan)
      (resolution : ContextResolution) (commitment : DisclosureCommitment) {u : Unit {0}}
      → verify_disclosure_commitment a m ledger req plan resolution (some commitment) ≡ ok u
      → IsCommitted m ledger req plan resolution commitment
  unfolding verify_disclosure_commitment
  IsCommitted-some m ledger req plan resolution commitment h =
      let (db, there, h1) = >>=-eq-ok (some_or _ ledger) _ h in
      let (identity, known, h2) = >>=-eq-ok (some_or _ m.identity) _ h1 in
      let (event, built, h3) =
        >>=-eq-ok
          (some_or disclosure_commitment_invalid
            (event_for a m identity req plan resolution commitment))
          _ h2 in
      let (r, verified, h4) =
        >>=-eq-ok (as_invalid (verify_commitment a.disclosure db commitment event req.sql)) _ h3 in
      record {
        db = db;
        has_ledger = some_or-eq-ok _ ledger there;
        identity = identity;
        is_known = some_or-eq-ok _ m.identity known;
        event = event;
        is_built = some_or-eq-ok _ (event_for a m identity req plan resolution commitment) built;
        stored = r;
        verified = as_invalid-eq-ok _ verified;
      }

  pub IsCommitted-of :
      (m : Moment) (ledger : Option Database) (req : Request) (plan : QueryPlan)
      (resolution : ContextResolution) (named : Option DisclosureCommitment)
      (commitment : DisclosureCommitment) {u : Unit {0}}
      → named ≡ some commitment
      → verify_disclosure_commitment a m ledger req plan resolution named ≡ ok u
      → IsCommitted m ledger req plan resolution commitment
  IsCommitted-of m ledger req plan resolution none commitment e h = cc
  IsCommitted-of m ledger req plan resolution (some c) commitment e h =
      let same : c ≡ commitment = cc in
      subst (IsCommitted m ledger req plan resolution) same
        (IsCommitted-some m ledger req plan resolution c h)

  pub not_required :
      (m : Moment) (ledger : Option Database) (req : Request) (plan : QueryPlan)
      (resolution : ContextResolution) (named : Option DisclosureCommitment) {u : Unit {0}}
      → named ≡ none
      → verify_disclosure_commitment a m ledger req plan resolution named ≡ ok u
      → a.require_disclosure_commitment ≡ false
  unfolding verify_disclosure_commitment
  not_required m ledger req plan resolution none e h =
      ground (arith, require-eq-ok _ disclosure_commitment_required h)
  not_required m ledger req plan resolution (some c) e h = cc

  -- The claim is the capability's own.
  pub claim_of-verify :
      (ledger : Option Database) (auth : ExecutionAuthorization) (db : Database)
      (commitment : DisclosureCommitment) {u : Unit {0}}
      → ledger ≡ some db
      → auth.disclosure_commitment ≡ some commitment
      → verify_claim_for a ledger auth ≡ ok u
      → verify_authorization_claim a.disclosure db commitment auth.authorization_id ≡ ok tt
  unfolding verify_claim_for
  claim_of-verify ledger auth db commitment there named h =
      let h1 = rw (verify_claim_for, named, there) at h in as_invalid-eq-ok _ h1
