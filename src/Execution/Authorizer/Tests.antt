-- ===== src/Execution/Authorizer/Tests.antt =====
-- A capability that is issued, accepted and refused.
use toxicjoin.Prelude.{
  ◌≡◌, refl, arith, ◌∙◌, ap, true, false, none, some, [], ◌∷◌, ok, String_eq, ==_self, Option,
}
use mathlib.Core.Bool.{decide}
use toxicjoin.Prelude.Dict
use toxicjoin.Models.{Decision-discrete}
use toxicjoin.Policy.Engine.Tests.{config, repaired, repaired_allowed}
use toxicjoin.Context.{
  ContextResolution, to_policy_input, resolve_with_governance_binding, current_governance_binding,
  require_same_governance_binding, GovernanceContextBinding,
}
use toxicjoin.Disclosure.Ledger.{commitment_of}
use toxicjoin.Disclosure.Ledger.Operations.Tests.{
  ext, event, first, one, authorization, claimed_once, claimed, verifies,
}
use toxicjoin.Execution.{ExecutionAuthorization, Request, Moment, State}
use toxicjoin.Execution.Authorizer.{
  Authority, is_allowed, evaluate_request, resolve_expected, verify_disclosure_commitment,
  unsigned_for, sign, claim_for, issue, live, verify_and_consume,
}
use toxicjoin.Execution.Authorizer.Steps.{revalidate_iff}
use toxicjoin.Execution.Authorizer.Sound.{IsPresented, IsGoverned, verify_and_consume-IsGoverned}
use toxicjoin.Execution.Authorizer.SingleUse.{issuing, run, verify_and_consume_once}
use toxicjoin.Execution.Authorizer.OneCapability.{issue_once}
use toxicjoin.Execution.Authorizer.RoundTrip.{later, issue-verify_and_consume}

abbrev authority : Authority
authority = record {
  config = config;
  require_disclosure_commitment = false;
  ttl = 50;
  skew = 10;
  tolerance = 0;
  hashes = record {
    text = λ s. s;
    query_plan = λ p. p.statement_type;
    context = λ c. "context";
    policy = λ c. c.version;
    decision = λ d. d.policy_version;
    identity = λ i. i.principal_id;
  };
  mac = λ u. u.authorization_id;
  disclosure = record {
    event_sha256 = λ e. e.receipt_id;
    record_sha256 = λ p. p.record_id;
    cohort_hmac = λ s. s;
    canonicalize_cohort_sql = λ s. some s;
    casefold = λ s. s;
  };
  strip = λ s. s;
  analyze_sql = λ sql dialect. some repaired.query_plan;
  build_event = λ identity resolver resolution plan subject receipt version. none;
}

abbrev governed : ContextResolution
governed = record {
  projected_context = repaired.projected_context;
  all_referenced_context = repaired.all_referenced_context;
  failures = [];
}

abbrev moment : Moment
moment = record {
  now = 100;
  identity =
      some (record {
        principal_id = "alice";
        credential_id = "c";
        agent_id = none;
        session_id = none;
      });
  resolver = record { resolve = λ plan. ok governed; resolve_bound = none; current = none };
  fresh_id = "tj_auth_0";
}

abbrev request : Request
request = record {
  sql = "SELECT diagnosis, COUNT(DISTINCT member) FROM claims GROUP BY diagnosis";
  task_purpose = repaired.task_purpose;
  subject_key = record { dataset = "claims"; field_path = "member"; alias = none };
  has_privacy_proof = false;
  dialect = "duckdb";
  rewrite_parent_sql = none;
}

abbrev start : State
start = record { ledger = none; consumed = [] }

abbrev capability : ExecutionAuthorization
capability =
    sign authority (unsigned_for authority moment request none repaired.query_plan governed none)

allowed : is_allowed (evaluate_request authority request repaired.query_plan governed) ≡ true
unfolding evaluate_request to_policy_input Decision-discrete decide
allowed = rw (repaired_allowed.0, repaired_allowed.1) refl

issued : issue authority moment start request none none ≡ ok (capability, start)
unfolding issue resolve_expected resolve_with_governance_binding require_same_governance_binding
    current_governance_binding verify_disclosure_commitment claim_for
issued =
    rw
      (
        ==_self {A = Option GovernanceContextBinding} none,
        allowed,
        (revalidate_iff moment none).1 refl,
      )
      refl

abbrev moment_after : Moment
moment_after = later authority moment 149 ""

abbrev spent : State
spent = record start {
  consumed = Dict.put capability.authorization_id capability.expires_at (live 149 start.consumed);
}

accepted :
    verify_and_consume authority (later authority moment 149 "") start capability request
    ≡ (ok repaired.query_plan, spent)
unfolding live Dict.get
accepted =
    let (plan, analyzed, taken) =
      issue-verify_and_consume authority moment start start request none none capability issued 149
        "" (omega arith) (omega arith) refl in
    let same : plan ≡ repaired.query_plan = cc in taken ∙ ap (λ p. (ok p, spent)) same

verify_and_consume-IsGoverned_example :
    IsPresented authority (later authority moment 149 "") capability request
    × IsGoverned authority
        (later authority moment 149 "")
        none
        capability
        request
        repaired.query_plan
    × (Dict.has capability.authorization_id (live 149 []) ≡ false)
verify_and_consume-IsGoverned_example =
    verify_and_consume-IsGoverned authority (later authority moment 149 "") start spent capability
      request repaired.query_plan accepted

verify_and_consume_once_example : ¬ (
    verify_and_consume authority
      (later authority moment 149 "")
      (run authority spent (issuing moment_after request none none ∷ []))
      capability
      request
    ≡ (ok repaired.query_plan, spent))
verify_and_consume_once_example =
    verify_and_consume_once authority (later authority moment 149 "") start spent capability request
      repaired.query_plan accepted (issuing moment_after request none none ∷ []) moment_after
      (omega arith, omega arith) request repaired.query_plan spent

-- The same with a disclosure commitment.
abbrev committing : Authority
committing = record authority {
  disclosure = ext;
  build_event = λ identity resolver resolution plan subject receipt version. some event;
}

abbrev committed : Request
committed = record request { sql = "SELECT 1" }

abbrev with_ledger : State
with_ledger = record { ledger = some one; consumed = [] }

abbrev after_claim : State
after_claim = record { ledger = some claimed_once; consumed = [] }

abbrev claiming : Moment
claiming = record moment { fresh_id = authorization }

abbrev claimed_capability : ExecutionAuthorization
claimed_capability = sign committing (
    unsigned_for committing claiming committed (some (commitment_of first)) repaired.query_plan
      governed none)

disclosed :
    verify_disclosure_commitment committing claiming with_ledger.ledger committed
      repaired.query_plan governed
      (some (commitment_of first))
    ≡ ok tt
unfolding verify_disclosure_commitment
disclosed = let (r, same, verified) = verifies in rw verified refl

allowed_too : is_allowed (evaluate_request committing committed repaired.query_plan governed) ≡ true
unfolding evaluate_request to_policy_input Decision-discrete decide
allowed_too = rw (repaired_allowed.0, repaired_allowed.1) refl

issued_committed :
    issue committing claiming with_ledger committed (some (commitment_of first)) none
    ≡ ok (claimed_capability, after_claim)
unfolding issue resolve_expected resolve_with_governance_binding require_same_governance_binding
    current_governance_binding claim_for
issued_committed =
    rw
      (
        ==_self {A = Option GovernanceContextBinding} none,
        allowed_too,
        disclosed,
        (revalidate_iff claiming none).1 refl,
        claimed,
      )
      refl

issue_once_example : ¬ (
    issue committing claiming
      (run committing after_claim (issuing claiming request none none ∷ []))
      committed
      (some (commitment_of first))
      none
    ≡ ok (claimed_capability, after_claim))
issue_once_example =
    issue_once committing claiming with_ledger after_claim committed (commitment_of first) none
      claimed_capability issued_committed (issuing claiming request none none ∷ []) claiming
      committed none claimed_capability after_claim
