-- ===== src/Execution/Authorizer/Issued.antt =====
-- What `issue` of src/toxicjoin/execute/authorization.py has checked, claimed and written when it
-- returns a capability.
use toxicjoin.Prelude.{
  ◌≡◌, sym, ap, ◌∙◌, String_eq, true, not, Option, [], ◌∷◌, ◌==◌, ok, require, require_all,
  require_all-eq-ok, >>=-eq-ok, require-eq-ok, ok-injective, some,
}
use toxicjoin.Models.{QueryPlan}
use toxicjoin.Context.{
  ContextResolution, GovernanceContextBinding, resolve_with_governance_binding,
  current_governance_binding,
}
use toxicjoin.Disclosure.{DisclosureCommitment}
use toxicjoin.Disclosure.Ledger.{Database}
use toxicjoin.Execution.{
  unsupported_dialect, privacy_proof_binding_required, invalid_task_purpose, sql_analysis_failed,
  policy_not_allow, ExecutionAuthorization, Request, Moment, State,
}
use toxicjoin.Execution.Authorizer.{
  Authority, some_or, is_allowed, revalidate_governance_binding, evaluate_request, resolve_expected,
  verify_disclosure_commitment, unsigned_for, sign, claim_for, issue,
}
use toxicjoin.Execution.Authorizer.Steps.{some_or-eq-ok, revalidate_iff, resolve_expected_iff}

module _ (a : Authority) (m : Moment) (st : State) (req : Request)
    (commitment : Option DisclosureCommitment) (expected : Option GovernanceContextBinding) where
  pub record IsIssued (auth : ExecutionAuthorization) (st' : State) : Type 0 where
    pub duckdb : (req.dialect == "duckdb") ≡ true
    pub no_proof : not req.has_privacy_proof ≡ true
    pub plan : QueryPlan
    pub analyzed : a.analyze_sql req.sql req.dialect ≡ some plan
    pub resolution : ContextResolution
    pub resolved : resolve_with_governance_binding m.resolver plan ≡ ok (resolution, expected)
    pub current : current_governance_binding m.resolver ≡ ok expected
    pub allowed : is_allowed (evaluate_request a req plan resolution) ≡ true
    pub disclosed :
        verify_disclosure_commitment a m st.ledger req plan resolution commitment ≡ ok tt
    pub ledger : Option Database
    pub claimed : claim_for a m st.ledger commitment ≡ ok ledger
    pub signed : auth ≡ sign a (unsigned_for a m req commitment plan resolution expected)
    pub after : st' ≡ record st { ledger = ledger }

  pub IsIssued-of :
      (auth : ExecutionAuthorization) (st' : State)
      → issue a m st req commitment expected ≡ ok (auth, st')
      → IsIssued auth st'
  unfolding issue
  IsIssued-of auth st' h =
      let asked =
        (req.dialect == "duckdb", unsupported_dialect)
        ∷ (not req.has_privacy_proof, privacy_proof_binding_required)
        ∷ (not (a.strip req.task_purpose == ""), invalid_task_purpose)
        ∷ [] in
      let (u0, requested, h1) = >>=-eq-ok (require_all asked) _ h in
      let (plan, analyzed, h2) =
        >>=-eq-ok (some_or sql_analysis_failed (a.analyze_sql req.sql req.dialect)) _ h1 in
      let ((resolution, binding), found, h3) =
        >>=-eq-ok (resolve_expected a m plan expected) _ h2 in
      let (u1, allowed, h4) =
        >>=-eq-ok (require (is_allowed (evaluate_request a req plan resolution)) policy_not_allow) _
          h3 in
      let (u2, disclosed, h5) =
        >>=-eq-ok (verify_disclosure_commitment a m st.ledger req plan resolution commitment) _
          h4 in
      let (u3, fresh, h6) = >>=-eq-ok (revalidate_governance_binding m binding) _ h5 in
      let (ledger, claimed, h7) = >>=-eq-ok (claim_for a m st.ledger commitment) _ h6 in
      let made : ExecutionAuthorization =
        sign a (unsigned_for a m req commitment plan resolution binding) in
      let left : State = record st { ledger = ledger } in
      let e = ok-injective (made, left) (auth, st') h7 in
      let (there, same) = (resolve_expected_iff a m plan expected binding resolution).0 found in
      let c = require_all-eq-ok asked requested in
      record {
        duckdb = c.0;
        no_proof = c.1.0;
        plan = plan;
        analyzed = some_or-eq-ok _ _ analyzed;
        resolution = resolution;
        resolved = there ∙ ap (λ b. ok (resolution, b)) (sym same);
        current = (revalidate_iff m binding).0 fresh ∙ ap ok (sym same);
        allowed = require-eq-ok _ policy_not_allow allowed;
        disclosed = disclosed;
        ledger = ledger;
        claimed = claimed;
        signed =
            sym (ap (λ p. p.0) e)
            ∙ ap (λ b. sign a (unsigned_for a m req commitment plan resolution b)) (sym same);
        after = sym (ap (λ p. p.1) e);
      }
