-- ===== src/Execution/Authorizer/Sound.antt =====
-- What `verify_and_consume` and `issue` of src/toxicjoin/execute/authorization.py have checked when
-- they return.
use toxicjoin.Prelude.{
  ℕ, ◌+◌, ◌≤◌, ◌<◌, ◌≡◌, sym, ap, ◌∙◌, subst, String_eq, false, Option, none, some, arith, ◌==◌, ok,
  require, require_all, require_all-eq-ok, >>=-eq-ok, ok-injective, inl, inr, Bool-cases,
  Result-cases, raise≢ok,
}
use toxicjoin.Prelude.Dict
use toxicjoin.Models.{QueryPlan, ColumnRef_eq}
use toxicjoin.Context.{
  ContextResolution, to_policy_input, resolve_with_governance_binding, current_governance_binding,
}
use toxicjoin.Policy.Engine.Outcome.{IsReleasable}
use toxicjoin.Disclosure.{DisclosureCommitment}
use toxicjoin.Disclosure.Ledger.{Database, OptionString_eq}
use toxicjoin.Disclosure.Ledger.Operations.{verify_authorization_claim}
use toxicjoin.Execution.{
  sql_analysis_failed, query_plan_mismatch, ExecutionAuthorization, Request, Moment, State,
}
use toxicjoin.Execution.Digest.{hash_identity, hash_parent}
use toxicjoin.Execution.Authorizer.{
  Authority, some_or, revalidate_governance_binding, resolve_expected, verify_disclosure_commitment,
  verify_claim_for, presented_checks, governed_checks, verify, live, consume, verify_and_consume,
}
use toxicjoin.Execution.Authorizer.Steps.{
  some_or-eq-ok, revalidate_iff, resolve_expected_iff, allowed-IsReleasable, IsCommitted,
  IsCommitted-of, not_required, claim_of-verify,
}

module _ (a : Authority) where
  -- The capability is the authority's own, is valid now, and is for this request.
  pub record IsPresented (m : Moment) (auth : ExecutionAuthorization) (req : Request) : Type 0 where
    pub authentic : a.mac auth.unsigned ≡ auth.mac_sha256
    pub begun : auth.issued_at ≤ m.now + a.skew
    pub unexpired : m.now < auth.expires_at
    pub short_lived : auth.expires_at ≤ auth.issued_at + a.ttl + a.tolerance
    pub same_dialect : auth.dialect ≡ req.dialect
    pub same_subject : auth.subject_key ≡ req.subject_key
    pub same_identity : auth.request_identity_sha256 ≡ hash_identity a.hashes m.identity
    pub same_parent : auth.rewrite_parent_sha256 ≡ hash_parent a.hashes req.rewrite_parent_sql
    pub same_task : auth.task_purpose_sha256 ≡ a.hashes.text req.task_purpose
    pub same_sql : auth.sql_sha256 ≡ a.hashes.text req.sql

  -- The query that the capability is for may be released in the context that governs it now, and its
  -- disclosure is committed and claimed by this very capability.
  pub record IsGoverned (m : Moment) (ledger : Option Database) (auth : ExecutionAuthorization)
      (req : Request) (plan : QueryPlan) : Type 0 where
    pub analyzed : a.analyze_sql req.sql req.dialect ≡ some plan
    pub resolution : ContextResolution
    pub resolved :
        resolve_with_governance_binding m.resolver plan ≡ ok (resolution, auth.governance_binding)
    pub current : current_governance_binding m.resolver ≡ ok auth.governance_binding
    pub releasable :
        IsReleasable a.config (to_policy_input resolution req.task_purpose plan req.subject_key)
    pub required : auth.disclosure_commitment ≡ none → a.require_disclosure_commitment ≡ false
    pub committed :
        (c : DisclosureCommitment)
        → auth.disclosure_commitment ≡ some c
        → (t : IsCommitted a m ledger req plan resolution c) × (verify_authorization_claim
              a.disclosure t.db c auth.authorization_id
            ≡ ok tt)

  IsPresented-of :
      (m : Moment) (auth : ExecutionAuthorization) (req : Request) {u : Unit {0}}
      → require_all (presented_checks a m auth req) ≡ ok u
      → IsPresented m auth req
  IsPresented-of m auth req h =
      let c = require_all-eq-ok (presented_checks a m auth req) h in
      let c3 = c.1.1 in
      let c6 = c3.1.1.1 in
      let c9 = c6.1.1.1 in
      record {
        authentic = (String_eq.beq_iff _ _).0 c3.0;
        begun = ground (arith, c3.1.0);
        unexpired = ground (arith, c3.1.1.0);
        short_lived = ground (arith, c6.0);
        same_dialect = (String_eq.beq_iff _ _).0 c6.1.0;
        same_subject = (ColumnRef_eq.beq_iff _ _).0 c6.1.1.0;
        same_identity = (OptionString_eq.beq_iff _ _).0 c9.0;
        same_parent = (OptionString_eq.beq_iff _ _).0 c9.1.0;
        same_task = (String_eq.beq_iff _ _).0 c9.1.1.0;
        same_sql = (String_eq.beq_iff _ _).0 c9.1.1.1.0;
      }

  verify-eq-ok :
      (m : Moment) (ledger : Option Database) (auth : ExecutionAuthorization) (req : Request)
      (plan : QueryPlan)
      → verify a m ledger auth req ≡ ok plan
      → IsPresented m auth req × IsGoverned m ledger auth req plan
  unfolding verify
  verify-eq-ok m ledger auth req plan h =
      let (u0, presented, h1) = >>=-eq-ok (require_all (presented_checks a m auth req)) _ h in
      let (p, analyzed, h2) =
        >>=-eq-ok (some_or sql_analysis_failed (a.analyze_sql req.sql req.dialect)) _ h1 in
      let (u1, same_plan, h3) =
        >>=-eq-ok (require (auth.query_plan_sha256 == a.hashes.query_plan p) query_plan_mismatch) _
          h2 in
      let ((resolution, binding), found, h4) =
        >>=-eq-ok (resolve_expected a m p auth.governance_binding) _ h3 in
      let (u2, governed, h5) =
        >>=-eq-ok (require_all (governed_checks a auth req p resolution)) _ h4 in
      let (u3, disclosed, h6) =
        >>=-eq-ok
          (verify_disclosure_commitment a m ledger req p resolution auth.disclosure_commitment) _
          h5 in
      let (u4, fresh, h7) =
        >>=-eq-ok (revalidate_governance_binding m auth.governance_binding) _ h6 in
      let (u5, claimed, h8) = >>=-eq-ok (verify_claim_for a ledger auth) _ h7 in
      let e = ok-injective p plan h8 in
      let (there, same) =
        (resolve_expected_iff a m p auth.governance_binding binding resolution).0 found in
      let c = require_all-eq-ok (governed_checks a auth req p resolution) governed in
      (
        IsPresented-of m auth req presented,
        subst (IsGoverned m ledger auth req) e (record {
          analyzed = some_or-eq-ok _ _ analyzed;
          resolution = resolution;
          resolved = there ∙ ap (λ b. ok (resolution, b)) (sym same);
          current = (revalidate_iff m auth.governance_binding).0 fresh;
          releasable = allowed-IsReleasable a req p resolution c.1.1.0;
          required = λ unnamed. not_required a m ledger req p resolution _ unnamed disclosed;
          committed = λ c named.
              let t = IsCommitted-of a m ledger req p resolution _ c named disclosed in
              (t, claim_of-verify a ledger auth t.db c t.has_ledger named claimed);
        }),
      )

  pub consume-eq-ok :
      (now : ℕ) (st st' : State) (auth : ExecutionAuthorization) (plan plan' : QueryPlan)
      → consume now st auth plan ≡ (ok plan', st')
      → (plan ≡ plan')
        × (Dict.has auth.authorization_id (live now st.consumed) ≡ false)
        × (st' ≡ record st {
          consumed = Dict.put auth.authorization_id auth.expires_at (live now st.consumed);
        })
  unfolding consume
  consume-eq-ok now st st' auth plan plan' h =
      elim (Bool-cases (Dict.has auth.authorization_id (live now st.consumed))) [
        | inl used ↦ absurd (ground (arith, used, (rw (consume, used) at h)))
        | inr unused ↦
            let h1 = rw (consume, unused) at h in
            (ok-injective plan plan' (ap (λ p. p.0) h1), unused, ap (λ p. p.1) (sym h1))
      ]

  pub verify_and_consume-eq-ok :
      (m : Moment) (st st' : State) (auth : ExecutionAuthorization) (req : Request)
      (plan : QueryPlan)
      → verify_and_consume a m st auth req ≡ (ok plan, st')
      → (verify a m st.ledger auth req ≡ ok plan) × (consume m.now st auth plan ≡ (ok plan, st'))
  unfolding verify_and_consume
  verify_and_consume-eq-ok m st st' auth req plan h =
      elim (Result-cases (verify a m st.ledger auth req)) [
        | inl (p, passed) ↦
            let h1 = rw (verify_and_consume, passed) at h in
            let (e, unused, after) = consume-eq-ok m.now st st' auth p plan h1 in
            (passed ∙ ap ok e, subst (λ q. consume m.now st auth q ≡ (ok plan, st')) e h1)
        | inr (e, failed) ↦
            let h1 = rw (verify_and_consume, failed) at h in
            absurd (raise≢ok e plan (ap (λ p. p.0) h1))
      ]

  -- When `verify_and_consume` returns a plan, it is the plan of the SQL, the capability is authentic,
  -- valid now and for this request, it was not consumed before, the policy allows the query in the
  -- context that is current, and a disclosure commitment of the capability is verified and claimed
  -- by it; one is there where it is required.
  pub verify_and_consume-IsGoverned :
      (m : Moment) (st st' : State) (auth : ExecutionAuthorization) (req : Request)
      (plan : QueryPlan)
      → verify_and_consume a m st auth req ≡ (ok plan, st')
      → IsPresented m auth req
        × IsGoverned m st.ledger auth req plan
        × (Dict.has auth.authorization_id (live m.now st.consumed) ≡ false)
  verify_and_consume-IsGoverned m st st' auth req plan h =
      let (passed, consumed) = verify_and_consume-eq-ok m st st' auth req plan h in
      let (presented, governed) = verify-eq-ok m st.ledger auth req plan passed in
      let (e, unused, after) = consume-eq-ok m.now st st' auth plan plan consumed in
      (presented, governed, unused)
