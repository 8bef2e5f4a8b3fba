-- ===== src/Execution/Authorizer/RoundTrip.antt =====
-- From `issue` to `verify_and_consume` of src/toxicjoin/execute/authorization.py.
use toxicjoin.Prelude.{
  ℕ, ◌+◌, ◌≤◌, ◌<◌, ◌≡◌, refl, sym, ◌∙◌, String, String_eq, true, false, not, Option, none, some,
  arith, ◌==◌, ==_self, Option-cases, inl, inr, ok, require_all, >>=-eq-ok, ok-injective,
}
use toxicjoin.Prelude.Dict
use toxicjoin.Models.{QueryPlan, ColumnRef_eq}
use toxicjoin.Context.{ContextResolution, GovernanceContextBinding}
use toxicjoin.Disclosure.{DisclosureCommitment}
use toxicjoin.Disclosure.Ledger.{Database, OptionString_eq}
use toxicjoin.Disclosure.Ledger.Operations.{claim_commitment}
use toxicjoin.Disclosure.Ledger.Operations.Claims.{verify_commitment-claim, verify-claim}
use toxicjoin.Execution.{ExecutionAuthorization, assertion_failed, Request, Moment, State}
use toxicjoin.Execution.Authorizer.{
  Authority, as_replayed, some_or, is_allowed, evaluate_request, verify_disclosure_commitment,
  unsigned_for, sign, claim_for, issue, verify_claim_for, presented_checks, governed_checks, verify,
  live, consume, verify_and_consume,
}
use toxicjoin.Execution.Authorizer.Steps.{
  some_or-eq-ok, as_replayed-eq-ok, revalidate_iff, resolve_expected_iff, IsCommitted-of,
}
use toxicjoin.Execution.Authorizer.Issued.{IsIssued, IsIssued-of}

module _ (a : Authority) (m : Moment) where
  -- The same provider and the same request identity at another time.
  abbrev pub later : ℕ → String → Moment
  later now id = record { now = now; identity = m.identity; resolver = m.resolver; fresh_id = id }

  pub claim_for-eq-ok :
      (ledger ledger' : Option Database) (commitment : DisclosureCommitment)
      → claim_for a m ledger (some commitment) ≡ ok ledger'
      → (db : Database) × (db' : Database) × (ledger ≡ some db)
        × (ledger' ≡ some db')
        × (claim_commitment a.disclosure db commitment m.fresh_id ≡ ok db')
  unfolding claim_for
  claim_for-eq-ok ledger ledger' commitment h =
      let (db, there, h1) = >>=-eq-ok (some_or assertion_failed ledger) _ h in
      let (db', claimed, h2) =
        >>=-eq-ok (as_replayed (claim_commitment a.disclosure db commitment m.fresh_id)) _ h1 in
      (
        db,
        db',
        some_or-eq-ok _ ledger there,
        sym (ok-injective (some db') ledger' h2),
        as_replayed-eq-ok _ claimed,
      )

  -- A commitment that is verified stays so after its claim.
  disclosed_later :
      (now : ℕ) (id : String) (ledger ledger' : Option Database) (req : Request) (plan : QueryPlan)
      (resolution : ContextResolution) (commitment : Option DisclosureCommitment)
      → verify_disclosure_commitment a m ledger req plan resolution commitment ≡ ok tt
      → claim_for a m ledger commitment ≡ ok ledger'
      → verify_disclosure_commitment a (later now id) ledger' req plan resolution commitment ≡ ok tt
  unfolding verify_disclosure_commitment
  disclosed_later now id ledger ledger' req plan resolution none h claimed = h
  disclosed_later now id ledger ledger' req plan resolution (some c) h claimed =
      let t = IsCommitted-of a m ledger req plan resolution (some c) c refl h in
      let (db, db', there, there', taken) = claim_for-eq-ok ledger ledger' c claimed in
      let same : db ≡ t.db = let own = t.has_ledger in cc in
      let stays =
        verify_commitment-claim a.disclosure db db' c m.fresh_id taken c t.event req.sql in
      rw (there', t.is_known, t.is_built, stays, same, t.verified) refl

  claimed_later :
      (ledger ledger' : Option Database) (auth : ExecutionAuthorization)
      → auth.authorization_id ≡ m.fresh_id
      → claim_for a m ledger auth.disclosure_commitment ≡ ok ledger'
      → verify_claim_for a ledger' auth ≡ ok tt
  unfolding verify_claim_for
  claimed_later ledger ledger' auth mine claimed = elim (Option-cases auth.disclosure_commitment) [
    | inl unnamed ↦ rw (verify_claim_for, unnamed) refl
    | inr (c, named) ↦
        let (db, db', there, there', taken) =
          claim_for-eq-ok ledger ledger' c (rw named at claimed) in
        let own =
          (verify-claim a.disclosure db db' c m.fresh_id taken auth.authorization_id).1 mine in
        rw (verify_claim_for, named, there', own) refl
  ]

  -- The guards on the presented capability hold of one that was issued.
  presented_later :
      (now : ℕ) (id : String) (req : Request) (commitment : Option DisclosureCommitment)
      (plan : QueryPlan) (resolution : ContextResolution)
      (binding : Option GovernanceContextBinding)
      → (req.dialect == "duckdb") ≡ true
      → not req.has_privacy_proof ≡ true
      → m.now ≤ now
      → now < m.now + a.ttl
      → require_all (
          presented_checks a
            (later now id)
            (sign a (unsigned_for a m req commitment plan resolution binding))
            req)
        ≡ ok tt
  unfolding unsigned_for
  presented_later now id req commitment plan resolution binding duckdb no_proof since before =
      let made = sign a (unsigned_for a m req commitment plan resolution binding) in
      ground (
        arith,
        duckdb,
        no_proof,
        ==_self (a.mac made.unsigned),
        ==_self req.dialect,
        ==_self req.subject_key,
        ==_self made.request_identity_sha256,
        ==_self made.rewrite_parent_sha256,
        ==_self made.task_purpose_sha256,
        ==_self made.sql_sha256,
      )

  governed_later :
      (req : Request) (commitment : Option DisclosureCommitment) (plan : QueryPlan)
      (resolution : ContextResolution) (binding : Option GovernanceContextBinding)
      → is_allowed (evaluate_request a req plan resolution) ≡ true
      → require_all (
          governed_checks a
            (sign a (unsigned_for a m req commitment plan resolution binding))
            req
            plan
            resolution)
        ≡ ok tt
  unfolding unsigned_for
  governed_later req commitment plan resolution binding allowed =
      let made = sign a (unsigned_for a m req commitment plan resolution binding) in
      ground (
        arith,
        ==_self made.context_sha256,
        ==_self made.policy_sha256,
        allowed,
        ==_self made.policy_decision_sha256,
      )

  verified_later :
      (st st' : State) (req : Request) (commitment : Option DisclosureCommitment)
      (expected : Option GovernanceContextBinding) (auth : ExecutionAuthorization)
      (i : IsIssued a m st req commitment expected auth st') (now : ℕ) (id : String)
      → m.now ≤ now
      → now < m.now + a.ttl
      → verify a
          (later now id)
          i.ledger
          (sign a (unsigned_for a m req commitment i.plan i.resolution expected))
          req
        ≡ ok i.plan
  unfolding verify unsigned_for
  verified_later st st' req commitment expected auth i now id since before =
      let made = sign a (unsigned_for a m req commitment i.plan i.resolution expected) in
      let at = later now id in
      let presented =
        presented_later now id req commitment i.plan i.resolution expected i.duckdb i.no_proof since
          before in
      let same_plan = ==_self made.query_plan_sha256 in
      let found =
        (resolve_expected_iff a at i.plan expected expected i.resolution).1 (i.resolved, refl) in
      let governed = governed_later req commitment i.plan i.resolution expected i.allowed in
      let disclosed =
        disclosed_later now id st.ledger i.ledger req i.plan i.resolution commitment i.disclosed
          i.claimed in
      let fresh = (revalidate_iff at expected).1 i.current in
      let own = claimed_later st.ledger i.ledger made refl i.claimed in
      rw (verify, presented, i.analyzed, same_plan, found, governed, disclosed, fresh, own) refl

  consume-ok :
      (now : ℕ) (st : State) (auth : ExecutionAuthorization) (plan : QueryPlan)
      → Dict.has auth.authorization_id (live now st.consumed) ≡ false
      → consume now st auth plan ≡ (
        ok plan,
        record st {
          consumed = Dict.put auth.authorization_id auth.expires_at (live now st.consumed);
        },
      )
  unfolding consume
  consume-ok now st auth plan unused = rw unused refl

  accepted :
      (st st' : State) (req : Request) (commitment : Option DisclosureCommitment)
      (expected : Option GovernanceContextBinding) (auth : ExecutionAuthorization)
      (i : IsIssued a m st req commitment expected auth st') (now : ℕ) (id : String)
      → m.now ≤ now
      → now < m.now + a.ttl
      → Dict.has m.fresh_id (live now st.consumed) ≡ false
      → verify_and_consume a (later now id) st' auth req ≡ (
        ok i.plan,
        record st' {
          consumed = Dict.put auth.authorization_id auth.expires_at (live now st'.consumed);
        },
      )
  unfolding verify_and_consume unsigned_for
  accepted st st' req commitment expected auth i now id since before unused =
      let passed = verified_later st st' req commitment expected auth i now id since before in
      let unused' : Dict.has auth.authorization_id (live now st'.consumed) ≡ false =
        rw (i.signed, i.after) unused in
      let taken : verify_and_consume a (later now id) st' auth req ≡ consume now st' auth i.plan =
        rw (i.signed, i.after) (rw (verify_and_consume, passed) refl) in
      taken ∙ consume-ok now st' auth i.plan unused'

  pub issue-verify_and_consume :
      (st st' : State) (req : Request) (commitment : Option DisclosureCommitment)
      (expected : Option GovernanceContextBinding) (auth : ExecutionAuthorization)
      → issue a m st req commitment expected ≡ ok (auth, st')
      → (now : ℕ) (id : String) → m.now ≤ now
      → now < m.now + a.ttl
      → Dict.has m.fresh_id (live now st.consumed) ≡ false
      → (plan : QueryPlan) × (a.analyze_sql req.sql req.dialect ≡ some plan)
        × (verify_and_consume a (later now id) st' auth req ≡ (
          ok plan,
          record st' {
            consumed = Dict.put auth.authorization_id auth.expires_at (live now st'.consumed);
          },
        ))
  issue-verify_and_consume st st' req commitment expected auth h now id since before unused =
      let i = IsIssued-of a m st req commitment expected auth st' h in
      (
        i.plan,
        i.analyzed,
        accepted st st' req commitment expected auth i now id since before unused,
      )
