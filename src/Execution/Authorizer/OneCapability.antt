-- ===== src/Execution/Authorizer/OneCapability.antt =====
-- The capabilities that `issue` of src/toxicjoin/execute/authorization.py gives for one disclosure
-- commitment.
use toxicjoin.Prelude.{
  ◌≡◌, false≢true, refl, sym, ◌∙◌, subst, String_eq, Bool-cases, inl, inr, false, Option, none,
  some, List, [], ◌∷◌, is_empty, ok, Result-cases, ok-injective,
}
use toxicjoin.Prelude.Dict
use toxicjoin.Context.{GovernanceContextBinding}
use toxicjoin.Disclosure.{DisclosureCommitment}
use toxicjoin.Disclosure.Ledger.{Database}
use toxicjoin.Disclosure.Ledger.Operations.{claims_of}
use toxicjoin.Disclosure.Ledger.Operations.Claims.{claim-fresh, claim-keeps, claim-there}
use toxicjoin.Execution.{ExecutionAuthorization, Request, Moment, State}
use toxicjoin.Execution.Authorizer.{
  Authority, issue, verify, consume, live, verify_and_consume, claim_for,
}
use toxicjoin.Execution.Authorizer.Issued.{IsIssued-of}
use toxicjoin.Execution.Authorizer.RoundTrip.{claim_for-eq-ok}
use toxicjoin.Execution.Authorizer.SingleUse.{Call, issuing, verifying, step, run}

-- A capability has claimed the commitment.
record IsClaimed (c : DisclosureCommitment) (ledger : Option Database) : Type 0 where
  db : Database
  there : ledger ≡ some db
  claimed : is_empty (claims_of c.record_id db.claims) ≡ false

module _ (a : Authority) where
  verify-ledger :
      (m : Moment) (st : State) (auth : ExecutionAuthorization) (req : Request)
      → (verify_and_consume a m st auth req).1.ledger ≡ st.ledger
  unfolding verify_and_consume consume
  verify-ledger m st auth req = elim (Result-cases (verify a m st.ledger auth req)) [
    | inl (plan, passed) ↦
        rw (verify_and_consume, passed)
          (elim (Bool-cases (Dict.has auth.authorization_id (live m.now st.consumed))) [
            | inl used ↦ rw (consume, used) refl
            | inr unused ↦ rw (consume, unused) refl
          ])
    | inr (e, failed) ↦ rw (verify_and_consume, failed) refl
  ]

  IsClaimed-claim :
      (c : DisclosureCommitment) (m : Moment) (ledger ledger' : Option Database)
      (commitment : Option DisclosureCommitment)
      → claim_for a m ledger commitment ≡ ok ledger'
      → IsClaimed c ledger
      → IsClaimed c ledger'
  unfolding claim_for
  IsClaimed-claim c m ledger ledger' none h t =
      subst (IsClaimed c) (ok-injective ledger ledger' h) t
  IsClaimed-claim c m ledger ledger' (some d) h t =
      let (db, db', there, there', taken) = claim_for-eq-ok a m ledger ledger' d h in
      let same : t.db ≡ db = let own = t.there in cc in
      record {
        db = db';
        there = there';
        claimed =
            claim-keeps a.disclosure db db' d m.fresh_id taken c.record_id
              (subst (λ x. is_empty (claims_of c.record_id x.claims) ≡ false) same t.claimed);
      }

  IsClaimed-run :
      (c : DisclosureCommitment) (st : State) (cs : List Call)
      → IsClaimed c st.ledger
      → IsClaimed c (run a st cs).ledger
  IsClaimed-run c st [] t = t
  IsClaimed-run c st (verifying m auth req ∷ cs) t =
      IsClaimed-run c (step a st (verifying m auth req)) cs
        (subst (IsClaimed c) (sym (verify-ledger m st auth req)) t)
  IsClaimed-run c st (issuing m req commitment expected ∷ cs) t =
      IsClaimed-run c (step a st (issuing m req commitment expected)) cs
        (elim (Result-cases (issue a m st req commitment expected)) [
          | inl ((made, st'), passed) ↦
              let i = IsIssued-of a m st req commitment expected made st' passed in
              let t' = IsClaimed-claim c m st.ledger i.ledger commitment i.claimed t in
              rw (step, passed, i.after) t'
          | inr (e, failed) ↦ rw (step, failed) t
        ])

  -- A disclosure commitment gives one capability: once `issue` returned one for it, no later call of
  -- `issue` returns another, whatever calls of `issue` and `verify_and_consume` come between.
  pub issue_once :
      (m : Moment) (st st' : State) (req : Request) (c : DisclosureCommitment)
      (expected : Option GovernanceContextBinding) (auth : ExecutionAuthorization)
      → issue a m st req (some c) expected ≡ ok (auth, st')
      → (cs : List Call) (m' : Moment) (req' : Request)
        (expected' : Option GovernanceContextBinding) (auth' : ExecutionAuthorization)
        (st'' : State)
      → ¬ (issue a m' (run a st' cs) req' (some c) expected' ≡ ok (auth', st''))
  issue_once m st st' req c expected auth h cs m' req' expected' auth' st'' again =
      let i = IsIssued-of a m st req (some c) expected auth st' h in
      let (db, db', there, there', taken) = claim_for-eq-ok a m st.ledger i.ledger c i.claimed in
      let first : IsClaimed c st'.ledger = rw i.after (record {
        db = db';
        there = there';
        claimed = claim-there a.disclosure db db' c m.fresh_id taken;
      }) in
      let t = IsClaimed-run c st' cs first in
      let j = IsIssued-of a m' (run a st' cs) req' (some c) expected' auth' st'' again in
      let (d, d', here, here', retaken) =
        claim_for-eq-ok a m' (run a st' cs).ledger j.ledger c j.claimed in
      let same : t.db ≡ d = let own = t.there in cc in
      let free = claim-fresh a.disclosure d d' c m'.fresh_id retaken in
      let taken_already =
        subst (λ x. is_empty (claims_of c.record_id x.claims) ≡ false) same t.claimed in
      false≢true (sym taken_already ∙ free)
