-- ===== src/Disclosure/Ledger/Operations/Claims.antt =====
-- The claims of `claim_commitment` and `verify_authorization_claim` in
-- src/toxicjoin/disclosure/ledger.py.
use toxicjoin.Prelude.{
  ◌≡◌, ◌↔◌, false≢true, inl, inr, refl, sym, ap, ◌∙◌, String, String_eq, Bool, true, false, ◌&&◌,
  ◌||◌, not, is_empty, some, List, [], ◌∷◌, ◌++◌, arith, ◌==◌, ==_self, any, any-append, filter,
  filter-append, get_head?, ok, raise, require, >>=-eq-ok, require-eq-ok, ok-injective,
  Option-cases,
}
use toxicjoin.Disclosure.{
  DisclosureCommitment, DisclosureCommitment_eq, DisclosureEvent, DisclosureRecord, Externals,
}
use toxicjoin.Disclosure.Ledger.{
  integrity, replayed, value_error, Claim, Database, row_to_record, commitment_of,
  is_authorization_id,
}
use toxicjoin.Disclosure.Ledger.Operations.{
  claims_of, verify_commitment, record_for_commitment, claim_commitment, verify_authorization_claim,
}

abbrev claim_of : DisclosureRecord → String → Claim
claim_of r authorization_id = record {
  record_id = r.record_id;
  authorization_id = authorization_id;
  receipt_id = r.event.receipt_id;
  commitment_content_sha256 = r.content_sha256;
}

head-of-empty :
    (xs : List Claim) (c : Claim) → is_empty xs ≡ true → get_head? (xs ++ c ∷ []) ≡ some c
head-of-empty [] c e = refl
head-of-empty (x ∷ xs) c e = absurd (ground arith)

is_empty-end : (xs : List Claim) (c : Claim) → is_empty (xs ++ c ∷ []) ≡ false
is_empty-end [] c = refl
is_empty-end (x ∷ xs) c = refl

is_empty-append : (xs ys : List Claim) → is_empty xs ≡ false → is_empty (xs ++ ys) ≡ false
is_empty-append [] ys h = absurd (ground arith)
is_empty-append (x ∷ xs) ys h = refl

claims_of-end :
    (record_id : String) (claims : List Claim) (c : Claim)
    → c.record_id ≡ record_id
    → claims_of record_id (claims ++ c ∷ []) ≡ claims_of record_id claims ++ c ∷ []
claims_of-end record_id claims c e =
    rw (filter-append (λ (x : Claim). x.record_id == record_id) claims (c ∷ []))
      (ground (arith, (String_eq.beq_iff c.record_id record_id).1 e))

any-end :
    (p : Claim → Bool) (xs : List Claim) (c : Claim) → p c ≡ true → any p (xs ++ c ∷ []) ≡ true
any-end p xs c e = rw (any-append p xs (c ∷ [])) (ground arith)

-- The claim's columns are those of the commitment.
accepts :
    (r : DisclosureRecord) {commitment : DisclosureCommitment} {authorization_id : String}
    (other : String)
    → other ≡ authorization_id
    → commitment_of r ≡ commitment
    → require
        (authorization_id == other
          && r.event.receipt_id == commitment.receipt_id
          && r.content_sha256 == commitment.content_sha256
          && r.content_sha256 == commitment.content_sha256)
        integrity
      ≡ ok tt
unfolding commitment_of
accepts r {commitment} {authorization_id} other e same =
    let receipt =
      (String_eq.beq_iff r.event.receipt_id commitment.receipt_id).1
        (ap (λ c. c.receipt_id) same) in
    let content =
      (String_eq.beq_iff r.content_sha256 commitment.content_sha256).1
        (ap (λ c. c.content_sha256) same) in
    let id = (String_eq.beq_iff authorization_id other).1 (sym e) in rw (id, receipt, content) refl

module _ (ext : Externals) where
  -- A stored record that a commitment finds is the one it was made of.
  record_for_commitment-eq-ok :
      (db : Database) (commitment : DisclosureCommitment) (r : DisclosureRecord)
      → record_for_commitment ext db commitment ≡ ok r
      → commitment_of r ≡ commitment
  unfolding record_for_commitment
  record_for_commitment-eq-ok db commitment r h =
      elim (Option-cases
        (get_head? (filter (λ row. row.record_id == commitment.record_id) db.rows))) [
          | inl missing ↦ absurd (ground (arith, (rw (record_for_commitment, missing) at h)))
          | inr (row, there) ↦
              let h1 = rw (record_for_commitment, there) at h in
              let (x, stored, h2) = >>=-eq-ok (row_to_record ext row) _ h1 in
              let (u, same, h3) =
                >>=-eq-ok (require (commitment_of x == commitment) integrity) _ h2 in
              ap commitment_of (sym (ok-injective x r h3))
              ∙ (DisclosureCommitment_eq.beq_iff (commitment_of x) commitment).0
                  (require-eq-ok _ integrity same)
        ]

  record_for_commitment-rows :
      (db db' : Database) (commitment : DisclosureCommitment)
      → db'.rows ≡ db.rows
      → record_for_commitment ext db' commitment ≡ record_for_commitment ext db commitment
  unfolding record_for_commitment
  record_for_commitment-rows db db' commitment e = rw e refl

  -- What a claim that returned has checked and written.
  claim-eq-ok :
      (db db' : Database) (commitment : DisclosureCommitment) (authorization_id : String)
      → claim_commitment ext db commitment authorization_id ≡ ok db'
      → (r : DisclosureRecord) × (is_authorization_id authorization_id ≡ true)
        × (record_for_commitment ext db commitment ≡ ok r)
        × (commitment_of r ≡ commitment)
        × (is_empty (claims_of commitment.record_id db.claims) ≡ true)
        × (db' ≡ record db { claims = db.claims ++ claim_of r authorization_id ∷ [] })
  unfolding claim_commitment
  claim-eq-ok db db' commitment authorization_id h =
      let (u, valid, h1) =
        >>=-eq-ok (require (is_authorization_id authorization_id) value_error) _ h in
      let (r, found, h2) = >>=-eq-ok (record_for_commitment ext db commitment) _ h1 in
      let (v, free, h3) =
        >>=-eq-ok (require (is_empty (claims_of commitment.record_id db.claims)) replayed) _ h2 in
      let (w, unused, h4) =
        >>=-eq-ok
          (require
            (not (
              any (λ c. c.record_id == r.record_id || c.authorization_id == authorization_id)
                db.claims))
            replayed)
          _ h3 in
      (
        r,
        require-eq-ok _ value_error valid,
        found,
        record_for_commitment-eq-ok db commitment r found,
        require-eq-ok _ replayed free,
        sym (ok-injective _ db' h4),
      )

  -- No claim of a record is there yet when one is made, and it is the last afterwards.
  pub claim-fresh :
      (db db' : Database) (commitment : DisclosureCommitment) (authorization_id : String)
      → claim_commitment ext db commitment authorization_id ≡ ok db'
      → is_empty (claims_of commitment.record_id db.claims) ≡ true
  claim-fresh db db' commitment authorization_id h =
      let (r, valid, found, same, free, new) = claim-eq-ok db db' commitment authorization_id h in
      free

  -- A claim removes none.
  pub claim-keeps :
      (db db' : Database) (commitment : DisclosureCommitment) (authorization_id : String)
      → claim_commitment ext db commitment authorization_id ≡ ok db'
      → (record_id : String) → is_empty (claims_of record_id db.claims) ≡ false
      → is_empty (claims_of record_id db'.claims) ≡ false
  claim-keeps db db' commitment authorization_id h record_id there =
      let (r, valid, found, same, free, new) = claim-eq-ok db db' commitment authorization_id h in
      rw new (
        rw
          (filter-append (λ (x : Claim). x.record_id == record_id) db.claims
            (claim_of r authorization_id ∷ []))
          (is_empty-append (claims_of record_id db.claims) _ there))

  module _ (db db' : Database) (commitment : DisclosureCommitment) (authorization_id : String)
      (claimed : claim_commitment ext db commitment authorization_id ≡ ok db') where
    claims_after :
        (r : DisclosureRecord) × (is_authorization_id authorization_id ≡ true)
        × (record_for_commitment ext db' commitment ≡ ok r)
        × (commitment_of r ≡ commitment)
        × (is_empty (claims_of commitment.record_id db.claims) ≡ true)
        × (db'.claims ≡ db.claims ++ claim_of r authorization_id ∷ [])
        × (claims_of commitment.record_id db'.claims
            ≡ claims_of commitment.record_id db.claims ++ claim_of r authorization_id ∷ [])
    unfolding commitment_of
    claims_after =
        let (r, valid, found, same, free, new) =
          claim-eq-ok db db' commitment authorization_id claimed in
        (
          r,
          valid,
          record_for_commitment-rows db db' commitment (rw new refl) ∙ found,
          same,
          free,
          rw new refl,
          rw new (
              claims_of-end commitment.record_id db.claims (claim_of r authorization_id)
                (ap (λ c. c.record_id) same)),
        )

    pub claim-there : is_empty (claims_of commitment.record_id db'.claims) ≡ false
    claim-there =
        let (r, valid, found, same, free, new, mine) = claims_after in
        rw mine
          (is_empty-end (claims_of commitment.record_id db.claims) (claim_of r authorization_id))

    -- A claim changes no row, so commitments verify as before.
    pub verify_commitment-claim :
        (commitment' : DisclosureCommitment) (event : DisclosureEvent) (sql : String)
        → verify_commitment ext db' commitment' event sql
          ≡ verify_commitment ext db commitment' event sql
    unfolding verify_commitment
    verify_commitment-claim commitment' event sql =
        let (r, valid, found, same, free, new) =
          claim-eq-ok db db' commitment authorization_id claimed in
        rw new refl

    -- A commitment that was claimed is not claimed again: every further attempt with a well-formed
    -- authorization is refused as a replay.
    pub claim_once :
        (other : String)
        → is_authorization_id other ≡ true
        → claim_commitment ext db' commitment other ≡ raise replayed
    unfolding claim_commitment
    claim_once other valid' =
        let (r, valid, found, same, free, new, mine) = claims_after in
        rw
          (
            valid',
            found,
            mine,
            is_empty-end (claims_of commitment.record_id db.claims) (claim_of r authorization_id),
          )
          refl

    -- The authorization of a claim makes no other claim, of this or of any other commitment.
    pub claim_not_shared :
        (commitment' : DisclosureCommitment) (db'' : Database)
        → ¬ (claim_commitment ext db' commitment' authorization_id ≡ ok db'')
    unfolding claim_commitment
    claim_not_shared commitment' db'' again =
        let (r, valid, found, same, free, new, mine) = claims_after in
        let (u, valid', h1) =
          >>=-eq-ok (require (is_authorization_id authorization_id) value_error) _ again in
        let (r', found', h2) = >>=-eq-ok (record_for_commitment ext db' commitment') _ h1 in
        let (v, free', h3) =
          >>=-eq-ok (require (is_empty (claims_of commitment'.record_id db'.claims)) replayed) _
            h2 in
        let (w, unused, h4) =
          >>=-eq-ok
            (require
              (not (
                any (λ c. c.record_id == r'.record_id || c.authorization_id == authorization_id)
                  db'.claims))
              replayed)
            _ h3 in
        let taken : Claim → Bool =
          λ c. c.record_id == r'.record_id || c.authorization_id == authorization_id in
        let test : not (any taken db'.claims) ≡ true = require-eq-ok _ replayed unused in
        let clash : any taken db'.claims ≡ true = rw new (
          any-end taken db.claims (claim_of r authorization_id)
            (ground (arith, ==_self authorization_id))) in
        false≢true (sym (ap not clash) ∙ test)

    -- A claimed commitment verifies for the authorization that claimed it, and for no other.
    pub verify-claim :
        (other : String)
        → (verify_authorization_claim ext db' commitment other ≡ ok tt) ↔ (other ≡ authorization_id)
    unfolding verify_authorization_claim
    verify-claim other =
        let (r, valid, found, same, free, new, mine) = claims_after in
        let first =
          ap get_head? mine
          ∙ head-of-empty (claims_of commitment.record_id db.claims) (claim_of r authorization_id)
              free in
        (
          λ h.
              let (u, valid', h1) = >>=-eq-ok (require (is_authorization_id other) integrity) _ h in
              let (r', found', h2) = >>=-eq-ok (record_for_commitment ext db' commitment) _ h1 in
              let h3 = rw first at h2 in
              let test = require-eq-ok _ integrity h3 in
              let t : (authorization_id == other) ≡ true = ground (arith, test) in
              sym ((String_eq.beq_iff authorization_id other).0 t),
          λ e. rw (e, valid, found, first) (accepts r other e same),
        )
