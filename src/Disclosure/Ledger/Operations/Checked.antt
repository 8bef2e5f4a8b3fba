-- ===== src/Disclosure/Ledger/Operations/Checked.antt =====
-- `verify_commitment` of src/toxicjoin/disclosure/ledger.py after `evaluate_and_commit`.
use toxicjoin.Prelude.{
  ℕ, ◌≡◌, inl, inr, refl, sym, ap, ◌∙◌, String, String_eq, Bool, true, false, some, List, [], ◌∷◌,
  ◌++◌, arith, ◌==◌, ==_self, any, filter, filter-append, ok, require, >>=-eq-ok, require-eq-ok,
  Bool-cases, ok-injective,
}
use mathlib.Core.Option.{some-injective, none-ne-some}
use toxicjoin.Disclosure.{
  DisclosureBudget, DisclosureCommitment, DisclosureEvent, DisclosureRecord,
  DisclosureCompositionDecision, Externals,
}
use toxicjoin.Disclosure.Composition.{validate_event_composition}
use toxicjoin.Disclosure.Ledger.{
  integrity, Row, Database, Fresh, as_integrity, is_indexed, has_valid_hashes, row_to_record,
  to_records, existing_receipt, commitment_of,
}
use toxicjoin.Disclosure.Ledger.Rows.{append_event-eq-ok}
use toxicjoin.Disclosure.Ledger.Chain.{new_row, read_back, records_for_scope-eq-ok}
use toxicjoin.Disclosure.Ledger.Operations.{evaluate_and_commit, verify_commitment, check_only}
use toxicjoin.Disclosure.Ledger.Operations.Commit.{blocked, appended, repeated, commit-Outcome}

abbrev pub has_receipt : String → List Row → Bool
has_receipt receipt_id rows = any (λ row. row.receipt_id == receipt_id) rows

abbrev of_receipt : String → List DisclosureRecord → List DisclosureRecord
of_receipt receipt_id rs = filter (λ r. r.event.receipt_id == receipt_id) rs

module _ (ext : Externals) where
  row_to_record-receipt :
      (row : Row) (r : DisclosureRecord)
      → row_to_record ext row ≡ ok r
      → row.receipt_id ≡ r.event.receipt_id
  unfolding row_to_record
  row_to_record-receipt row r h =
      let (u, hashes, h1) = >>=-eq-ok (require (has_valid_hashes ext row.payload) integrity) _ h in
      let (v, valid, h2) =
        >>=-eq-ok (as_integrity (validate_event_composition row.payload.event)) _ h1 in
      let (w, indexed, h3) = >>=-eq-ok (require (is_indexed row) integrity) _ h2 in
      let i : is_indexed row ≡ true = require-eq-ok _ integrity indexed in
      let e = ok-injective _ r h3 in
      let same : (row.receipt_id == row.payload.event.receipt_id) ≡ true = ground (arith, i) in
      (String_eq.beq_iff row.receipt_id row.payload.event.receipt_id).0 same
      ∙ ap (λ x. x.event.receipt_id) e

  of_receipt-empty :
      (receipt_id : String) (p : Row → Bool) (rows : List Row) (rs : List DisclosureRecord)
      → has_receipt receipt_id rows ≡ false
      → to_records ext (filter p rows) ≡ ok rs
      → of_receipt receipt_id rs ≡ []
  unfolding to_records
  of_receipt-empty receipt_id p [] rs free h = rw (← ok-injective _ rs h) refl
  of_receipt-empty receipt_id p (row ∷ rows) rs free h =
      let no_row : (row.receipt_id == receipt_id) ≡ false = ground arith in
      let no_rest : has_receipt receipt_id rows ≡ false = ground arith in
      elim (Bool-cases (p row)) [
        | inr out ↦ of_receipt-empty receipt_id p rows rs no_rest (rw out at h)
        | inl in_ ↦
            let h0 = rw in_ at h in
            let (r, one, h1) = >>=-eq-ok (row_to_record ext row) _ h0 in
            let (ms, more, h2) = >>=-eq-ok (to_records ext (filter p rows)) _ h1 in
            rw (← ok-injective _ rs h2) (
              rw (← row_to_record-receipt row r one, no_row)
                (of_receipt-empty receipt_id p rows ms no_rest more))
      ]

  -- The first row with a receipt, when there is none.
  existing_receipt-none :
      (rows : List Row) (receipt_id : String) (old : DisclosureRecord)
      → has_receipt receipt_id rows ≡ false
      → existing_receipt ext rows receipt_id ≡ ok (some old)
      → ⊥
  unfolding existing_receipt
  existing_receipt-none [] receipt_id old free h = ground arith
  existing_receipt-none (row ∷ rows) receipt_id old free h =
      let no_row : (row.receipt_id == receipt_id) ≡ false = ground arith in
      existing_receipt-none rows receipt_id old (ground arith) (rw no_row at h)

-- The only record of its receipt passes the check against its own event and commitment.
check_only-last :
    (history : List DisclosureRecord) (new : DisclosureRecord)
    → of_receipt new.event.receipt_id history ≡ []
    → check_only
        (commitment_of new)
        new.event
        (of_receipt (commitment_of new).receipt_id (history ++ new ∷ []))
      ≡ ok new
unfolding check_only commitment_of
check_only-last history new none_ =
    rw (filter-append (λ r. r.event.receipt_id == new.event.receipt_id) history (new ∷ []), none_)
      (simp ==_self)

module _ (ext : Externals) (budget : DisclosureBudget) (now : ℕ) (fresh : Fresh) (db : Database)
    (event : DisclosureEvent) (sql : String) (d : DisclosureCompositionDecision) (db' : Database)
    (commitment : DisclosureCommitment) where
  -- A release whose receipt is new and that was committed passes the later check of its commitment,
  -- against the same event and SQL, and the check gives the record that was committed.
  pub commit_verifies :
      evaluate_and_commit ext budget now fresh db event sql ≡ ok (d, db')
      → has_receipt event.receipt_id db.rows ≡ false
      → d.commitment ≡ some commitment
      → (r : DisclosureRecord) × (commitment_of r ≡ commitment)
        × (verify_commitment ext db' commitment event sql ≡ ok r)
  unfolding verify_commitment
  commit_verifies done free committed =
      let (composition, history, bound, read, out) =
        commit-Outcome ext budget now fresh db event sql d db' done in
      elim out [
        | blocked e judged no_ p q ↦
            absurd (none-ne-some _ (sym (ap (λ x. x.commitment) p) ∙ committed))
        | appended e new rows judged yes_ written p q ↦
            let back = read_back ext fresh db.rows rows history _ new written read in
            let (a, b, c, f) = append_event-eq-ok ext fresh db.rows rows history _ new written in
            let same_commitment = some-injective _ _ (sym (ap (λ x. x.commitment) p) ∙ committed) in
            let same_event = ap (λ x. x.event) a ∙ (new_row ext fresh db.rows history _).1 in
            let same_receipt = ap (λ x. x.receipt_id) same_event in
            let (records, chained) = records_for_scope-eq-ok ext db.rows event.scope history read in
            (
              new,
              same_commitment,
              rw (bound, q, back, ← same_commitment)
                  (rw (← same_event) (
                    check_only-last history new (
                      rw same_receipt (
                        of_receipt-empty ext event.receipt_id
                          (λ row. row.scope_sha256 == event.scope.scope_sha256) db.rows history free
                          records)))),
            )
        | repeated old found same inside p1 p2 q ↦
            absurd (existing_receipt-none ext db.rows event.receipt_id old free found)
      ]
