-- ===== src/Disclosure/Ledger/Operations.antt =====
-- The methods of `DisclosureLedger` in src/toxicjoin/disclosure/ledger.py over the tables.
pub mod Commit
pub mod Safety
pub mod Checked
pub mod Claims
pub mod Tests
use toxicjoin.Prelude.{
  ℕ, zero, suc, ◌+◌, String, String_eq, Bool, true, false, ◌&&◌, ◌||◌, not, is_empty, Option, none,
  some, List, [], ◌∷◌, ◌++◌, map, nat_eq, ◌==◌, any, filter, get_head?, count_if, contains,
  from_keys, length, Result, ok, raise, require, ◌>>=◌, ◌>>◌, if◌then◌else◌,
}
use toxicjoin.Disclosure.{
  DisclosureBudget, DisclosureScope, DisclosureComposition, DisclosureEvent, DisclosureEvent_eq,
  DisclosureRecord, DisclosureRecord_eq, DisclosureCommitment, DisclosureCommitment_eq,
  DisclosureCompositionEvaluation, DisclosureCompositionDecision, idempotent_replay, Externals,
}
use toxicjoin.Disclosure.Composition.{
  is_protected_release, build_composition_metadata, validate_event_composition,
  evaluate_composition_history,
}
use toxicjoin.Disclosure.Ledger.{
  LedgerError, conflict, integrity, replayed, value_error, missing_key, unique_violated,
  invalid_composition, Row, Claim, Database, lift, as_integrity, row_to_record, records_for_scope,
  existing_receipt, commitment_of, Fresh, append_event, is_authorization_id,
}

-- except sqlite3.IntegrityError: DisclosureLedgerConflict
abbrev unique_as_conflict {ℓ} : {A : Type ℓ} → Result LedgerError A → Result LedgerError A
unique_as_conflict (raise unique_violated) = raise conflict
unique_as_conflict r = r

-- except (DisclosureCompositionError, sqlite3.DatabaseError): DisclosureLedgerIntegrityError
abbrev pub unsafe_as_integrity {ℓ} : {A : Type ℓ} → Result LedgerError A → Result LedgerError A
unsafe_as_integrity (raise unique_violated) = raise integrity
unsafe_as_integrity (raise (invalid_composition e)) = raise integrity
unsafe_as_integrity r = r

pub append_new :
    Externals
    → Fresh
    → Database
    → DisclosureEvent
    → List DisclosureRecord
    → Result LedgerError (DisclosureRecord × Database)
append_new ext fresh db event history = do
  (new, rows) ← append_event ext fresh db.rows history event
  ok (new, record db { rows = rows })

-- `append`
pub append :
    Externals
    → Fresh
    → Database
    → DisclosureEvent
    → Result LedgerError (DisclosureRecord × Database)
append ext fresh db event = unique_as_conflict (do
  history ← records_for_scope ext db.rows event.scope
  found ← existing_receipt ext db.rows event.receipt_id
  elim found [
    | none ↦ append_new ext fresh db event history
    | some old ↦ if old.event == event then ok (old, db) else raise conflict
  ])

-- The event with the composition metadata of its SQL.
pub bind_event :
    Externals
    → DisclosureEvent
    → String
    → Result LedgerError (DisclosureComposition × DisclosureEvent)
bind_event ext event sql = do
  composition ← lift (build_composition_metadata ext event.semantic sql)
  ok (composition, record event { composition = some composition })

abbrev decide_as :
    DisclosureCompositionEvaluation → Option DisclosureCommitment → DisclosureCompositionDecision
decide_as e commitment = record {
  allowed = e.allowed;
  rule = e.rule;
  protected_release = e.protected_release;
  prior_protected_count = e.prior_protected_count;
  commitment = commitment;
}

pub protected_count : List DisclosureRecord → ℕ
protected_count history = count_if (λ r. is_protected_release r.event.semantic) history

-- The receipt is in the table already.
pub replay :
    Database
    → DisclosureComposition
    → DisclosureEvent
    → List DisclosureRecord
    → DisclosureRecord
    → Result LedgerError (DisclosureCompositionDecision × Database)
replay db composition event history old = do
  require (old.event == event) conflict
  require (contains old history) integrity
  ok (
    record {
      allowed = true;
      rule = idempotent_replay;
      protected_release = composition.protected_release;
      prior_protected_count = protected_count history;
      commitment = some (commitment_of old);
    },
    db,
  )

-- The receipt is new: the policy decides, and an allowed release is appended.
pub release :
    Externals
    → DisclosureBudget
    → ℕ
    → Fresh
    → Database
    → DisclosureEvent
    → List DisclosureRecord
    → Result LedgerError (DisclosureCompositionDecision × Database)
release ext budget now fresh db event history = do
  evaluation ← lift (evaluate_composition_history budget now history event)
  if not evaluation.allowed then ok (decide_as evaluation none, db) else do
    (new, db') ← append_new ext fresh db event history
    ok (decide_as evaluation (some (commitment_of new)), db')

-- The transaction of `evaluate_and_commit`; `now` is the clock of the evaluation.
pub commit_bound :
    Externals
    → DisclosureBudget
    → ℕ
    → Fresh
    → Database
    → DisclosureComposition
    → DisclosureEvent
    → Result LedgerError (DisclosureCompositionDecision × Database)
commit_bound ext budget now fresh db composition event = do
  history ← records_for_scope ext db.rows event.scope
  found ← existing_receipt ext db.rows event.receipt_id
  elim found [
    | none ↦ release ext budget now fresh db event history
    | some old ↦ replay db composition event history old
  ]

-- `evaluate_and_commit`
pub evaluate_and_commit :
    Externals
    → DisclosureBudget
    → ℕ
    → Fresh
    → Database
    → DisclosureEvent
    → String
    → Result LedgerError (DisclosureCompositionDecision × Database)
evaluate_and_commit ext budget now fresh db event sql = do
  (composition, bound) ← bind_event ext event sql
  lift (validate_event_composition bound)
  unsafe_as_integrity (commit_bound ext budget now fresh db composition bound)

pub check_only :
    DisclosureCommitment
    → DisclosureEvent
    → List DisclosureRecord
    → Result LedgerError DisclosureRecord
check_only commitment bound (r ∷ []) = do
  require (r.event == bound) integrity
  require (commitment_of r == commitment) integrity
  ok r
check_only commitment bound rs = raise integrity

-- `verify_commitment`
pub verify_commitment :
    Externals
    → Database
    → DisclosureCommitment
    → DisclosureEvent
    → String
    → Result LedgerError DisclosureRecord
verify_commitment ext db commitment event sql = do
  (composition, bound) ← bind_event ext event sql
  history ← records_for_scope ext db.rows bound.scope
  check_only commitment bound (filter (λ r. r.event.receipt_id == commitment.receipt_id) history)

-- `_record_for_commitment_connection`
pub record_for_commitment :
    Externals → Database → DisclosureCommitment → Result LedgerError DisclosureRecord
record_for_commitment ext db commitment =
    elim (get_head? (filter (λ row. row.record_id == commitment.record_id) db.rows)) [
      | none ↦ raise integrity
      | some row ↦ do
        r ← row_to_record ext row
        require (commitment_of r == commitment) integrity
        ok r
    ]

abbrev pub claims_of : String → List Claim → List Claim
claims_of record_id claims = filter (λ c. c.record_id == record_id) claims

-- `claim_commitment`
pub claim_commitment :
    Externals → Database → DisclosureCommitment → String → Result LedgerError Database
claim_commitment ext db commitment authorization_id = do
  require (is_authorization_id authorization_id) value_error
  r ← record_for_commitment ext db commitment
  require (is_empty (claims_of commitment.record_id db.claims)) replayed
  require
      (not
        (any (λ c. c.record_id == r.record_id || c.authorization_id == authorization_id) db.claims))
      replayed
  ok (record db {
    claims =
        db.claims
        ++ record {
          record_id = r.record_id;
          authorization_id = authorization_id;
          receipt_id = r.event.receipt_id;
          commitment_content_sha256 = r.content_sha256;
        }
          ∷ [];
  })

-- `verify_authorization_claim`
pub verify_authorization_claim :
    Externals → Database → DisclosureCommitment → String → Result LedgerError (Unit {0})
verify_authorization_claim ext db commitment authorization_id = do
  require (is_authorization_id authorization_id) integrity
  r ← record_for_commitment ext db commitment
  elim (get_head? (claims_of commitment.record_id db.claims)) [
    | none ↦ raise integrity
    | some claim ↦
        require
          (claim.authorization_id == authorization_id
            && claim.receipt_id == commitment.receipt_id
            && claim.commitment_content_sha256 == commitment.content_sha256
            && r.content_sha256 == commitment.content_sha256)
          integrity
  ]

-- `read_receipt`
pub read_receipt : Externals → Database → String → Result LedgerError DisclosureRecord
read_receipt ext db receipt_id = do
  found ← existing_receipt ext db.rows receipt_id
  elim found [ none ↦ raise missing_key | some r ↦ ok r ]

-- The loop of `verify_all` over the distinct scopes.
pub count_scopes : Externals → List Row → ℕ → List String → Result LedgerError ℕ
count_scopes ext rows count [] = ok count
count_scopes ext rows count (scope_hash ∷ rest) =
    let go_on = λ (n : ℕ). count_scopes ext rows n rest in
    elim (get_head? (filter (λ row. row.scope_sha256 == scope_hash) rows)) [
      | none ↦ go_on count
      | some row ↦ do
        first ← row_to_record ext row
        records ← records_for_scope ext rows first.event.scope
        go_on (count + length records)
    ]

-- `_verify_all_claims`
pub verify_all_claims : Externals → List Row → List Claim → Result LedgerError (Unit {0})
verify_all_claims ext rows [] = ok tt
verify_all_claims ext rows (c ∷ claims) =
    let rest = verify_all_claims ext rows claims in
    elim (get_head? (filter (λ row. row.record_id == c.record_id) rows)) [
      | none ↦ raise integrity
      | some row ↦ do
        r ← row_to_record ext row
        require
            (is_authorization_id c.authorization_id
              && c.receipt_id == r.event.receipt_id
              && c.commitment_content_sha256 == r.content_sha256)
            integrity
        rest
    ]

-- `verify_all`
pub verify_all : Externals → Database → Result LedgerError ℕ
verify_all ext db = do
  count ← count_scopes ext db.rows 0 (from_keys [] (map (λ row. row.scope_sha256) db.rows))
  verify_all_claims ext db.rows db.claims
  ok count
