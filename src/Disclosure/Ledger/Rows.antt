-- ===== src/Disclosure/Ledger/Rows.antt =====
-- The row that an append of src/toxicjoin/disclosure/ledger.py writes, and the reading of rows.
use toxicjoin.Prelude.{
  ◌≡◌, refl, String_eq, Bool, true, not, List, [], ◌∷◌, ◌++◌, arith, ℕ_eq, ==_self, any, Result, ok,
  raise, require, ◌>>=◌,
}
use toxicjoin.Models.{Category_eq}
use toxicjoin.Disclosure.{DisclosureEvent, DisclosureRecord, DisclosureScope, Externals}
use toxicjoin.Disclosure.Composition.{DisclosureCompositionError, validate_event_composition}
use toxicjoin.Disclosure.Ledger.{
  LedgerError, Row, OptionString_eq, lift, row_to_record, same_privacy_scope, to_records, Fresh,
  new_record, row_of, clashes, unique_violated, insert_row, append_event,
}

-- The records of one list of rows behind those of another.
abbrev pub joined :
    Result LedgerError (List DisclosureRecord)
    → Result LedgerError (List DisclosureRecord)
    → Result LedgerError (List DisclosureRecord)
joined (ok rs) (ok ms) = ok (rs ++ ms)
joined (ok rs) (raise e) = raise e
joined (raise e) more = raise e

joined-nil : (more : Result LedgerError (List DisclosureRecord)) → more ≡ joined (ok []) more
joined-nil (ok ms) = refl
joined-nil (raise e) = refl

joined-cons :
    (r : Result LedgerError DisclosureRecord) (rs more : Result LedgerError (List DisclosureRecord))
    → (r >>= λ x. joined rs more >>= λ xs. ok (x ∷ xs))
      ≡ joined (r >>= λ x. rs >>= λ xs. ok (x ∷ xs)) more
joined-cons (ok x) (ok xs) (ok ms) = refl
joined-cons (ok x) (ok xs) (raise e) = refl
joined-cons (ok x) (raise e) more = refl
joined-cons (raise e) rs more = refl

module _ (ext : Externals) where
  pub same_privacy_scope_self :
      (scope : DisclosureScope) → same_privacy_scope ext scope scope ≡ true
  unfolding same_privacy_scope
  same_privacy_scope_self scope = simp ==_self

  -- The hashes, the metadata and the indexed columns of a new row are those that a reader expects.
  pub row_to_record-new_record :
      (fresh : Fresh) (rows : List Row) (history : List DisclosureRecord) (event : DisclosureEvent)
      → validate_event_composition event ≡ ok tt
      → row_to_record ext (row_of (new_record ext fresh rows history event))
        ≡ ok (new_record ext fresh rows history event)
  unfolding row_to_record row_of new_record
  row_to_record-new_record fresh rows history event valid = simp (valid, ==_self)

  pub to_records-append :
      (rows more : List Row)
      → to_records ext (rows ++ more) ≡ joined (to_records ext rows) (to_records ext more)
  unfolding to_records
  to_records-append [] more = joined-nil (to_records ext more)
  to_records-append (row ∷ rows) more =
      rw (to_records-append rows more) (joined-cons (row_to_record ext row) (to_records ext rows) _)

-- The parts of an append that returned.
append_parts :
    (valid : Result DisclosureCompositionError (Unit {0})) (free : Bool)
    (new new' : DisclosureRecord) (rows rows' : List Row)
    → (lift valid >>= λ _. (require free unique_violated >>= λ _. ok rows) >>= λ rs.
        let out : DisclosureRecord × List Row = (new, rs) in ok out)
      ≡ ok (new', rows')
    → (new' ≡ new) × (rows' ≡ rows) × (valid ≡ ok tt) × (free ≡ true)
append_parts (ok u) free new new' rows rows' h = ground arith
append_parts (raise e) free new new' rows rows' h = absurd (ground arith)

-- What an append that returned has checked and written.
pub append_event-eq-ok :
    (ext : Externals) (fresh : Fresh) (rows rows' : List Row) (history : List DisclosureRecord)
    (event : DisclosureEvent) (new : DisclosureRecord)
    → append_event ext fresh rows history event ≡ ok (new, rows')
    → (new ≡ new_record ext fresh rows history event)
      × (rows' ≡ rows ++ row_of (new_record ext fresh rows history event) ∷ [])
      × (validate_event_composition event ≡ ok tt)
      × (not (any (clashes (row_of (new_record ext fresh rows history event))) rows) ≡ true)
unfolding append_event insert_row
append_event-eq-ok ext fresh rows rows' history event new h = append_parts _ _ _ _ _ _ h
