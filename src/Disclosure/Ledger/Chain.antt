-- ===== src/Disclosure/Ledger/Chain.antt =====
-- The hash chain of a scope in src/toxicjoin/disclosure/ledger.py, before and after an append.
use toxicjoin.Prelude.{
  ◌≡◌, ◌≢◌, refl, sym, ap, ◌∙◌, String, String_eq, true, Option, none, some, List, [], ◌∷◌, ◌++◌,
  arith, ◌==◌, ==_self, ==_false, filter, filter-append, get_last?, ok, require, >>=-eq-ok,
}
use mathlib.Core.List.{append-nil}
use toxicjoin.Disclosure.{DisclosureEvent, DisclosureRecord, DisclosureScope, Externals}
use toxicjoin.Disclosure.Composition.{validate_event_composition}
use toxicjoin.Disclosure.Ledger.{
  integrity, Row, OptionString_eq, same_privacy_scope, to_records, check_chain, records_for_scope,
  content_of, Fresh, new_record, row_of, append_event,
}
use toxicjoin.Disclosure.Ledger.Rows.{
  same_privacy_scope_self, row_to_record-new_record, to_records-append, append_event-eq-ok,
}

-- The hash that the next record of a chain has to name.
abbrev tip : Option String → List DisclosureRecord → Option String
tip previous [] = previous
tip previous (r ∷ rs) = tip (some r.content_sha256) rs

tip-eq-last :
    (previous : Option String) (r : DisclosureRecord) (rs : List DisclosureRecord)
    → tip previous (r ∷ rs) ≡ content_of (get_last? (r ∷ rs))
tip-eq-last previous r [] = refl
tip-eq-last previous r (s ∷ rs) = tip-eq-last (some r.content_sha256) s rs

tip-none : (rs : List DisclosureRecord) → tip none rs ≡ content_of (get_last? rs)
tip-none [] = refl
tip-none (r ∷ rs) = tip-eq-last none r rs

abbrev of_scope : String → List Row → List Row
of_scope scope_hash rows = filter (λ row. row.scope_sha256 == scope_hash) rows

of_scope-in :
    (scope_hash : String) (rows : List Row) (row : Row)
    → row.scope_sha256 ≡ scope_hash
    → of_scope scope_hash (rows ++ row ∷ []) ≡ of_scope scope_hash rows ++ row ∷ []
of_scope-in scope_hash rows row e =
    rw (filter-append (λ r. r.scope_sha256 == scope_hash) rows (row ∷ []))
      (ground (arith, (String_eq.beq_iff row.scope_sha256 scope_hash).1 e))

of_scope-out :
    (scope_hash : String) (rows : List Row) (row : Row)
    → row.scope_sha256 ≢ scope_hash
    → of_scope scope_hash (rows ++ row ∷ []) ≡ of_scope scope_hash rows
of_scope-out scope_hash rows row e =
    rw (filter-append (λ r. r.scope_sha256 == scope_hash) rows (row ∷ [])) (
      ground (arith, ==_false row.scope_sha256 scope_hash e, append-nil (of_scope scope_hash rows)))

module _ (ext : Externals) where
  check_chain-append :
      (scope : DisclosureScope) (previous : Option String) (rs : List DisclosureRecord)
      (r : DisclosureRecord)
      → check_chain ext scope previous rs ≡ ok tt
      → same_privacy_scope ext r.event.scope scope ≡ true
      → (r.previous_content_sha256 == tip previous rs) ≡ true
      → check_chain ext scope previous (rs ++ r ∷ []) ≡ ok tt
  unfolding check_chain
  check_chain-append scope previous [] r h same link = rw (same, link)
  check_chain-append scope previous (s ∷ rs) r h same link =
      let (u, a, h') =
        >>=-eq-ok (require (same_privacy_scope ext s.event.scope scope) integrity) _ h in
      let (v, b, h'') =
        >>=-eq-ok (require (s.previous_content_sha256 == previous) integrity) _ h' in
      rw (a, b) (check_chain-append scope (some s.content_sha256) rs r h'' same link)

  -- What a read that returned has checked.
  pub records_for_scope-eq-ok :
      (rows : List Row) (scope : DisclosureScope) (history : List DisclosureRecord)
      → records_for_scope ext rows scope ≡ ok history
      → (to_records ext (filter (λ row. row.scope_sha256 == scope.scope_sha256) rows) ≡ ok history)
        × (check_chain ext scope none history ≡ ok tt)
  unfolding records_for_scope
  records_for_scope-eq-ok rows scope history h =
      let (rs, read, h') =
        >>=-eq-ok (to_records ext (filter (λ row. row.scope_sha256 == scope.scope_sha256) rows)) _
          h in
      let (u, chained, h'') = >>=-eq-ok (check_chain ext scope none rs) _ h' in
      let same : rs ≡ history = cc in (read ∙ ap ok same, rw (← same) chained)

  pub new_row :
      (fresh : Fresh) (rows : List Row) (history : List DisclosureRecord) (event : DisclosureEvent)
      → ((row_of (new_record ext fresh rows history event)).scope_sha256 ≡ event.scope.scope_sha256)
        × ((new_record ext fresh rows history event).event ≡ event)
        × ((new_record ext fresh rows history event).previous_content_sha256
            ≡ content_of (get_last? history))
  unfolding row_of new_record
  new_row fresh rows history event = (refl, refl, refl)

  to_records-new :
      (fresh : Fresh) (rows : List Row) (history : List DisclosureRecord) (event : DisclosureEvent)
      → validate_event_composition event ≡ ok tt
      → to_records ext (row_of (new_record ext fresh rows history event) ∷ [])
        ≡ ok (new_record ext fresh rows history event ∷ [])
  unfolding to_records
  to_records-new fresh rows history event valid =
      rw (row_to_record-new_record ext fresh rows history event valid)

  module _ (fresh : Fresh) (rows rows' : List Row) (history : List DisclosureRecord)
      (event : DisclosureEvent) (new : DisclosureRecord)
      (written : append_event ext fresh rows history event ≡ ok (new, rows')) where
    -- After an append the scope of the event reads as its history with the new record behind it: the
    -- hashes, the index and the chain are intact.
    pub read_back :
        records_for_scope ext rows event.scope ≡ ok history
        → records_for_scope ext rows' event.scope ≡ ok (history ++ new ∷ [])
    unfolding records_for_scope
    read_back read =
        let (is_new, is_rows, valid, free) =
          append_event-eq-ok ext fresh rows rows' history event new written in
        let (row_scope, new_event, new_previous) = new_row fresh rows history event in
        let (records, chained) = records_for_scope-eq-ok rows event.scope history read in
        rw
          (
            is_rows,
            is_new,
            of_scope-in event.scope.scope_sha256 rows
                (row_of (new_record ext fresh rows history event)) row_scope,
          )
          (rw (to_records-append, records, to_records-new fresh rows history event valid)
            (rw (
              check_chain-append event.scope none history (new_record ext fresh rows history event)
                chained (rw new_event (same_privacy_scope_self ext event.scope))
                (rw (new_previous, tip-none history) (==_self (content_of (get_last? history)))))))

    -- After an append every other scope reads as before.
    pub read_elsewhere :
        (scope : DisclosureScope)
        → scope.scope_sha256 ≢ event.scope.scope_sha256
        → records_for_scope ext rows' scope ≡ records_for_scope ext rows scope
    unfolding records_for_scope
    read_elsewhere scope other =
        let (is_new, is_rows, valid, free) =
          append_event-eq-ok ext fresh rows rows' history event new written in
        let (row_scope, new_event, new_previous) = new_row fresh rows history event in
        rw (
          is_rows,
          of_scope-out scope.scope_sha256 rows (row_of (new_record ext fresh rows history event))
              (λ e. other (sym e ∙ row_scope)),
        )
