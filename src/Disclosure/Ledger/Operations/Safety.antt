-- ===== src/Disclosure/Ledger/Operations/Safety.antt =====
-- The rows, the claims and the budget before and after `evaluate_and_commit` of
-- src/toxicjoin/disclosure/ledger.py.
use toxicjoin.Prelude.{
  ℕ, suc, ◌≤◌, ◌≡◌, ◌⊎◌, inl, inr, refl, sym, ap, ◌∙◌, subst, String, String_eq, Bool, true, false,
  Option, none, some, List, [], ◌∷◌, ◌++◌, ◌==◌, arith, count_if-append, filter, get_head?, In,
  In-end, filter-In, List-cases, Option-cases, Bool-cases, Result, ok, ◌>>=◌, >>=-eq-ok,
  ok-injective,
}
use toxicjoin.Disclosure.{
  DisclosureBudget, DisclosureEvent, DisclosureRecord, DisclosureCompositionDecision, Externals,
}
use toxicjoin.Disclosure.Composition.{is_protected_release}
use toxicjoin.Disclosure.Composition.Budget.{
  active_protected, counts, counts_cases, evaluate-allowed_iff,
}
use toxicjoin.Disclosure.Ledger.{
  LedgerError, Row, Database, Fresh, records_for_scope, row_to_record, existing_receipt,
  commitment_of, row_of, new_record,
}
use toxicjoin.Disclosure.Ledger.Rows.{append_event-eq-ok, row_to_record-new_record}
use toxicjoin.Disclosure.Ledger.Chain.{new_row, read_back}
use toxicjoin.Disclosure.Ledger.Operations.{evaluate_and_commit}
use toxicjoin.Disclosure.Ledger.Operations.Commit.{blocked, appended, repeated, commit-Outcome}

-- The decision is a refusal, which leaves the database alone, or a release with the commitment of a
-- record of its receipt: a row of the table reads as that record, and the rows are as they were or that
-- row became the last.
pub data Kept (ext : Externals) (db : Database) (event : DisclosureEvent)
    (d : DisclosureCompositionDecision) (db' : Database) : Type 0 where
  refused : d.allowed ≡ false → d.commitment ≡ none → db' ≡ db → Kept ext db event d db'
  stored :
      (r : DisclosureRecord) (row : Row)
      → d.allowed ≡ true
      → d.commitment ≡ some (commitment_of r)
      → r.event.receipt_id ≡ event.receipt_id
      → In row db'.rows
      → row_to_record ext row ≡ ok r
      → db'.claims ≡ db.claims
      → (db'.rows ≡ db.rows) ⊎ (db'.rows ≡ db.rows ++ row ∷ [])
      → Kept ext db event d db'

head-In :
    (p : Row → Bool) (row : Row) (rows : List Row)
    → get_head? (filter p rows) ≡ some row
    → In row rows
head-In p row rows h = elim (List-cases (filter p rows)) [
  | inl empty ↦ let h' : ◌≡◌ {A = Option Row} none (some row) = rw empty at h in cc
  | inr (first, rest, some_) ↦
      let h' : ◌≡◌ {A = Option Row} (some first) (some row) = rw some_ at h in
      let same : row ≡ first = cc in
      filter-In p row rows (subst (λ xs. In row xs) (sym some_) (inl same))
]

-- A receipt that is found is in the table.
existing-In :
    (ext : Externals) (rows : List Row) (receipt_id : String) (old : DisclosureRecord)
    → existing_receipt ext rows receipt_id ≡ ok (some old)
    → (row : Row) × In row rows × (row_to_record ext row ≡ ok old)
unfolding existing_receipt
existing-In ext rows receipt_id old h =
    elim (Option-cases (get_head? (filter (λ (row : Row). row.receipt_id == receipt_id) rows))) [
      | inl missing ↦
          let h' : ◌≡◌ {A = Result LedgerError (Option DisclosureRecord)} (ok none)
              (ok (some old)) =
            rw missing at h in
          cc
      | inr (row, first) ↦
          let h' : (row_to_record ext row >>= λ r. ok (some r)) ≡ ok (some old) = rw first at h in
          let (r, read, last) = >>=-eq-ok (row_to_record ext row) _ h' in
          let inside = ok-injective (some r) (some old) last in
          let same : r ≡ old = cc in
          (
            row,
            head-In (λ (row : Row). row.receipt_id == receipt_id) row rows first,
            read ∙ ap ok same,
          )
    ]

-- One more record uses up at most one place, and none unless it is protected.
active-append :
    (budget : DisclosureBudget) (now : ℕ) (history : List DisclosureRecord) (new : DisclosureRecord)
    (m : ℕ)
    → active_protected budget now history ≤ m
    → (is_protected_release new.event.semantic ≡ true
        → suc (active_protected budget now history) ≤ m)
    → active_protected budget now (history ++ new ∷ []) ≤ m
active-append budget now history new m within room = elim (counts_cases budget now new) [
  | inl no_ ↦ rw (count_if-append (counts budget now) history (new ∷ [])) (ground (arith, no_))
  | inr protected ↦
      let r = room protected in
      rw (count_if-append (counts budget now) history (new ∷ []))
        (elim (Bool-cases (counts budget now new)) [
          | inl a ↦ ground (arith, a)
          | inr a ↦ ground (arith, a)
        ])
]

module _ (ext : Externals) (budget : DisclosureBudget) (now : ℕ) (fresh : Fresh) (db : Database)
    (event : DisclosureEvent) (sql : String) (d : DisclosureCompositionDecision) (db' : Database)
    (done : evaluate_and_commit ext budget now fresh db event sql ≡ ok (d, db')) where
  -- A commit that returned has either refused, with no commitment and the database as it was, or
  -- allowed, with the commitment of a record of the event's receipt that a row of the table reads as:
  -- that row was there before and no row is changed, or it is new and the last. No row and no claim is
  -- changed or removed.
  pub commit_keeps : Kept ext db event d db'
  commit_keeps =
      let (composition, history, bound, read, out) =
        commit-Outcome ext budget now fresh db event sql d db' done in
      elim out [
        | blocked e judged no_ p q ↦ refused (rw (p, no_) refl) (rw p refl) q
        | appended e new rows judged yes_ written p q ↦
            let bound = record event { composition = some composition } in
            let (a, b, c, f) = append_event-eq-ok ext fresh db.rows rows history _ new written in
            let made = new_record ext fresh db.rows history bound in
            let grown : rows ≡ db.rows ++ row_of new ∷ [] =
              b ∙ ap (λ r. db.rows ++ row_of r ∷ []) (sym a) in
            let all_rows : db'.rows ≡ db.rows ++ row_of new ∷ [] = ap (λ x. x.rows) q ∙ grown in
            stored new (row_of new) (rw (p, yes_) refl) (rw p refl)
              (ap (λ r. r.event.receipt_id) a
                ∙ ap (λ x. x.receipt_id) (new_row ext fresh db.rows history bound).1)
              (subst (λ xs. In (row_of new) xs) (sym all_rows) (In-end (row_of new) db.rows))
              (subst (λ r. row_to_record ext (row_of r) ≡ ok r) (sym a)
                (row_to_record-new_record ext fresh db.rows history bound c))
              (rw q refl) (inr all_rows)
        | repeated old found same inside p1 p2 q ↦
            let (row, there, read_) = existing-In ext db.rows _ old found in
            stored old row p1 p2 (ap (λ x. x.receipt_id) same)
              (subst (λ x. In row x.rows) (sym q) there) read_ (rw q refl) (inl (rw q refl))
      ]

  -- A commit that returned keeps the budget: if the protected releases of the scope that are inside the
  -- window at the time of the evaluation were within the budget before, they are within it after.
  pub commit_within :
      (history history' : List DisclosureRecord)
      → records_for_scope ext db.rows event.scope ≡ ok history
      → active_protected budget now history ≤ budget.max_protected_releases
      → records_for_scope ext db'.rows event.scope ≡ ok history'
      → active_protected budget now history' ≤ budget.max_protected_releases
  commit_within history history' before within after =
      let (composition, hist, bound, read, out) =
        commit-Outcome ext budget now fresh db event sql d db' done in
      let same = ok-injective hist history (sym read ∙ before) in
      elim out [
        | blocked e judged no_ p q ↦
            rw (← ok-injective history history' (sym before ∙ (rw q at after))) within
        | appended e new rows judged yes_ written p q ↦
            let back = read_back ext fresh db.rows rows hist _ new written read in
            let (a, b, c, f) = append_event-eq-ok ext fresh db.rows rows hist _ new written in
            let room = ((evaluate-allowed_iff budget now hist _ e judged).0 yes_).1 in
            rw (← ok-injective _ history' (sym back ∙ (rw q at after))) (
              active-append budget now hist new budget.max_protected_releases (rw same within)
                (rw (a, (new_row ext fresh db.rows hist _).1) room))
        | repeated old found same' inside p1 p2 q ↦
            rw (← ok-injective history history' (sym before ∙ (rw q at after))) within
      ]
