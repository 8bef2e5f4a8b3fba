-- ===== src/Disclosure/Ledger/Operations/Commit.antt =====
-- The ways out of `evaluate_and_commit` in src/toxicjoin/disclosure/ledger.py.
use toxicjoin.Prelude.{
  ℕ, ◌≡◌, ◌⊎◌, inl, inr, refl, sym, ap, ◌∙◌, String, String_eq, Bool, true, false, not, none, some,
  List, ◌==◌, contains, Result, ok, raise, require, >>=-eq-ok, require-eq-ok, ok-injective,
  Option-cases, if◌then◌else◌,
}
use toxicjoin.Disclosure.{
  DisclosureBudget, DisclosureComposition, DisclosureEvent, DisclosureEvent_eq, DisclosureRecord,
  DisclosureRecord_eq, DisclosureCompositionEvaluation, DisclosureCompositionDecision, Externals,
}
use toxicjoin.Disclosure.Composition.{
  DisclosureCompositionError, build_composition_metadata, evaluate_composition_history,
  validate_event_composition,
}
use toxicjoin.Disclosure.Ledger.{
  LedgerError, conflict, integrity, unique_violated, invalid_composition, Row, Database, lift,
  records_for_scope, existing_receipt, commitment_of, Fresh, append_event,
}
use toxicjoin.Disclosure.Ledger.Operations.{
  unsafe_as_integrity, append_new, bind_event, decide_as, replay, release, commit_bound,
  evaluate_and_commit,
}

abbrev Out : Type 0
Out = DisclosureCompositionDecision × Database

abbrev out : DisclosureCompositionDecision → Database → Result LedgerError Out
out d db = let o : Out = (d, db) in ok o

safe_of {ℓ} :
    {A : Type ℓ} (r : Result LedgerError A) (a : A) → unsafe_as_integrity r ≡ ok a → r ≡ ok a
safe_of (ok b) a h = h
safe_of (raise unique_violated) a h = cc
safe_of (raise (invalid_composition e)) a h = cc
safe_of (raise e) a h = cc

lift-eq-ok {ℓ} :
    {A : Type ℓ} (r : Result DisclosureCompositionError A) (a : A) → lift r ≡ ok a → r ≡ ok a
lift-eq-ok (ok b) a h = cc
lift-eq-ok (raise e) a h = cc

-- The two parts of a result that returned.
out-eq :
    (d d' : DisclosureCompositionDecision) (db db' : Database)
    → out d db ≡ out d' db'
    → (d' ≡ d) × (db' ≡ db)
out-eq d d' db db' h = let e = ok-injective _ _ h in (sym (ap (λ o. o.0) e), sym (ap (λ o. o.1) e))

-- Which branch of a test gave the result.
branch {ℓ} :
    {A : Type ℓ} (b : Bool) (x y : A) {z : A}
    → (if not b then x else y) ≡ z
    → ((b ≡ false) × (x ≡ z)) ⊎ ((b ≡ true) × (y ≡ z))
branch false x y h = inl (refl, h)
branch true x y h = inr (refl, h)

append_new-eq-ok :
    (ext : Externals) (fresh : Fresh) (db : Database) (event : DisclosureEvent)
    (history : List DisclosureRecord) (new_db : DisclosureRecord × Database)
    → append_new ext fresh db event history ≡ ok new_db
    → (append_event ext fresh db.rows history event ≡ ok (new_db.0, new_db.1.rows))
      × (new_db.1 ≡ record db { rows = new_db.1.rows })
unfolding append_new
append_new-eq-ok ext fresh db event history new_db h =
    let (new_rows, added, h') = >>=-eq-ok (append_event ext fresh db.rows history event) _ h in
    let e = ok-injective _ new_db h' in
    (
      added ∙ ap (λ (x : DisclosureRecord × Database). ok (x.0, x.1.rows)) e,
      sym (ap (λ (x : DisclosureRecord × Database). x.1) e)
          ∙ ap (λ (x : DisclosureRecord × Database). record db { rows = x.1.rows }) e,
    )

module _ (ext : Externals) (budget : DisclosureBudget) (now : ℕ) (fresh : Fresh) (db : Database)
    (event : DisclosureEvent) (history : List DisclosureRecord) where
  -- The ways out of the transaction, with what holds on each.
  pub data Outcome (d : DisclosureCompositionDecision) (db' : Database) : Type 0 where
    blocked :
        (e : DisclosureCompositionEvaluation)
        → evaluate_composition_history budget now history event ≡ ok e
        → e.allowed ≡ false
        → d ≡ decide_as e none
        → db' ≡ db
        → Outcome d db'
    appended :
        (e : DisclosureCompositionEvaluation) (new : DisclosureRecord) (rows : List Row)
        → evaluate_composition_history budget now history event ≡ ok e
        → e.allowed ≡ true
        → append_event ext fresh db.rows history event ≡ ok (new, rows)
        → d ≡ decide_as e (some (commitment_of new))
        → db' ≡ record db { rows = rows }
        → Outcome d db'
    repeated :
        (old : DisclosureRecord)
        → existing_receipt ext db.rows event.receipt_id ≡ ok (some old)
        → old.event ≡ event
        → contains old history ≡ true
        → d.allowed ≡ true
        → d.commitment ≡ some (commitment_of old)
        → db' ≡ db
        → Outcome d db'

  release-Outcome :
      (d : DisclosureCompositionDecision) (db' : Database)
      → release ext budget now fresh db event history ≡ ok (d, db')
      → Outcome d db'
  unfolding release append_new
  release-Outcome d db' h =
      let (e, judged, h') =
        >>=-eq-ok (lift (evaluate_composition_history budget now history event)) _ h in
      elim (branch e.allowed _ _ h') [
        | inl (no_, h'') ↦
            let (p, q) = out-eq (decide_as e none) d db db' h'' in
            blocked e (lift-eq-ok _ e judged) no_ p q
        | inr (yes_, h'') ↦
            let (new_db, added, h3) = >>=-eq-ok (append_new ext fresh db event history) _ h'' in
            let (p, q) = out-eq (decide_as e (some (commitment_of new_db.0))) d new_db.1 db' h3 in
            let (written, rest) = append_new-eq-ok ext fresh db event history new_db added in
            appended e new_db.0 new_db.1.rows (lift-eq-ok _ e judged) yes_ written p (q ∙ rest)
      ]

  replay-Outcome :
      (composition : DisclosureComposition) (old : DisclosureRecord)
      (d : DisclosureCompositionDecision) (db' : Database)
      → existing_receipt ext db.rows event.receipt_id ≡ ok (some old)
      → replay db composition event history old ≡ ok (d, db')
      → Outcome d db'
  unfolding replay
  replay-Outcome composition old d db' found h =
      let (u, same, h') = >>=-eq-ok (require (old.event == event) conflict) _ h in
      let (v, inside, h'') = >>=-eq-ok (require (contains old history) integrity) _ h' in
      let (p, q) = out-eq _ _ _ _ h'' in
      repeated old found
        ((DisclosureEvent_eq.beq_iff old.event event).0 (require-eq-ok _ conflict same))
        (require-eq-ok _ integrity inside) (ap (λ x. x.allowed) p) (ap (λ x. x.commitment) p) q

commit_bound-Outcome :
    (ext : Externals) (budget : DisclosureBudget) (now : ℕ) (fresh : Fresh) (db : Database)
    (event : DisclosureEvent) (composition : DisclosureComposition)
    (d : DisclosureCompositionDecision) (db' : Database)
    → commit_bound ext budget now fresh db composition event ≡ ok (d, db')
    → (history : List DisclosureRecord) × (records_for_scope ext db.rows event.scope ≡ ok history)
      × Outcome ext budget now fresh db event history d db'
unfolding commit_bound
commit_bound-Outcome ext budget now fresh db event composition d db' h =
    let (history, read, h') = >>=-eq-ok (records_for_scope ext db.rows event.scope) _ h in
    let (found, looked, h'') = >>=-eq-ok (existing_receipt ext db.rows event.receipt_id) _ h' in
    elim (Option-cases found) [
      | inl missing ↦ (
        history,
        read,
        release-Outcome ext budget now fresh db event history d db' (rw missing at h''),
      )
      | inr (old, there) ↦ (
        history,
        read,
        replay-Outcome ext budget now fresh db event history composition old d db'
            (looked ∙ ap ok there) (rw there at h''),
      )
    ]

module _ (ext : Externals) (budget : DisclosureBudget) (now : ℕ) (fresh : Fresh) (db : Database)
    (event : DisclosureEvent) (sql : String) (d : DisclosureCompositionDecision) (db' : Database)
    (done : evaluate_and_commit ext budget now fresh db event sql ≡ ok (d, db')) where
  pub commit-Outcome :
      (composition : DisclosureComposition) × (history : List DisclosureRecord) × (bind_event ext
          event sql
        ≡ ok (composition, record event { composition = some composition }))
      × (records_for_scope ext db.rows event.scope ≡ ok history)
      × Outcome ext budget now fresh db
          (record event { composition = some composition })
          history
          d
          db'
  unfolding evaluate_and_commit bind_event
  commit-Outcome =
      let (bound, was_bound, h) = >>=-eq-ok (bind_event ext event sql) _ done in
      let (composition, built, h1) =
        >>=-eq-ok (lift (build_composition_metadata ext event.semantic sql)) _ was_bound in
      let (u, valid, h2) = >>=-eq-ok (lift (validate_event_composition bound.1)) _ h in
      let h3 = safe_of (commit_bound ext budget now fresh db bound.0 bound.1) (d, db') h2 in
      let bound_eq = ok-injective _ bound h1 in
      let h4 = rw (← bound_eq) at h3 in
      let (history, read, out) =
        commit_bound-Outcome ext budget now fresh db _ composition d db' h4 in
      (composition, history, was_bound ∙ ap ok (sym bound_eq), read, out)
