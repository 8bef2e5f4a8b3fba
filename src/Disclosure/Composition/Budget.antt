-- ===== src/Disclosure/Composition/Budget.antt =====
-- When the cumulative policy of src/toxicjoin/disclosure/composition.py allows a release.
use toxicjoin.Prelude.{
  ℕ, suc, ◌+◌, ◌≤◌, ◌≡◌, ◌↔◌, ◌⊎◌, inl, inr, refl, sym, ap, subst, ◌∙◌, String_eq, Bool, true,
  false, ◌&&◌, ◌||◌, not, some, List, [], ◌∷◌, arith, ltb, ◌==◌, Bool_eq, any, count_if, Result, ok,
  require, >>=-eq-ok, require-eq-ok, ok-injective, Option-cases, if◌then◌else◌,
}
use toxicjoin.Disclosure.{
  DisclosureBudget, DisclosureComposition, DisclosureEvent, DisclosureRecord,
  DisclosureCompositionEvaluation,
}
use toxicjoin.Disclosure.Composition.{
  DisclosureCompositionError, is_protected_release, validate_event_composition, Scan, legacy,
  counted, is_active, has_composition, scan_history, judge, evaluate_composition_history,
  family_mismatch, classification_mismatch,
}

abbrev pub is_protected : DisclosureRecord → Bool
is_protected r = is_protected_release r.event.semantic

-- A protected release from before the metadata.
pub is_legacy : DisclosureRecord → Bool
is_legacy r = is_protected r && not (has_composition r)

pub counts : DisclosureBudget → ℕ → DisclosureRecord → Bool
counts budget now r = is_protected r && is_active budget now r

-- A release that uses up room is a protected one.
pub counts_cases :
    (budget : DisclosureBudget) (now : ℕ) (r : DisclosureRecord)
    → (counts budget now r ≡ false) ⊎ (is_protected_release r.event.semantic ≡ true)
unfolding counts
counts_cases budget now r = ground arith

-- The protected releases of a history that are still inside the window.
abbrev pub active_protected : DisclosureBudget → ℕ → List DisclosureRecord → ℕ
active_protected budget now history = count_if (counts budget now) history

data Scanned (found : Bool) (total : ℕ) : Scan → Type 0 where
  is_counted : {s : Scan} → found ≡ false → s ≡ counted total → Scanned found total s
  is_old : {s : Scan} (prior : ℕ) → found ≡ true → s ≡ legacy prior → Scanned found total s

Scanned-total : {found : Bool} (m n : ℕ) {s : Scan} → m ≡ n → Scanned found m s → Scanned found n s
Scanned-total {found} m n {s} e h = subst (λ k. Scanned found k s) e h

-- One round of the loop, by its three tests.
scan_round :
    (p hc act found : Bool) (prior total : ℕ) (s : Scan)
    (rest : ℕ → Result DisclosureCompositionError Scan)
    → ((n : ℕ) → rest n ≡ ok s → Scanned found (n + total) s)
    → (if p && not hc
        then ok (legacy prior)
        else rest (if p then (if act then suc prior else prior) else prior))
      ≡ ok s
    → Scanned (p && not hc || found) (prior + (if p && act then suc total else total)) s
scan_round false hc act found prior total s rest ih h = ih prior h
scan_round true false act found prior total s rest ih h =
    is_old prior refl (sym (ok-injective (legacy prior) s h))
scan_round true true false found prior total s rest ih h = ih prior h
scan_round true true true found prior total s rest ih h =
    Scanned-total (suc prior + total) (prior + suc total) (omega arith) (ih (suc prior) h)

module _ (budget : DisclosureBudget) (now : ℕ) where
  scan_history_lem :
      (history : List DisclosureRecord) (prior : ℕ) (s : Scan)
      → scan_history budget now prior history ≡ ok s
      → Scanned (any is_legacy history) (prior + active_protected budget now history) s
  unfolding scan_history is_legacy counts
  scan_history_lem [] prior s h =
      is_counted refl (sym (ok-injective (counted prior) s h) ∙ ap counted (omega arith))
  scan_history_lem (r ∷ history) prior s h =
      let (u, valid, h') = >>=-eq-ok (validate_event_composition r.event) _ h in
      scan_round (is_protected r) (has_composition r) (is_active budget now r)
        (any is_legacy history) prior (active_protected budget now history) s
        (λ n. scan_history budget now n history) (λ n. scan_history_lem history n s) h'

  judge-allowed :
      (composition : DisclosureComposition) (found : Bool) (total : ℕ) (s : Scan)
      → Scanned found total s
      → ((judge budget composition s).allowed ≡ true) ↔ (
          (found ≡ false)
          × (composition.protected_release ≡ true → suc total ≤ budget.max_protected_releases))
  unfolding judge
  judge-allowed composition found total s (is_counted no_ e) = rw (e, judge) (ground arith)
  judge-allowed composition found total s (is_old prior yes_ e) = rw (e, judge) (ground arith)

  -- A valid candidate's metadata says of its semantics what the policy says.
  validated :
      (event : DisclosureEvent) (composition : DisclosureComposition) (u : Unit {0})
      → event.composition ≡ some composition
      → validate_event_composition event ≡ ok u
      → composition.protected_release ≡ is_protected_release event.semantic
  unfolding validate_event_composition
  validated event composition u e h =
      let h' = rw (e, validate_event_composition) at h in
      let (v, family, h'') =
        >>=-eq-ok
          (require (composition.release_family_sha256 == event.semantic.semantic_sha256)
            family_mismatch)
          _ h' in
      (Bool_eq.beq_iff composition.protected_release (is_protected_release event.semantic)).0
        (require-eq-ok _ classification_mismatch h'')

  allowed_of :
      (history : List DisclosureRecord) (candidate : DisclosureEvent)
      (composition : DisclosureComposition) (s : Scan) (e : DisclosureCompositionEvaluation)
      → scan_history budget now 0 history ≡ ok s
      → judge budget composition s ≡ e
      → composition.protected_release ≡ is_protected_release candidate.semantic
      → (e.allowed ≡ true) ↔ (
          (any is_legacy history ≡ false)
          × (is_protected_release candidate.semantic ≡ true
              → suc (active_protected budget now history) ≤ budget.max_protected_releases))
  allowed_of history candidate composition s e scanned judged same =
      rw (← judged, ← same)
        (judge-allowed composition (any is_legacy history) (active_protected budget now history) s (
          Scanned-total (0 + active_protected budget now history) _ (omega arith)
            (scan_history_lem history 0 s scanned)))

  pub evaluate-allowed_iff :
      (history : List DisclosureRecord) (candidate : DisclosureEvent)
      (e : DisclosureCompositionEvaluation)
      → evaluate_composition_history budget now history candidate ≡ ok e
      → (e.allowed ≡ true) ↔ (
          (any is_legacy history ≡ false)
          × (is_protected_release candidate.semantic ≡ true
              → suc (active_protected budget now history) ≤ budget.max_protected_releases))
  unfolding evaluate_composition_history
  evaluate-allowed_iff history candidate e h =
      let (u, valid, h') = >>=-eq-ok (validate_event_composition candidate) _ h in
      elim (Option-cases candidate.composition) [
        | inl missing ↦ absurd (ground arith)
        | inr (composition, there) ↦
            let h'' = rw there at h' in
            let (s, scanned, judged) = >>=-eq-ok (scan_history budget now 0 history) _ h'' in
            allowed_of history candidate composition s e scanned (ok-injective _ e judged)
              (validated candidate composition u there valid)
      ]

  -- The policy allows a release exactly when no protected record of the history lacks its metadata and
  -- the release is unprotected or the protected releases inside the window are fewer than the budget.
  pub evaluate-allowed :
      (history : List DisclosureRecord) (candidate : DisclosureEvent)
      (e : DisclosureCompositionEvaluation)
      → evaluate_composition_history budget now history candidate ≡ ok e
      → e.allowed ≡ (
          not (any is_legacy history)
          && (not (is_protected_release candidate.semantic)
              || ltb (active_protected budget now history) budget.max_protected_releases))
  evaluate-allowed history candidate e h =
      ground (arith, evaluate-allowed_iff history candidate e h)
