-- ===== src/Disclosure/Composition.antt =====
-- src/toxicjoin/disclosure/composition.py: the cumulative-release policy of one privacy scope.
pub mod Budget
use toxicjoin.Prelude.{
  ℕ, suc, ◌+◌, String, String_eq, Bool, true, false, not, ◌&&◌, ◌||◌, Option, none, some, List, [],
  ◌∷◌, leb, nat_eq, ◌==◌, Bool_eq, any, contains, is_empty, Result, ok, raise, require, ◌>>=◌, ◌>>◌,
  if◌then◌else◌,
}
use toxicjoin.Models.{
  SensitivityCategory, direct_identifier, stable_pseudonym, quasi_identifier, sensitive_attribute,
  Category_eq,
}
use toxicjoin.Disclosure.{
  CompositionRule, unprotected_release, first_protected_release, protected_release_within_budget,
  cumulative_budget_exhausted, legacy_history_block, DisclosureBudget, DisclosureSemanticRelease,
  DisclosureComposition, DisclosureEvent, DisclosureRecord, DisclosureCompositionEvaluation,
  Externals,
}

abbrev pub protected_categories : List SensitivityCategory
protected_categories =
    direct_identifier ∷ stable_pseudonym ∷ quasi_identifier ∷ sensitive_attribute ∷ []

pub data DisclosureCompositionError : Type 0 where
  unable_to_parse : DisclosureCompositionError
  family_mismatch : DisclosureCompositionError
  classification_mismatch : DisclosureCompositionError
  missing_composition : DisclosureCompositionError

unfoldable pub is_protected_release : DisclosureSemanticRelease → Bool
is_protected_release semantic =
    not (is_empty semantic.aggregate_functions)
    || any (λ output. any (λ source. contains source.category protected_categories) output.sources)
        semantic.outputs

-- The ledger's key has 32 bytes, so the guard on the length of the key passes.
unfoldable pub build_composition_metadata :
    Externals
    → DisclosureSemanticRelease
    → String
    → Result DisclosureCompositionError DisclosureComposition
build_composition_metadata ext semantic sql = elim (ext.canonicalize_cohort_sql sql) [
  | none ↦ raise unable_to_parse
  | some canonical ↦ ok (record {
    protected_release = is_protected_release semantic;
    release_family_sha256 = semantic.semantic_sha256;
    cohort_hmac_sha256 = ext.cohort_hmac canonical;
  })
]

unfoldable pub validate_event_composition :
    DisclosureEvent → Result DisclosureCompositionError (Unit {0})
validate_event_composition event = elim event.composition [
  | none ↦ ok tt
  | some composition ↦ do
    require (composition.release_family_sha256 == event.semantic.semantic_sha256) family_mismatch
    require (composition.protected_release == is_protected_release event.semantic)
        classification_mismatch
]

-- How the loop over the history ends: on a protected record without metadata, or with the number of
-- protected releases inside the window.
pub data Scan : Type 0 where
  legacy : ℕ → Scan
  counted : ℕ → Scan

abbrev pub is_active : DisclosureBudget → ℕ → DisclosureRecord → Bool
is_active budget now r = not (leb (r.created_at + budget.window) now)

abbrev pub has_composition : DisclosureRecord → Bool
has_composition r = elim r.event.composition [ none ↦ false | some composition ↦ true ]

unfoldable pub scan_history :
    DisclosureBudget → ℕ → ℕ → List DisclosureRecord → Result DisclosureCompositionError Scan
scan_history budget now prior [] = ok (counted prior)
scan_history budget now prior (r ∷ history) =
    let next = if is_active budget now r then suc prior else prior in
    let rest =
      scan_history budget now (if is_protected_release r.event.semantic then next else prior)
        history in
    validate_event_composition r.event
    >> (if is_protected_release r.event.semantic && not (has_composition r)
        then ok (legacy prior)
        else rest)

-- What the function returns after the loop.
unfoldable pub judge :
    DisclosureBudget → DisclosureComposition → Scan → DisclosureCompositionEvaluation
judge budget composition (legacy prior) = record {
  allowed = false;
  rule = legacy_history_block;
  protected_release = composition.protected_release;
  prior_protected_count = prior + 1;
}
judge budget composition (counted prior) =
    if not composition.protected_release
    then record {
      allowed = true;
      rule = unprotected_release;
      protected_release = false;
      prior_protected_count = prior;
    }
    else if leb budget.max_protected_releases prior
    then record {
      allowed = false;
      rule = cumulative_budget_exhausted;
      protected_release = true;
      prior_protected_count = prior;
    }
    else record {
      allowed = true;
      rule = if nat_eq prior 0 then first_protected_release else protected_release_within_budget;
      protected_release = true;
      prior_protected_count = prior;
    }

unfoldable pub evaluate_composition_history :
    DisclosureBudget
    → ℕ
    → List DisclosureRecord
    → DisclosureEvent
    → Result DisclosureCompositionError DisclosureCompositionEvaluation
evaluate_composition_history budget now history candidate =
    validate_event_composition candidate >> elim candidate.composition [
      | none ↦ raise missing_composition
      | some composition ↦ do
        scan ← scan_history budget now 0 history
        ok (judge budget composition scan)
    ]
