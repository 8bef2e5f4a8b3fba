-- ===== src/Policy/Conditional.antt =====
-- What `has_protected_conditional_aggregate` of src/toxicjoin/policy/engine.py asks of a query.
use mathlib.Core.Bool.{decide}
use toxicjoin.Prelude.{
  ◌≡◌, ◌↔◌, refl, sym, inl, inr, false≢true, String_eq, Bool, true, false, Option, none, some, List,
  [], ◌∷◌, ◌==◌, any, contains, Bool-cases, arith,
}
use toxicjoin.Prelude.Dict
use toxicjoin.Models.{
  SensitivityCategory, direct_identifier, stable_pseudonym, quasi_identifier, sensitive_attribute,
  public_or_low_risk, unclassified, Category_eq, Category-discrete, ColumnRef, key, ColumnContext,
  LineageSource, ProjectionExposure, ProjectionExposureKind_eq, conditional_aggregate, PolicyInput,
}
use toxicjoin.Policy.{
  by_key, protected_categories, is_protected_source, has_protected_conditional_aggregate,
}
use toxicjoin.Policy.Categories.{All}

-- The column is there and resolved, and it and every source that it was made from is low risk.
abbrev pub IsLowRisk : Option ColumnContext → Type 0
IsLowRisk none = ⊥
IsLowRisk (some c) =
    (c.resolved ≡ true)
    × (c.category ≡ public_or_low_risk)
    × All (λ (s : LineageSource). s.category ≡ public_or_low_risk) c.lineage_sources

-- A conditional aggregate has low-risk operands only.
abbrev pub HasLowRiskOperands : PolicyInput → ProjectionExposure → Type 0
HasLowRiskOperands input e =
    e.kind ≡ conditional_aggregate
    → All (λ (r : ColumnRef). IsLowRisk (Dict.get (key r) (by_key input.projected_context)))
        e.source_columns

unprotected_iff :
    (c : SensitivityCategory) → (contains c protected_categories ≡ false) ↔ (c ≡ public_or_low_risk)
unfolding Category-discrete decide
unprotected_iff direct_identifier = ((λ h. cc), (λ h. cc))
unprotected_iff stable_pseudonym = ((λ h. cc), (λ h. cc))
unprotected_iff quasi_identifier = ((λ h. cc), (λ h. cc))
unprotected_iff sensitive_attribute = ((λ h. cc), (λ h. cc))
unprotected_iff public_or_low_risk = ((λ h. refl), (λ h. refl))
unprotected_iff unclassified = ((λ h. cc), (λ h. cc))

module _ {A : Type 0} where
  any-eq-false_iff :
      (p : A → Bool) (P : A → Type 0) (xs : List A)
      → ((x : A) → (p x ≡ false) ↔ P x)
      → (any p xs ≡ false) ↔ All P xs
  any-eq-false_iff p P [] h = ((λ e. tt), (λ e. refl))
  any-eq-false_iff p P (x ∷ xs) h =
      let rest = any-eq-false_iff p P xs h in
      (
        λ e.
            let first : p x ≡ false = ground (arith, e) in
            let later : any p xs ≡ false = ground (arith, e) in ((h x).0 first, rest.0 later),
        λ (a, b). let first = (h x).1 a in let later = rest.1 b in ground (arith, first, later),
      )

is_protected_source_iff : (c : Option ColumnContext) → (is_protected_source c ≡ false) ↔ IsLowRisk c
unfolding is_protected_source
is_protected_source_iff none = ((λ h. false≢true (sym h)), (λ h. absurd h))
is_protected_source_iff (some c) =
    let own = unprotected_iff c.category in
    let sources =
      any-eq-false_iff (λ (s : LineageSource). contains s.category protected_categories)
        (λ s. s.category ≡ public_or_low_risk) c.lineage_sources
        (λ s. unprotected_iff s.category) in
    (
      λ h.
          let a : c.resolved ≡ true = ground (arith, h) in
          let b : contains c.category protected_categories ≡ false = ground (arith, h) in
          let d : any (λ (s : LineageSource). contains s.category protected_categories)
                c.lineage_sources
              ≡ false =
            ground (arith, h) in
          (a, own.0 b, sources.0 d),
      λ (a, b, d). let b' = own.1 b in let d' = sources.1 d in ground (arith, a, b', d'),
    )

pub has_protected_conditional_aggregate_iff :
    (input : PolicyInput)
    → (has_protected_conditional_aggregate input ≡ false)
      ↔ All (HasLowRiskOperands input) input.query_plan.projected_exposures
unfolding has_protected_conditional_aggregate
has_protected_conditional_aggregate_iff input =
    let columns = by_key input.projected_context in
    let bad = λ (r : ColumnRef). is_protected_source (Dict.get (key r) columns) in
    any-eq-false_iff _ (HasLowRiskOperands input) input.query_plan.projected_exposures (λ e.
      let operands =
        any-eq-false_iff bad (λ r. IsLowRisk (Dict.get (key r) columns)) e.source_columns
          (λ r. is_protected_source_iff (Dict.get (key r) columns)) in
      let kind = ProjectionExposureKind_eq.beq_iff e.kind conditional_aggregate in
      (
        λ h conditional. let k = kind.1 conditional in operands.0 (ground (arith, h, k)),
        λ h. elim (Bool-cases (e.kind == conditional_aggregate)) [
          | inr other ↦ ground (arith, other)
          | inl conditional ↦
              let o = operands.1 (h (kind.0 conditional)) in ground (arith, conditional, o)
        ],
      ))
