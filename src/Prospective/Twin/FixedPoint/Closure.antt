-- ===== src/Prospective/Twin/FixedPoint/Closure.antt =====
-- The loop of `least_fixed_point` in src/toxicjoin/prospective/twin.py.
use toxicjoin.Prelude.{
  ℕ, zero, suc, ◌≤◌, ◌≡◌, false≢true, sym, inl, inr, ◌∙◌, subst, String, String_eq, Bool, true,
  false, List, [], ◌∷◌, In, Bool-cases, Result-cases, arith, ok, raise, >>=-eq-ok, ok-injective,
  raise≢ok,
}
use toxicjoin.Prelude.Dict
use toxicjoin.Prelude.Dict.{Dict, get-put}
use toxicjoin.Prospective.Twin.{
  DisclosureAtom, DisclosureAtom_eq, DisclosureInferenceRule, out_of_fuel, apply_rules, close_under,
}
use toxicjoin.Prospective.Twin.FixedPoint.{
  Known, IsDerivable, fires, apply_rules_cases, IsKeyed, collision_apart, raise_again,
}
use toxicjoin.Prospective.Twin.FixedPoint.Turn.{missing, IsTurn-of}

module _ (released : List DisclosureAtom) (every : List DisclosureInferenceRule) where
  apply_rules-raise :
      (rules : List DisclosureInferenceRule) (known : Known) (changed : Bool)
      → ¬ (apply_rules known changed rules ≡ raise out_of_fuel)
  unfolding apply_rules
  apply_rules-raise [] known changed h = cc
  apply_rules-raise (r ∷ rest) known changed h = elim (apply_rules_cases known changed r rest) [
    | inr (inr collided) ↦ collision_apart (sym collided ∙ h)
    | inl (skipped, closed) ↦ apply_rules-raise rest known changed (sym skipped ∙ h)
    | inr (inl (fired, fire, new)) ↦
        apply_rules-raise rest (Dict.put r.consequent.atom_sha256 r.consequent known) true
          (sym fired ∙ h)
  ]

  -- What the loop has done when it ends.
  pub record IsClosure (known known' : Known) : Type 0 where
    pub sound :
        ((k : String) → Dict.has k known ≡ true → IsDerivable released every k)
        → (k : String) → Dict.has k known' ≡ true
        → IsDerivable released every k
    pub grows : (k : String) → Dict.has k known ≡ true → Dict.has k known' ≡ true
    pub keyed : IsKeyed known → IsKeyed known'
    pub closed :
        (r : DisclosureInferenceRule)
        → In r every
        → fires known' r ≡ true
        → Dict.has r.consequent.atom_sha256 known' ≡ true

  pub IsClosure-of :
      (fuel : ℕ) (known known' : Known)
      → close_under fuel known every ≡ ok known'
      → IsClosure known known'
  unfolding close_under
  IsClosure-of zero known known' h = cc
  IsClosure-of (suc fuel) known known' h =
      let ((next, changed), turned, h1) = >>=-eq-ok (apply_rules known false every) _ h in
      let t = IsTurn-of released every every known next false changed (λ r i. i) turned in
      elim (Bool-cases changed) [
        | inl went ↦
            let c = IsClosure-of fuel next known' (rw went at h1) in
            record {
              sound = λ s. c.sound (t.sound s);
              grows = λ k there. c.grows k (t.grows k there);
              keyed = λ keyed. c.keyed (t.keyed keyed);
              closed = c.closed;
            }
        | inr quiet ↦
            let (flag, same, closed) = t.steady quiet in
            let last : next ≡ known' = ok-injective next known' (rw quiet at h1) in
            let whole : known ≡ known' = sym same ∙ last in
            record {
              sound = λ s k there. s k (rw whole there);
              grows = λ k there. rw⁻¹ whole there;
              keyed = λ keyed. subst IsKeyed whole keyed;
              closed =
                  subst
                    (λ d.
                      (r : DisclosureInferenceRule)
                      → In r every
                      → fires d r ≡ true
                      → Dict.has r.consequent.atom_sha256 d ≡ true)
                    whole closed;
            }
      ]

  -- Each turn but the last knows one more consequent.
  pub close_under-terminates :
      (fuel : ℕ) (known : Known)
      → suc (missing every known) ≤ fuel
      → ¬ (close_under fuel known every ≡ raise out_of_fuel)
  unfolding close_under
  close_under-terminates zero known enough h = absurd (omega (arith, enough))
  close_under-terminates (suc fuel) known enough h =
      elim (Result-cases (apply_rules known false every)) [
        | inr (e, failed) ↦
            let h1 = rw (close_under, failed) at h in
            apply_rules-raise every known false (failed ∙ raise_again e h1)
        | inl ((next, changed), turned) ↦
            let t = IsTurn-of released every every known next false changed (λ r i. i) turned in
            elim (Bool-cases changed) [
              | inr quiet ↦ raise≢ok _ _ (sym (rw (close_under, turned, quiet) at h))
              | inl went ↦
                  let less : suc (missing every next) ≤ missing every known =
                    elim (t.progress went) [
                      | inl flag ↦ absurd (false≢true flag)
                      | inr less ↦ less
                    ] in
                  close_under-terminates fuel next (omega (arith, less, enough))
                    (rw (close_under, turned, went) at h)
            ]
      ]
