-- ===== src/Prospective/Twin/FixedPoint/Turn.antt =====
-- One turn of the loop of `least_fixed_point` in src/toxicjoin/prospective/twin.py.
use toxicjoin.Prelude.{
  ℕ, suc, ◌≤◌, ◌≡◌, ◌⊎◌, false≢true, refl, sym, inl, inr, ap, ◌∙◌, subst, String, String_eq, Bool,
  true, false, not, count_if, List, [], ◌∷◌, ◌==◌, ==_self, In, Bool-cases, arith, ok, ok-injective,
  raise≢ok,
}
use toxicjoin.Prelude.Dict
use toxicjoin.Prelude.Dict.{Dict, get-put}
use toxicjoin.Prospective.Twin.{
  DisclosureAtom, DisclosureAtom_eq, DisclosureInferenceRule, apply_rules,
}
use toxicjoin.Prospective.Twin.FixedPoint.{
  Known, IsDerivable, by_rule, has-put, all-contains, fires, apply_rules_cases, IsKeyed,
  IsKeyed-put,
}

-- How many of the rules have a consequent that is not known.
abbrev pub missing : List DisclosureInferenceRule → Known → ℕ
missing rules known = count_if (λ r. not (Dict.has r.consequent.atom_sha256 known)) rules

missing-put-le :
    (rules : List DisclosureInferenceRule) (k : String) (v : DisclosureAtom) (known : Known)
    → missing rules (Dict.put k v known) ≤ missing rules known
missing-put-le [] k v known = omega arith
missing-put-le (r ∷ rest) k v known =
    ground (arith, has-put k r.consequent.atom_sha256 v known, missing-put-le rest k v known)

missing-put-lt :
    (rules : List DisclosureInferenceRule) (r : DisclosureInferenceRule) (known : Known)
    → In r rules
    → Dict.has r.consequent.atom_sha256 known ≡ false
    → suc (missing rules (Dict.put r.consequent.atom_sha256 r.consequent known))
      ≤ missing rules known
missing-put-lt [] r known i new = absurd i
missing-put-lt (x ∷ rest) r known (inl same) new =
    let le = missing-put-le rest r.consequent.atom_sha256 r.consequent known in
    let new' : Dict.has x.consequent.atom_sha256 known ≡ false = rw⁻¹ same new in
    let now : Dict.has x.consequent.atom_sha256
          (Dict.put r.consequent.atom_sha256 r.consequent known)
        ≡ true =
      rw⁻¹ same (
        has-put r.consequent.atom_sha256 r.consequent.atom_sha256 r.consequent known
        ∙ ground (arith, ==_self r.consequent.atom_sha256)) in
    ground (arith, le, new', now)
missing-put-lt (x ∷ rest) r known (inr i) new = ground (
  arith,
  has-put r.consequent.atom_sha256 x.consequent.atom_sha256 r.consequent known,
  missing-put-lt rest r known i new,
)

module _ (released : List DisclosureAtom) (every : List DisclosureInferenceRule) where
  -- What a turn over the rules has done.
  pub record IsTurn (rules : List DisclosureInferenceRule) (known known' : Known)
      (changed changed' : Bool) : Type 0 where
    pub sound :
        ((k : String) → Dict.has k known ≡ true → IsDerivable released every k)
        → (k : String) → Dict.has k known' ≡ true
        → IsDerivable released every k
    pub grows : (k : String) → Dict.has k known ≡ true → Dict.has k known' ≡ true
    pub keyed : IsKeyed known → IsKeyed known'
    pub steady :
        changed' ≡ false
        → (changed ≡ false)
          × (known' ≡ known)
          × ((r : DisclosureInferenceRule)
              → In r rules
              → fires known r ≡ true
              → Dict.has r.consequent.atom_sha256 known ≡ true)
    pub fewer : missing every known' ≤ missing every known
    pub progress :
        changed' ≡ true → (changed ≡ true) ⊎ (suc (missing every known') ≤ missing every known)

  pub IsTurn-of :
      (rules : List DisclosureInferenceRule) (known known' : Known) (changed changed' : Bool)
      → ((r : DisclosureInferenceRule) → In r rules → In r every)
      → apply_rules known changed rules ≡ ok (known', changed')
      → IsTurn rules known known' changed changed'
  unfolding apply_rules
  IsTurn-of [] known known' changed changed' among h =
      let e = ok-injective (known, changed) (known', changed') h in
      let same : known ≡ known' = ap (λ p. p.0) e in
      let flag : changed ≡ changed' = ap (λ p. p.1) e in
      record {
        sound = λ s k there. s k (rw same there);
        grows = λ k there. rw⁻¹ same there;
        keyed = λ keyed. subst IsKeyed same keyed;
        steady = λ quiet. (flag ∙ quiet, sym same, λ r i. absurd i);
        fewer = rw same (omega arith);
        progress = λ went. inl (flag ∙ went);
      }
  IsTurn-of (r ∷ rest) known known' changed changed' among h =
      elim (apply_rules_cases known changed r rest) [
        | inr (inr collided) ↦ absurd (raise≢ok _ _ (sym collided ∙ h))
        | inl (skipped, closed) ↦
            let t =
              IsTurn-of rest known known' changed changed' (λ x i. among x (inr i))
                (sym skipped ∙ h) in
            record {
              sound = t.sound;
              grows = t.grows;
              keyed = t.keyed;
              steady = λ quiet.
                  let (flag, same, rest_closed) = t.steady quiet in
                  (
                    flag,
                    same,
                    λ x i fire. elim i [
                      | inl head ↦
                          subst (λ y. Dict.has y.consequent.atom_sha256 known ≡ true) (sym head)
                            (closed (subst (λ y. fires known y ≡ true) head fire))
                      | inr later ↦ rest_closed x later fire
                    ],
                  );
              fewer = t.fewer;
              progress = t.progress;
            }
        | inr (inl (fired, fire, new)) ↦
            let next = Dict.put r.consequent.atom_sha256 r.consequent known in
            let t =
              IsTurn-of rest next known' true changed' (λ x i. among x (inr i)) (sym fired ∙ h) in
            let less = missing-put-lt every r known (among r (inl refl)) new in
            record {
              sound = λ s k there.
                  t.sound
                    (λ j known_now. elim (Bool-cases (r.consequent.atom_sha256 == j)) [
                      | inl own ↦
                          subst (IsDerivable released every)
                            ((String_eq.beq_iff r.consequent.atom_sha256 j).0 own)
                            (by_rule r (among r (inl refl)) (λ digest needed. s digest (
                              all-contains (λ d. Dict.has d known) digest r.antecedent_atom_sha256s
                                fire needed)))
                      | inr other ↦ s j (
                          ground (
                            arith,
                            has-put r.consequent.atom_sha256 j r.consequent known,
                            known_now,
                            other,
                          ))
                    ])
                    k there;
              grows = λ k there.
                  t.grows k
                    (ground (arith, has-put r.consequent.atom_sha256 k r.consequent known, there));
              keyed = λ keyed. t.keyed (IsKeyed-put r.consequent known keyed);
              steady = λ quiet.
                  let (flag, same, rest_closed) = t.steady quiet in absurd (false≢true (sym flag));
              fewer = omega (arith, t.fewer, less);
              progress = λ went. inr (omega (arith, t.fewer, less));
            }
      ]
