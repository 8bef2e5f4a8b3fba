-- ===== src/Prospective/Rules/Grounded.antt =====
-- The rules that `instantiate_disclosure_inference_rules` of src/toxicjoin/prospective/twin.py returns
-- start from the facts that it was given.
use toxicjoin.Prelude.{
  ◌≡◌, ◌⊎◌, inl, inr, refl, sym, ap, ◌∙◌, subst, String, String_eq, Bool, List, [], ◌∷◌, filter,
  map, leb, length, In, In-append, map-In, flat_map-In, filter-In, List-cases, ok, require,
  >>=-eq-ok, ok-injective,
}
use toxicjoin.Prelude.Dict
use toxicjoin.Prelude.Dict.{Dict, put-In, get-In}
use toxicjoin.Models.{SensitivityCategory, sensitive_attribute}
use toxicjoin.Prospective.Twin.{
  AtomFields, DisclosureAtom, rule_budget, DisclosureInferenceRule, identifier_categories,
  linkable_output_kinds, max_inference_rules, sorted_by,
}
use toxicjoin.Prospective.Twin.Sorting.{In-sorted_by}
use toxicjoin.Prospective.Rules.{
  direct_atom_kinds, require_canonical_atoms, least_atom, is_exposed_as, is_revealing,
  is_in_category, cohorts_by_family, index_rules, presence_rule, coexposure_rules, sensitive_rules,
  variation_rules, rules_of, instantiate_disclosure_inference_rules,
}
use toxicjoin.Prospective.Rules.Shown.{
  IsShown, AllShown, Grounded, FamilyOf, least_atom-In, AllShown-one, AllShown-two,
  AllShown-build_rule, Grounded-one, CohortsOf-by_family,
}

In-index_rules :
    (d : Dict String DisclosureInferenceRule) (rules : List DisclosureInferenceRule)
    (e : String × DisclosureInferenceRule)
    → In e (index_rules d rules)
    → In e d ⊎ In e.1 rules
In-index_rules d [] e i = inl i
In-index_rules d (r ∷ rest) e i = elim (In-index_rules (Dict.put r.rule_sha256 r d) rest e i) [
  | inr later ↦ inr (inr later)
  | inl there ↦ elim (put-In r.rule_sha256 r d e there) [
    | inl same ↦ inr (inl same)
    | inr old ↦ inl old
  ]
]

module _ (hash : AtomFields → String) (hash_rule : List String → DisclosureAtom → String)
    (atoms : List DisclosureAtom) where
  Grounded-presence :
      (a : DisclosureAtom)
      → In a atoms
      → AllShown atoms (presence_rule hash hash_rule a).antecedent_atom_sha256s
  unfolding presence_rule
  Grounded-presence a i =
      AllShown-build_rule atoms hash_rule (a.atom_sha256 ∷ []) _ (AllShown-one atoms a i)

  -- The least fact of a filtered part of the list is in the list.
  least-In :
      (p : DisclosureAtom → Bool) (part : List DisclosureAtom) (a : DisclosureAtom)
      (rest : List DisclosureAtom)
      → filter p part ≡ a ∷ rest
      → In (least_atom a rest) part
  least-In p part a rest same =
      filter-In p (least_atom a rest) part
        (subst (λ xs. In (least_atom a rest) xs) (sym same) (least_atom-In a rest))

  module _ (part : List DisclosureAtom)
      (within : (a : DisclosureAtom) → In a part → In a atoms) where
    Grounded-coexposure :
        (s : DisclosureAtom) (c : SensitivityCategory)
        → In s atoms
        → Grounded atoms (coexposure_rules hash hash_rule part s c)
    unfolding coexposure_rules
    Grounded-coexposure s c i = elim (List-cases (filter (is_in_category c) part)) [
      | inl empty ↦ rw (coexposure_rules, empty) (λ r j. absurd j)
      | inr (a, rest, same) ↦
          rw (coexposure_rules, same)
            (Grounded-one atoms hash_rule ((least_atom a rest).atom_sha256 ∷ s.atom_sha256 ∷ []) _ (
              AllShown-two atoms (least_atom a rest) s
                (within (least_atom a rest) (least-In (is_in_category c) part a rest same)) i))
    ]

    Grounded-sensitive : Grounded atoms (sensitive_rules hash hash_rule part)
    unfolding sensitive_rules
    Grounded-sensitive = elim (List-cases (filter (is_in_category sensitive_attribute) part)) [
      | inl empty ↦ rw (sensitive_rules, empty) (λ r j. absurd j)
      | inr (s, rest, same) ↦
          rw (sensitive_rules, same)
            (λ r j.
              let (c, there, k) =
                flat_map-In (coexposure_rules hash hash_rule part (least_atom s rest)) r
                  identifier_categories j in
              Grounded-coexposure (least_atom s rest) c
                (within (least_atom s rest)
                  (least-In (is_in_category sensitive_attribute) part s rest same))
                r k)
    ]

  Grounded-variation :
      (family : String × Dict String DisclosureAtom)
      → FamilyOf atoms family.1
      → Grounded atoms (variation_rules hash hash_rule family)
  unfolding variation_rules
  Grounded-variation family h =
      let values = map (λ (e : String × DisclosureAtom). e.1) family.1 in
      let ordered = sorted_by (λ (a : DisclosureAtom). a.atom_sha256) values in
      let within : (a : DisclosureAtom) → In a ordered → In a atoms = λ a i.
        let (e, there, same) =
          map-In (λ (e : String × DisclosureAtom). e.1) a family.1
            (In-sorted_by (λ (x : DisclosureAtom). x.atom_sha256) a values i) in
        subst (λ x. In x atoms) (sym same) (h e there) in
      elim (List-cases ordered) [
        | inl empty ↦ rw (variation_rules, empty) (λ r j. absurd j)
        | inr (a, rest, same) ↦ elim (List-cases rest) [
          | inl single ↦ rw (variation_rules, same, single) (λ r j. absurd j)
          | inr (b, more, pair) ↦
              let listed : ordered ≡ a ∷ b ∷ more = same ∙ ap (λ xs. a ∷ xs) pair in
              rw (variation_rules, listed)
                (Grounded-one atoms hash_rule (a.atom_sha256 ∷ b.atom_sha256 ∷ []) _ (
                  AllShown-two atoms a b (within a (subst (λ xs. In a xs) (sym listed) (inl refl)))
                    (within b (subst (λ xs. In b xs) (sym listed) (inr (inl refl))))))
        ]
      ]

  Grounded-rules_of : Grounded atoms (rules_of hash hash_rule atoms)
  unfolding rules_of
  Grounded-rules_of r i =
      let revealing = filter is_revealing atoms in
      let linkable = filter (is_exposed_as linkable_output_kinds) revealing in
      let families =
        sorted_by (λ (e : String × Dict String DisclosureAtom). e.0) (cohorts_by_family [] atoms) in
      elim (In-append r (map (presence_rule hash hash_rule) revealing) _ i) [
        | inl first ↦
            let (a, there, same) = map-In (presence_rule hash hash_rule) r revealing first in
            subst (λ x. AllShown atoms x.antecedent_atom_sha256s) (sym same)
              (Grounded-presence a (filter-In is_revealing a atoms there))
        | inr later ↦ elim (In-append r (sensitive_rules hash hash_rule linkable) _ later) [
          | inl second ↦
              Grounded-sensitive linkable
                (λ a j.
                  filter-In is_revealing a atoms
                    (filter-In (is_exposed_as linkable_output_kinds) a revealing j))
                r second
          | inr third ↦
              let (family, there, k) =
                flat_map-In (variation_rules hash hash_rule) r families third in
              Grounded-variation family
                (CohortsOf-by_family atoms [] atoms (λ e j. absurd j) (λ a j. j) family
                  (In-sorted_by (λ (e : String × Dict String DisclosureAtom). e.0) family
                    (cohorts_by_family [] atoms) there))
                r k
        ]
      ]

  -- Every antecedent of every rule that `instantiate_disclosure_inference_rules` returns is the hash
  -- of one of the facts that it was given.
  pub instantiate-IsShown :
      (rules : List DisclosureInferenceRule)
      → instantiate_disclosure_inference_rules hash hash_rule atoms ≡ ok rules
      → (r : DisclosureInferenceRule) → In r rules
      → (digest : String) → In digest r.antecedent_atom_sha256s
      → IsShown atoms digest
  unfolding instantiate_disclosure_inference_rules
  instantiate-IsShown rules h r i =
      let indexed = index_rules [] (rules_of hash hash_rule atoms) in
      let key = λ (e : String × DisclosureInferenceRule). e.0 in
      let value = λ (e : String × DisclosureInferenceRule). e.1 in
      let (u, canonical, h1) = >>=-eq-ok (require_canonical_atoms atoms direct_atom_kinds) _ h in
      let (v, small, h2) =
        >>=-eq-ok (require (leb (length indexed) max_inference_rules) rule_budget) _ h1 in
      let last = ok-injective (map value (sorted_by key indexed)) rules h2 in
      let (e, there, same) =
        map-In value r (sorted_by key indexed) (subst (λ xs. In r xs) (sym last) i) in
      elim (In-index_rules [] (rules_of hash hash_rule atoms) e
        (In-sorted_by key e indexed there)) [
          | inl nowhere ↦ absurd nowhere
          | inr here ↦
              subst (λ x. AllShown atoms x.antecedent_atom_sha256s) (sym same)
                (Grounded-rules_of e.1 here)
        ]
