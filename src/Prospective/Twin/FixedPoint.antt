-- ===== src/Prospective/Twin/FixedPoint.antt =====
-- `least_fixed_point` of src/toxicjoin/prospective/twin.py against the facts that can be derived.
pub mod Turn
pub mod Closure
use toxicjoin.Prelude.{
  ℕ, zero, suc, ◌+◌, ◌≤◌, ◌<◌, ◌≡◌, ◌≢◌, ◌↔◌, ◌⊎◌, false≢true, refl, sym, inl, inr, ap, ◌∙◌, subst,
  String, String_eq, Bool, true, false, not, ◌&&◌, ◌||◌, all, any, filter, map, contains, count_if,
  length, Option, none, some, List, [], ◌∷◌, Eq, ◌==◌, ==_self, In, Bool-cases, Option-cases,
  Result-cases, arith, Result, ok, raise, require, ◌>>=◌, >>=-eq-ok, require-eq-ok, ok-injective,
  raise≢ok, if◌then◌else◌,
}
use toxicjoin.Prelude.Dict
use toxicjoin.Prelude.Dict.{Dict, get-put}
use toxicjoin.Prospective.Twin.{
  DisclosureAtom, DisclosureAtom_eq, DisclosureInferenceRule, TwinError, hash_collision,
  out_of_fuel, derived_budget, insert_by, sorted_by, index_from, apply_rules, close_under,
  derived_from, least_fixed_point,
}

abbrev pub Known : Type 0
Known = Dict String DisclosureAtom

-- The facts that follow from the released ones, by their hashes.
pub data IsDerivable (released : List DisclosureAtom) (rules : List DisclosureInferenceRule)
    : String → Type 0 where
  by_release : (a : DisclosureAtom) → In a released → IsDerivable released rules a.atom_sha256
  by_rule :
      (r : DisclosureInferenceRule)
      → In r rules
      → ((digest : String)
          → contains digest r.antecedent_atom_sha256s ≡ true
          → IsDerivable released rules digest)
      → IsDerivable released rules r.consequent.atom_sha256

pub has-put :
    (k j : String) (v : DisclosureAtom) (d : Known)
    → Dict.has j (Dict.put k v d) ≡ (k == j || Dict.has j d)
has-put k j v d = ground (arith, get-put k j v d)

pub all-contains :
    (p : String → Bool) (digest : String) (digests : List String)
    → all p digests ≡ true
    → contains digest digests ≡ true
    → p digest ≡ true
all-contains p digest [] h c = cc
all-contains p digest (x ∷ xs) h c =
    ground (arith, String_eq.beq_iff x digest, all-contains p digest xs)

pub contains-all :
    (p : String → Bool) (digests : List String)
    → ((digest : String) → contains digest digests ≡ true → p digest ≡ true)
    → all p digests ≡ true
contains-all p [] h = refl
contains-all p (x ∷ xs) h =
    let first = h x (ground (arith, ==_self x)) in
    let rest = contains-all p xs (λ d c. h d (ground (arith, c))) in ground (arith, first, rest)

collision_apart :
    {T : Type 0} → ¬ (◌≡◌ {A = Result TwinError T} (raise hash_collision) (raise out_of_fuel))
collision_apart h = cc

raise_again :
    {T V : Type 0} (e : TwinError)
    → ◌≡◌ {A = Result TwinError T} (raise e) (raise out_of_fuel)
    → ◌≡◌ {A = Result TwinError V} (raise e) (raise out_of_fuel)
raise_again e h = let same : e ≡ out_of_fuel = cc in ap raise same

-- The rule's antecedents are all known.
abbrev pub fires : Known → DisclosureInferenceRule → Bool
fires known r = all (λ digest. Dict.has digest known) r.antecedent_atom_sha256s

module _ (known : Known) (changed : Bool) (r : DisclosureInferenceRule)
    (rest : List DisclosureInferenceRule) where
  -- The three things that a turn does with its first rule.
  apply_rules_cases :
      ((apply_rules known changed (r ∷ rest) ≡ apply_rules known changed rest)
        × ((fires known r ≡ true) → Dict.has r.consequent.atom_sha256 known ≡ true))
      ⊎ ((apply_rules known changed (r ∷ rest)
            ≡ apply_rules (Dict.put r.consequent.atom_sha256 r.consequent known) true rest)
          × (fires known r ≡ true)
          × (Dict.has r.consequent.atom_sha256 known ≡ false))
      ⊎ (apply_rules known changed (r ∷ rest) ≡ raise hash_collision)
  unfolding apply_rules
  apply_rules_cases = elim (Bool-cases (fires known r)) [
    | inr waits ↦ inl (rw (apply_rules, waits) refl, λ fire. absurd (false≢true (sym waits ∙ fire)))
    | inl fire ↦ elim (Option-cases (Dict.get r.consequent.atom_sha256 known)) [
      | inl new ↦ inr (inl (rw (apply_rules, fire, new) refl, fire, rw (Dict.has, new) refl))
      | inr (old, there) ↦ elim (Bool-cases (old == r.consequent)) [
        | inl same ↦ inl (rw (apply_rules, fire, there, same) refl, λ _. rw (Dict.has, there) refl)
        | inr other ↦ inr (inr (rw (apply_rules, fire, there, other) refl))
      ]
    ]
  ]

-- Every fact stands under its hash.
abbrev pub IsKeyed : Known → Type 0
IsKeyed [] = Unit
IsKeyed ((k, v) ∷ rest) = (v.atom_sha256 ≡ k) × IsKeyed rest

pub IsKeyed-put :
    (v : DisclosureAtom) (d : Known) → IsKeyed d → IsKeyed (Dict.put v.atom_sha256 v d)
unfolding Dict.put
IsKeyed-put v [] h = (refl, tt)
IsKeyed-put v ((j, w) ∷ d) (own, rest) = elim (Bool-cases (j == v.atom_sha256)) [
  | inl same ↦ rw same (sym ((String_eq.beq_iff j v.atom_sha256).0 same), rest)
  | inr other ↦ rw other (own, IsKeyed-put v d rest)
]
