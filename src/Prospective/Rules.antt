-- ===== src/Prospective/Rules.antt =====
-- src/toxicjoin/prospective/twin.py, `instantiate_disclosure_inference_rules`: the rules of inference
-- that apply to the facts of releases. The hashes of a fact and of a rule are parameters; the hash of
-- a rule covers its antecedents and its consequent, whose kind names the family of the rule. An
-- exposure has a category, and a cohort a family and a digest, as the validator of facts requires.
mod Shown
pub mod Grounded
mod Tests
use Prim.Native.String.{compare}
use text.Mathlib.Text.{is_le}
use toxicjoin.Prelude.{
  String, String_eq, Bool, true, false, not, ◌&&◌, Option, none, some, List, [], ◌∷◌, ◌++◌, ◌==◌,
  all, filter, flat_map, map, contains, leb, length, get_or, Result, ok, raise, require, ◌>>=◌,
  ◌>>◌, if◌then◌else◌,
}
use toxicjoin.Prelude.Dict
use toxicjoin.Prelude.Dict.{Dict}
use toxicjoin.Models.{
  SensitivityCategory, sensitive_attribute, ProjectionExposureKind, ProjectionExposureKind_eq,
  Category_eq,
}
use toxicjoin.Prospective.Twin.{
  AtomFields, DisclosureAtom, DisclosureAtomKind, AtomKind_eq, Role_eq, TwinError, rule_budget,
  not_canonical, DisclosureInferenceRule, output, semantic_release, source_dataset, column_exposure,
  aggregate_function, minimum_group_size, cohort, category_presence,
  identifier_sensitive_coexposure, protected_cohort_variation, identifier_categories,
  revealing_output_kinds, linkable_output_kinds, max_inference_rules, empty_fields, build_atom,
  sorted_by,
}

-- `_DIRECT_ATOM_KINDS`
abbrev pub direct_atom_kinds : List DisclosureAtomKind
direct_atom_kinds =
    semantic_release ∷ source_dataset ∷ column_exposure ∷ aggregate_function ∷ minimum_group_size
    ∷ cohort ∷ []

-- The texts of a list, each of which is before the next.
abbrev pub is_strictly_sorted : List String → Bool
is_strictly_sorted [] = true
is_strictly_sorted (s ∷ []) = true
is_strictly_sorted (s ∷ t ∷ rest) = not (is_le (compare t s)) && is_strictly_sorted (t ∷ rest)

-- `_require_canonical_atoms`
pub require_canonical_atoms :
    List DisclosureAtom → List DisclosureAtomKind → Result TwinError (Unit {0})
require_canonical_atoms atoms expected =
    require (is_strictly_sorted (map (λ (a : DisclosureAtom). a.atom_sha256) atoms)) not_canonical
    >> require (all (λ (a : DisclosureAtom). contains a.kind expected) atoms) not_canonical

-- `set`, in the order of the last places.
abbrev pub unique : List String → List String
unique [] = []
unique (s ∷ rest) = let later = unique rest in if contains s rest then later else s ∷ later

-- `_build_rule`
unfoldable pub build_rule :
    (List String → DisclosureAtom → String) → List String → DisclosureAtom → DisclosureInferenceRule
build_rule hash antecedents consequent = record {
  antecedent_atom_sha256s = sorted_by (λ digest. digest) (unique antecedents);
  consequent = consequent;
  rule_sha256 = hash (sorted_by (λ digest. digest) (unique antecedents)) consequent;
}

-- min(atoms, key=lambda atom: atom.atom_sha256)
abbrev pub least_atom : DisclosureAtom → List DisclosureAtom → DisclosureAtom
least_atom best [] = best
least_atom best (a ∷ rest) =
    least_atom (if is_le (compare best.atom_sha256 a.atom_sha256) then best else a) rest

abbrev pub is_exposed_as : List ProjectionExposureKind → DisclosureAtom → Bool
is_exposed_as kinds a = elim a.exposure_kind [ none ↦ false | some k ↦ contains k kinds ]

abbrev pub is_revealing : DisclosureAtom → Bool
is_revealing a =
    a.kind == column_exposure
    && a.column_role == some output
    && is_exposed_as revealing_output_kinds a

abbrev pub is_in_category : SensitivityCategory → DisclosureAtom → Bool
is_in_category category a = elim a.category [ none ↦ false | some c ↦ c == category ]

abbrev pub is_protected_cohort : DisclosureAtom → Bool
is_protected_cohort a =
    a.kind == cohort && (elim a.protected_release [ none ↦ false | some flag ↦ flag ])

abbrev pub Cohorts : Type 0
Cohorts = Dict String (Dict String DisclosureAtom)

-- The cohorts of one family after one more; of the same digest the fact with the lesser hash stays.
abbrev pub with_cohort : DisclosureAtom → Dict String DisclosureAtom → Dict String DisclosureAtom
with_cohort a family =
    let digest = get_or "" a.cohort_hmac_sha256 in
    elim (Dict.get digest family) [
      | none ↦ Dict.put digest a family
      | some existing ↦
          if is_le (compare existing.atom_sha256 a.atom_sha256)
          then family
          else Dict.put digest a family
    ]

-- The loop that fills `cohorts_by_family`.
abbrev pub cohorts_by_family : Cohorts → List DisclosureAtom → Cohorts
cohorts_by_family known [] = known
cohorts_by_family known (a ∷ rest) =
    let name = get_or "" a.release_family_sha256 in
    cohorts_by_family
      (if is_protected_cohort a
        then Dict.put name (with_cohort a (get_or [] (Dict.get name known))) known
        else known)
      rest

-- `rules[rule.rule_sha256] = rule` for each rule.
abbrev pub index_rules :
    Dict String DisclosureInferenceRule
    → List DisclosureInferenceRule
    → Dict String DisclosureInferenceRule
index_rules d [] = d
index_rules d (r ∷ rest) = index_rules (Dict.put r.rule_sha256 r d) rest

module _ (hash : AtomFields → String) (hash_rule : List String → DisclosureAtom → String) where
  unfoldable pub presence_rule : DisclosureAtom → DisclosureInferenceRule
  presence_rule a =
      build_rule hash_rule (a.atom_sha256 ∷ [])
        (build_atom hash (record (empty_fields category_presence) { category = a.category }))

  unfoldable pub coexposure_rules :
      List DisclosureAtom → DisclosureAtom → SensitivityCategory → List DisclosureInferenceRule
  coexposure_rules linkable sensitive category = elim (filter (is_in_category category) linkable) [
    | [] ↦ []
    | a ∷ rest ↦
        build_rule hash_rule ((least_atom a rest).atom_sha256 ∷ sensitive.atom_sha256 ∷ []) (
          build_atom hash (record (empty_fields identifier_sensitive_coexposure) {
            identifier_category = some category;
          }))
        ∷ []
  ]

  unfoldable pub sensitive_rules : List DisclosureAtom → List DisclosureInferenceRule
  sensitive_rules linkable = elim (filter (is_in_category sensitive_attribute) linkable) [
    | [] ↦ []
    | s ∷ rest ↦ flat_map (coexposure_rules linkable (least_atom s rest)) identifier_categories
  ]

  unfoldable pub variation_rules :
      String × Dict String DisclosureAtom → List DisclosureInferenceRule
  variation_rules family =
      elim (sorted_by (λ (a : DisclosureAtom). a.atom_sha256) (map (λ entry. entry.1) family.1)) [
        | [] ↦ []
        | a ∷ rest ↦ elim rest [
          | [] ↦ []
          | b ∷ more ↦
              build_rule hash_rule (a.atom_sha256 ∷ b.atom_sha256 ∷ []) (
                build_atom hash (record (empty_fields protected_cohort_variation) {
                  release_family_sha256 = some family.0;
                }))
              ∷ []
        ]
      ]

  -- The rules in the order in which the function adds them.
  unfoldable pub rules_of : List DisclosureAtom → List DisclosureInferenceRule
  rules_of released =
      let revealing = filter is_revealing released in
      map presence_rule revealing
      ++ (sensitive_rules (filter (is_exposed_as linkable_output_kinds) revealing)
          ++ flat_map variation_rules (
              sorted_by (λ (entry : String × Dict String DisclosureAtom). entry.0)
                (cohorts_by_family [] released)))

  -- `instantiate_disclosure_inference_rules`
  unfoldable pub instantiate_disclosure_inference_rules :
      List DisclosureAtom → Result TwinError (List DisclosureInferenceRule)
  instantiate_disclosure_inference_rules released =
      let rules = index_rules [] (rules_of released) in
      require_canonical_atoms released direct_atom_kinds
      >> (require (leb (length rules) max_inference_rules) rule_budget
          >> ok (
              map (λ entry. entry.1)
                (sorted_by (λ (entry : String × DisclosureInferenceRule). entry.0) rules)))
