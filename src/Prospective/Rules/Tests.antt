-- ===== src/Prospective/Rules/Tests.antt =====
-- One exposed sensitive column gives the rule that its category is present.
use mathlib.Core.Bool.{decide}
use toxicjoin.Prelude.{◌≡◌, refl, String, some, List, [], ◌∷◌, inl, ok}
use toxicjoin.Prelude.Dict
use toxicjoin.Models.{
  Category-discrete, ProjectionExposureKind-discrete, sensitive_attribute, raw_value,
}
use toxicjoin.Prospective.Twin.{
  AtomFields, DisclosureAtom, DisclosureInferenceRule, AtomKind-discrete, Role-discrete,
  column_exposure, category_presence, output, empty_fields, build_atom,
}
use toxicjoin.Prospective.Rules.{
  require_canonical_atoms, build_rule, presence_rule, coexposure_rules, sensitive_rules,
  variation_rules, rules_of, instantiate_disclosure_inference_rules,
}
use toxicjoin.Prospective.Rules.Shown.{IsShown}
use toxicjoin.Prospective.Rules.Grounded.{instantiate-IsShown}

abbrev hash : AtomFields → String
hash fields = "b"

abbrev hash_rule : List String → DisclosureAtom → String
hash_rule antecedents consequent = "p"

abbrev exposed : DisclosureAtom
exposed = record {
  fields = record (empty_fields column_exposure) {
    release_semantic_sha256 = some "r";
    column_key = some "claims#diagnosis";
    category = some sensitive_attribute;
    column_role = some output;
    exposure_kind = some raw_value;
  };
  atom_sha256 = "a";
}

abbrev presence : DisclosureInferenceRule
presence = record {
  antecedent_atom_sha256s = "a" ∷ [];
  consequent = record {
    fields = record (empty_fields category_presence) { category = some sensitive_attribute };
    atom_sha256 = "b";
  };
  rule_sha256 = "p";
}

instantiated :
    instantiate_disclosure_inference_rules hash hash_rule (exposed ∷ []) ≡ ok (presence ∷ [])
unfolding instantiate_disclosure_inference_rules require_canonical_atoms build_rule presence_rule
    coexposure_rules sensitive_rules variation_rules rules_of build_atom Dict.put Category-discrete
    ProjectionExposureKind-discrete AtomKind-discrete Role-discrete decide
instantiated = refl

instantiate-IsShown_example : IsShown (exposed ∷ []) "a"
instantiate-IsShown_example =
    instantiate-IsShown hash hash_rule (exposed ∷ []) (presence ∷ []) instantiated presence
      (inl refl) "a" (inl refl)
