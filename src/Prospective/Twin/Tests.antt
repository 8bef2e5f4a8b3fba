-- ===== src/Prospective/Twin/Tests.antt =====
-- A fact that one rule adds to a released one.
use toxicjoin.Prelude.{
  ◌≡◌, ◌↔◌, refl, String_eq, true, false, some, [], ◌∷◌, map, contains, ==_self, ok, raise,
}
use toxicjoin.Prelude.Dict
use toxicjoin.Models.{sensitive_attribute, raw_value}
use toxicjoin.Prospective.Twin.{
  DisclosureAtom, DisclosureAtom_eq, DisclosureInferenceRule, out_of_fuel, column_exposure,
  category_presence, output, empty_fields, apply_rules, close_under, least_fixed_point,
}
use toxicjoin.Prospective.Twin.FixedPoint.{IsDerivable}
use toxicjoin.Prospective.Twin.Least.{least_fixed_point_iff, least_fixed_point-terminates}

abbrev exposed : DisclosureAtom
exposed = record {
  fields = record (empty_fields column_exposure) {
    release_semantic_sha256 = some "r";
    column_key = some "claims.diagnosis";
    category = some sensitive_attribute;
    column_role = some output;
    exposure_kind = some raw_value;
  };
  atom_sha256 = "a";
}

abbrev present : DisclosureAtom
present = record {
  fields = record (empty_fields category_presence) { category = some sensitive_attribute };
  atom_sha256 = "b";
}

abbrev presence : DisclosureInferenceRule
presence = record { antecedent_atom_sha256s = "a" ∷ []; consequent = present; rule_sha256 = "p" }

inferred : least_fixed_point (exposed ∷ []) (presence ∷ []) ≡ ok (present ∷ [])
unfolding least_fixed_point close_under apply_rules Dict.get Dict.put
inferred = rw (==_self present) refl

least_fixed_point_iff_example :
    (contains "b" (map (λ (a : DisclosureAtom). a.atom_sha256) (present ∷ [])) ≡ true) ↔ (
      IsDerivable (exposed ∷ []) (presence ∷ []) "b"
      × (contains "b" (map (λ (a : DisclosureAtom). a.atom_sha256) (exposed ∷ [])) ≡ false))
least_fixed_point_iff_example =
    least_fixed_point_iff (exposed ∷ []) (presence ∷ []) (present ∷ []) inferred "b"

least_fixed_point-terminates_example :
    ¬ (least_fixed_point (exposed ∷ []) (presence ∷ []) ≡ raise out_of_fuel)
least_fixed_point-terminates_example = least_fixed_point-terminates (exposed ∷ []) (presence ∷ [])
