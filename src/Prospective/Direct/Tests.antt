-- ===== src/Prospective/Direct/Tests.antt =====
-- A protected release of one output.
use toxicjoin.Prelude.{
  ◌≡◌, ◌⊎◌, refl, String, true, false, Option, none, some, [], ◌∷◌, inl, inr, ok,
}
use toxicjoin.Prelude.Dict
use mathlib.Core.Bool.{decide}
use toxicjoin.Models.{Category-discrete, sensitive_attribute, raw_value}
use toxicjoin.Disclosure.{
  GovernedColumn, SemanticOutput, DisclosureSemanticRelease, DisclosureComposition,
}
use toxicjoin.Disclosure.Composition.{is_protected_release}
use toxicjoin.Prospective.Twin.{
  AtomFields, DisclosureAtom, semantic_release, source_dataset, column_exposure, cohort, output,
  build_atom, empty_fields,
}
use toxicjoin.Prospective.Direct.{
  column_fact, dataset_fact, cohort_fact, facts_of, check_composition, direct_atoms_for_release,
}
use toxicjoin.Prospective.Direct.Complete.{
  Shows, exposure, membership, direct_atoms_complete, direct_atoms_sound,
}

-- A hash that tells the kinds of this release apart.
abbrev hash : AtomFields → String
hash f = elim f.kind [
  | semantic_release ↦ "1"
  | source_dataset ↦ "2"
  | column_exposure ↦ "3"
  | cohort ↦ "4"
  | _ ↦ "5"
]

abbrev diagnosis : GovernedColumn
diagnosis = record {
  dataset_urn = "claims";
  field_path = "diagnosis";
  category = sensitive_attribute;
}

abbrev shown : SemanticOutput
shown = record { kind = raw_value; sources = diagnosis ∷ [] }

abbrev release : DisclosureSemanticRelease
release = record {
  source_dataset_urns = "claims" ∷ [];
  outputs = shown ∷ [];
  referenced_columns = [];
  join_columns = [];
  group_keys = [];
  aggregate_functions = [];
  minimum_group_size_present = none;
  semantic_sha256 = "r";
}

abbrev composition : DisclosureComposition
composition = record {
  protected_release = true;
  release_family_sha256 = "r";
  cohort_hmac_sha256 = "h";
}

abbrev base : DisclosureAtom
base =
    build_atom hash (record (empty_fields semantic_release) { release_semantic_sha256 = some "r" })

abbrev source : DisclosureAtom
source = build_atom hash (dataset_fact "r" "claims")

abbrev exposed : DisclosureAtom
exposed = build_atom hash (column_fact "r" output (some raw_value) diagnosis)

abbrev cohort_atom : DisclosureAtom
cohort_atom = build_atom hash (cohort_fact "r" composition)

listed :
    direct_atoms_for_release hash release (some composition)
    ≡ ok (base ∷ source ∷ exposed ∷ cohort_atom ∷ [])
unfolding direct_atoms_for_release check_composition facts_of is_protected_release build_atom
    Dict.put Category-discrete decide
listed = refl

direct_atoms_complete_example :
    Shows hash (base ∷ source ∷ exposed ∷ cohort_atom ∷ []) (exposure "r" raw_value diagnosis)
direct_atoms_complete_example =
    direct_atoms_complete hash release (some composition)
      (base ∷ source ∷ exposed ∷ cohort_atom ∷ []) listed shown diagnosis (inl refl) (inl refl)

direct_atoms_sound_example :
    (exposed.release_semantic_sha256 ≡ some "r")
    × (exposed.atom_sha256 ≡ hash exposed.fields)
    × ((is_protected_release release ≡ false)
        ⊎ ((c : DisclosureComposition) × (◌≡◌ {A = Option DisclosureComposition}
              (some composition)
              (some c))
            × (c.protected_release ≡ true)
            × Shows hash (base ∷ source ∷ exposed ∷ cohort_atom ∷ []) (membership "r" c)))
direct_atoms_sound_example =
    direct_atoms_sound hash release (some composition) (base ∷ source ∷ exposed ∷ cohort_atom ∷ [])
      listed exposed (inr (inr (inl refl)))
