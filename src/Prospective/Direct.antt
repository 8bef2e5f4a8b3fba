-- ===== src/Prospective/Direct.antt =====
-- src/toxicjoin/prospective/twin.py, `direct_atoms_for_release`: the facts that one release discloses
-- by itself. The hash of a fact is a parameter.
mod Index
mod Facts
pub mod Complete
mod Tests
use mathlib.Core.Bool.{Bool-discrete}
use toxicjoin.Prelude.{
  ℕ, String, String_eq, Bool_eq, Bool, true, not, Option, none, some, List, [], ◌∷◌, ◌++◌, ◌==◌,
  map, flat_map, Result, ok, raise, require, ◌>>=◌, ◌>>◌, if◌then◌else◌,
}
use toxicjoin.Models.{ProjectionExposureKind}
use toxicjoin.Disclosure.{
  GovernedColumn, column_key_of, SemanticOutput, DisclosureSemanticRelease, DisclosureComposition,
}
use toxicjoin.Disclosure.Composition.{is_protected_release}
use toxicjoin.Prospective.Twin.{
  AtomFields, DisclosureAtom, TwinError, composition_required, composition_mismatch,
  classification_mismatch, ColumnExposureRole, output, referenced, join, group_key_role,
  semantic_release, source_dataset, column_exposure, aggregate_function, minimum_group_size, cohort,
  empty_fields, build_atom, index_from, sorted_atoms,
}

-- A column in one role, with the kind of exposure where the role is that of an output.
abbrev pub column_fact :
    String → ColumnExposureRole → Option ProjectionExposureKind → GovernedColumn → AtomFields
column_fact release role kind column = record (empty_fields column_exposure) {
  release_semantic_sha256 = some release;
  column_key = some (column_key_of column);
  category = some column.category;
  column_role = some role;
  exposure_kind = kind;
}

-- The loop over the sources of one output.
abbrev pub output_facts : String → SemanticOutput → List AtomFields
output_facts release o = map (column_fact release output (some o.kind)) o.sources

abbrev pub dataset_fact : String → String → AtomFields
dataset_fact release urn = record (empty_fields source_dataset) {
  release_semantic_sha256 = some release;
  dataset_urn = some urn;
}

abbrev pub aggregate_fact : String → String → AtomFields
aggregate_fact release function = record (empty_fields aggregate_function) {
  release_semantic_sha256 = some release;
  aggregate_function = some function;
}

abbrev pub minimum_facts : String → Option ℕ → List AtomFields
minimum_facts release none = []
minimum_facts release (some minimum) =
    record (empty_fields minimum_group_size) {
      release_semantic_sha256 = some release;
      minimum_group_size = some minimum;
    }
    ∷ []

abbrev pub cohort_fact : String → DisclosureComposition → AtomFields
cohort_fact release composition = record (empty_fields cohort) {
  release_semantic_sha256 = some release;
  release_family_sha256 = some composition.release_family_sha256;
  cohort_hmac_sha256 = some composition.cohort_hmac_sha256;
  protected_release = some composition.protected_release;
}

abbrev pub cohort_facts : String → Option DisclosureComposition → List AtomFields
cohort_facts release none = []
cohort_facts release (some composition) = cohort_fact release composition ∷ []

-- The facts in the order in which the function adds them.
unfoldable pub facts_of : DisclosureSemanticRelease → Option DisclosureComposition → List AtomFields
facts_of semantic composition =
    let release = semantic.semantic_sha256 in
    record (empty_fields semantic_release) { release_semantic_sha256 = some release }
    ∷ (map (dataset_fact release) semantic.source_dataset_urns
        ++ (flat_map (output_facts release) semantic.outputs
            ++ (map (column_fact release referenced none) semantic.referenced_columns
                ++ (map (column_fact release join none) semantic.join_columns
                    ++ (map (column_fact release group_key_role none) semantic.group_keys
                        ++ (map (aggregate_fact release) semantic.aggregate_functions
                            ++ (minimum_facts release semantic.minimum_group_size_present
                                ++ cohort_facts release composition)))))))

-- The checks at the start of the function.
unfoldable pub check_composition :
    DisclosureSemanticRelease → Option DisclosureComposition → Result TwinError (Unit {0})
check_composition semantic none = require (not (is_protected_release semantic)) composition_required
check_composition semantic (some composition) =
    require (composition.release_family_sha256 == semantic.semantic_sha256) composition_mismatch
    >> require (composition.protected_release == is_protected_release semantic)
        classification_mismatch

-- `direct_atoms_for_release`
unfoldable pub direct_atoms_for_release :
    (AtomFields → String)
    → DisclosureSemanticRelease
    → Option DisclosureComposition
    → Result TwinError (List DisclosureAtom)
direct_atoms_for_release hash semantic composition =
    check_composition semantic composition
    >> ok (sorted_atoms (index_from [] (map (build_atom hash) (facts_of semantic composition))))
