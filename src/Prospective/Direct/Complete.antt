-- ===== src/Prospective/Direct/Complete.antt =====
-- `direct_atoms_for_release` of src/toxicjoin/prospective/twin.py loses no output and no cohort, and
-- invents nothing.
use Prim.Native.String.{◌++◌}
use toxicjoin.Prelude.{
  none, String, map-In, ◌≡◌, ◌⊎◌, inl, inr, refl, sym, subst, String_eq, Bool_eq, true, false,
  Option, some, List, [], map, In, In-map, Bool-cases, ok, >>=-eq-ok, ok-injective,
}
use toxicjoin.Models.{ProjectionExposureKind}
use toxicjoin.Disclosure.{
  GovernedColumn, column_key_of, SemanticOutput, DisclosureSemanticRelease, DisclosureComposition,
}
use toxicjoin.Disclosure.Composition.{is_protected_release}
use toxicjoin.Prospective.Twin.{
  AtomFields, DisclosureAtom, column_exposure, cohort, output, build_atom, index_from, sorted_atoms,
}
use toxicjoin.Prospective.Direct.{
  column_fact, cohort_fact, facts_of, check_composition, direct_atoms_for_release,
}
use toxicjoin.Prospective.Direct.Index.{In-sorted_atoms, sorted_atoms-In}
use toxicjoin.Prospective.Direct.Facts.{facts_of-AllOf, output-In, cohort-In, protected-composition}

-- The exposure of a column by an output, every field written out.
abbrev pub exposure : String → ProjectionExposureKind → GovernedColumn → AtomFields
exposure release kind c = record {
  kind = column_exposure;
  release_semantic_sha256 = some release;
  dataset_urn = none;
  column_key = some (c.dataset_urn ++ "#" ++ c.field_path);
  category = some c.category;
  column_role = some output;
  exposure_kind = some kind;
  aggregate_function = none;
  minimum_group_size = none;
  release_family_sha256 = none;
  cohort_hmac_sha256 = none;
  protected_release = none;
  identifier_category = none;
}

-- The cohort of a composition, every field written out.
abbrev pub membership : String → DisclosureComposition → AtomFields
membership release c = record {
  kind = cohort;
  release_semantic_sha256 = some release;
  dataset_urn = none;
  column_key = none;
  category = none;
  column_role = none;
  exposure_kind = none;
  aggregate_function = none;
  minimum_group_size = none;
  release_family_sha256 = some c.release_family_sha256;
  cohort_hmac_sha256 = some c.cohort_hmac_sha256;
  protected_release = some c.protected_release;
  identifier_category = none;
}

-- A list has a fact with the hash of these fields.
abbrev pub Shows : (AtomFields → String) → List DisclosureAtom → AtomFields → Type 0
Shows hash atoms fields = (a : DisclosureAtom) × In a atoms × (a.atom_sha256 ≡ hash fields)

module _ (hash : AtomFields → String) where
  fact_shown :
      (facts : List AtomFields) (f : AtomFields)
      → In f facts
      → Shows hash (sorted_atoms (index_from [] (map (build_atom hash) facts))) f
  unfolding build_atom
  fact_shown facts f i =
      In-sorted_atoms (map (build_atom hash) facts) (build_atom hash f)
        (In-map (build_atom hash) f facts i)

  module _ (semantic : DisclosureSemanticRelease) (composition : Option DisclosureComposition)
      (atoms : List DisclosureAtom)
      (returned : direct_atoms_for_release hash semantic composition ≡ ok atoms) where
    abbrev facts : List AtomFields
    facts = facts_of semantic composition

    abbrev made : List DisclosureAtom
    made = map (build_atom hash) facts

    parts :
        (u : Unit {0}) × (check_composition semantic composition ≡ ok u)
        × (sorted_atoms (index_from [] made) ≡ atoms)
    unfolding direct_atoms_for_release
    parts =
        let (u, checked, last) = >>=-eq-ok (check_composition semantic composition) _ returned in
        (u, checked, ok-injective (sorted_atoms (index_from [] made)) atoms last)

    shown : (f : AtomFields) → In f facts → Shows hash atoms f
    shown f i =
        let (u, checked, last) = parts in subst (λ xs. Shows hash xs f) last (fact_shown facts f i)

    -- Where `direct_atoms_for_release` returns, every source of every output is among the facts, by
    -- the hash of the exposure that has the release, the column's key `urn#path`, its category, the
    -- role of an output and the kind of the output, and nothing else.
    pub direct_atoms_complete :
        (o : SemanticOutput) (c : GovernedColumn)
        → In o semantic.outputs
        → In c o.sources
        → Shows hash atoms (exposure semantic.semantic_sha256 o.kind c)
    unfolding column_key_of
    direct_atoms_complete o c i j =
        shown (column_fact semantic.semantic_sha256 output (some o.kind) c)
          (output-In semantic composition o c i j)

    cohort_shown :
        (is_protected_release semantic ≡ true)
        → (c : DisclosureComposition) × (composition ≡ some c)
          × (c.protected_release ≡ true)
          × Shows hash atoms (cohort_fact semantic.semantic_sha256 c)
    cohort_shown protected =
        let (u, checked, last) = parts in
        let (c, given, flagged) = protected-composition semantic composition checked protected in
        let there : In (cohort_fact semantic.semantic_sha256 c) facts =
          subst (λ x. In (cohort_fact semantic.semantic_sha256 c) (facts_of semantic x)) (sym given)
            (cohort-In semantic c) in
        (c, given, flagged, shown (cohort_fact semantic.semantic_sha256 c) there)

    -- Where `direct_atoms_for_release` returns, each fact is of this release and carries its own
    -- hash, and the release is either unprotected or came with a protected composition whose cohort
    -- is among the facts, by the hash of the fact that has the release and the family, the digest and
    -- the flag of the composition, and nothing else.
    pub direct_atoms_sound :
        (a : DisclosureAtom)
        → In a atoms
        → (a.release_semantic_sha256 ≡ some semantic.semantic_sha256)
          × (a.atom_sha256 ≡ hash a.fields)
          × ((is_protected_release semantic ≡ false)
              ⊎ ((c : DisclosureComposition) × (composition ≡ some c)
                  × (c.protected_release ≡ true)
                  × Shows hash atoms (membership semantic.semantic_sha256 c)))
    unfolding build_atom
    direct_atoms_sound a i =
        let (u, checked, last) = parts in
        let i' = subst (λ xs. In a xs) (sym last) i in
        let (f, there, same) = map-In (build_atom hash) a facts (sorted_atoms-In made a i') in
        let (of_release, own) =
          subst
            (λ (x : DisclosureAtom).
              (x.release_semantic_sha256 ≡ some semantic.semantic_sha256)
              × (x.atom_sha256 ≡ hash x.fields))
            (sym same) (facts_of-AllOf semantic composition f there, refl) in
        (
          of_release,
          own,
          elim (Bool-cases (is_protected_release semantic)) [
            | inl protected ↦ inr (cohort_shown protected)
            | inr free ↦ inl free
          ],
        )
