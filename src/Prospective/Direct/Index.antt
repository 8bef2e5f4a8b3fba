-- ===== src/Prospective/Direct/Index.antt =====
-- The facts that `index_from` and `sorted_atoms` of src/toxicjoin/prospective/twin.py keep.
use toxicjoin.Prelude.{
  ◌≡◌, ◌⊎◌, inl, inr, refl, sym, ◌∙◌, subst, false≢true, String, String_eq, Bool_eq, true, List, [],
  ◌∷◌, ◌==◌, In, In-map, map-In, Bool-cases, arith,
}
use toxicjoin.Prelude.Dict
use toxicjoin.Prelude.Dict.{Dict, has-cons, put-In}
use toxicjoin.Prospective.Twin.{DisclosureAtom, index_from, sorted_atoms, sorted_by}
use toxicjoin.Prospective.Twin.FixedPoint.{Known, IsKeyed}
use toxicjoin.Prospective.Twin.Sorting.{In-sorted_by, sorted_by-In}
use toxicjoin.Prospective.Twin.Least.{has-seed, IsKeyed-index_from, In-contains}

In-of_has :
    (k : String) (d : Known)
    → IsKeyed d
    → Dict.has k d ≡ true
    → (e : String × DisclosureAtom) × In e d × (e.1.atom_sha256 ≡ k)
unfolding Dict.get
In-of_has k [] keyed h = absurd (false≢true h)
In-of_has k ((j, v) ∷ rest) (own, keyed) h = elim (Bool-cases (j == k)) [
  | inl same ↦ ((j, v), inl refl, own ∙ (String_eq.beq_iff j k).0 same)
  | inr other ↦
      let h' : Dict.has k rest ≡ true = ground (arith, h, other, has-cons k j v rest) in
      let (e, there, same) = In-of_has k rest keyed h' in (e, inr there, same)
]

In-index_from :
    (d : Known) (atoms : List DisclosureAtom) (e : String × DisclosureAtom)
    → In e (index_from d atoms)
    → In e d ⊎ In e.1 atoms
In-index_from d [] e i = inl i
In-index_from d (a ∷ rest) e i = elim (In-index_from (Dict.put a.atom_sha256 a d) rest e i) [
  | inr later ↦ inr (inr later)
  | inl there ↦ elim (put-In a.atom_sha256 a d e there) [
    | inl same ↦ inr (inl same)
    | inr old ↦ inl old
  ]
]

abbrev entry_key : String × DisclosureAtom → String
entry_key entry = entry.0

-- Sorting the index of a list keeps the hash of every fact and brings in no other fact.
pub In-sorted_atoms :
    (atoms : List DisclosureAtom) (a : DisclosureAtom)
    → In a atoms
    → (b : DisclosureAtom) × In b (sorted_atoms (index_from [] atoms))
      × (b.atom_sha256 ≡ a.atom_sha256)
In-sorted_atoms atoms a i =
    let d = index_from [] atoms in
    let (e, there, same) =
      In-of_has a.atom_sha256 d (IsKeyed-index_from [] atoms tt)
        (has-seed a.atom_sha256 atoms ∙ In-contains a atoms i) in
    (
      e.1,
      In-map (λ (entry : String × DisclosureAtom). entry.1) e (sorted_by entry_key d)
          (sorted_by-In entry_key e d there),
      same,
    )

pub sorted_atoms-In :
    (atoms : List DisclosureAtom) (a : DisclosureAtom)
    → In a (sorted_atoms (index_from [] atoms))
    → In a atoms
sorted_atoms-In atoms a i =
    let d = index_from [] atoms in
    let (e, there, same) =
      map-In (λ (entry : String × DisclosureAtom). entry.1) a (sorted_by entry_key d) i in
    elim (In-index_from [] atoms e (In-sorted_by entry_key e d there)) [
      | inl nowhere ↦ absurd nowhere
      | inr here ↦ subst (λ x. In x atoms) (sym same) here
    ]
