-- ===== src/Prospective/Rules/Shown.antt =====
-- Facts that stay facts of the list in src/toxicjoin/prospective/twin.py: the least of several, the
-- antecedents of a rule and the stored cohorts.
use Prim.Native.String.{compare}
use text.Mathlib.Text.{is_le}
use toxicjoin.Prelude.{
  ◌≡◌, inl, inr, refl, sym, subst, String, String_eq, List, [], ◌∷◌, contains, get_or, In,
  Bool-cases, Option-cases,
}
use toxicjoin.Prelude.Dict
use toxicjoin.Prelude.Dict.{Dict, put-In, get-In}
use toxicjoin.Prospective.Twin.{DisclosureAtom, DisclosureInferenceRule}
use toxicjoin.Prospective.Twin.Sorting.{In-sorted_by}
use toxicjoin.Prospective.Rules.{
  unique, build_rule, least_atom, is_protected_cohort, Cohorts, with_cohort, cohorts_by_family,
}

-- A fact of the list has this hash.
abbrev pub IsShown : List DisclosureAtom → String → Type 0
IsShown atoms digest = (a : DisclosureAtom) × In a atoms × (a.atom_sha256 ≡ digest)

abbrev pub AllShown : List DisclosureAtom → List String → Type 0
AllShown atoms digests = (digest : String) → In digest digests → IsShown atoms digest

abbrev pub Grounded : List DisclosureAtom → List DisclosureInferenceRule → Type 0
Grounded atoms rules =
    (r : DisclosureInferenceRule) → In r rules → AllShown atoms r.antecedent_atom_sha256s

unique-In :
    (digest : String) (digests : List String) → In digest (unique digests) → In digest digests
unique-In digest [] i = i
unique-In digest (d ∷ rest) i = elim (Bool-cases (contains d rest)) [
  | inl again ↦ let i' : In digest (unique rest) = rw again at i in inr (unique-In digest rest i')
  | inr new ↦
      let i' : In digest (d ∷ unique rest) = rw new at i in
      elim i' [ inl same ↦ inl same | inr later ↦ inr (unique-In digest rest later) ]
]

pub least_atom-In :
    (best : DisclosureAtom) (rest : List DisclosureAtom) → In (least_atom best rest) (best ∷ rest)
least_atom-In best [] = inl refl
least_atom-In best (a ∷ rest) = elim (Bool-cases (is_le (compare best.atom_sha256 a.atom_sha256))) [
  | inl keep ↦
      let same : least_atom best (a ∷ rest) ≡ least_atom best rest = rw keep refl in
      subst (λ x. In x (best ∷ a ∷ rest)) (sym same)
        (elim (least_atom-In best rest) [ inl first ↦ inl first | inr later ↦ inr (inr later) ])
  | inr take ↦
      let same : least_atom best (a ∷ rest) ≡ least_atom a rest = rw take refl in
      subst (λ x. In x (best ∷ a ∷ rest)) (sym same) (inr (least_atom-In a rest))
]

module _ (atoms : List DisclosureAtom) where
  shown : (a : DisclosureAtom) → In a atoms → IsShown atoms a.atom_sha256
  shown a i = (a, i, refl)

  pub AllShown-one : (a : DisclosureAtom) → In a atoms → AllShown atoms (a.atom_sha256 ∷ [])
  AllShown-one a i digest (inl same) = subst (IsShown atoms) (sym same) (shown a i)
  AllShown-one a i digest (inr j) = absurd j

  pub AllShown-two :
      (a b : DisclosureAtom)
      → In a atoms
      → In b atoms
      → AllShown atoms (a.atom_sha256 ∷ b.atom_sha256 ∷ [])
  AllShown-two a b i j digest (inl same) = subst (IsShown atoms) (sym same) (shown a i)
  AllShown-two a b i j digest (inr k) = AllShown-one b j digest k

  module _ (hash_rule : List String → DisclosureAtom → String) where
    pub AllShown-build_rule :
        (antecedents : List String) (consequent : DisclosureAtom)
        → AllShown atoms antecedents
        → AllShown atoms (build_rule hash_rule antecedents consequent).antecedent_atom_sha256s
    unfolding build_rule
    AllShown-build_rule antecedents consequent h digest i =
        h digest
          (unique-In digest antecedents (In-sorted_by (λ d. d) digest (unique antecedents) i))

    pub Grounded-one :
        (antecedents : List String) (consequent : DisclosureAtom)
        → AllShown atoms antecedents
        → Grounded atoms (build_rule hash_rule antecedents consequent ∷ [])
    Grounded-one antecedents consequent h r (inl same) =
        subst (λ x. AllShown atoms x.antecedent_atom_sha256s) (sym same)
          (AllShown-build_rule antecedents consequent h)
    Grounded-one antecedents consequent h r (inr i) = absurd i

-- The cohorts that the loop stores are facts of the list.
abbrev pub FamilyOf : List DisclosureAtom → Dict String DisclosureAtom → Type 0
FamilyOf atoms family = (e : String × DisclosureAtom) → In e family → In e.1 atoms

abbrev pub CohortsOf : List DisclosureAtom → Cohorts → Type 0
CohortsOf atoms known = (e : String × Dict String DisclosureAtom) → In e known → FamilyOf atoms e.1

module _ (atoms : List DisclosureAtom) where
  FamilyOf-put :
      (digest : String) (a : DisclosureAtom) (family : Dict String DisclosureAtom)
      → In a atoms
      → FamilyOf atoms family
      → FamilyOf atoms (Dict.put digest a family)
  FamilyOf-put digest a family i h e j = elim (put-In digest a family e j) [
    | inl same ↦ subst (λ x. In x atoms) (sym same) i
    | inr old ↦ h e old
  ]

  FamilyOf-with_cohort :
      (a : DisclosureAtom) (family : Dict String DisclosureAtom)
      → In a atoms
      → FamilyOf atoms family
      → FamilyOf atoms (with_cohort a family)
  FamilyOf-with_cohort a family i h =
      let digest = get_or "" a.cohort_hmac_sha256 in
      elim (Option-cases (Dict.get digest family)) [
        | inl absent ↦
            let same : with_cohort a family ≡ Dict.put digest a family =
              rw (with_cohort, absent) refl in
            subst (FamilyOf atoms) (sym same) (FamilyOf-put digest a family i h)
        | inr (existing, found) ↦
            elim (Bool-cases (is_le (compare existing.atom_sha256 a.atom_sha256))) [
              | inl keep ↦
                  let same : with_cohort a family ≡ family = rw (with_cohort, found, keep) refl in
                  subst (FamilyOf atoms) (sym same) h
              | inr replace ↦
                  let same : with_cohort a family ≡ Dict.put digest a family =
                    rw (with_cohort, found, replace) refl in
                  subst (FamilyOf atoms) (sym same) (FamilyOf-put digest a family i h)
            ]
      ]

  FamilyOf-get :
      (name : String) (known : Cohorts)
      → CohortsOf atoms known
      → FamilyOf atoms (get_or [] (Dict.get name known))
  FamilyOf-get name known h = elim (Option-cases (Dict.get name known)) [
    | inl absent ↦ rw absent (λ e i. absurd i)
    | inr (family, found) ↦
        let (entry, there, same) = get-In name family known found in
        rw found (subst (FamilyOf atoms) same (h entry there))
  ]

  pub CohortsOf-by_family :
      (known : Cohorts) (rest : List DisclosureAtom)
      → CohortsOf atoms known
      → ((a : DisclosureAtom) → In a rest → In a atoms)
      → CohortsOf atoms (cohorts_by_family known rest)
  CohortsOf-by_family known [] h within = h
  CohortsOf-by_family known (a ∷ rest) h within = elim (Bool-cases (is_protected_cohort a)) [
    | inr other ↦ rw other (CohortsOf-by_family known rest h (λ x i. within x (inr i)))
    | inl one ↦
        let name = get_or "" a.release_family_sha256 in
        let family = with_cohort a (get_or [] (Dict.get name known)) in
        let stored : FamilyOf atoms family =
          FamilyOf-with_cohort a (get_or [] (Dict.get name known)) (within a (inl refl))
            (FamilyOf-get name known h) in
        let more : CohortsOf atoms (Dict.put name family known) = λ e i.
          elim (put-In name family known e i) [
            | inl same ↦ subst (FamilyOf atoms) (sym same) stored
            | inr old ↦ h e old
          ] in
        rw one
          (CohortsOf-by_family (Dict.put name family known) rest more (λ x i. within x (inr i)))
  ]
