-- ===== src/Prospective/Twin/Least.antt =====
-- `least_fixed_point` of src/toxicjoin/prospective/twin.py derives what can be derived, and ends.
use toxicjoin.Prelude.{
  suc, ◌≤◌, ◌≡◌, ◌↔◌, false≢true, refl, sym, inl, inr, ap, ◌∙◌, subst, String, String_eq, true,
  false, not, ◌&&◌, ◌||◌, map, contains, length, leb, List, [], ◌∷◌, ◌==◌, In, Bool-cases,
  Result-cases, arith, Result, ok, raise, require, >>=-eq-ok, ok-injective, raise≢ok,
}
use toxicjoin.Prelude.Dict
use toxicjoin.Prelude.Dict.{Dict, has-cons}
use toxicjoin.Prospective.Twin.{
  DisclosureAtom, DisclosureInferenceRule, TwinError, out_of_fuel, derived_budget, sorted_by,
  index_from, close_under, derived_from, max_state_atoms, least_fixed_point,
}
use toxicjoin.Prospective.Twin.Sorting.{
  In-sorted_by, sorted_by-In, length-sorted_by, contains-sorted_by,
}
use toxicjoin.Prospective.Twin.FixedPoint.{
  Known, IsDerivable, by_release, by_rule, has-put, contains-all, IsKeyed, IsKeyed-put,
}
use toxicjoin.Prospective.Twin.FixedPoint.Turn.{missing}
use toxicjoin.Prospective.Twin.FixedPoint.Closure.{IsClosure, IsClosure-of, close_under-terminates}

abbrev sha : DisclosureAtom → String
sha a = a.atom_sha256

has-index_from :
    (k : String) (d : Known) (atoms : List DisclosureAtom)
    → Dict.has k (index_from d atoms) ≡ (Dict.has k d || contains k (map sha atoms))
has-index_from k d [] = ground arith
has-index_from k d (a ∷ rest) =
    ground (arith, has-index_from k (Dict.put a.atom_sha256 a d) rest, has-put a.atom_sha256 k a d)

pub has-seed :
    (k : String) (atoms : List DisclosureAtom)
    → Dict.has k (index_from [] atoms) ≡ contains k (map sha atoms)
unfolding Dict.get
has-seed k atoms = has-index_from k [] atoms

pub IsKeyed-index_from :
    (d : Known) (atoms : List DisclosureAtom) → IsKeyed d → IsKeyed (index_from d atoms)
IsKeyed-index_from d [] h = h
IsKeyed-index_from d (a ∷ rest) h =
    IsKeyed-index_from (Dict.put a.atom_sha256 a d) rest (IsKeyed-put a d h)

-- The hashes of the derived facts are the known ones that are not of the seed.
contains-derived_from :
    (k : String) (first known : Known)
    → IsKeyed known
    → contains k (map sha (derived_from first known)) ≡ (Dict.has k known && not (Dict.has k first))
unfolding Dict.get
contains-derived_from k first [] h = ground arith
contains-derived_from k first ((j, v) ∷ rest) (own, keyed) = ground (
  arith,
  own,
  String_eq.beq_iff j k,
  has-cons k j v rest,
  contains-derived_from k first rest keyed,
)

IsDerivable-more :
    (released : List DisclosureAtom) (rules rules' : List DisclosureInferenceRule)
    → ((r : DisclosureInferenceRule) → In r rules → In r rules')
    → (k : String) → IsDerivable released rules k
    → IsDerivable released rules' k
IsDerivable-more released rules rules' more k (by_release a i) = by_release a i
IsDerivable-more released rules rules' more k (by_rule r i needed) =
    by_rule r (more r i)
      (λ digest there. IsDerivable-more released rules rules' more digest (needed digest there))

contains-In :
    (k : String) (atoms : List DisclosureAtom)
    → contains k (map sha atoms) ≡ true
    → (a : DisclosureAtom) × In a atoms × (a.atom_sha256 ≡ k)
contains-In k [] h = absurd (false≢true h)
contains-In k (a ∷ rest) h = elim (Bool-cases (a.atom_sha256 == k)) [
  | inl own ↦ (a, inl refl, (String_eq.beq_iff a.atom_sha256 k).0 own)
  | inr other ↦
      let (b, there, same) = contains-In k rest (ground (arith, h, other)) in (b, inr there, same)
]

pub In-contains :
    (a : DisclosureAtom) (atoms : List DisclosureAtom)
    → In a atoms
    → contains a.atom_sha256 (map sha atoms) ≡ true
In-contains a [] i = absurd i
In-contains a (b ∷ rest) (inl same) =
    let own : (b.atom_sha256 == a.atom_sha256) ≡ true =
      (String_eq.beq_iff b.atom_sha256 a.atom_sha256).1 (ap sha (sym same)) in
    ground (arith, own)
In-contains a (b ∷ rest) (inr i) = ground (arith, In-contains a rest i)

budget_apart :
    ¬ (◌≡◌ {A = Result TwinError (List DisclosureAtom)} (raise derived_budget) (raise out_of_fuel))
budget_apart h = cc

missing-le-length :
    (rules : List DisclosureInferenceRule) (known : Known) → missing rules known ≤ length rules
missing-le-length [] known = omega arith
missing-le-length (r ∷ rest) known = ground (arith, missing-le-length rest known)

module _ (released : List DisclosureAtom) (rules : List DisclosureInferenceRule) where
  abbrev ordered : List DisclosureInferenceRule
  ordered = sorted_by (λ (r : DisclosureInferenceRule). r.rule_sha256) rules

  abbrev start : Known
  start = index_from [] released

  start-IsDerivable : (k : String) → Dict.has k start ≡ true → IsDerivable released ordered k
  start-IsDerivable k there =
      let (a, i, same) = contains-In k released (sym (has-seed k released) ∙ there) in
      subst (IsDerivable released ordered) same (by_release a i)

  -- Every fact that can be derived is known at the end.
  derivable_known :
      (known : Known) (c : IsClosure released ordered start known) (k : String)
      → IsDerivable released ordered k
      → Dict.has k known ≡ true
  derivable_known known c k (by_release a i) =
      c.grows a.atom_sha256 (has-seed a.atom_sha256 released ∙ In-contains a released i)
  derivable_known known c k (by_rule r i needed) = c.closed r i (
      contains-all (λ d. Dict.has d known) r.antecedent_atom_sha256s
        (λ digest there. derivable_known known c digest (needed digest there)))

  known_iff :
      (known : Known) (c : IsClosure released ordered start known) (k : String)
      → (Dict.has k known ≡ true) ↔ IsDerivable released rules k
  known_iff known c k = (
    λ there.
        IsDerivable-more released ordered rules
          (λ r. In-sorted_by (λ (r : DisclosureInferenceRule). r.rule_sha256) r rules) k
          (c.sound start-IsDerivable k there),
    λ d. derivable_known known c k (
        IsDerivable-more released rules ordered
          (λ r. sorted_by-In (λ (r : DisclosureInferenceRule). r.rule_sha256) r rules) k d),
  )

  -- The facts that `least_fixed_point` returns are, by their hashes, exactly those that follow from
  -- the released facts by the rules and are not released themselves.
  pub least_fixed_point_iff :
      (derived : List DisclosureAtom)
      → least_fixed_point released rules ≡ ok derived
      → (k : String)
      → (contains k (map (λ (a : DisclosureAtom). a.atom_sha256) derived) ≡ true) ↔ (
          IsDerivable released rules k
          × (contains k (map (λ (a : DisclosureAtom). a.atom_sha256) released) ≡ false))
  unfolding least_fixed_point
  least_fixed_point_iff derived h k =
      let (known, closed, h1) = >>=-eq-ok (close_under (suc (length rules)) start ordered) _ h in
      let (u, small, h2) =
        >>=-eq-ok (require (leb (length (derived_from start known)) max_state_atoms) derived_budget)
          _ h1 in
      let c = IsClosure-of released ordered (suc (length rules)) start known closed in
      let keyed = c.keyed (IsKeyed-index_from [] released tt) in
      let last = ok-injective (sorted_by sha (derived_from start known)) derived h2 in
      let listed : contains k (map sha derived)
          ≡ (Dict.has k known && not (contains k (map sha released))) =
        ap (λ xs. contains k (map sha xs)) (sym last)
        ∙ contains-sorted_by sha k (derived_from start known)
        ∙ contains-derived_from k start known keyed
        ∙ ap (λ b. Dict.has k known && not b) (has-seed k released) in
      (
        λ there.
            let both = sym listed ∙ there in
            ((known_iff known c k).0 (ground (arith, both)), ground (arith, both)),
        λ (d, new). listed ∙ ground (arith, (known_iff known c k).1 d, new),
      )

  -- The loop of `least_fixed_point` ends: one turn more than there are rules is enough.
  pub least_fixed_point-terminates : ¬ (least_fixed_point released rules ≡ raise out_of_fuel)
  unfolding least_fixed_point
  least_fixed_point-terminates h =
      elim (Result-cases (close_under (suc (length rules)) start ordered)) [
        | inr (e, failed) ↦
            let h1 = rw (least_fixed_point, failed) at h in
            let same : e ≡ out_of_fuel = cc in
            close_under-terminates released ordered (suc (length rules)) start
              (omega (
                arith,
                missing-le-length ordered start,
                length-sorted_by (λ (r : DisclosureInferenceRule). r.rule_sha256) rules,
              ))
              (failed ∙ ap raise same)
        | inl (known, closed) ↦
            let h1 = rw (least_fixed_point, closed) at h in
            elim (Bool-cases (leb (length (derived_from start known)) max_state_atoms)) [
              | inl small ↦ raise≢ok _ _ (sym (rw small at h1))
              | inr large ↦ budget_apart (rw large at h1)
            ]
      ]
