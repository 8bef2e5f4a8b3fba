-- ===== src/Prospective/Forbidden/Clear.antt =====
-- What src/toxicjoin/prospective/forbidden.py guarantees of a state that it does not forbid and does
-- not leave undecided.
use toxicjoin.Prelude.{
  ℕ, ◌≡◌, ◌≢◌, ◌⊎◌, false≢true, refl, sym, inl, inr, ap, ◌∙◌, subst, String, String_eq, true, false,
  Option, none, some, List, [], ◌∷◌, ◌++◌, map, ◌==◌, ==_self, filter, flat_map, get_or, sorted,
  is_empty, all, not, In, In-left, In-right, In-end, In-map, In-filter, In-flat_map, Bool-cases,
  Option-cases, arith,
}
use toxicjoin.Prelude.Dict
use toxicjoin.Prelude.Dict.{Dict, get-put}
use toxicjoin.Models.{
  SensitivityCategory, Category_eq, direct_identifier, stable_pseudonym, sensitive_attribute,
}
use toxicjoin.Disclosure.Ledger.{OptionString_eq}
use toxicjoin.Prospective.{
  cross_release_composition, ForbiddenPredicateId, ForbiddenStateEvaluation,
}
use toxicjoin.Prospective.Twin.{DisclosureAtom, sorted_by}
use toxicjoin.Prospective.Twin.Sorting.{sorted_by-In}
use toxicjoin.Prospective.Forbidden.{
  ForbiddenPredicateStatus, matched, indeterminate, Status_eq, ForbiddenReasonCode,
  identifier_and_sensitive_across_releases, GovernanceTrustBinding, TemporalReleaseObservation,
  ForbiddenPredicateEvaluation, DisclosureState, Candidate, evaluation_of, judge_candidates,
  group_from, by_release, OptionCategory_eq, of_category, linkage, release_linkages,
  same_release_linkage, cross_linkages, is_identifier, cross_release, untrusted_governance,
  temporal_difference, linkable, predicates_of, with_status, fits, EvaluationHash,
  evaluate_forbidden_state,
}

some_inj : {T : Type 0} (x y : T) → some x ≡ some y → x ≡ y
some_inj x y h = cc

nonempty : {T : Type 0} (x : T) (xs : List T) → In x xs → is_empty xs ≡ true → ⊥
nonempty x [] i h = i
nonempty x (y ∷ ys) i h = false≢true h

-- No predicate of the list has a status that none is listed with.
pub without_status :
    (status : ForbiddenPredicateStatus) (p : ForbiddenPredicateEvaluation)
    (ps : List ForbiddenPredicateEvaluation)
    → is_empty (with_status status ps) ≡ true
    → In p ps
    → p.status ≢ status
without_status status p ps none_ i h =
    nonempty p.predicate_id (with_status status ps)
      (In-map (λ (q : ForbiddenPredicateEvaluation). q.predicate_id) p _
        (In-filter (λ (q : ForbiddenPredicateEvaluation). q.status == status) p ps i
          ((Status_eq.beq_iff p.status status).1 h)))
      none_

judge-matched :
    (id : ForbiddenPredicateId) (by : Candidate → List String) (c : Candidate) (cs : List Candidate)
    → In c cs
    → (judge_candidates id by cs).status ≡ matched
unfolding judge_candidates evaluation_of
judge-matched id by c [] i = absurd i
judge-matched id by c (x ∷ xs) i = refl

-- An entry of a dictionary.
In-of_get :
    (r : String) (g : List DisclosureAtom) (d : Dict String (List DisclosureAtom))
    → Dict.get r d ≡ some g
    → In (r, g) d
unfolding Dict.get
In-of_get r g [] h = cc
In-of_get r g ((k, v) ∷ rest) h = elim (Bool-cases (k == r)) [
  | inl own ↦
      let key = (String_eq.beq_iff k r).0 own in
      let value : v ≡ g = some_inj v g (rw own at h) in inl (λ i. (sym key i, sym value i))
  | inr other ↦ inr (In-of_get r g rest (rw other at h))
]

-- The atom stands in the group of the release.
IsGrouped : DisclosureAtom → String → Dict String (List DisclosureAtom) → Type 0
IsGrouped a r d = (g : List DisclosureAtom) × (Dict.get r d ≡ some g) × In a g

IsGrouped-put :
    (a : DisclosureAtom) (r k : String) (b : DisclosureAtom) (d : Dict String (List DisclosureAtom))
    → IsGrouped a r d
    → IsGrouped a r (Dict.put k (get_or [] (Dict.get k d) ++ b ∷ []) d)
unfolding IsGrouped
IsGrouped-put a r k b d (g, there, i) = elim (Bool-cases (k == r)) [
  | inr other ↦ (g, get-put k r _ d ∙ rw other there, i)
  | inl own ↦
      let key = (String_eq.beq_iff k r).0 own in
      let old : get_or [] (Dict.get k d) ≡ g =
        ap (λ x. get_or [] (Dict.get x d)) key ∙ ap (get_or []) there in
      (
        get_or [] (Dict.get k d) ++ b ∷ [],
        get-put k r _ d ∙ rw own refl,
        In-left a (get_or [] (Dict.get k d)) (b ∷ []) (subst (In a) (sym old) i),
      )
]

IsGrouped-kept :
    (a : DisclosureAtom) (r : String) (atoms : List DisclosureAtom)
    (d : Dict String (List DisclosureAtom))
    → IsGrouped a r d
    → IsGrouped a r (group_from d atoms)
unfolding group_from
IsGrouped-kept a r [] d h = h
IsGrouped-kept a r (b ∷ rest) d h = elim (Option-cases b.release_semantic_sha256) [
  | inl free ↦ rw (group_from, free) (IsGrouped-kept a r rest d h)
  | inr (k, bound) ↦ rw (group_from, bound) (IsGrouped-kept a r rest _ (IsGrouped-put a r k b d h))
]

IsGrouped-of :
    (a : DisclosureAtom) (r : String) (atoms : List DisclosureAtom)
    (d : Dict String (List DisclosureAtom))
    → In a atoms
    → a.release_semantic_sha256 ≡ some r
    → IsGrouped a r (group_from d atoms)
unfolding group_from IsGrouped
IsGrouped-of a r [] d i h = absurd i
IsGrouped-of a r (b ∷ rest) d (inl same) h =
    let bound : b.release_semantic_sha256 ≡ some r =
      ap (λ (x : DisclosureAtom). x.release_semantic_sha256) (sym same) ∙ h in
    rw (group_from, bound)
      (IsGrouped-kept a r rest _ (
        get_or [] (Dict.get r d) ++ b ∷ [],
        get-put r r _ d ∙ rw (==_self r) refl,
        subst (λ x. In a (get_or [] (Dict.get r d) ++ x ∷ [])) same
            (In-end a (get_or [] (Dict.get r d))),
      ))
IsGrouped-of a r (b ∷ rest) d (inr i) h = elim (Option-cases b.release_semantic_sha256) [
  | inl free ↦ rw (group_from, free) (IsGrouped-of a r rest d i h)
  | inr (k, bound) ↦ rw (group_from, bound) (IsGrouped-of a r rest _ i h)
]

-- An atom and another of its release are in one group.
same_group :
    (a b : DisclosureAtom) (r : String) (atoms : List DisclosureAtom)
    → In a atoms
    → In b atoms
    → a.release_semantic_sha256 ≡ some r
    → b.release_semantic_sha256 ≡ some r
    → (g : List DisclosureAtom) × In (r, g) (by_release atoms) × In a g × In b g
unfolding by_release IsGrouped
same_group a b r atoms i j own other =
    let (g, there, in_a) = IsGrouped-of a r atoms [] i own in
    let (h, there', in_b) = IsGrouped-of b r atoms [] j other in
    let same : h ≡ g = some_inj h g (sym there' ∙ there) in
    let sorted_group = sorted_by (λ (x : DisclosureAtom). x.atom_sha256) g in
    (
      sorted_group,
      In-map
          (λ (group : String × List DisclosureAtom).
            (group.0, sorted_by (λ (x : DisclosureAtom). x.atom_sha256) group.1))
          (r, g) (group_from [] atoms) (In-of_get r g (group_from [] atoms) there),
      sorted_by-In (λ (x : DisclosureAtom). x.atom_sha256) a g in_a,
      sorted_by-In (λ (x : DisclosureAtom). x.atom_sha256) b g (subst (In b) same in_b),
    )

same_release-matched :
    (id : ForbiddenPredicateId) (category : SensitivityCategory) (reason : ForbiddenReasonCode)
    (a b : DisclosureAtom) (r : String) (atoms : List DisclosureAtom)
    → In a atoms
    → In b atoms
    → a.release_semantic_sha256 ≡ some r
    → b.release_semantic_sha256 ≡ some r
    → (a.category == some category) ≡ true
    → (b.category == some sensitive_attribute) ≡ true
    → (same_release_linkage id category reason (by_release atoms)).status ≡ matched
unfolding same_release_linkage
same_release-matched id category reason a b r atoms i j own other is_a is_b =
    let (g, there, in_a, in_b) = same_group a b r atoms i j own other in
    let pair : Candidate = linkage reason (r ∷ []) a b in
    judge-matched id (λ c. c.atoms ++ c.releases) pair
      (flat_map (release_linkages category reason) (by_release atoms))
      (In-flat_map (release_linkages category reason) (r, g) pair (by_release atoms) there
        (In-flat_map
          (λ identifier.
            map (linkage reason (r ∷ []) identifier) (of_category sensitive_attribute g))
          a pair (of_category category g)
          (In-filter (λ (x : DisclosureAtom). x.category == some category) a g in_a is_a)
          (In-map (linkage reason (r ∷ []) a) b (of_category sensitive_attribute g) (
            In-filter (λ (x : DisclosureAtom). x.category == some sensitive_attribute) b g in_b
              is_b))))

In-one : {T : Type 0} (x : T) (xs : List T) → In x (xs ++ []) → In x xs
In-one x [] i = i
In-one x (y ∷ ys) (inl same) = inl same
In-one x (y ∷ ys) (inr i) = inr (In-one x ys i)

-- The pairs of an identifier with one atom are among those with a list of it.
In-cross :
    (a b : DisclosureAtom) (pair : Candidate) (sensitive : List DisclosureAtom)
    → In b sensitive
    → In pair (cross_linkages (b ∷ []) a)
    → In pair (cross_linkages sensitive a)
In-cross a b pair [] i j = absurd i
In-cross a b pair (x ∷ rest) (inl same) j =
    let j' = subst (λ y. In pair (cross_linkages (y ∷ []) a)) same j in
    In-left pair _ (cross_linkages rest a) (In-one pair _ j')
In-cross a b pair (x ∷ rest) (inr i) j =
    In-right pair _ (cross_linkages rest a) (In-cross a b pair rest i j)

cross_release-matched :
    (a b : DisclosureAtom) (atoms : List DisclosureAtom)
    → In a atoms
    → In b atoms
    → (a.release_semantic_sha256 == b.release_semantic_sha256) ≡ false
    → is_identifier a ≡ true
    → (b.category == some sensitive_attribute) ≡ true
    → (cross_release atoms).status ≡ matched
unfolding cross_release
cross_release-matched a b atoms i j apart is_a is_b =
    let sensitive = of_category sensitive_attribute atoms in
    let in_b =
      In-filter (λ (x : DisclosureAtom). x.category == some sensitive_attribute) b atoms j is_b in
    let releases =
      sorted (get_or "" a.release_semantic_sha256 ∷ get_or "" b.release_semantic_sha256 ∷ []) in
    let pair : Candidate = linkage identifier_and_sensitive_across_releases releases a b in
    let found : In pair (cross_linkages (b ∷ []) a) = rw apart (inl refl) in
    judge-matched cross_release_composition (λ c. c.atoms ++ c.releases) pair
      (flat_map (cross_linkages sensitive) (filter is_identifier atoms))
      (In-flat_map (cross_linkages sensitive) a pair (filter is_identifier atoms)
        (In-filter is_identifier a atoms i is_a) (In-cross a b pair sensitive in_b found))

untrusted :
    (state : DisclosureState) (b : GovernanceTrustBinding)
    → (b.governance_commitment_sha256 == state.governance_commitment_sha256) ≡ true
    → b.trusted ≡ false
    → (untrusted_governance state (some b)).status ≡ matched
unfolding untrusted_governance evaluation_of
untrusted state b own open_ = ground (arith, own, open_)

trusted-of :
    (state : DisclosureState) (binding : Option GovernanceTrustBinding)
    → (untrusted_governance state binding).status ≢ matched
    → (b : GovernanceTrustBinding) × (binding ≡ some b)
      × (b.governance_commitment_sha256 ≡ state.governance_commitment_sha256)
      × (b.trusted ≡ true)
unfolding untrusted_governance evaluation_of
trusted-of state none h = absurd (h refl)
trusted-of state (some b) h =
    elim (Bool-cases (b.governance_commitment_sha256 == state.governance_commitment_sha256)) [
      | inr other ↦ absurd (h (rw (untrusted_governance, other) refl))
      | inl own ↦ elim (Bool-cases b.trusted) [
        | inr open_ ↦ absurd (h (untrusted state b own open_))
        | inl trusted ↦ (b, refl, (String_eq.beq_iff _ _).0 own, trusted)
      ]
    ]

path_known :
    (path : Option (List TemporalReleaseObservation))
    → (temporal_difference path).status ≢ indeterminate
    → (p : List TemporalReleaseObservation) × (path ≡ some p)
unfolding temporal_difference evaluation_of
path_known none h = absurd (h refl)
path_known (some p) h = (p, refl)

-- A state that the predicates leave clear: it was decided in a trusted context, with the temporal path
-- known, and it shows no identifier together with a sensitive attribute.
pub record IsProtected (state : DisclosureState) (binding : Option GovernanceTrustBinding)
    (path : Option (List TemporalReleaseObservation)) : Type 0 where
  pub trusted :
      (b : GovernanceTrustBinding) × (binding ≡ some b)
      × (b.governance_commitment_sha256 ≡ state.governance_commitment_sha256)
      × (b.trusted ≡ true)
  pub known : (p : List TemporalReleaseObservation) × (path ≡ some p)
  pub unlinked :
      (a b : DisclosureAtom) (r q : String)
      → In a (linkable state)
      → In b (linkable state)
      → a.release_semantic_sha256 ≡ some r
      → b.release_semantic_sha256 ≡ some q
      → is_identifier a ≡ true
      → ¬ ((b.category == some sensitive_attribute) ≡ true)

identifier-cases :
    (a : DisclosureAtom)
    → is_identifier a ≡ true
    → ((a.category == some direct_identifier) ≡ true)
      ⊎ ((a.category == some stable_pseudonym) ≡ true)
identifier-cases a h = elim (Option-cases a.category) [
  | inl free ↦ absurd (false≢true (rw free at h))
  | inr (c, known) ↦
      let h' = rw known at h in
      elim (Bool-cases (direct_identifier == c)) [
        | inl own ↦
            let same = (Category_eq.beq_iff direct_identifier c).0 own in
            inl (
              (OptionCategory_eq.beq_iff a.category (some direct_identifier)).1
                (known ∙ ap some (sym same)))
        | inr other ↦
            let own : (stable_pseudonym == c) ≡ true = ground (arith, h', other) in
            let same = (Category_eq.beq_iff stable_pseudonym c).0 own in
            inr (
              (OptionCategory_eq.beq_iff a.category (some stable_pseudonym)).1
                (known ∙ ap some (sym same)))
      ]
]

-- What an evaluation that returned is made of.
pub evaluated-parts :
    (hash : EvaluationHash) (state : DisclosureState) (minimum : ℕ)
    (binding : Option GovernanceTrustBinding) (path : Option (List TemporalReleaseObservation))
    (v : ForbiddenStateEvaluation)
    → evaluate_forbidden_state hash state minimum binding path ≡ some v
    → (all fits (predicates_of state minimum binding path) ≡ true)
      × (v.forbidden
          ≡ not (is_empty (with_status matched (predicates_of state minimum binding path))))
      × (v.indeterminate_predicates
          ≡ with_status indeterminate (predicates_of state minimum binding path))
unfolding evaluate_forbidden_state
evaluated-parts hash state minimum binding path v returned =
    let ps = predicates_of state minimum binding path in
    elim (Bool-cases (all fits ps)) [
      | inr over ↦
          let h : ◌≡◌ {A = Option ForbiddenStateEvaluation} none (some v) =
            rw (evaluate_forbidden_state, over) at returned in
          cc
      | inl within ↦
          let made : ForbiddenStateEvaluation = record {
            evaluation_sha256 = hash state minimum binding path ps;
            matched_predicates = with_status matched ps;
            indeterminate_predicates = with_status indeterminate ps;
            forbidden = not (is_empty (with_status matched ps));
          } in
          let built : evaluate_forbidden_state hash state minimum binding path ≡ some made =
            rw (evaluate_forbidden_state, within) refl in
          let same : made ≡ v = some_inj made v (sym built ∙ returned) in
          (
            within,
            ap (λ (w : ForbiddenStateEvaluation). w.forbidden) (sym same),
            ap (λ (w : ForbiddenStateEvaluation). w.indeterminate_predicates) (sym same),
          )
    ]

-- A state is protected when `evaluate_forbidden_state` returns, and neither forbids it nor leaves it
-- undecided: the governance binding is there, trusted, and of the state's own commitment; the temporal
-- path is known; and no identifier is shown linkably beside a linkable sensitive attribute, be it in
-- the same release or in another, for atoms that name their release.
pub evaluate_forbidden_state-IsProtected :
    (hash : EvaluationHash) (state : DisclosureState) (minimum : ℕ)
    (binding : Option GovernanceTrustBinding) (path : Option (List TemporalReleaseObservation))
    (v : ForbiddenStateEvaluation)
    → evaluate_forbidden_state hash state minimum binding path ≡ some v
    → v.forbidden ≡ false
    → is_empty v.indeterminate_predicates ≡ true
    → IsProtected state binding path
unfolding predicates_of
evaluate_forbidden_state-IsProtected hash state minimum binding path v returned fine decided =
    let ps = predicates_of state minimum binding path in
    let (within, shown, left) = evaluated-parts hash state minimum binding path v returned in
    let none_ : is_empty (with_status matched ps) ≡ true = ground (arith, fine, shown) in
    let open_ : is_empty (with_status indeterminate ps) ≡ true =
      subst (λ xs. is_empty xs ≡ true) left decided in
    let unmatched : (p : ForbiddenPredicateEvaluation) → In p ps → p.status ≢ matched =
      λ p i. without_status matched p ps none_ i in
    record {
      trusted =
          trusted-of state binding (
            unmatched (untrusted_governance state binding)
              (inr (inr (inr (inr (inr (inl refl)))))));
      known = path_known path (
          without_status indeterminate (temporal_difference path) ps open_
            (inr (inr (inr (inr (inl refl))))));
      unlinked = λ a b r q i j own other is_a is_b.
          elim (Bool-cases (a.release_semantic_sha256 == b.release_semantic_sha256)) [
            | inr apart ↦
                unmatched (cross_release (linkable state)) (inr (inr (inr (inl refl))))
                  (cross_release-matched a b (linkable state) i j apart is_a is_b)
            | inl together ↦
                let same = (OptionString_eq.beq_iff _ _).0 together in
                elim (identifier-cases a is_a) [
                  | inl direct ↦ unmatched _ (inl refl) (
                      same_release-matched _ direct_identifier _ a b r (linkable state) i j own
                        (sym same ∙ own) direct is_b)
                  | inr stable ↦ unmatched _ (inr (inl refl)) (
                      same_release-matched _ stable_pseudonym _ a b r (linkable state) i j own
                        (sym same ∙ own) stable is_b)
                ]
          ];
    }
