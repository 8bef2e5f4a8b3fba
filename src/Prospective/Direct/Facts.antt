-- ===== src/Prospective/Direct/Facts.antt =====
-- The facts of one release in src/toxicjoin/prospective/twin.py, part by part.
use toxicjoin.Prelude.{
  map-In, ℕ, ◌≡◌, inl, inr, refl, sym, ap, ◌∙◌, subst, false≢true, String, String_eq, Bool_eq, true,
  not, Option, none, some, List, [], ◌∷◌, ◌++◌, ◌==◌, map, flat_map, In, In-append, In-left,
  In-right, In-map, In-flat_map, ok, require, require-eq-ok, >>=-eq-ok,
}
use toxicjoin.Disclosure.{
  GovernedColumn, SemanticOutput, DisclosureSemanticRelease, DisclosureComposition,
}
use toxicjoin.Disclosure.Composition.{is_protected_release}
use toxicjoin.Prospective.Twin.{
  AtomFields, output, referenced, join, group_key_role, composition_required, composition_mismatch,
  classification_mismatch,
}
use toxicjoin.Prospective.Direct.{
  column_fact, output_facts, dataset_fact, aggregate_fact, minimum_facts, cohort_fact, cohort_facts,
  facts_of, check_composition,
}

-- A property of every element of a joined list, part by part.
abbrev pub IsOf : String → AtomFields → Type 0
IsOf release f = f.release_semantic_sha256 ≡ some release

abbrev pub AllOf : String → List AtomFields → Type 0
AllOf release fs = (f : AtomFields) → In f fs → IsOf release f

AllOf-append :
    (release : String) (xs ys : List AtomFields)
    → AllOf release xs
    → AllOf release ys
    → AllOf release (xs ++ ys)
AllOf-append release xs ys left right f i = elim (In-append f xs ys i) [
  | inl l ↦ left f l
  | inr r ↦ right f r
]

AllOf-map :
    {A : Type 0} (release : String) (make : A → AtomFields) (xs : List A)
    → ((x : A) → IsOf release (make x))
    → AllOf release (map make xs)
AllOf-map release make xs h f i =
    let (x, there, same) = map-In make f xs i in subst (IsOf release) (sym same) (h x)

AllOf-outputs :
    (release : String) (outputs : List SemanticOutput)
    → AllOf release (flat_map (output_facts release) outputs)
AllOf-outputs release [] f i = absurd i
AllOf-outputs release (o ∷ rest) f i =
    AllOf-append release (output_facts release o) (flat_map (output_facts release) rest)
      (AllOf-map release (column_fact release output (some o.kind)) o.sources (λ c. refl))
      (AllOf-outputs release rest) f i

AllOf-minimum :
    (release : String) (minimum : Option ℕ) → AllOf release (minimum_facts release minimum)
AllOf-minimum release none f i = absurd i
AllOf-minimum release (some minimum) f (inl same) = ap (λ g. g.release_semantic_sha256) same
AllOf-minimum release (some minimum) f (inr i) = absurd i

AllOf-cohort :
    (release : String) (composition : Option DisclosureComposition)
    → AllOf release (cohort_facts release composition)
AllOf-cohort release none f i = absurd i
AllOf-cohort release (some composition) f (inl same) = ap (λ g. g.release_semantic_sha256) same
AllOf-cohort release (some composition) f (inr i) = absurd i

pub facts_of-AllOf :
    (semantic : DisclosureSemanticRelease) (composition : Option DisclosureComposition)
    → AllOf semantic.semantic_sha256 (facts_of semantic composition)
unfolding facts_of
facts_of-AllOf semantic composition f (inl same) = ap (λ g. g.release_semantic_sha256) same
facts_of-AllOf semantic composition f (inr i) =
    let r = semantic.semantic_sha256 in
    AllOf-append r _ _ (AllOf-map r (dataset_fact r) semantic.source_dataset_urns (λ c. refl))
      (AllOf-append r _ _ (AllOf-outputs r semantic.outputs) (
        AllOf-append r _ _
          (AllOf-map r (column_fact r referenced none) semantic.referenced_columns (λ c. refl))
          (AllOf-append r _ _
            (AllOf-map r (column_fact r join none) semantic.join_columns (λ c. refl))
            (AllOf-append r _ _
              (AllOf-map r (column_fact r group_key_role none) semantic.group_keys (λ c. refl))
              (AllOf-append r _ _
                (AllOf-map r (aggregate_fact r) semantic.aggregate_functions (λ c. refl))
                (AllOf-append r _ _ (AllOf-minimum r semantic.minimum_group_size_present)
                  (AllOf-cohort r composition)))))))
      f i

pub output-In :
    (semantic : DisclosureSemanticRelease) (composition : Option DisclosureComposition)
    (o : SemanticOutput) (c : GovernedColumn)
    → In o semantic.outputs
    → In c o.sources
    → In
        (column_fact semantic.semantic_sha256 output (some o.kind) c)
        (facts_of semantic composition)
unfolding facts_of
output-In semantic composition o c i j =
    let r = semantic.semantic_sha256 in
    let fact = column_fact r output (some o.kind) c in
    inr (
      In-right fact (map (dataset_fact r) semantic.source_dataset_urns) _ (
        In-left fact (flat_map (output_facts r) semantic.outputs) _ (
          In-flat_map (output_facts r) o fact semantic.outputs i
            (In-map (column_fact r output (some o.kind)) c o.sources j))))

pub cohort-In :
    (semantic : DisclosureSemanticRelease) (composition : DisclosureComposition)
    → In (cohort_fact semantic.semantic_sha256 composition) (facts_of semantic (some composition))
unfolding facts_of
cohort-In semantic composition =
    let r = semantic.semantic_sha256 in
    let fact = cohort_fact r composition in
    inr (
      In-right fact (map (dataset_fact r) semantic.source_dataset_urns) _ (
        In-right fact (flat_map (output_facts r) semantic.outputs) _ (
          In-right fact (map (column_fact r referenced none) semantic.referenced_columns) _ (
            In-right fact (map (column_fact r join none) semantic.join_columns) _ (
              In-right fact (map (column_fact r group_key_role none) semantic.group_keys) _ (
                In-right fact (map (aggregate_fact r) semantic.aggregate_functions) _ (
                  In-right fact (minimum_facts r semantic.minimum_group_size_present) _
                    (inl refl))))))))

-- What the checks at the start ensure.
pub protected-composition :
    (semantic : DisclosureSemanticRelease) (composition : Option DisclosureComposition)
    {u : Unit {0}}
    → check_composition semantic composition ≡ ok u
    → is_protected_release semantic ≡ true
    → (c : DisclosureComposition) × (composition ≡ some c) × (c.protected_release ≡ true)
unfolding check_composition
protected-composition semantic none h protected =
    let open' = require-eq-ok (not (is_protected_release semantic)) composition_required h in
    absurd (false≢true (rw protected at open'))
protected-composition semantic (some c) h protected =
    let (u, family, rest) =
      >>=-eq-ok (require (c.release_family_sha256 == semantic.semantic_sha256) composition_mismatch)
        _ h in
    let same =
      require-eq-ok (c.protected_release == is_protected_release semantic) classification_mismatch
        rest in
    (
      c,
      refl,
      (Bool_eq.beq_iff c.protected_release (is_protected_release semantic)).0 same ∙ protected,
    )
