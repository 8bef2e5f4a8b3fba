-- ===== src/Policy/Categories.antt =====
-- What the category sets of src/toxicjoin/policy/engine.py hold, said of the columns themselves.
use toxicjoin.Prelude.{
  ◌≡◌, refl, ◌≢◌, ◌↔◌, Bool, true, false, ◌||◌, List, [], ◌∷◌, map, arith, ◌==◌, any, filter,
  is_empty, contains, flat_map, any-append, any-from_keys,
}
use toxicjoin.Models.{SensitivityCategory, unclassified, Category_eq, LineageSource, ColumnContext}
use toxicjoin.Policy.{
  Entry, Entry_eq, column_entries, effective_category_entries, effective_categories, is_unresolved,
}

-- Every member of the list has the property.
abbrev pub All : {Member : Type 0} (holds : Member → Type 0) → List Member → Type 0
All holds [] = Unit
All holds (member ∷ others) = holds member × All holds others

-- The column has the category, or a source that it was materialised from has.
abbrev pub shows : SensitivityCategory → ColumnContext → Bool
shows category c = c.category == category || any (λ s. s.category == category) c.lineage_sources

any-map {ℓ κ} :
    {A : Type ℓ} {B : Type κ} (p : B → Bool) (f : A → B) (xs : List A)
    → any p (map f xs) ≡ any (λ x. p (f x)) xs
any-map p f [] = refl
any-map p f (x ∷ xs) = ground (arith, any-map p f xs)

contains-categories :
    (category : SensitivityCategory) (es : List Entry)
    → contains category (map (λ e. e.1) es) ≡ any (λ e. e.1 == category) es
contains-categories category [] = refl
contains-categories category (e ∷ es) = ground (arith, contains-categories category es)

any-entries :
    (category : SensitivityCategory) (columns : List ColumnContext)
    → any (λ e. e.1 == category) (flat_map column_entries columns) ≡ any (shows category) columns
unfolding column_entries
any-entries category [] = refl
any-entries category (c ∷ cs) = simp (any-append, any-map) (ground (arith, any-entries category cs))

-- Some column of the list shows the category.
unfoldable pub any_shows : SensitivityCategory → List ColumnContext → Bool
any_shows category columns = any (shows category) columns

-- The set of effective categories forgets order and repetition, and loses no category.
pub contains-effective_categories :
    (category : SensitivityCategory) (columns : List ColumnContext)
    → contains category (effective_categories columns) ≡ any_shows category columns
unfolding effective_categories effective_category_entries any_shows
contains-effective_categories category columns =
    simp (contains-categories, any-from_keys, any-entries)

-- A column that governance resolved and classified, with every source that it was made from.
pub record IsGoverned (c : ColumnContext) : Type 0 where
  pub resolved : c.resolved ≡ true
  pub classified : c.category ≢ unclassified
  pub sources : All (λ s. s.category ≢ unclassified) c.lineage_sources

sources_iff :
    (ss : List LineageSource)
    → (any (λ s. s.category == unclassified) ss ≡ false) ↔ All (λ s. s.category ≢ unclassified) ss
sources_iff [] = (λ _. tt, λ _. refl)
sources_iff (s ∷ ss) = ground (arith, Category_eq.beq_iff s.category unclassified, sources_iff ss)

is_unresolved_iff : (c : ColumnContext) → (is_unresolved c ≡ false) ↔ IsGoverned c
unfolding is_unresolved
is_unresolved_iff c =
    ground (arith, Category_eq.beq_iff c.category unclassified, sources_iff c.lineage_sources)

-- No referenced column is reported as unresolved exactly when all are governed.
pub unresolved_iff :
    (columns : List ColumnContext)
    → (is_empty (filter is_unresolved columns) ≡ true) ↔ All IsGoverned columns
unresolved_iff [] = (λ _. tt, λ _. refl)
unresolved_iff (c ∷ cs) = ground (arith, is_unresolved_iff c, unresolved_iff cs)
