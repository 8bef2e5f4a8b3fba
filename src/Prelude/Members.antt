-- ===== src/Prelude/Members.antt =====
-- Membership of a list as a proposition.
use mathlib.Core.Path.{◌≡◌, refl, sym, ap, ◌∙◌, subst}
use mathlib.Core.Bool.{Bool, true}
use mathlib.Core.Logic.{◌⊎◌, inl, inr}
use mathlib.Core.List.{List, [], ◌∷◌, ◌++◌, map}
use toxicjoin.Prelude.Tests.{Bool-cases}
use toxicjoin.Prelude.Lists.{filter, flat_map}

module _ {A : Type 0} where
  abbrev pub In : A → List A → Type 0
  In a [] = ⊥
  In a (x ∷ xs) = (a ≡ x) ⊎ In a xs

  pub List-cases : (xs : List A) → (xs ≡ []) ⊎ ((x : A) × (rest : List A) × (xs ≡ x ∷ rest))
  List-cases [] = inl refl
  List-cases (x ∷ rest) = inr (x, rest, refl)

  pub In-append : (a : A) (xs ys : List A) → In a (xs ++ ys) → In a xs ⊎ In a ys
  In-append a [] ys i = inr i
  In-append a (x ∷ xs) ys (inl e) = inl (inl e)
  In-append a (x ∷ xs) ys (inr i) = elim (In-append a xs ys i) [
    | inl l ↦ inl (inr l)
    | inr r ↦ inr r
  ]

  pub In-left : (a : A) (xs ys : List A) → In a xs → In a (xs ++ ys)
  In-left a [] ys i = absurd i
  In-left a (x ∷ xs) ys (inl e) = inl e
  In-left a (x ∷ xs) ys (inr i) = inr (In-left a xs ys i)

  pub In-right : (a : A) (xs ys : List A) → In a ys → In a (xs ++ ys)
  In-right a [] ys i = i
  In-right a (x ∷ xs) ys i = inr (In-right a xs ys i)

  pub In-end : (a : A) (xs : List A) → In a (xs ++ a ∷ [])
  In-end a [] = inl refl
  In-end a (x ∷ xs) = inr (In-end a xs)

  pub In-filter : (p : A → Bool) (a : A) (xs : List A) → In a xs → p a ≡ true → In a (filter p xs)
  In-filter p a [] i h = i
  In-filter p a (x ∷ xs) (inl same) h =
      let h' : p x ≡ true = ap p (sym same) ∙ h in rw h' (inl same)
  In-filter p a (x ∷ xs) (inr i) h = elim (Bool-cases (p x)) [
    | inl kept ↦ rw kept (inr (In-filter p a xs i h))
    | inr left ↦ rw left (In-filter p a xs i h)
  ]

  pub filter-In : (p : A → Bool) (a : A) (xs : List A) → In a (filter p xs) → In a xs
  filter-In p a [] i = i
  filter-In p a (x ∷ xs) i = elim (Bool-cases (p x)) [
    | inr left ↦ let i' : In a (filter p xs) = rw left at i in inr (filter-In p a xs i')
    | inl kept ↦
        let i' : In a (x ∷ filter p xs) = rw kept at i in
        elim i' [ inl same ↦ inl same | inr later ↦ inr (filter-In p a xs later) ]
  ]

module _ {A B : Type 0} where
  pub In-map : (f : A → B) (a : A) (xs : List A) → In a xs → In (f a) (map f xs)
  In-map f a [] i = absurd i
  In-map f a (x ∷ xs) (inl same) = inl (ap f same)
  In-map f a (x ∷ xs) (inr i) = inr (In-map f a xs i)

  pub In-flat_map :
      (f : A → List B) (a : A) (b : B) (xs : List A) → In a xs → In b (f a) → In b (flat_map f xs)
  In-flat_map f a b [] i j = absurd i
  In-flat_map f a b (x ∷ xs) (inl same) j =
      In-left b (f x) (flat_map f xs) (subst (λ y. In b (f y)) same j)
  In-flat_map f a b (x ∷ xs) (inr i) j = In-right b (f x) (flat_map f xs) (In-flat_map f a b xs i j)

  pub map-In : (f : A → B) (b : B) (xs : List A) → In b (map f xs) → (a : A) × In a xs × (b ≡ f a)
  map-In f b [] i = absurd i
  map-In f b (x ∷ xs) (inl same) = (x, inl refl, same)
  map-In f b (x ∷ xs) (inr i) = let (a, there, same) = map-In f b xs i in (a, inr there, same)

  pub flat_map-In :
      (f : A → List B) (b : B) (xs : List A) → In b (flat_map f xs) → (a : A) × In a xs × In b (f a)
  flat_map-In f b [] i = absurd i
  flat_map-In f b (x ∷ xs) i = elim (In-append b (f x) (flat_map f xs) i) [
    | inl here ↦ (x, inl refl, here)
    | inr later ↦ let (a, there, j) = flat_map-In f b xs later in (a, inr there, j)
  ]
