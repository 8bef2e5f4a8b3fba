-- ===== src/Prelude/Lists.antt =====
-- Lists with native lengths, Python's `any`, `all`, `in`, `sum`, `sorted` and `dict.fromkeys`.
use Prim.Native.Nat.{ℕ, suc, ◌+◌, ◌≤◌}
use Prim.Native.String.{String, compare}
use mathlib.Core.Path.{◌≡◌, refl}
use mathlib.Core.Bool.{Bool, true, false, ◌&&◌, ◌||◌, not}
use mathlib.Core.Option.{Option, none, some}
use mathlib.Core.List.{List, [], ◌∷◌, ◌++◌}
use native.Mathlib.Omega.{arith}
use text.Mathlib.Text.{is_le}
use toxicjoin.Prelude.Tests.{Eq, ◌==◌, if◌then◌else◌}

-- The value, or a default.
abbrev pub get_or {ℓ} : {A : Type ℓ} → A → Option A → A
get_or d none = d
get_or d (some a) = a

module _ {ℓ} {A : Type ℓ} where
  abbrev pub length : List A → ℕ
  length [] = 0
  length (x ∷ xs) = suc (length xs)

  abbrev pub is_empty : List A → Bool
  is_empty [] = true
  is_empty (x ∷ xs) = false

  abbrev pub any : (A → Bool) → List A → Bool
  any p [] = false
  any p (x ∷ xs) = p x || any p xs

  abbrev pub all : (A → Bool) → List A → Bool
  all p [] = true
  all p (x ∷ xs) = p x && all p xs

  abbrev pub count_if : (A → Bool) → List A → ℕ
  count_if p [] = 0
  count_if p (x ∷ xs) = if p x then suc (count_if p xs) else count_if p xs

  abbrev pub filter : (A → Bool) → List A → List A
  filter p [] = []
  filter p (x ∷ xs) = if p x then x ∷ filter p xs else filter p xs

  abbrev pub get_last? : List A → Option A
  get_last? [] = none
  get_last? (x ∷ []) = some x
  get_last? (x ∷ y ∷ xs) = get_last? (y ∷ xs)

  abbrev pub get_head? : List A → Option A
  get_head? [] = none
  get_head? (x ∷ xs) = some x

  abbrev pub filter_map {κ} : {B : Type κ} → (A → Option B) → List A → List B
  filter_map f [] = []
  filter_map f (x ∷ xs) = elim (f x) [ none ↦ filter_map f xs | some y ↦ y ∷ filter_map f xs ]

  abbrev pub flat_map {κ} : {B : Type κ} → (A → List B) → List A → List B
  flat_map f [] = []
  flat_map f (x ∷ xs) = f x ++ flat_map f xs

  pub length-append : (xs ys : List A) → length (xs ++ ys) ≡ length xs + length ys
  length-append [] ys = omega arith
  length-append (x ∷ xs) ys = omega (arith, length-append xs ys)

  pub any-append : (p : A → Bool) (xs ys : List A) → any p (xs ++ ys) ≡ (any p xs || any p ys)
  any-append p [] ys = refl
  any-append p (x ∷ xs) ys = ground (arith, any-append p xs ys)

  pub filter-append :
      (p : A → Bool) (xs ys : List A) → filter p (xs ++ ys) ≡ filter p xs ++ filter p ys
  filter-append p [] ys = refl
  filter-append p (x ∷ xs) ys = ground (arith, filter-append p xs ys)

  pub count_if-append :
      (p : A → Bool) (xs ys : List A) → count_if p (xs ++ ys) ≡ count_if p xs + count_if p ys
  count_if-append p [] ys = omega arith
  count_if-append p (x ∷ xs) ys = ground (arith, count_if-append p xs ys)

  pub length-filter-le : (p : A → Bool) (xs : List A) → length (filter p xs) ≤ length xs
  length-filter-le p [] = omega arith
  length-filter-le p (x ∷ xs) = ground (arith, length-filter-le p xs)

module _ {ℓ} {A : Type ℓ} ⦃e : Eq A⦄ where
  abbrev pub contains : A → List A → Bool
  contains a [] = false
  contains a (x ∷ xs) = x == a || contains a xs

  -- A key put into a dictionary keeps its place if it is there already.
  abbrev pub add_key : List A → A → List A
  add_key xs a = if contains a xs then xs else xs ++ a ∷ []

  -- `dict.fromkeys`: the values in the order of their first occurrence.
  unfoldable pub from_keys : List A → List A → List A
  from_keys seen [] = seen
  from_keys seen (x ∷ xs) = from_keys (add_key seen x) xs

  -- No value occurs twice.
  abbrev pub is_distinct : List A → Bool
  is_distinct [] = true
  is_distinct (x ∷ xs) = not (contains x xs) && is_distinct xs

  contains-any :
      (p : A → Bool) (a : A) (xs : List A) → contains a xs ≡ true → p a ≡ true → any p xs ≡ true
  contains-any p a [] h q = cc
  contains-any p a (x ∷ xs) h q = ground (arith, e.beq_iff x a, contains-any p a xs)

  any-add_key : (p : A → Bool) (xs : List A) (a : A) → any p (add_key xs a) ≡ (any p xs || p a)
  any-add_key p xs a = ground (arith, contains-any p a xs, any-append p xs (a ∷ []))

  -- Every value that is put in stays in, and nothing else is there.
  pub any-from_keys :
      (p : A → Bool) (seen xs : List A) → any p (from_keys seen xs) ≡ (any p seen || any p xs)
  unfolding from_keys
  any-from_keys p seen [] = ground arith
  any-from_keys p seen (x ∷ xs) =
      ground (arith, any-from_keys p (add_key seen x) xs, any-add_key p seen x)

  pub contains-eq-any : (a : A) (xs : List A) → contains a xs ≡ any (λ x. x == a) xs
  contains-eq-any a [] = refl
  contains-eq-any a (x ∷ xs) = ground (arith, contains-eq-any a xs)

  pub contains-append :
      (a : A) (xs ys : List A) → contains a (xs ++ ys) ≡ (contains a xs || contains a ys)
  contains-append a [] ys = refl
  contains-append a (x ∷ xs) ys = ground (arith, contains-append a xs ys)

  pub contains-from_keys :
      (a : A) (seen xs : List A)
      → contains a (from_keys seen xs) ≡ (contains a seen || contains a xs)
  contains-from_keys a seen xs = simp (contains-eq-any, any-from_keys)

  is_distinct-append_new :
      (xs : List A) (a : A)
      → is_distinct xs ≡ true
      → contains a xs ≡ false
      → is_distinct (xs ++ a ∷ []) ≡ true
  is_distinct-append_new [] a d h = refl
  is_distinct-append_new (x ∷ xs) a d h = ground (
    arith,
    is_distinct-append_new xs a,
    contains-eq-any x (xs ++ a ∷ []),
    contains-eq-any x xs,
    any-append (λ y. y == x) xs (a ∷ []),
    e.beq_iff a x,
    e.beq_iff x a,
  )

  pub is_distinct-from_keys :
      (seen xs : List A) → is_distinct seen ≡ true → is_distinct (from_keys seen xs) ≡ true
  unfolding from_keys
  is_distinct-from_keys seen [] d = d
  is_distinct-from_keys seen (x ∷ xs) d =
      is_distinct-from_keys (add_key seen x) xs (ground (arith, is_distinct-append_new seen x))

-- `sorted` on texts, which Python and `compare` order by code points.
abbrev insert_sorted : String → List String → List String
insert_sorted s [] = s ∷ []
insert_sorted s (t ∷ ts) = if is_le (compare s t) then s ∷ t ∷ ts else t ∷ insert_sorted s ts

abbrev pub sorted : List String → List String
sorted [] = []
sorted (s ∷ ss) = insert_sorted s (sorted ss)
