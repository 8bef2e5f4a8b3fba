-- ===== src/Prospective/Twin/Sorting.antt =====
-- The sorting of src/toxicjoin/prospective/twin.py keeps what it sorts.
use toxicjoin.Prelude.{
  suc, ◌≡◌, ◌⊎◌, refl, inl, inr, ap, ◌∙◌, String, String_eq, ◌||◌, map, contains, length, List, [],
  ◌∷◌, ◌==◌, In, Bool-cases, arith,
}
use Prim.Native.String.{compare}
use text.Mathlib.Text.{is_le}
use toxicjoin.Prospective.Twin.{insert_by, sorted_by}

module _ {T : Type 0} (by : T → String) where
  In-insert_by : (x y : T) (xs : List T) → In y (insert_by by x xs) → (y ≡ x) ⊎ In y xs
  In-insert_by x y [] i = i
  In-insert_by x y (z ∷ zs) i = elim (Bool-cases (is_le (compare (by x) (by z)))) [
    | inl first ↦ rw first at i
    | inr later ↦
        let i' : In y (z ∷ insert_by by x zs) = rw later at i in
        elim i' [
          | inl head ↦ inr (inl head)
          | inr rest ↦ elim (In-insert_by x y zs rest) [
            | inl same ↦ inl same
            | inr old ↦ inr (inr old)
          ]
        ]
  ]

  pub In-sorted_by : (y : T) (xs : List T) → In y (sorted_by by xs) → In y xs
  In-sorted_by y [] i = i
  In-sorted_by y (x ∷ xs) i = elim (In-insert_by x y (sorted_by by xs) i) [
    | inl same ↦ inl same
    | inr old ↦ inr (In-sorted_by y xs old)
  ]

  insert_by-In : (x y : T) (xs : List T) → (y ≡ x) ⊎ In y xs → In y (insert_by by x xs)
  insert_by-In x y [] i = i
  insert_by-In x y (z ∷ zs) i = elim (Bool-cases (is_le (compare (by x) (by z)))) [
    | inl first ↦ rw first i
    | inr later ↦ rw later (elim i [
      | inl same ↦ inr (insert_by-In x y zs (inl same))
      | inr (inl head) ↦ inl head
      | inr (inr old) ↦ inr (insert_by-In x y zs (inr old))
    ])
  ]

  pub sorted_by-In : (y : T) (xs : List T) → In y xs → In y (sorted_by by xs)
  sorted_by-In y [] i = i
  sorted_by-In y (x ∷ xs) i =
      insert_by-In x y (sorted_by by xs)
        (elim i [ inl same ↦ inl same | inr old ↦ inr (sorted_by-In y xs old) ])

  length-insert_by : (x : T) (xs : List T) → length (insert_by by x xs) ≡ suc (length xs)
  length-insert_by x [] = refl
  length-insert_by x (z ∷ zs) = ground (arith, length-insert_by x zs)

  pub length-sorted_by : (xs : List T) → length (sorted_by by xs) ≡ length xs
  length-sorted_by [] = refl
  length-sorted_by (x ∷ xs) = length-insert_by x (sorted_by by xs) ∙ ap suc (length-sorted_by xs)

  -- The texts of a sorted list are those of the list.
  contains-insert_by :
      (k : String) (x : T) (xs : List T)
      → contains k (map by (insert_by by x xs)) ≡ (by x == k || contains k (map by xs))
  contains-insert_by k x [] = refl
  contains-insert_by k x (z ∷ zs) = ground (arith, contains-insert_by k x zs)

  pub contains-sorted_by :
      (k : String) (xs : List T) → contains k (map by (sorted_by by xs)) ≡ contains k (map by xs)
  contains-sorted_by k [] = refl
  contains-sorted_by k (x ∷ xs) =
      contains-insert_by k x (sorted_by by xs) ∙ ap (λ b. by x == k || b) (contains-sorted_by k xs)
