-- ===== src/Prospective/Search/Invariant.antt =====
-- The invariant of the loops of `check_prospective_privacy` in
-- src/toxicjoin/prospective/ppmc_search.py. It speaks of the nodes that were discovered, whose keys
-- the program keeps in `seen`.
pub mod Grow
use toxicjoin.Prelude.{
  ℕ, suc, ◌+◌, ◌≤◌, ◌≡◌, ◌⊎◌, refl, sym, inl, inr, ap, ◌∙◌, subst, Bool, true, false, contains,
  length, Option, none, some, List, [], ◌∷◌, ◌++◌, Eq, ◌==◌, In, In-append, In-left, In-end, arith,
  Result, ok, raise,
}
use toxicjoin.Prospective.{LocalOracleDecision, PpmcSearchConfig}
use toxicjoin.Prospective.Search.{Model, SearchNode, Progress, Stop, root}
use toxicjoin.Prospective.Search.Paths.{IsMove, IsReached, IsClear, IsJustified}

-- The depths of a queue do not fall.
abbrev pub Ordered : {S P : Type 0} → List (SearchNode S P) → Type 0
Ordered [] = Unit
Ordered {S} {P} (x ∷ xs) = ((y : SearchNode S P) → In y xs → x.depth ≤ y.depth) × Ordered xs

pub Ordered-end :
    {S P : Type 0} (xs : List (SearchNode S P)) (c : SearchNode S P)
    → Ordered xs
    → ((y : SearchNode S P) → In y xs → y.depth ≤ c.depth)
    → Ordered (xs ++ c ∷ [])
Ordered-end [] c o h = ((λ y i. absurd i), tt)
Ordered-end (x ∷ xs) c (first, rest) h = (
  λ y i. elim (In-append y xs (c ∷ []) i) [
    | inl i ↦ first y i
    | inr (inl same) ↦ rw same (h x (inl refl))
    | inr (inr none_) ↦ absurd none_
  ],
  Ordered-end xs c rest (λ y i. h y (inr i)),
)

module _ {S A P K : Type 0} ⦃e : Eq K⦄ (model : Model S A P K) (config : PpmcSearchConfig)
    (initial : S) (start : P) where
  abbrev pub key_of : SearchNode S P → K
  key_of n = model.search_node_key n.state n.temporal_path

  -- The action, where it is a move, leads to a discovered key, found no later than one level on.
  abbrev pub IsCovered : List (SearchNode S P) → SearchNode S P → A → Type 0
  IsCovered found x a =
      (next : S) (d : LocalOracleDecision)
      → IsMove model config x.state a next d
      → (path : P) × (model.extend x.temporal_path a next (suc x.depth) ≡ some path)
        × (y : SearchNode S P) × In y found
        × (key_of y ≡ model.search_node_key next path)
        × (y.depth ≤ suc x.depth)

  abbrev pub IsClosed : List (SearchNode S P) → SearchNode S P → Type 0
  IsClosed found x = (a : A) → In a model.actions → IsCovered found x a

  pub record Inv (found pending : List (SearchNode S P)) (seen : List K) (fuel : ℕ)
      (Current : SearchNode S P → Type 0) : Type 0 where
    pub rooted : In (root model config initial start) found
    pub listed :
        (k : K) → contains k seen ≡ true → (y : SearchNode S P) × In y found × (key_of y ≡ k)
    pub reached : (y : SearchNode S P) → In y found → IsReached model config initial start y
    pub clear :
        (y : SearchNode S P) → In y found → IsClear model config y.state (some y.temporal_path)
    pub bounded : (y : SearchNode S P) → In y found → y.depth ≤ config.bound
    pub queued : (y : SearchNode S P) → In y pending → In y found
    pub close : (y z : SearchNode S P) → In y found → In z pending → y.depth ≤ suc z.depth
    pub ordered : Ordered pending
    pub status :
        (y : SearchNode S P)
        → In y found
        → In y pending ⊎ ((config.bound ≤ y.depth) ⊎ (IsClosed found y ⊎ Current y))
    pub spare : length pending + config.max_states ≤ fuel + length seen
    pub within : length seen ≤ config.max_states

  -- Inside the loop over the actions of a node; those of `rest` are still to come.
  pub record Inner (x : SearchNode S P) (rest : List A) (found pending : List (SearchNode S P))
      (seen : List K) (fuel : ℕ) : Type 0 where
    pub inv : Inv found pending seen fuel (λ y. y ≡ x)
    pub member : In x found
    pub expanding : suc x.depth ≤ config.bound
    pub near : (y : SearchNode S P) → In y found → y.depth ≤ suc x.depth
    pub after : (z : SearchNode S P) → In z pending → x.depth ≤ z.depth
    pub covered : (a : A) → In a model.actions → In a rest ⊎ IsCovered found x a

  -- What one action or several leave: the invariant for those to come, or a justified return.
  abbrev pub After : SearchNode S P → List A → ℕ → Result (Stop S) (Progress S P K) → Type 0
  After x rest fuel (ok p) =
      (found : List (SearchNode S P)) × Inner x rest found p.queue p.seen fuel
  After x rest fuel (raise stop) = IsJustified model config initial start stop

  -- An action that is covered already.
  pub Inner-covered :
      (x : SearchNode S P) (a : A) (rest : List A) (found pending : List (SearchNode S P))
      (seen : List K) (fuel : ℕ)
      → Inner x (a ∷ rest) found pending seen fuel
      → IsCovered found x a
      → Inner x rest found pending seen fuel
  Inner-covered x a rest found pending seen fuel i c = record {
    inv = i.inv;
    member = i.member;
    expanding = i.expanding;
    near = i.near;
    after = i.after;
    covered = λ b offered. elim (i.covered b offered) [
      | inl (inl same) ↦ inr (subst (IsCovered found x) (sym same) c)
      | inl (inr later) ↦ inl later
      | inr done ↦ inr done
    ];
  }
