-- ===== src/Prospective/Search/Invariant/Grow.antt =====
-- A new node in the loop of `check_prospective_privacy` in src/toxicjoin/prospective/ppmc_search.py.
use toxicjoin.Prelude.{
  ℕ, suc, ◌≤◌, ◌≡◌, ◌⊎◌, refl, inl, inr, length, length-append, some, List, [], ◌∷◌, Eq, ◌==◌, In,
  In-append, In-left, In-end, Bool-cases, ltb, arith,
}
use toxicjoin.Prospective.{LocalOracleDecision, PpmcSearchConfig}
use toxicjoin.Prospective.Search.{Model, SearchNode, child, enqueue}
use toxicjoin.Prospective.Search.Paths.{IsMove, by_move, IsClear}
use toxicjoin.Prospective.Search.Invariant.{Ordered, Ordered-end, IsCovered, Inner}

module _ {S A P K : Type 0} ⦃e : Eq K⦄ (model : Model S A P K) (config : PpmcSearchConfig)
    (initial : S) (start : P) where
  -- More discovered nodes cover as much.
  IsCovered-more :
      (c x : SearchNode S P) (a : A) (found : List (SearchNode S P))
      → IsCovered model config initial start found x a
      → IsCovered model config initial start (c ∷ found) x a
  IsCovered-more c x a found h next d move =
      let (path, known, y, there, same, depth) = h next d move in
      (path, known, y, inr there, same, depth)

  module _ (c : SearchNode S P) (pending : List (SearchNode S P)) where
    enqueued : (y : SearchNode S P) → In y (enqueue model config c pending) → In y pending ⊎ (y ≡ c)
    enqueued y i = elim (Bool-cases (ltb c.depth config.bound)) [
      | inr deep ↦ inl (rw deep at i)
      | inl shallow ↦ elim (In-append y pending (c ∷ []) (rw shallow at i)) [
        | inl old ↦ inl old
        | inr (inl same) ↦ inr same
        | inr (inr none_) ↦ absurd none_
      ]
    ]

    In-enqueue : (y : SearchNode S P) → In y pending → In y (enqueue model config c pending)
    In-enqueue y i = elim (Bool-cases (ltb c.depth config.bound)) [
      | inr deep ↦ rw deep i
      | inl shallow ↦ rw shallow (In-left y pending (c ∷ []) i)
    ]

    enqueue_self : In c (enqueue model config c pending) ⊎ (config.bound ≤ c.depth)
    enqueue_self = elim (Bool-cases (ltb c.depth config.bound)) [
      | inr deep ↦ inr (ground arith)
      | inl shallow ↦ inl (rw shallow (In-end c pending))
    ]

    enqueue-Ordered :
        Ordered pending
        → ((y : SearchNode S P) → In y pending → y.depth ≤ c.depth)
        → Ordered (enqueue model config c pending)
    enqueue-Ordered o h = elim (Bool-cases (ltb c.depth config.bound)) [
      | inr deep ↦ rw deep o
      | inl shallow ↦ rw shallow (Ordered-end pending c o h)
    ]

    length-enqueue : length (enqueue model config c pending) ≤ suc (length pending)
    length-enqueue = ground (arith, length-append pending (c ∷ []))

  -- A clear child with a new key is discovered, and covers its action.
  pub Inner-grow :
      (x : SearchNode S P) (a : A) (rest : List A) (found pending : List (SearchNode S P))
      (seen : List K) (fuel : ℕ) (next : S) (d : LocalOracleDecision) (path : P)
      → Inner model config initial start x (a ∷ rest) found pending seen fuel
      → IsMove model config x.state a next d
      → model.extend x.temporal_path a next (suc x.depth) ≡ some path
      → suc (length seen) ≤ config.max_states
      → IsClear model config next (some path)
      → Inner model config initial start x
          (a ∷ rest)
          (child model config x a next d path ∷ found)
          (enqueue model config (child model config x a next d path) pending)
          (model.search_node_key next path ∷ seen)
          fuel
  Inner-grow x a rest found pending seen fuel next d path i move known room clear =
      let c = child model config x a next d path in
      let v = i.inv in
      let near' : (y : SearchNode S P) → In y (c ∷ found) → y.depth ≤ suc x.depth =
        λ y there. elim there [ inl same ↦ rw same (omega arith) | inr old ↦ i.near y old ] in
      let after' : (z : SearchNode S P)
          → In z (enqueue model config c pending)
          → x.depth ≤ z.depth =
        λ z waiting. elim (enqueued c pending z waiting) [
          | inl old ↦ i.after z old
          | inr same ↦ rw same (omega arith)
        ] in
      record {
        inv = record {
          rooted = inr v.rooted;
          listed = λ k there. elim (Bool-cases (model.search_node_key next path == k)) [
            | inl same ↦ (c, inl refl, (e.beq_iff (model.search_node_key next path) k).0 same)
            | inr other ↦
                let (y, old, same) = v.listed k (ground (arith, there, other)) in (y, inr old, same)
          ];
          reached = λ y there. elim there [
            | inl same ↦ rw same (by_move x (v.reached x i.member) a next d move path known)
            | inr old ↦ v.reached y old
          ];
          clear = λ y there. elim there [ inl same ↦ rw same clear | inr old ↦ v.clear y old ];
          bounded =
              λ y there. elim there [ inl same ↦ rw same i.expanding | inr old ↦ v.bounded y old ];
          queued = λ y there. elim (enqueued c pending y there) [
            | inl old ↦ inr (v.queued y old)
            | inr same ↦ inl same
          ];
          close = λ y z there waiting.
              let low : y.depth ≤ suc x.depth = near' y there in
              let high : x.depth ≤ z.depth = after' z waiting in omega (arith, low, high);
          ordered = enqueue-Ordered c pending v.ordered (λ y old. i.near y (v.queued y old));
          status = λ y there. elim there [
            | inl same ↦ elim (enqueue_self c pending) [
              | inl waiting ↦ inl (rw same waiting)
              | inr deep ↦ inr (inl (rw same deep))
            ]
            | inr old ↦ elim (v.status y old) [
              | inl waiting ↦ inl (In-enqueue c pending y waiting)
              | inr (inl deep) ↦ inr (inl deep)
              | inr (inr (inl closed)) ↦
                  inr (inr (inl (λ b offered. IsCovered-more c y b found (closed b offered))))
              | inr (inr (inr current)) ↦ inr (inr (inr current))
            ]
          ];
          spare = omega (arith, v.spare, length-enqueue c pending);
          within = room;
        };
        member = inr i.member;
        expanding = i.expanding;
        near = near';
        after = after';
        covered = λ b offered. elim (i.covered b offered) [
          | inl later ↦ inl later
          | inr done ↦ inr (IsCovered-more c x b found done)
        ];
      }
