-- ===== src/Prospective/Search/Explored.antt =====
-- What the end of `check_prospective_privacy` in src/toxicjoin/prospective/ppmc_search.py has
-- explored.
use toxicjoin.Prelude.{
  ℕ, zero, suc, ◌≤◌, ◌≡◌, ◌⊎◌, refl, sym, inl, inr, subst, some, List, [], ◌∷◌, Eq, In, Bool-cases,
  Result-cases, leb, arith, Result, ok, raise,
}
use toxicjoin.Prospective.{PpmcSearchConfig}
use toxicjoin.Prospective.Search.{
  Model, SearchNode, Progress, Stop, Outcome, stopped, no_counterexample_within_bound, out_of_fuel,
  raised, consider_all, expand, pop, search, root, started,
}
use toxicjoin.Prospective.Search.Paths.{IsReached, at_root, IsClear, IsJustified}
use toxicjoin.Prospective.Search.Invariant.{IsClosed, Inv, Inner}
use toxicjoin.Prospective.Search.Loop.{consider_all-After}

List-cases : {T : Type 0} (xs : List T) → (xs ≡ []) ⊎ ((x : T) × (rest : List T) × (xs ≡ x ∷ rest))
List-cases [] = inl refl
List-cases (x ∷ rest) = inr (x, rest, refl)

module _ {S A P K : Type 0} ⦃e : Eq K⦄ (model : Model S A P K) (config : PpmcSearchConfig)
    (initial : S) (start : P) where
  abbrev Nobody : SearchNode S P → Type 0
  Nobody y = ⊥

  -- Every node that was discovered is reached and clear, and its moves lead to discovered keys unless it is at
  -- the bound.
  pub record IsExplored : Type 0 where
    pub found : List (SearchNode S P)
    pub rooted : In (root model config initial start) found
    pub clear :
        (y : SearchNode S P) → In y found → IsClear model config y.state (some y.temporal_path)
    pub reached : (y : SearchNode S P) → In y found → IsReached model config initial start y
    pub done :
        (y : SearchNode S P)
        → In y found
        → (config.bound ≤ y.depth) ⊎ IsClosed model config initial start found y

  -- What the status of a search says.
  abbrev pub Says : Outcome S → Type 0
  Says (stopped stop) = IsJustified model config initial start stop
  Says (no_counterexample_within_bound counters) = IsExplored
  Says out_of_fuel = ⊥
  Says raised = Unit

  abbrev Kept : ℕ → Result (Stop S) (Progress S P K) → Type 0
  Kept fuel (ok p) =
      (found : List (SearchNode S P)) × Inv model config initial start found p.queue p.seen fuel
        Nobody
  Kept fuel (raise stop) = IsJustified model config initial start stop

  -- A node that leaves the queue becomes the current one.
  Inner-pop :
      (x : SearchNode S P) (rest found : List (SearchNode S P)) (seen : List K) (fuel : ℕ)
      → Inv model config initial start found (x ∷ rest) seen (suc fuel) Nobody
      → suc x.depth ≤ config.bound
      → Inner model config initial start x model.actions found rest seen fuel
  Inner-pop x rest found seen fuel v shallow = record {
    inv = record {
      rooted = v.rooted;
      listed = v.listed;
      reached = v.reached;
      clear = v.clear;
      bounded = v.bounded;
      queued = λ y i. v.queued y (inr i);
      close = λ y z i j. v.close y z i (inr j);
      ordered = v.ordered.1;
      status = λ y i. elim (v.status y i) [
        | inl (inl same) ↦ inr (inr (inr same))
        | inl (inr waiting) ↦ inl waiting
        | inr (inl deep) ↦ inr (inl deep)
        | inr (inr (inl closed)) ↦ inr (inr (inl closed))
        | inr (inr (inr nobody)) ↦ absurd nobody
      ];
      spare = omega (arith, v.spare);
      within = v.within;
    };
    member = v.queued x (inl refl);
    expanding = shallow;
    near = λ y i. v.close y x i (inl refl);
    after = λ z i. v.ordered.0 z i;
    covered = λ a offered. inl offered;
  }

  -- The current node is closed once no action is left.
  Inv-of_Inner :
      (x : SearchNode S P) (found pending : List (SearchNode S P)) (seen : List K) (fuel : ℕ)
      → Inner model config initial start x [] found pending seen fuel
      → Inv model config initial start found pending seen fuel Nobody
  Inv-of_Inner x found pending seen fuel i =
      let v = i.inv in
      let closed : IsClosed model config initial start found x =
        λ a offered. elim (i.covered a offered) [ inl none_ ↦ absurd none_ | inr c ↦ c ] in
      record {
        rooted = v.rooted;
        listed = v.listed;
        reached = v.reached;
        clear = v.clear;
        bounded = v.bounded;
        queued = v.queued;
        close = v.close;
        ordered = v.ordered;
        status = λ y there. elim (v.status y there) [
          | inl waiting ↦ inl waiting
          | inr (inl deep) ↦ inr (inl deep)
          | inr (inr (inl done)) ↦ inr (inr (inl done))
          | inr (inr (inr same)) ↦
              inr (inr (inl (subst (IsClosed model config initial start found) (sym same) closed)))
        ];
        spare = v.spare;
        within = v.within;
      }

  -- A node at the bound needs no successors.
  Inv-skip :
      (x : SearchNode S P) (rest found : List (SearchNode S P)) (seen : List K) (fuel : ℕ)
      → Inv model config initial start found (x ∷ rest) seen (suc fuel) Nobody
      → config.bound ≤ x.depth
      → Inv model config initial start found rest seen fuel Nobody
  Inv-skip x rest found seen fuel v deep = record {
    rooted = v.rooted;
    listed = v.listed;
    reached = v.reached;
    clear = v.clear;
    bounded = v.bounded;
    queued = λ y i. v.queued y (inr i);
    close = λ y z i j. v.close y z i (inr j);
    ordered = v.ordered.1;
    status = λ y i. elim (v.status y i) [
      | inl (inl same) ↦ inr (inl (rw same deep))
      | inl (inr waiting) ↦ inl waiting
      | inr other ↦ inr other
    ];
    spare = omega (arith, v.spare);
    within = v.within;
  }

  expand-Kept :
      (x : SearchNode S P) (rest found : List (SearchNode S P)) (p : Progress S P K) (fuel : ℕ)
      → Inv model config initial start found (x ∷ rest) p.seen (suc fuel) Nobody
      → Kept fuel (expand model config x (pop model config p rest))
  unfolding expand
  expand-Kept x rest found p fuel v = elim (Bool-cases (leb config.bound x.depth)) [
    | inl deep ↦ rw (expand, deep) (found, Inv-skip x rest found p.seen fuel v (ground arith))
    | inr shallow ↦
        let p' = pop model config p rest in
        let i = Inner-pop x rest found p.seen fuel v (ground arith) in
        let kept =
          consider_all-After model config initial start x model.actions fuel found p'
            (λ a there. there) i in
        elim (Result-cases (consider_all model config x model.actions p')) [
          | inr (stop, returned) ↦ let h = rw returned at kept in rw (expand, shallow, returned) h
          | inl (p'', went) ↦
              let (found', i') = rw went at kept in
              rw (expand, shallow, went) (found', Inv-of_Inner x found' p''.queue p''.seen fuel i')
        ]
  ]

  -- With an empty queue every node is done.
  explored :
      (found : List (SearchNode S P)) (seen : List K) (fuel : ℕ)
      → Inv model config initial start found [] seen fuel Nobody
      → IsExplored
  explored found seen fuel v = record {
    found = found;
    rooted = v.rooted;
    clear = v.clear;
    reached = v.reached;
    done = λ y there. elim (v.status y there) [
      | inl none_ ↦ absurd none_
      | inr (inl deep) ↦ inl deep
      | inr (inr (inl closed)) ↦ inr closed
      | inr (inr (inr nobody)) ↦ absurd nobody
    ];
  }

  pub search-Says :
      (fuel : ℕ) (p : Progress S P K) (found : List (SearchNode S P))
      → Inv model config initial start found p.queue p.seen fuel Nobody
      → Says (search model config fuel p)
  unfolding search
  search-Says zero p found v = elim (List-cases p.queue) [
    | inl empty ↦ let v' = rw empty at v in rw empty (explored found p.seen zero v')
    | inr (x, rest, more) ↦ let v' = rw more at v in absurd (omega (arith, v'.spare, v'.within))
  ]
  search-Says (suc fuel) p found v = elim (List-cases p.queue) [
    | inl empty ↦ let v' = rw empty at v in rw empty (explored found p.seen (suc fuel) v')
    | inr (x, rest, more) ↦
        let v' = rw more at v in
        let kept = expand-Kept x rest found p fuel v' in
        elim (Result-cases (expand model config x (pop model config p rest))) [
          | inr (stop, returned) ↦ let h = rw returned at kept in rw (search, more, returned) h
          | inl (p', went) ↦
              let (found', v'') = rw went at kept in
              rw (search, more, went) (search-Says fuel p' found' v'')
        ]
  ]

  pub Inv-started :
      1 ≤ config.max_states
      → IsClear model config initial (some start)
      → Inv model config initial start
          (root model config initial start ∷ [])
          (started model config initial start).queue
          (started model config initial start).seen
          config.max_states
          Nobody
  Inv-started room clear = record {
    rooted = inl refl;
    listed = λ k there. (
      root model config initial start,
      inl refl,
      (e.beq_iff (model.search_node_key initial start) k).0 (ground (arith, there)),
    );
    reached = λ y there. elim there [ inl same ↦ rw same at_root | inr none_ ↦ absurd none_ ];
    clear = λ y there. elim there [ inl same ↦ rw same clear | inr none_ ↦ absurd none_ ];
    bounded = λ y there. elim there [ inl same ↦ rw same (omega arith) | inr none_ ↦ absurd none_ ];
    queued = λ y there. there;
    close = λ y z there waiting. elim there [
      | inl same ↦ rw same (omega arith)
      | inr none_ ↦ absurd none_
    ];
    ordered = ((λ y i. absurd i), tt);
    status = λ y there. inl there;
    spare = omega arith;
    within = room;
  }

  -- At bound 0 there is nothing but the initial state.
  pub explored_root : config.bound ≡ 0 → IsClear model config initial (some start) → IsExplored
  explored_root none_ clear = record {
    found = root model config initial start ∷ [];
    rooted = inl refl;
    clear = λ y there. elim there [ inl same ↦ rw same clear | inr i ↦ absurd i ];
    reached = λ y there. elim there [ inl same ↦ rw same at_root | inr i ↦ absurd i ];
    done = λ y there. inl (omega (arith, none_));
  }
