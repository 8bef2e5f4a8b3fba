-- ===== src/Prospective/Search/Correct.antt =====
-- What a result of `check_prospective_privacy` in src/toxicjoin/prospective/ppmc_search.py says of
-- the runs of moves.
mod Tests
use toxicjoin.Prelude.{
  ℕ, suc, ◌≤◌, ◌≡◌, ◌⊎◌, refl, sym, inl, inr, ap, ◌∙◌, subst, Bool, true, false, not, is_empty,
  String_eq, Option, none, some, List, [], Eq, ◌==◌, In, Bool-cases, Option-cases, nat_eq, arith,
}
use toxicjoin.Prospective.{
  ForbiddenStateEvaluation, LocalOracleDecision, CounterexampleStep, PpmcSearchConfig,
  SearchCounters, moved, predicate_evaluation_failure, indeterminate_security_predicate,
}
use toxicjoin.Prospective.Search.{
  Model, SearchNode, Outcome, stopped, unsafe, fail_closed, no_counterexample_within_bound,
  out_of_fuel, raised, no_counters, search, started, root, judge_initial, check_prospective_privacy,
}
use toxicjoin.Prospective.Search.Paths.{
  IsMove, IsReached, at_root, by_move, IsClear, IsEnd, known, unknown, IsCounterexample,
}
use toxicjoin.Prospective.Search.Trace.{validate_trace, has_field_limits}
use toxicjoin.Prospective.Search.Trace.Passed.{
  trace_of, IsCounterexample-validate_trace, IsCounterexample-has_field_limits,
}
use toxicjoin.Prospective.Search.Invariant.{key_of}
use toxicjoin.Prospective.Search.Loop.{some-injective}
use toxicjoin.Prospective.Search.Explored.{
  IsExplored, Says, search-Says, Inv-started, explored_root,
}

none≢some : {T : Type 0} (t : T) → ¬ (none ≡ some t)
none≢some t h = cc

module _ {S A P K : Type 0} ⦃e : Eq K⦄ (model : Model S A P K) (config : PpmcSearchConfig)
    (initial : S) (start : P) where
  -- What the keys have to tell apart, of nodes that are reached: with the same key, the states are the
  -- same, the one is clear where the other is, and a move within the bound extends the one path where
  -- it extends the other, to the same key. The hashes of evaluations may differ.
  pub record IsFaithful : Type 0 where
    pub same_state :
        (x y : SearchNode S P)
        → IsReached model config initial start x
        → IsReached model config initial start y
        → key_of model config initial start x ≡ key_of model config initial start y
        → x.state ≡ y.state
    pub same_verdict :
        (x y : SearchNode S P)
        → IsReached model config initial start x
        → IsReached model config initial start y
        → key_of model config initial start x ≡ key_of model config initial start y
        → IsClear model config x.state (some x.temporal_path)
        → IsClear model config y.state (some y.temporal_path)
    pub same_extension :
        (x y : SearchNode S P)
        → IsReached model config initial start x
        → IsReached model config initial start y
        → key_of model config initial start x ≡ key_of model config initial start y
        → suc x.depth ≤ config.bound
        → suc y.depth ≤ config.bound
        → (a : A) (next : S) → In a model.actions
        → model.apply x.state a ≡ moved next
        → (path : P) → model.extend x.temporal_path a next (suc x.depth) ≡ some path
        → (path' : P) × (model.extend y.temporal_path a next (suc y.depth) ≡ some path')
          × (model.search_node_key next path ≡ model.search_node_key next path')

module _ {S A P K : Type 0} ⦃e : Eq K⦄ (model : Model S A P K) (config : PpmcSearchConfig)
    (initial : S) (start : P) where
  judge_initial-Says :
      1 ≤ config.max_states
      → Says model config initial start (judge_initial model config initial (some start))
  unfolding judge_initial
  judge_initial-Says room = elim (Option-cases (model.evaluate initial (some start))) [
    | inl error ↦ rw (judge_initial, error) tt
    | inr (v, found) ↦ elim (Bool-cases v.forbidden) [
      | inl bad ↦
          let same : judge_initial model config initial (some start)
              ≡ stopped (unsafe [] initial v) =
            rw (judge_initial, found, bad) refl in
          subst (Says model config initial start) (sym same) (record {
            path = some start;
            depth = 0;
            reached = known (root model config initial start) at_root;
            within = omega arith;
            evaluated = found;
            forbidden = bad;
          })
      | inr fine ↦ elim (Bool-cases (is_empty v.indeterminate_predicates)) [
        | inr undecided ↦
            let same : judge_initial model config initial (some start)
                ≡ stopped (fail_closed indeterminate_security_predicate (some v)) =
              rw (judge_initial, found, fine, undecided) refl in
            subst (Says model config initial start) (sym same) tt
        | inl decided ↦
            let clear : IsClear model config initial (some start) = record {
              evaluation = v;
              evaluated = found;
              not_forbidden = fine;
              decided = decided;
            } in
            elim (Bool-cases (nat_eq config.bound 0)) [
              | inl none_ ↦
                  let same : judge_initial model config initial (some start)
                      ≡ no_counterexample_within_bound no_counters =
                    rw (judge_initial, found, fine, decided, none_) refl in
                  subst (Says model config initial start) (sym same)
                    (explored_root model config initial start (ground arith) clear)
              | inr deep ↦
                  let same : judge_initial model config initial (some start)
                      ≡ search model config config.max_states (started model config initial start) =
                    rw (judge_initial, found, fine, decided, deep) refl in
                  subst (Says model config initial start) (sym same) (
                    search-Says model config initial start config.max_states
                      (started model config initial start) _
                      (Inv-started model config initial start room clear))
            ]
      ]
    ]
  ]

  check-Says :
      1 ≤ config.max_states
      → Says model config initial start
          (check_prospective_privacy model config initial (some start))
  unfolding check_prospective_privacy
  check-Says room = elim (Bool-cases (model.is_valid initial)) [
    | inr broken ↦ rw (check_prospective_privacy, broken) tt
    | inl valid ↦ elim (Bool-cases (model.initial_state_sha256 == model.state_sha256 initial)) [
      | inr unbound ↦ rw (check_prospective_privacy, valid, unbound) tt
      | inl bound ↦
          let same : check_prospective_privacy model config initial (some start)
              ≡ judge_initial model config initial (some start) =
            rw (check_prospective_privacy, valid, bound) refl in
          subst (Says model config initial start) (sym same) (judge_initial-Says room)
    ]
  ]

  -- The search ends: a budget of at least one state is fuel enough for every grammar and oracle, so
  -- that it never runs out.
  pub check-terminates :
      1 ≤ config.max_states
      → ¬ (check_prospective_privacy model config initial (some start) ≡ out_of_fuel)
  check-terminates room h = subst (Says model config initial start) h (check-Says room)

  -- A counterexample is real: its steps are those of a sequence of moves that the grammar offers and
  -- the oracle admits, no longer than the bound, and it ends in a state that the predicates forbid.
  pub check-IsCounterexample :
      1 ≤ config.max_states
      → (steps : List CounterexampleStep) (last : S) (v : ForbiddenStateEvaluation)
      → check_prospective_privacy model config initial (some start) ≡ stopped (unsafe steps last v)
      → IsCounterexample model config initial start steps last v
  check-IsCounterexample room steps last v h =
      subst (Says model config initial start) h (check-Says room)

  -- The trace that is built of a counterexample keeps to the limits on the fields of its model and
  -- passes the checks of its validator, the hash of the trace apart: no longer than the bound, indices
  -- that count up from 0, states that form a chain from the initial to the last, and matched predicates
  -- in their order, each once and at least one. This is for a bound that the configuration admits, and
  -- evaluations that summarise what they match, as their own validator requires.
  pub check-validate_trace :
      1 ≤ config.max_states
      → config.bound ≤ 5
      → ((s : S) (path : Option P) (v : ForbiddenStateEvaluation)
          → model.evaluate s path ≡ some v
          → v.forbidden ≡ not (is_empty v.matched_predicates))
      → (steps : List CounterexampleStep) (last : S) (v : ForbiddenStateEvaluation)
      → check_prospective_privacy model config initial (some start) ≡ stopped (unsafe steps last v)
      → (has_field_limits (trace_of model config initial start steps last v) ≡ true)
        × (validate_trace (trace_of model config initial start steps last v) ≡ true)
  check-validate_trace room low summary steps last v h =
      let c = check-IsCounterexample room steps last v h in
      (
        IsCounterexample-has_field_limits model config initial start steps last v low
            (summary last c.path v c.evaluated) c,
        IsCounterexample-validate_trace model config initial start steps last v c,
      )

  module _ (faithful : IsFaithful model config initial start)
      (x : IsExplored model config initial start) where
    -- A move from a node whose key is discovered leads to another such key.
    move-found :
        (n y : SearchNode S P)
        → IsReached model config initial start n
        → In y x.found
        → key_of model config initial start y ≡ key_of model config initial start n
        → y.depth ≤ n.depth
        → suc n.depth ≤ config.bound
        → (a : A) (next : S) (d : LocalOracleDecision) → IsMove model config n.state a next d
        → (path : P) × (model.extend n.temporal_path a next (suc n.depth) ≡ some path)
          × (z : SearchNode S P) × In z x.found
          × (key_of model config initial start z ≡ model.search_node_key next path)
          × (z.depth ≤ suc n.depth)
    move-found n y r there same low within a next d move = elim (x.done y there) [
      | inl deep ↦ absurd (omega (arith, deep, low, within))
      | inr closed ↦
          let state : y.state ≡ n.state = faithful.same_state y n (x.reached y there) r same in
          let move' : IsMove model config y.state a next d =
            subst (λ s. IsMove model config s a next d) (sym state) move in
          let (path', ext', z, discovered, same', low') = closed a move.offered next d move' in
          let (path, ext, agree) =
            faithful.same_extension y n (x.reached y there) r same (omega (arith, low, within))
              within a next move.offered move'.applied path' ext' in
          (path, ext, z, discovered, same' ∙ agree, omega (arith, low, low'))
    ]

    -- A node within the bound has its key among the discovered, no later than its own depth.
    reached-found :
        (node : SearchNode S P)
        → IsReached model config initial start node
        → node.depth ≤ config.bound
        → (y : SearchNode S P) × In y x.found
          × (key_of model config initial start y ≡ key_of model config initial start node)
          × (y.depth ≤ node.depth)
    reached-found node at_root within =
        (root model config initial start, x.rooted, refl, omega arith)
    reached-found node (by_move n r a next d move path ext) within =
        let (y, there, same, low) = reached-found n r (omega (arith, within)) in
        let (path', ext', z, discovered, same', low') =
          move-found n y r there same low within a next d move in
        let agree : path' ≡ path = some-injective path' path (sym ext' ∙ ext) in
        (z, discovered, same' ∙ ap (model.search_node_key next) agree, low')

    reached-IsClear :
        (node : SearchNode S P)
        → IsReached model config initial start node
        → node.depth ≤ config.bound
        → IsClear model config node.state (some node.temporal_path)
    reached-IsClear node r within =
        let (y, there, same, low) = reached-found node r within in
        faithful.same_verdict y node (x.reached y there) r same (x.clear y there)

    end-IsClear :
        (steps : List CounterexampleStep) (last : S) (path : Option P) (n : ℕ)
        → IsEnd model config initial start steps last path n
        → n ≤ config.bound
        → IsClear model config last path
    end-IsClear steps last path n (known node r) within = reached-IsClear node r within
    end-IsClear steps last path n (unknown node r a next d move lost) within =
        let (y, there, same, low) = reached-found node r (omega (arith, within)) in
        let (path', ext', z, discovered, same', low') =
          move-found node y r there same low within a next d move in
        absurd (none≢some path' (sym lost ∙ ext'))

  -- Where no counterexample is reported, there is none: with keys that tell reached nodes apart
  -- (`IsFaithful`), every sequence of moves within the bound ends in a state that is neither forbidden
  -- nor undecided.
  pub check_complete :
      1 ≤ config.max_states
      → IsFaithful model config initial start
      → (counters : SearchCounters)
      → check_prospective_privacy model config initial (some start)
        ≡ no_counterexample_within_bound counters
      → (steps : List CounterexampleStep) (last : S) (path : Option P) (n : ℕ)
      → IsEnd model config initial start steps last path n
      → n ≤ config.bound
      → IsClear model config last path
  check_complete room faithful counters h =
      end-IsClear faithful (subst (Says model config initial start) h (check-Says room))
