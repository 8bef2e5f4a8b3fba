-- ===== src/Prospective/Search/Paths.antt =====
-- The runs that the search of src/toxicjoin/prospective/ppmc_search.py is about: sequences of
-- actions of the grammar, each applied and each admitted by the oracle.
use toxicjoin.Prelude.{ℕ, ◌≤◌, ◌≡◌, true, false, is_empty, Option, none, some, List, Eq, In, suc}
use toxicjoin.Prospective.{
  ForbiddenStateEvaluation, LocalOracleDecision, CounterexampleStep, PpmcSearchConfig, moved,
}
use toxicjoin.Prospective.Search.{
  Model, SearchNode, Stop, unsafe, fail_closed, invoke_local_oracle, child_steps, child, root,
}

module _ {S A P K : Type 0} ⦃e : Eq K⦄ (model : Model S A P K) (config : PpmcSearchConfig) where
  -- The action leads from the state to the next one, and the oracle admits it.
  pub record IsMove (s : S) (a : A) (next : S) (d : LocalOracleDecision) : Type 0 where
    pub offered : In a model.actions
    pub applied : model.apply s a ≡ moved next
    pub decided : invoke_local_oracle model config s a ≡ some d
    pub admitted : d.admissible ≡ true

  -- The nodes that a sequence of moves leads to, its temporal path known all along.
  pub data IsReached (initial : S) (start : P) : SearchNode S P → Type 0 where
    at_root : IsReached initial start (root model config initial start)
    by_move :
        (node : SearchNode S P)
        → IsReached initial start node
        → (a : A) (next : S) (d : LocalOracleDecision) → IsMove node.state a next d
        → (path : P) → model.extend node.temporal_path a next (suc node.depth) ≡ some path
        → IsReached initial start (child model config node a next d path)

  -- Neither forbidden nor undecided.
  pub record IsClear (s : S) (path : Option P) : Type 0 where
    pub evaluation : ForbiddenStateEvaluation
    pub evaluated : model.evaluate s path ≡ some evaluation
    pub not_forbidden : evaluation.forbidden ≡ false
    pub decided : is_empty evaluation.indeterminate_predicates ≡ true

  -- The end of a sequence of moves, with the temporal path that is known of it.
  pub data IsEnd (initial : S) (start : P)
      : List CounterexampleStep → S → Option P → ℕ → Type 0 where
    known :
        (node : SearchNode S P)
        → IsReached initial start node
        → IsEnd initial start node.steps node.state (some node.temporal_path) node.depth
    unknown :
        (node : SearchNode S P)
        → IsReached initial start node
        → (a : A) (next : S) (d : LocalOracleDecision) → IsMove node.state a next d
        → model.extend node.temporal_path a next (suc node.depth) ≡ none
        → IsEnd initial start (child_steps model config node a next d) next none (suc node.depth)

  -- A sequence of moves within the bound that ends in a forbidden state.
  pub record IsCounterexample (initial : S) (start : P) (steps : List CounterexampleStep) (last : S)
      (v : ForbiddenStateEvaluation) : Type 0 where
    pub path : Option P
    pub depth : ℕ
    pub reached : IsEnd initial start steps last path depth
    pub within : depth ≤ config.bound
    pub evaluated : model.evaluate last path ≡ some v
    pub forbidden : v.forbidden ≡ true

  -- What a return from inside the loop says.
  abbrev pub IsJustified : S → P → Stop S → Type 0
  IsJustified initial start (unsafe steps last v) = IsCounterexample initial start steps last v
  IsJustified initial start (fail_closed reason v) = Unit
