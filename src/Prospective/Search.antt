-- ===== src/Prospective/Search.antt =====
-- `check_prospective_privacy` in src/toxicjoin/prospective/ppmc_search.py: the bounded breadth-first
-- search, over the transitions, the oracle, the predicates and the temporal path that it calls. The
-- transcript hash of the run is left out.
pub mod Paths
pub mod Invariant
pub mod Loop
pub mod Explored
pub mod Trace
pub mod Correct
use Prim.Native.Nat.{◌+◌}
use toxicjoin.Prelude.{
  ℕ, zero, suc, String, String_eq, Bool, true, false, not, ◌&&◌, Option, none, some, List, [], ◌∷◌,
  ◌++◌, Eq, ◌==◌, ltb, leb, nat_eq, length, is_empty, contains, Result, ok, raise, ◌>>=◌,
  if◌then◌else◌,
}
use toxicjoin.Prospective.{
  ForbiddenStateEvaluation, LocalOracleDecision, CounterexampleStep, PpmcFailureReason,
  PpmcSearchConfig, SearchCounters, indeterminate_security_predicate, state_budget_exhausted,
  local_oracle_failure, transition_failure, predicate_evaluation_failure, Transition, moved,
  rejected, failed,
}

-- What the search calls, for states S, actions A, temporal paths P and keys K; `none` is an exception
-- of the oracle or of the predicates, and an unknown temporal path. `is_valid` is the revalidation of
-- the inputs with this initial state, and the last field the state that the grammar is bound to.
pub record Model (S A P K : Type 0) : Type 0 where
  pub actions : List A
  pub apply : S → A → Transition S
  pub oracle : S → A → Option LocalOracleDecision
  pub evaluate : S → Option P → Option ForbiddenStateEvaluation
  pub extend : P → A → S → ℕ → Option P
  pub search_node_key : S → P → K
  pub state_sha256 : S → String
  pub action_sha256 : A → String
  pub is_valid : S → Bool
  pub initial_state_sha256 : String

pub record SearchNode (S P : Type 0) : Type 0 where
  pub state : S
  pub depth : ℕ
  pub steps : List CounterexampleStep
  pub temporal_path : P

-- The variables of the loop.
pub record Progress (S P K : Type 0) : Type 0 where
  pub queue : List (SearchNode S P)
  pub seen : List K
  pub counters : SearchCounters

-- A return from inside the loop: a counterexample, or a failure with the evaluation that it is of.
pub data Stop (S : Type 0) : Type 0 where
  unsafe : List CounterexampleStep → S → ForbiddenStateEvaluation → Stop S
  fail_closed : PpmcFailureReason → Option ForbiddenStateEvaluation → Stop S

-- The status of a result. The code never runs out of fuel; it raises on inputs that fail their
-- revalidation or a grammar of another initial state, and would on a clear initial state without a
-- temporal path.
pub data Outcome (S : Type 0) : Type 0 where
  stopped : Stop S → Outcome S
  no_counterexample_within_bound : SearchCounters → Outcome S
  out_of_fuel raised : Outcome S

abbrev pub no_counters : SearchCounters
no_counters = record {
  nodes_expanded = 0;
  actions_considered = 0;
  transition_rejections = 0;
  oracle_rejections = 0;
  oracle_admissions = 0;
}

module _ {S A P K : Type 0} ⦃e : Eq K⦄ (model : Model S A P K) (config : PpmcSearchConfig) where
  -- `_invoke_local_oracle`
  unfoldable pub invoke_local_oracle : S → A → Option LocalOracleDecision
  invoke_local_oracle s a = elim (model.oracle s a) [
    | none ↦ none
    | some d ↦
        if d.state_sha256 == model.state_sha256 s && d.action_sha256 == model.action_sha256 a
        then some d
        else none
  ]

  -- `build_counterexample_step`
  unfoldable pub build_counterexample_step :
      SearchNode S P → A → S → LocalOracleDecision → CounterexampleStep
  build_counterexample_step node a next d = record {
    step_index = node.depth;
    pre_state_sha256 = model.state_sha256 node.state;
    action_sha256 = model.action_sha256 a;
    local_oracle_commitment_sha256 = d.decision_sha256;
    post_state_sha256 = model.state_sha256 next;
  }

  abbrev pub child_steps : SearchNode S P → A → S → LocalOracleDecision → List CounterexampleStep
  child_steps node a next d = node.steps ++ build_counterexample_step node a next d ∷ []

  -- The evaluation of a state where the temporal path is unknown: it ends the search.
  unfoldable pub judge_unknown : List CounterexampleStep → S → Stop S
  judge_unknown steps next = elim (model.evaluate next none) [
    | none ↦ fail_closed predicate_evaluation_failure none
    | some v ↦
        if v.forbidden
        then unsafe steps next v
        else fail_closed indeterminate_security_predicate (some v)
  ]

  -- The evaluation of a known one; only a clear state lets the search go on.
  unfoldable pub judge_known : List CounterexampleStep → S → P → Result (Stop S) (Unit {0})
  judge_known steps next path = elim (model.evaluate next (some path)) [
    | none ↦ raise (fail_closed predicate_evaluation_failure none)
    | some v ↦
        if v.forbidden
        then raise (unsafe steps next v)
        else if not (is_empty v.indeterminate_predicates)
        then raise (fail_closed indeterminate_security_predicate (some v))
        else ok tt
  ]

  abbrev pub child : SearchNode S P → A → S → LocalOracleDecision → P → SearchNode S P
  child node a next d path = record {
    state = next;
    depth = suc node.depth;
    steps = child_steps node a next d;
    temporal_path = path;
  }

  -- The child joins the queue if the bound leaves it successors.
  abbrev pub enqueue : SearchNode S P → List (SearchNode S P) → List (SearchNode S P)
  enqueue child queue = if ltb child.depth config.bound then queue ++ child ∷ [] else queue

  -- An admissible child: seen already, over the budget of states, or judged.
  unfoldable pub admit :
      SearchNode S P
      → A
      → S
      → LocalOracleDecision
      → Progress S P K
      → Result (Stop S) (Progress S P K)
  admit node a next d p = elim (model.extend node.temporal_path a next (suc node.depth)) [
    | none ↦ raise (judge_unknown (child_steps node a next d) next)
    | some path ↦
        if contains (model.search_node_key next path) p.seen
        then ok p
        else if leb config.max_states (length p.seen)
        then raise (fail_closed state_budget_exhausted none)
        else judge_known (child_steps node a next d) next path >>= λ _. ok (record p {
          queue = enqueue (child node a next d path) p.queue;
          seen = model.search_node_key next path ∷ p.seen;
        })
  ]

  abbrev considered : Progress S P K → Progress S P K
  considered p = record p {
    counters = record p.counters { actions_considered = suc p.counters.actions_considered };
  }

  abbrev transition_rejected : Progress S P K → Progress S P K
  transition_rejected p = record p {
    counters = record p.counters { transition_rejections = suc p.counters.transition_rejections };
  }

  abbrev oracle_rejected : Progress S P K → Progress S P K
  oracle_rejected p = record p {
    counters = record p.counters { oracle_rejections = suc p.counters.oracle_rejections };
  }

  abbrev oracle_admitted : Progress S P K → Progress S P K
  oracle_admitted p = record p {
    counters = record p.counters { oracle_admissions = suc p.counters.oracle_admissions };
  }

  -- One action of the inner loop.
  unfoldable pub consider : SearchNode S P → A → Progress S P K → Result (Stop S) (Progress S P K)
  consider node a p = elim (model.apply node.state a) [
    | rejected ↦ ok (transition_rejected (considered p))
    | failed ↦ raise (fail_closed transition_failure none)
    | moved next ↦ elim (invoke_local_oracle node.state a) [
      | none ↦ raise (fail_closed local_oracle_failure none)
      | some d ↦
          if d.admissible
          then admit node a next d (oracle_admitted (considered p))
          else ok (oracle_rejected (considered p))
    ]
  ]

  -- The inner loop.
  unfoldable pub consider_all :
      SearchNode S P → List A → Progress S P K → Result (Stop S) (Progress S P K)
  consider_all node [] p = ok p
  consider_all node (a ∷ rest) p = consider node a p >>= λ p'. consider_all node rest p'

  -- What the popped node does: nothing at the bound.
  unfoldable pub expand : SearchNode S P → Progress S P K → Result (Stop S) (Progress S P K)
  expand node p = if leb config.bound node.depth then ok p else consider_all node model.actions p

  -- The state of the loop after a node has left the queue.
  abbrev pub pop : Progress S P K → List (SearchNode S P) → Progress S P K
  pop p rest = record p {
    queue = rest;
    counters = record p.counters { nodes_expanded = suc p.counters.nodes_expanded };
  }

  -- The outer loop, on fuel.
  unfoldable pub search : ℕ → Progress S P K → Outcome S
  search zero p =
      if is_empty p.queue then no_counterexample_within_bound p.counters else out_of_fuel
  search (suc fuel) p = elim p.queue [
    | [] ↦ no_counterexample_within_bound p.counters
    | node ∷ rest ↦ elim (expand node (pop p rest)) [
      | raise stop ↦ stopped stop
      | ok p' ↦ search fuel p'
    ]
  ]

  abbrev pub root : S → P → SearchNode S P
  root initial path = record { state = initial; depth = 0; steps = []; temporal_path = path }

  -- The variables before the loop.
  abbrev pub started : S → P → Progress S P K
  started initial path = record {
    queue = root initial path ∷ [];
    seen = model.search_node_key initial path ∷ [];
    counters = no_counters;
  }

  -- The evaluation of the initial state, and the search from it.
  unfoldable pub judge_initial : S → Option P → Outcome S
  judge_initial initial temporal_path = elim (model.evaluate initial temporal_path) [
    | none ↦ stopped (fail_closed predicate_evaluation_failure none)
    | some v ↦
        if v.forbidden
        then stopped (unsafe [] initial v)
        else if not (is_empty v.indeterminate_predicates)
        then stopped (fail_closed indeterminate_security_predicate (some v))
        else if nat_eq config.bound 0
        then no_counterexample_within_bound no_counters
        else elim temporal_path [
          | none ↦ raised
          | some path ↦ search config.max_states (started initial path)
        ]
  ]

  -- `check_prospective_privacy`, for the temporal path that the initial state has
  unfoldable pub check_prospective_privacy : S → Option P → Outcome S
  check_prospective_privacy initial temporal_path =
      if not (model.is_valid initial)
      then raised
      else if not (model.initial_state_sha256 == model.state_sha256 initial)
      then raised
      else judge_initial initial temporal_path
