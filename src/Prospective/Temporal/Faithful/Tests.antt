-- ===== src/Prospective/Temporal/Faithful/Tests.antt =====
-- A search with the program's own paths, keys and predicates: one more sensitive release at the same
-- snapshot, after which nothing is left to do.
use mathlib.Core.Bool.{decide}
use toxicjoin.Prelude.{
  ◌≡◌, ◌⊎◌, refl, sym, ap, ◌∙◌, inl, inr, arith, String, String_eq, String-discrete, true,
  false≢true, none, some, List, [], ◌∷◌, Eq, eq_of, ◌==◌, Bool-cases, from_keys, if◌then◌else◌,
}
use toxicjoin.Prelude.Dict
use toxicjoin.Models.{
  sensitive_attribute, raw_value, Category-discrete, ProjectionExposureKind-discrete,
}
use toxicjoin.Disclosure.{DisclosureSemanticRelease}
use toxicjoin.Disclosure.Ledger.{OptionString-discrete}
use toxicjoin.Prospective.{
  LocalOracleDecision, PpmcSearchConfig, SearchCounters, Transition, moved, rejected,
  CounterexampleStep,
}
use toxicjoin.Prospective.Search.{
  Model, SearchNode, no_counterexample_within_bound, judge_initial, check_prospective_privacy,
  search, expand, consider_all, consider, admit, judge_known, judge_unknown, invoke_local_oracle,
  build_counterexample_step, root,
}
use toxicjoin.Prospective.Search.Paths.{IsMove, IsReached, at_root, by_move, IsClear, IsEnd, known}
use toxicjoin.Prospective.Search.Correct.{IsFaithful, check_complete}
use toxicjoin.Prospective.Twin.{
  DisclosureAtom, column_exposure, output, empty_fields, AtomKind-discrete, Role-discrete,
}
use toxicjoin.Prospective.Forbidden.{
  GovernanceTrustBinding, EvaluationHash, DisclosureState, TemporalReleaseObservation,
  evaluate_forbidden_state, predicates_of, same_release_linkage, small_cohort, cross_release,
  temporal_difference, untrusted_governance, judge_candidates, evaluation_of, by_release,
  group_from, Status-discrete, OptionCategory-discrete,
}
use toxicjoin.Prospective.Temporal.{
  FutureAction, ObservationHash, observation_of, semantic_is_sensitive, initial_temporal_path,
  extend_temporal_path, with_pair, with_observation, pairs_from, SearchNodeKey, Key_eq,
  search_node_key, ppmc_model,
}
use toxicjoin.Prospective.Temporal.Faithful.{search_node_key-IsFaithful}

abbrev Pairs : Type 0
Pairs = List (String × String)

Pairs-discrete : Discrete Pairs
Pairs-discrete = hlevel String-discrete

instance abbrev Pairs_eq : Eq Pairs
Pairs_eq = eq_of Pairs-discrete

abbrev signature : Pairs → Pairs
signature pairs = pairs

abbrev observation : ObservationHash
observation n r w = "o"

abbrev evaluation : EvaluationHash
evaluation s n b p ps = "e"

abbrev exposed : DisclosureAtom
exposed = record {
  fields = record (empty_fields column_exposure) {
    release_semantic_sha256 = some "r";
    column_key = some "claims#diagnosis";
    category = some sensitive_attribute;
    column_role = some output;
    exposure_kind = some raw_value;
  };
  atom_sha256 = "a";
}

abbrev before : DisclosureState
before = record {
  state_sha256 = "0";
  warehouse_snapshot_sha256 = some "w";
  governance_commitment_sha256 = "g";
  released_atoms = exposed ∷ [];
}

abbrev after : DisclosureState
after = record before { state_sha256 = "1" }

abbrev semantic : String → DisclosureSemanticRelease
semantic digest = record {
  source_dataset_urns = "claims" ∷ [];
  outputs =
      record {
        kind = raw_value;
        sources =
            record {
              dataset_urn = "claims";
              field_path = "diagnosis";
              category = sensitive_attribute;
            }
            ∷ [];
      }
      ∷ [];
  referenced_columns = [];
  join_columns = [];
  group_keys = [];
  aggregate_functions = [];
  minimum_group_size_present = none;
  semantic_sha256 = digest;
}

abbrev action : FutureAction
action = record { semantic = some (semantic "q"); action_sha256 = "x" }

abbrev binding : GovernanceTrustBinding
binding = record { governance_commitment_sha256 = "g"; trusted = true }

abbrev apply : DisclosureState → FutureAction → Transition DisclosureState
apply s a = if s.state_sha256 == "0" then moved after else rejected

abbrev decision : DisclosureState → FutureAction → LocalOracleDecision
decision s a = record {
  state_sha256 = s.state_sha256;
  action_sha256 = a.action_sha256;
  admissible = true;
  decision_sha256 = "d";
}

abbrev config : PpmcSearchConfig
config = record { bound = 2; max_states = 10 }

abbrev start : List TemporalReleaseObservation
start = observation_of observation 0 "r" "w" ∷ []

abbrev longer : List TemporalReleaseObservation
longer = observation_of observation 0 "r" "w" ∷ observation_of observation 1 "q" "w" ∷ []

abbrev model :
    Model DisclosureState FutureAction (List TemporalReleaseObservation) (SearchNodeKey Pairs)
model =
    ppmc_model signature observation evaluation 5 (some binding) (action ∷ []) apply
      (λ s a. some (decision s a)) (λ s. true) "0"

program : Unit {0}
unfolding check_prospective_privacy judge_initial search expand consider_all consider admit
    judge_known judge_unknown invoke_local_oracle build_counterexample_step evaluate_forbidden_state
    predicates_of same_release_linkage small_cohort cross_release temporal_difference
    untrusted_governance judge_candidates evaluation_of by_release group_from Status-discrete
    OptionCategory-discrete OptionString-discrete AtomKind-discrete Role-discrete Category-discrete
    ProjectionExposureKind-discrete String-discrete Pairs-discrete decide from_keys Dict.get
    Dict.put semantic_is_sensitive initial_temporal_path extend_temporal_path with_pair
    with_observation pairs_from search_node_key
program = tt

began : initial_temporal_path observation before (semantic "r") ("a" ∷ []) ≡ some start
unfolding program
began = refl

abbrev counted : SearchCounters
counted = record {
  nodes_expanded = 2;
  actions_considered = 2;
  transition_rejections = 1;
  oracle_rejections = 0;
  oracle_admissions = 1;
}

explored :
    check_prospective_privacy model config before (some start)
    ≡ no_counterexample_within_bound counted
unfolding program
explored = refl

-- The search knows two states.
moved-after : (s next : DisclosureState) (a : FutureAction) → apply s a ≡ moved next → next ≡ after
moved-after s next a h = elim (Bool-cases (s.state_sha256 == "0")) [
  | inl first ↦
      let h' : ◌≡◌ {A = Transition DisclosureState} (moved after) (moved next) = rw first at h in cc
  | inr later ↦
      let h' : ◌≡◌ {A = Transition DisclosureState} rejected (moved next) = rw later at h in cc
]

reached-state :
    (node : SearchNode DisclosureState (List TemporalReleaseObservation))
    → IsReached model config before start node
    → (node.state ≡ before) ⊎ (node.state ≡ after)
reached-state node at_root = inl refl
reached-state node (by_move n r a next d move path ext) =
    inr (moved-after n.state next a move.applied)

apart : ¬ (◌≡◌ {A = String} "0" "1")
apart h = false≢true ((String_eq.beq_iff "0" "1").1 h)

distinct :
    (x y : SearchNode DisclosureState (List TemporalReleaseObservation))
    → IsReached model config before start x
    → IsReached model config before start y
    → x.state.state_sha256 ≡ y.state.state_sha256
    → x.state ≡ y.state
distinct x y r r' same =
    let sha = λ (s : DisclosureState). s.state_sha256 in
    elim (reached-state x r) [
      | inl a ↦ elim (reached-state y r') [
        | inl b ↦ a ∙ sym b
        | inr b ↦ absurd (apart (ap sha (sym a) ∙ same ∙ ap sha b))
      ]
      | inr a ↦ elim (reached-state y r') [
        | inl b ↦ absurd (apart (ap sha (sym b) ∙ sym same ∙ ap sha a))
        | inr b ↦ a ∙ sym b
      ]
    ]

search_node_key-IsFaithful_example : IsFaithful model config before start
search_node_key-IsFaithful_example =
    search_node_key-IsFaithful signature observation evaluation 5 (some binding) (action ∷ []) apply
      (λ s a. some (decision s a)) (λ s. true) "0" config before start distinct (λ ps qs same. same)
      (semantic "r") ("a" ∷ []) began

-- The same, for the use below.
faithful : IsFaithful model config before start
faithful =
    search_node_key-IsFaithful signature observation evaluation 5 (some binding) (action ∷ []) apply
      (λ s a. some (decision s a)) (λ s. true) "0" config before start distinct (λ ps qs same. same)
      (semantic "r") ("a" ∷ []) began

abbrev step : CounterexampleStep
step = record {
  step_index = 0;
  pre_state_sha256 = "0";
  action_sha256 = "x";
  local_oracle_commitment_sha256 = "d";
  post_state_sha256 = "1";
}

release_again : IsMove model config before action after (decision before action)
unfolding program
release_again = record { offered = inl refl; applied = refl; decided = refl; admitted = refl }

extended : extend_temporal_path observation start action after 1 ≡ some longer
unfolding program
extended = refl

one_step : IsEnd model config before start (step ∷ []) after (some longer) 1
unfolding build_counterexample_step
one_step = known _ (
    by_move (root model config before start) at_root action after (decision before action)
      release_again longer extended)

check_complete_example : IsClear model config after (some longer)
check_complete_example =
    check_complete model config before start (omega arith) faithful counted explored (step ∷ [])
      after (some longer) 1 one_step (omega arith)
