-- ===== src/Prospective/Search/Correct/Tests.antt =====
-- Searches over states that are numbers and actions that add to them.
use toxicjoin.Prelude.{
  ℕ, ℕ_eq, ◌+◌, ◌≡◌, refl, subst, arith, true, not, is_empty, Option, Bool-cases, some, [], ◌∷◌,
  nat_eq, String_eq, inl, inr, if◌then◌else◌, ltb,
}
use toxicjoin.Prospective.{
  ForbiddenStateEvaluation, LocalOracleDecision, CounterexampleStep, PpmcSearchConfig, moved,
  rejected, direct_sensitive_linkage,
}
use toxicjoin.Prospective.Search.{
  Model, stopped, unsafe, out_of_fuel, judge_initial, check_prospective_privacy, search, expand,
  consider_all, consider, admit, judge_known, judge_unknown, invoke_local_oracle,
  build_counterexample_step,
}
use toxicjoin.Prospective.Search.Paths.{IsCounterexample}
use toxicjoin.Prospective.Search.Trace.{CounterexampleTrace, validate_trace, has_field_limits}
use toxicjoin.Prospective.Search.Trace.Passed.{trace_of}
use toxicjoin.Prospective.Search.Correct.{
  check-terminates, check-IsCounterexample, check-validate_trace,
}

abbrev verdict : ℕ → ℕ → ForbiddenStateEvaluation
verdict forbidden s = record {
  evaluation_sha256 = "e";
  matched_predicates = if nat_eq s forbidden then direct_sensitive_linkage ∷ [] else [];
  indeterminate_predicates = [];
  forbidden = nat_eq s forbidden;
}

abbrev decision : LocalOracleDecision
decision = record {
  state_sha256 = "s";
  action_sha256 = "a";
  admissible = true;
  decision_sha256 = "d";
}

-- From a number below 4 the actions add 1 and 2; one number is forbidden.
abbrev adding : ℕ → Model ℕ ℕ (Unit {0}) ℕ
adding forbidden = record {
  actions = 1 ∷ 2 ∷ [];
  apply = λ s a. if ltb s 4 then moved (s + a) else rejected;
  oracle = λ s a. some decision;
  evaluate = λ s path. some (verdict forbidden s);
  extend = λ path a s n. some tt;
  search_node_key = λ s path. s;
  state_sha256 = λ s. "s";
  action_sha256 = λ a. "a";
  is_valid = λ s. true;
  initial_state_sha256 = "s";
}

abbrev config : PpmcSearchConfig
config = record { bound = 2; max_states = 10 }

abbrev step : ℕ → CounterexampleStep
step n = record {
  step_index = n;
  pre_state_sha256 = "s";
  action_sha256 = "a";
  local_oracle_commitment_sha256 = "d";
  post_state_sha256 = "s";
}

program : Unit {0}
unfolding check_prospective_privacy judge_initial search expand consider_all consider admit
    judge_known judge_unknown invoke_local_oracle build_counterexample_step
program = tt

found :
    check_prospective_privacy (adding 3) config 0 (some tt)
    ≡ stopped (unsafe (step 0 ∷ step 1 ∷ []) 3 (verdict 3 3))
unfolding program
found = refl

check-terminates_example : ¬ (check_prospective_privacy (adding 9) config 0 (some tt) ≡ out_of_fuel)
check-terminates_example = check-terminates (adding 9) config 0 tt (omega arith)

check-IsCounterexample_example :
    IsCounterexample (adding 3) config 0 tt (step 0 ∷ step 1 ∷ []) 3 (verdict 3 3)
check-IsCounterexample_example =
    check-IsCounterexample (adding 3) config 0 tt (omega arith) (step 0 ∷ step 1 ∷ []) 3
      (verdict 3 3) found

summary :
    (s : ℕ) (path : Option (Unit {0})) (v : ForbiddenStateEvaluation)
    → some (verdict 3 s) ≡ some v
    → v.forbidden ≡ not (is_empty v.matched_predicates)
summary s path v h =
    let same : verdict 3 s ≡ v = cc in
    subst (λ (w : ForbiddenStateEvaluation). w.forbidden ≡ not (is_empty w.matched_predicates)) same
      (elim (Bool-cases (nat_eq s 3)) [ inl yes_ ↦ rw yes_ refl | inr no_ ↦ rw no_ refl ])

abbrev trace : CounterexampleTrace
trace = trace_of (adding 3) config 0 tt (step 0 ∷ step 1 ∷ []) 3 (verdict 3 3)

check-validate_trace_example : (has_field_limits trace ≡ true) × (validate_trace trace ≡ true)
check-validate_trace_example =
    check-validate_trace (adding 3) config 0 tt (omega arith) (omega arith) summary
      (step 0 ∷ step 1 ∷ []) 3 (verdict 3 3) found
