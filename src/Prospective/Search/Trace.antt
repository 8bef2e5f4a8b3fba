-- ===== src/Prospective/Search/Trace.antt =====
-- `CounterexampleTrace.validate_trace` in src/toxicjoin/prospective/trace.py, on the steps that the
-- search gives it. The grammar's hash, which is copied, and the hash of the trace are left out.
pub mod Passed
use toxicjoin.Prelude.{
  ℕ, suc, ◌+◌, ◌≤◌, ◌≡◌, inl, inr, refl, sym, ap, ◌∙◌, String, String_eq, Bool, true, false, not,
  ◌&&◌, List, [], ◌∷◌, ◌++◌, Eq, ◌==◌, ==_self, nat_eq, leb, length, length-append,
  length-filter-le, filter, all, contains, is_empty, Option, In, In-filter, Bool-cases, arith,
}
use toxicjoin.Prospective.{
  ForbiddenPredicateId, ForbiddenPredicateId_eq, Ids_eq, direct_sensitive_linkage,
  stable_linkable_sensitive, small_cohort_sensitive, cross_release_composition,
  temporal_differencing, untrusted_governance_authorization, CounterexampleStep, PpmcSearchConfig,
  LocalOracleDecision, ForbiddenStateEvaluation,
}
use toxicjoin.Prospective.Search.{Model, SearchNode, child_steps, build_counterexample_step}
use toxicjoin.Prospective.Search.Paths.{
  IsReached, at_root, by_move, IsEnd, known, unknown, IsCounterexample,
}

-- The indices count up from the given one.
abbrev pub has_indices : ℕ → List CounterexampleStep → Bool
has_indices n [] = true
has_indices n (s ∷ rest) = nat_eq s.step_index n && has_indices (suc n) rest

-- The steps lead from the first state to the last, each from where the one before it ended.
abbrev pub is_chain : String → List CounterexampleStep → String → Bool
is_chain first [] last = last == first
is_chain first (s ∷ rest) last =
    s.pre_state_sha256 == first && is_chain s.post_state_sha256 rest last

pub record CounterexampleTrace : Type 0 where
  pub bound : ℕ
  pub initial_state_sha256 : String
  pub steps : List CounterexampleStep
  pub terminal_state_sha256 : String
  pub terminal_forbidden_evaluation_sha256 : String
  pub terminal_matched_predicates : List ForbiddenPredicateId

-- `ForbiddenPredicateId` in the order of its members
abbrev pub predicate_ids : List ForbiddenPredicateId
predicate_ids =
    direct_sensitive_linkage ∷ stable_linkable_sensitive ∷ small_cohort_sensitive
    ∷ cross_release_composition ∷ temporal_differencing ∷ untrusted_governance_authorization ∷ []

-- `canonical_predicates`
pub canonical_predicates : List ForbiddenPredicateId → List ForbiddenPredicateId
canonical_predicates matched = filter (λ p. contains p matched) predicate_ids

-- `build_counterexample_trace`, which the search calls with the evaluation of the last state
pub build_counterexample_trace :
    ℕ → String → List CounterexampleStep → String → ForbiddenStateEvaluation → CounterexampleTrace
build_counterexample_trace bound first steps last v = record {
  bound = bound;
  initial_state_sha256 = first;
  steps = steps;
  terminal_state_sha256 = last;
  terminal_forbidden_evaluation_sha256 = v.evaluation_sha256;
  terminal_matched_predicates = canonical_predicates v.matched_predicates;
}

-- The limits on the fields, those on the fields of the steps included.
pub has_field_limits : CounterexampleTrace → Bool
has_field_limits t =
    leb t.bound 5
    && (leb (length t.steps) 5
        && (all (λ (s : CounterexampleStep). leb s.step_index 4) t.steps
            && (not (is_empty t.terminal_matched_predicates)
                && leb (length t.terminal_matched_predicates) 6)))

-- `validate_trace`
pub validate_trace : CounterexampleTrace → Bool
validate_trace t =
    leb (length t.steps) t.bound
    && (has_indices 0 t.steps
        && (is_chain t.initial_state_sha256 t.steps t.terminal_state_sha256
            && t.terminal_matched_predicates == canonical_predicates t.terminal_matched_predicates))
