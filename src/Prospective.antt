-- ===== src/Prospective.antt =====
-- src/toxicjoin/prospective/: the values of the prospective privacy checker, from ppmc_models.py,
-- trace.py and forbidden.py. The hashes that commit to a whole record are left out.
pub mod Search
pub mod Twin
pub mod Direct
pub mod Rules
pub mod Forbidden
pub mod Temporal
use toxicjoin.Prelude.{ℕ, String, Bool, Option, List, Eq, eq_of}

pub data ForbiddenPredicateId : Type 0 where
  direct_sensitive_linkage : ForbiddenPredicateId
  stable_linkable_sensitive : ForbiddenPredicateId
  small_cohort_sensitive : ForbiddenPredicateId
  cross_release_composition : ForbiddenPredicateId
  temporal_differencing : ForbiddenPredicateId
  untrusted_governance_authorization : ForbiddenPredicateId

unfoldable pub ForbiddenPredicateId-discrete : Discrete ForbiddenPredicateId
ForbiddenPredicateId-discrete = hlevel

instance abbrev pub ForbiddenPredicateId_eq : Eq ForbiddenPredicateId
ForbiddenPredicateId_eq = eq_of ForbiddenPredicateId-discrete

unfoldable pub Ids-discrete : Discrete (List ForbiddenPredicateId)
Ids-discrete = hlevel ForbiddenPredicateId-discrete

instance abbrev pub Ids_eq : Eq (List ForbiddenPredicateId)
Ids_eq = eq_of Ids-discrete

pub data PpmcFailureReason : Type 0 where
  indeterminate_security_predicate : PpmcFailureReason
  state_budget_exhausted : PpmcFailureReason
  local_oracle_failure : PpmcFailureReason
  transition_failure : PpmcFailureReason
  predicate_evaluation_failure : PpmcFailureReason

pub record ForbiddenStateEvaluation : Type 0 where
  pub evaluation_sha256 : String
  pub matched_predicates : List ForbiddenPredicateId
  pub indeterminate_predicates : List ForbiddenPredicateId
  pub forbidden : Bool

pub record LocalOracleDecision : Type 0 where
  pub state_sha256 : String
  pub action_sha256 : String
  pub admissible : Bool
  pub decision_sha256 : String

pub record CounterexampleStep : Type 0 where
  pub step_index : ℕ
  pub pre_state_sha256 : String
  pub action_sha256 : String
  pub local_oracle_commitment_sha256 : String
  pub post_state_sha256 : String

pub record PpmcSearchConfig : Type 0 where
  pub bound : ℕ
  pub max_states : ℕ

-- `_SearchCounters`, without the number of discovered nodes, which is the length of `seen`.
pub record SearchCounters : Type 0 where
  pub nodes_expanded : ℕ
  pub actions_considered : ℕ
  pub transition_rejections : ℕ
  pub oracle_rejections : ℕ
  pub oracle_admissions : ℕ

-- What `apply_future_action` does: a new state, a refusal, or any other exception.
pub data Transition (S : Type 0) : Type 0 where
  moved : S → Transition S
  rejected failed : Transition S
