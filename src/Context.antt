-- ===== src/Context.antt =====
-- src/toxicjoin/context/models.py and src/toxicjoin/context/governance.py: the governed context of a
-- query, and the binding of a request to one snapshot of it. A time is a number of clock ticks in
-- UTC. A resolver is its methods at one moment; one that the provider does not have is `none`.
use native.Mathlib.Decide.{ℕ_discrete}
use toxicjoin.Prelude.{
  ℕ, String, String-discrete, Option, none, some, List, Eq, eq_of, ◌==◌, Result, ok, require, ◌>>=◌,
  require-eq-ok, ◌≡◌, ◌↔◌, refl,
}
use toxicjoin.Models.{ColumnRef, ColumnContext, PolicyInput, QueryPlan, ReasonCode}

pub record ContextResolution : Type 0 where
  pub projected_context : List ColumnContext
  pub all_referenced_context : List ColumnContext
  pub failures : List ReasonCode

-- `to_policy_input` without an explicit threshold: the plan's own is effective.
unfoldable pub to_policy_input : ContextResolution → String → QueryPlan → ColumnRef → PolicyInput
to_policy_input r task_purpose query_plan subject_key = record {
  task_purpose = task_purpose;
  query_plan = query_plan;
  projected_context = r.projected_context;
  all_referenced_context = r.all_referenced_context;
  subject_key = some subject_key;
  minimum_group_size_present = query_plan.minimum_group_size_present;
  upstream_failures = r.failures;
}

-- What a resolver raises: too old, changed, or anything else.
pub data GovernanceContextError : Type 0 where
  stale : GovernanceContextError
  drift : GovernanceContextError
  other : GovernanceContextError

pub record GovernanceContextBinding : Type 0 where
  pub source : String
  pub snapshot_sha256 : String
  pub catalog_version : String
  pub observed_at : ℕ
  pub expires_at : ℕ

unfoldable pub Binding-discrete : Discrete (Option GovernanceContextBinding)
Binding-discrete = hlevel (String-discrete, ℕ_discrete)

instance abbrev pub Binding_eq : Eq (Option GovernanceContextBinding)
Binding_eq = eq_of Binding-discrete

pub record ContextResolver : Type 0 where
  pub resolve : QueryPlan → Result GovernanceContextError ContextResolution
  pub resolve_bound :
      Option
        (QueryPlan → Result GovernanceContextError (ContextResolution × GovernanceContextBinding))
  pub current : Option (Result GovernanceContextError GovernanceContextBinding)

-- `resolve_with_governance_binding`
unfoldable pub resolve_with_governance_binding :
    ContextResolver
    → QueryPlan
    → Result GovernanceContextError (ContextResolution × Option GovernanceContextBinding)
resolve_with_governance_binding resolver query_plan = elim resolver.resolve_bound [
  | none ↦ resolver.resolve query_plan >>= λ resolution. ok (resolution, none)
  | some method ↦ method query_plan >>= λ found. ok (found.0, some found.1)
]

-- `current_governance_binding`
unfoldable pub current_governance_binding :
    ContextResolver → Result GovernanceContextError (Option GovernanceContextBinding)
current_governance_binding resolver = elim resolver.current [
  | none ↦ ok none
  | some method ↦ method >>= λ binding. ok (some binding)
]

-- `require_same_governance_binding`
unfoldable pub require_same_governance_binding :
    Option GovernanceContextBinding
    → Option GovernanceContextBinding
    → Result GovernanceContextError (Unit {0})
require_same_governance_binding expected actual = require (expected == actual) drift

-- It returns exactly when the two bindings are the same.
pub require_same_governance_binding_iff :
    (expected actual : Option GovernanceContextBinding)
    → (require_same_governance_binding expected actual ≡ ok tt) ↔ (expected ≡ actual)
unfolding require_same_governance_binding
require_same_governance_binding_iff expected actual = (
  λ h. (Binding_eq.beq_iff expected actual).0 (require-eq-ok _ drift h),
  λ e. rw ((Binding_eq.beq_iff expected actual).1 e) refl,
)
