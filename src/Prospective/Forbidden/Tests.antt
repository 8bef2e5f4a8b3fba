-- ===== src/Prospective/Forbidden/Tests.antt =====
-- A state with one sensitive output, and no identifier beside it.
use toxicjoin.Prelude.{
  ◌≡◌, refl, String_eq, String-discrete, true, false, none, some, [], ◌∷◌, from_keys,
}
use mathlib.Core.Bool.{decide}
use toxicjoin.Prelude.Dict
use toxicjoin.Models.{
  sensitive_attribute, raw_value, Category-discrete, ProjectionExposureKind-discrete,
}
use toxicjoin.Disclosure.Ledger.{OptionString-discrete}
use toxicjoin.Prospective.{ForbiddenStateEvaluation}
use toxicjoin.Prospective.Twin.{
  DisclosureAtom, column_exposure, output, empty_fields, AtomKind-discrete, Role-discrete,
}
use toxicjoin.Prospective.Forbidden.{
  GovernanceTrustBinding, EvaluationHash, DisclosureState, evaluate_forbidden_state, predicates_of,
  same_release_linkage, small_cohort, cross_release, temporal_difference, untrusted_governance,
  judge_candidates, evaluation_of, by_release, group_from, Status-discrete, OptionCategory-discrete,
}
use toxicjoin.Prospective.Forbidden.Clear.{IsProtected, evaluate_forbidden_state-IsProtected}

abbrev exposed : DisclosureAtom
exposed = record {
  fields = record (empty_fields column_exposure) {
    release_semantic_sha256 = some "r";
    column_key = some "claims.diagnosis";
    category = some sensitive_attribute;
    column_role = some output;
    exposure_kind = some raw_value;
  };
  atom_sha256 = "a";
}

abbrev state : DisclosureState
state = record {
  state_sha256 = "s";
  warehouse_snapshot_sha256 = none;
  governance_commitment_sha256 = "g";
  released_atoms = exposed ∷ [];
}

abbrev binding : GovernanceTrustBinding
binding = record { governance_commitment_sha256 = "g"; trusted = true }

abbrev hash : EvaluationHash
hash s n b p ps = "e"

program : Unit {0}
unfolding evaluate_forbidden_state predicates_of same_release_linkage small_cohort cross_release
    temporal_difference untrusted_governance judge_candidates evaluation_of by_release group_from
    Status-discrete OptionCategory-discrete OptionString-discrete AtomKind-discrete Role-discrete
    Category-discrete ProjectionExposureKind-discrete String-discrete decide from_keys Dict.get
    Dict.put
program = tt

abbrev cleared : ForbiddenStateEvaluation
cleared = record {
  evaluation_sha256 = "e";
  matched_predicates = [];
  indeterminate_predicates = [];
  forbidden = false;
}

evaluated : evaluate_forbidden_state hash state 5 (some binding) (some []) ≡ some cleared
unfolding program
evaluated = refl

evaluate_forbidden_state-IsProtected_example : IsProtected state (some binding) (some [])
evaluate_forbidden_state-IsProtected_example =
    evaluate_forbidden_state-IsProtected hash state 5 (some binding) (some []) cleared evaluated
      refl refl
