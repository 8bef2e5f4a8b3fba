-- ===== src/Policy/Engine/Repair.antt =====
-- The rewrite that a REWRITE decision of src/toxicjoin/policy/engine.py asks for.
use toxicjoin.Prelude.{
  ℕ, ◌≤◌, ◌≡◌, refl, true, some, arith, String_eq, ==_self, Option-cases, inl, inr,
}
use toxicjoin.Models.{allow, rewrite, PolicyInput, key}
use toxicjoin.Policy.{
  PolicyConfig, unresolved, semantic_projected_context, has_protected_conditional_aggregate,
  subject_governed_category,
}
use toxicjoin.Policy.Engine.{
  risk_categories, quasi_count, has_direct_linkage, has_composition_risk, block_reasons,
  is_governed_identifier, threshold_subject_matches, trusted_threshold, sensitive_anywhere,
  evaluate, same_key,
}
use toxicjoin.Policy.Engine.Outcome.{decision_lem}

-- The query with `HAVING COUNT(DISTINCT subject) >= threshold` on the declared subject.
abbrev pub with_threshold : ℕ → PolicyInput → PolicyInput
with_threshold threshold input = record input {
  query_plan = record input.query_plan {
    minimum_group_size_present = some threshold;
    minimum_group_size_subject = input.subject_key;
  };
  minimum_group_size_present = some threshold;
}

module _ (config : PolicyConfig) (threshold : ℕ) (input : PolicyInput) where
  same_reasons : block_reasons config (with_threshold threshold input) ≡ block_reasons config input
  unfolding block_reasons unresolved semantic_projected_context has_direct_linkage risk_categories
      has_composition_risk quasi_count has_protected_conditional_aggregate
  same_reasons = refl

  same_sensitive : sensitive_anywhere (with_threshold threshold input) ≡ sensitive_anywhere input
  unfolding sensitive_anywhere
  same_sensitive = refl

  same_subject :
      subject_governed_category (with_threshold threshold input) ≡ subject_governed_category input
  unfolding subject_governed_category
  same_subject = refl

  subject_declared :
      is_governed_identifier (subject_governed_category input) ≡ true
      → same_key input.subject_key input.subject_key ≡ true
  unfolding subject_governed_category
  subject_declared h = elim (Option-cases input.subject_key) [
    | inl e ↦ ground (arith)
    | inr (s, e) ↦ ground (arith, ==_self (key s))
  ]

  -- A query that is sent back for small groups is allowed once it counts the declared subject up
  -- to a threshold of at least the minimum.
  pub evaluate-with_threshold :
      (evaluate config input).decision ≡ rewrite
      → config.minimum_group_size ≤ threshold
      → (evaluate config (with_threshold threshold input)).decision ≡ allow
  unfolding trusted_threshold threshold_subject_matches
  evaluate-with_threshold h enough = ground (
    arith,
    decision_lem config input,
    decision_lem config (with_threshold threshold input),
    same_reasons,
    same_sensitive,
    same_subject,
    subject_declared,
  )
