-- ===== src/Policy/Engine/Outcome.antt =====
-- What a decision of `PolicyEngine.evaluate` in src/toxicjoin/policy/engine.py says of the query.
use toxicjoin.Prelude.{
  ℕ, suc, ◌≤◌, ◌≡◌, refl, ◌↔◌, inl, inr, Bool, true, false, not, ◌&&◌, ◌||◌, Option, none, some,
  List, [], ◌∷◌, ◌++◌, map, arith, leb, String_eq, is_empty, contains, Bool-cases, if◌then◌else◌,
}
use toxicjoin.Models.{
  allow, rewrite, block, Decision_eq, SensitivityCategory, direct_identifier, stable_pseudonym,
  quasi_identifier, sensitive_attribute, Category_eq, subject_identifier_categories, ReasonCode,
  ReasonCode_eq, ColumnRef, key, ColumnContext, PolicyInput,
}
use toxicjoin.Policy.{
  PolicyConfig, category_count, unresolved, semantic_projected_context, effective_categories,
  has_protected_conditional_aggregate, subject_governed_category,
}
use toxicjoin.Policy.Categories.{
  All, any_shows, IsGoverned, unresolved_iff, contains-effective_categories,
}
use toxicjoin.Policy.Conditional.{HasLowRiskOperands, has_protected_conditional_aggregate_iff}
use toxicjoin.Policy.Engine.{
  reason_if, risk_categories, quasi_count, has_nested_scope, has_direct_linkage,
  has_composition_risk, block_reasons, is_governed_identifier, same_key, threshold_subject_matches,
  trusted_threshold, is_below, sensitive_anywhere, blocked, untrusted_subject, small_groups,
  released, evaluate,
}

-- The columns whose values the output shows.
abbrev pub exposed : PolicyInput → List ColumnContext
exposed input = (semantic_projected_context input).0

risk_categories-exposed :
    (input : PolicyInput) → risk_categories input ≡ effective_categories (exposed input)
unfolding risk_categories semantic_projected_context
risk_categories-exposed input = ground arith

quasi_count-exposed :
    (input : PolicyInput) → quasi_count input ≡ category_count (exposed input) quasi_identifier
unfolding quasi_count semantic_projected_context
quasi_count-exposed input = ground arith

is_empty-map {ℓ κ} :
    {A : Type ℓ} {B : Type κ} (f : A → B) (xs : List A) → is_empty (map f xs) ≡ is_empty xs
is_empty-map f [] = refl
is_empty-map f (x ∷ xs) = refl

is_empty-unresolved_iff :
    (input : PolicyInput)
    → (is_empty (unresolved input) ≡ true) ↔ All IsGoverned input.all_referenced_context
unfolding unresolved
is_empty-unresolved_iff input = rw is_empty-map (unresolved_iff input.all_referenced_context)

-- A threshold that bounds the governed population: the subject that is counted is the declared one,
-- governance classifies it as an identifier, and the threshold reaches the minimum.
pub record IsTrusted (minimum : ℕ) (declared detected : Option ColumnRef)
    (governed : Option SensitivityCategory) (present : Option ℕ) : Type 0 where
  pub subject : ColumnRef
  pub is_declared : declared ≡ some subject
  pub counted : ColumnRef
  pub is_detected : detected ≡ some counted
  pub same : key subject ≡ key counted
  pub category : SensitivityCategory
  pub is_governed : governed ≡ some category
  pub identifier : contains category subject_identifier_categories ≡ true
  pub threshold : ℕ
  pub is_present : present ≡ some threshold
  pub enough : minimum ≤ threshold

abbrev pub IsTrustedThreshold : PolicyConfig → PolicyInput → Type 0
IsTrustedThreshold config input =
    IsTrusted config.minimum_group_size input.subject_key
      input.query_plan.minimum_group_size_subject (subject_governed_category input)
      input.minimum_group_size_present

-- No reason to block the query: what it shows is classified, and is no linkage of an identifier.
pub record IsUnblocked (config : PolicyConfig) (input : PolicyInput) : Type 0 where
  pub no_failure : input.upstream_failures ≡ []
  pub governed : config.fail_closed ≡ true → All IsGoverned input.all_referenced_context
  pub no_nested :
      config.fail_closed ≡ true
      → (semantic_projected_context input).1 ≡ true
      → has_nested_scope input ≡ false
  pub no_conditional : All (HasLowRiskOperands input) input.query_plan.projected_exposures
  pub no_linkage :
      any_shows direct_identifier (exposed input) ≡ true
      → any_shows sensitive_attribute (exposed input) ≡ false
  pub no_composition :
      input.query_plan.is_grouped ≡ false
      → any_shows stable_pseudonym (exposed input) ≡ true
      → any_shows sensitive_attribute (exposed input) ≡ true
      → ((semantic_projected_context input).1 ≡ false)
        × (suc (category_count (exposed input) quasi_identifier)
            ≤ config.quasi_identifier_threshold)

-- What has to hold of a query for its release.
pub record IsReleasable (config : PolicyConfig) (input : PolicyInput) : Type 0 where
  pub unblocked : IsUnblocked config input
  pub large_groups :
      input.query_plan.is_grouped ≡ true
      → any_shows sensitive_attribute input.all_referenced_context ≡ true
      → IsTrustedThreshold config input

has_direct_linkage_lem :
    (input : PolicyInput)
    → has_direct_linkage input ≡ (
        any_shows direct_identifier (exposed input)
        && any_shows sensitive_attribute (exposed input))
unfolding has_direct_linkage
has_direct_linkage_lem input = simp (risk_categories-exposed, contains-effective_categories)

has_composition_risk_lem :
    (config : PolicyConfig) (input : PolicyInput)
    → has_composition_risk config input ≡ (
        not input.query_plan.is_grouped
        && any_shows stable_pseudonym (exposed input)
        && any_shows sensitive_attribute (exposed input)
        && ((semantic_projected_context input).1
            || leb config.quasi_identifier_threshold
                (category_count (exposed input) quasi_identifier)))
unfolding has_composition_risk
has_composition_risk_lem config input =
    simp (risk_categories-exposed, contains-effective_categories, quasi_count-exposed)

pub sensitive_anywhere_lem :
    (input : PolicyInput)
    → sensitive_anywhere input ≡ any_shows sensitive_attribute input.all_referenced_context
unfolding sensitive_anywhere
sensitive_anywhere_lem input = contains-effective_categories sensitive_attribute _

IsTrusted-of :
    (minimum : ℕ) (declared detected : Option ColumnRef) (governed : Option SensitivityCategory)
    (present : Option ℕ)
    → is_below
        (if same_key declared detected && is_governed_identifier governed then present else none)
        minimum
      ≡ false
    → IsTrusted minimum declared detected governed present
IsTrusted-of minimum (some s) (some d) (some c) (some t) h = record {
  subject = s;
  is_declared = refl;
  counted = d;
  is_detected = refl;
  same = (String_eq.beq_iff (key s) (key d)).0 (ground arith);
  category = c;
  is_governed = refl;
  identifier = ground arith;
  threshold = t;
  is_present = refl;
  enough = ground arith;
}
IsTrusted-of minimum declared detected governed present h = absurd (ground arith)

below_of :
    (minimum : ℕ) (declared detected : Option ColumnRef) (governed : Option SensitivityCategory)
    (present : Option ℕ)
    → IsTrusted minimum declared detected governed present
    → is_below
        (if same_key declared detected && is_governed_identifier governed then present else none)
        minimum
      ≡ false
below_of minimum declared detected governed present t =
    ground (arith, String_eq.beq_iff (key t.subject) (key t.counted))

reasons_empty :
    (fs : List ReasonCode) (r s t u v : ReasonCode) (a b c d e : Bool)
    → (is_empty (
          fs
          ++ (reason_if a r
              ++ (reason_if b s ++ (reason_if c t ++ (reason_if d u ++ reason_if e v)))))
        ≡ true)
      ↔ ((fs ≡ []) × (a ≡ false) × (b ≡ false) × (c ≡ false) × (d ≡ false) × (e ≡ false))
reasons_empty [] r s t u v a b c d e = ground arith
reasons_empty (f ∷ fs) r s t u v a b c d e = ground arith

module _ (config : PolicyConfig) (input : PolicyInput) where
  trusted_enough_iff :
      (is_below (trusted_threshold input) config.minimum_group_size ≡ false)
      ↔ IsTrustedThreshold config input
  unfolding trusted_threshold threshold_subject_matches
  trusted_enough_iff = (IsTrusted-of _ _ _ _ _, below_of _ _ _ _ _)

  -- The tests of the five reasons, in order.
  abbrev NoReason : Type 0
  NoReason =
      (input.upstream_failures ≡ [])
      × ((not (is_empty (unresolved input)) && config.fail_closed) ≡ false)
      × (((semantic_projected_context input).1 && config.fail_closed && has_nested_scope input)
          ≡ false)
      × (has_protected_conditional_aggregate input ≡ false)
      × (has_direct_linkage input ≡ false)
      × (has_composition_risk config input ≡ false)

  block_reasons_parts : (is_empty (block_reasons config input) ≡ true) ↔ NoReason
  unfolding block_reasons
  block_reasons_parts = reasons_empty _ _ _ _ _ _ _ _ _ _ _

  IsUnblocked-of : NoReason → IsUnblocked config input
  IsUnblocked-of (failures, classified, nested, conditional, linkage, composition) = record {
    no_failure = failures;
    governed = λ closed. (is_empty-unresolved_iff input).0 (ground arith);
    no_nested = λ closed semantic. ground arith;
    no_conditional = (has_protected_conditional_aggregate_iff input).0 conditional;
    no_linkage = λ direct. ground (arith, has_direct_linkage_lem input);
    no_composition =
        λ ungrouped pseudonym sensitive. ground (arith, has_composition_risk_lem config input);
  }

  NoReason-of : IsUnblocked config input → NoReason
  NoReason-of u = (
    u.no_failure,
    elim (Bool-cases config.fail_closed) [
      | inl closed ↦ ground (arith, (is_empty-unresolved_iff input).1 (u.governed closed))
      | inr open_ ↦ ground arith
    ],
    ground (arith, u.no_nested),
    (has_protected_conditional_aggregate_iff input).1 u.no_conditional,
    ground (arith, has_direct_linkage_lem input, u.no_linkage),
    ground (arith, has_composition_risk_lem config input, u.no_composition),
  )

  block_reasons_iff : (is_empty (block_reasons config input) ≡ true) ↔ IsUnblocked config input
  block_reasons_iff =
      (λ h. IsUnblocked-of (block_reasons_parts.0 h), λ u. block_reasons_parts.1 (NoReason-of u))

  -- `evaluate` by its four tests alone.
  pub decision_lem : (evaluate config input).decision ≡ (
      if not (is_empty (block_reasons config input))
      then block
      else if not (input.query_plan.is_grouped && sensitive_anywhere input)
      then allow
      else if not (is_governed_identifier (subject_governed_category input))
      then block
      else if is_below (trusted_threshold input) config.minimum_group_size
      then rewrite
      else allow)
  unfolding evaluate blocked untrusted_subject small_groups released
  decision_lem = ground arith

  allow_sound : (evaluate config input).decision ≡ allow → IsReleasable config input
  allow_sound h = record {
    unblocked = block_reasons_iff.0 (ground (arith, decision_lem));
    large_groups = λ grouped sensitive.
        trusted_enough_iff.0 (ground (arith, decision_lem, sensitive_anywhere_lem input));
  }

  allow_complete : IsReleasable config input → (evaluate config input).decision ≡ allow
  allow_complete r = elim (Bool-cases (input.query_plan.is_grouped && sensitive_anywhere input)) [
    | inl gated ↦
        let t = r.large_groups (ground arith) (ground (arith, sensitive_anywhere_lem input)) in
        ground (
          arith,
          decision_lem,
          block_reasons_iff.1 r.unblocked,
          trusted_enough_iff.1 t,
          t.is_governed,
          t.identifier,
        )
    | inr free ↦ ground (arith, decision_lem, block_reasons_iff.1 r.unblocked)
  ]

  -- The engine allows a query exactly when it is releasable: no earlier stage failed; where the
  -- policy fails closed, every referenced column is governed and nothing nested is shown; every
  -- operand of a conditional aggregate is a resolved column that is low risk with all of its sources;
  -- the exposed columns link no direct identifier, and ungrouped no composition of a pseudonym, with a
  -- sensitive attribute; and a grouped query over sensitive data counts a governed subject up to the
  -- minimum.
  pub evaluate-allow_iff : ((evaluate config input).decision ≡ allow) ↔ IsReleasable config input
  evaluate-allow_iff = (allow_sound, allow_complete)
