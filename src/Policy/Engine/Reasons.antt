-- ===== src/Policy/Engine/Reasons.antt =====
-- The reason codes of a decision of src/toxicjoin/policy/engine.py, and its validator.
use toxicjoin.Prelude.{
  ◌≡◌, refl, Bool, true, false, List, [], ◌∷◌, arith, is_empty, contains, is_distinct, from_keys,
  contains-append, contains-from_keys, is_distinct-from_keys, ok, Bool-cases, inl, inr,
  if◌then◌else◌,
}
use mathlib.Core.Bool.{decide}
use toxicjoin.Models.{
  allow, block, ReasonCode, ReasonCode_eq, Decision-discrete, PolicyInput, PolicyDecision,
}
use toxicjoin.Models.Validation.{decision_and_rewrite_flag_match}
use toxicjoin.Policy.{PolicyConfig}
use toxicjoin.Policy.Engine.{
  block_reasons, blocked, untrusted_subject, small_groups, released, evaluate,
}

nonempty_of_contains :
    (r : ReasonCode) (rs : List ReasonCode) → contains r rs ≡ true → is_empty rs ≡ false
nonempty_of_contains r [] h = cc
nonempty_of_contains r (s ∷ rs) h = refl

nonempty-from_keys :
    (rs : List ReasonCode) → is_empty rs ≡ false → is_empty (from_keys [] rs) ≡ false
nonempty-from_keys [] h = cc
nonempty-from_keys (r ∷ rs) h =
    nonempty_of_contains r _ (rw contains-from_keys (ground (arith, ReasonCode_eq.beq_iff r r)))

cases_of :
    (P : PolicyDecision → Type 0) (a b c : Bool) {u s r : PolicyDecision}
    → P u
    → P s
    → P r
    → P (if a then r else if b then u else if c then s else r)
cases_of P true b c pu ps pr = pr
cases_of P false true c pu ps pr = pu
cases_of P false false true pu ps pr = ps
cases_of P false false false pu ps pr = pr

abbrev pub IsConsistent : PolicyConfig → PolicyDecision → Type 0
IsConsistent config d =
    (decision_and_rewrite_flag_match d ≡ ok d)
    × (is_empty d.reason_codes ≡ false)
    × (is_distinct d.reason_codes ≡ true)
    × (d.policy_version ≡ config.version)

module _ (config : PolicyConfig) (input : PolicyInput) where
  -- A reason to block decides the outcome, whatever else holds, and is reported.
  evaluate_reports :
      (r : ReasonCode)
      → contains r (block_reasons config input) ≡ true
      → ((evaluate config input).decision ≡ block)
        × (contains r (evaluate config input).reason_codes ≡ true)
  unfolding evaluate blocked
  evaluate_reports r h = ground (
    arith,
    nonempty_of_contains r (block_reasons config input),
    contains-from_keys r [] (block_reasons config input),
  )

  -- No failure of an earlier stage is dropped: each one blocks the query and is reported.
  pub evaluate_upstream :
      (r : ReasonCode)
      → contains r input.upstream_failures ≡ true
      → ((evaluate config input).decision ≡ block)
        × (contains r (evaluate config input).reason_codes ≡ true)
  unfolding block_reasons
  evaluate_upstream r h = evaluate_reports r (rw contains-append (ground arith))

  nonempty-blocked :
      is_empty (block_reasons config input) ≡ false
      → is_empty (blocked config input).reason_codes ≡ false
  unfolding blocked
  nonempty-blocked h = nonempty-from_keys (block_reasons config input) h

  distinct-blocked : is_distinct (blocked config input).reason_codes ≡ true
  unfolding blocked
  distinct-blocked = is_distinct-from_keys [] (block_reasons config input) refl

  -- What holds of the four decisions that the method can build holds of its result.
  evaluate_cases :
      (P : PolicyDecision → Type 0)
      → (is_empty (block_reasons config input) ≡ false → P (blocked config input))
      → P (untrusted_subject config input)
      → P (small_groups config input)
      → P (released config input)
      → P (evaluate config input)
  unfolding evaluate
  evaluate_cases P b u s r = elim (Bool-cases (is_empty (block_reasons config input))) [
    | inr some_ ↦ rw some_ (b some_)
    | inl none_ ↦ rw none_ (cases_of P _ _ _ u s r)
  ]

  -- Every decision passes the validator of its model, gives a reason and gives none twice, and names
  -- the version of the policy.
  pub evaluate-IsConsistent : IsConsistent config (evaluate config input)
  unfolding blocked untrusted_subject small_groups released decision_and_rewrite_flag_match
      Decision-discrete decide
  evaluate-IsConsistent =
      evaluate_cases (IsConsistent config) (λ h. (refl, nonempty-blocked h, distinct-blocked, refl))
        (refl, refl, refl, refl) (refl, refl, refl, refl) (refl, refl, refl, refl)

  -- An allowed query is not sent back.
  pub evaluate-allow_unflagged :
      (evaluate config input).decision ≡ allow → (evaluate config input).rewrite_required ≡ false
  unfolding blocked untrusted_subject small_groups released
  evaluate-allow_unflagged =
      evaluate_cases (λ d. d.decision ≡ allow → d.rewrite_required ≡ false) (λ h e. refl)
        (λ e. refl) (λ e. cc) (λ e. refl)
