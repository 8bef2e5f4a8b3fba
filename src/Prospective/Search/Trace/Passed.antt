-- ===== src/Prospective/Search/Trace/Passed.antt =====
-- The traces of src/toxicjoin/prospective/trace.py that the search builds pass their validator.
use toxicjoin.Prelude.{
  ℕ, suc, ◌+◌, ◌≤◌, ◌≡◌, inl, inr, refl, sym, ap, ◌∙◌, String, String_eq, Bool, true, false, not,
  ◌&&◌, List, [], ◌∷◌, ◌++◌, Eq, ◌==◌, ==_self, nat_eq, leb, length, length-append,
  length-filter-le, filter, all, contains, is_empty, Option, In, In-filter, Bool-cases, arith,
}
use toxicjoin.Prospective.{
  ForbiddenPredicateId, ForbiddenPredicateId_eq, Ids_eq, direct_sensitive_linkage,
  stable_linkable_sensitive, small_cohort_sensitive, cross_release_composition,
  temporal_differencing, untrusted_governance_authorization, CounterexampleStep, PpmcSearchConfig,
  LocalOracleDecision, ForbiddenStateEvaluation,
}
use toxicjoin.Prospective.Search.{Model, SearchNode, child_steps, build_counterexample_step}
use toxicjoin.Prospective.Search.Paths.{
  IsReached, at_root, by_move, IsEnd, known, unknown, IsCounterexample,
}
use toxicjoin.Prospective.Search.Trace.{
  has_indices, is_chain, CounterexampleTrace, predicate_ids, canonical_predicates,
  build_counterexample_trace, has_field_limits, validate_trace,
}

has_indices-end :
    (n : ℕ) (steps : List CounterexampleStep) (s : CounterexampleStep)
    → has_indices n steps ≡ true
    → s.step_index ≡ n + length steps
    → has_indices n (steps ++ s ∷ []) ≡ true
has_indices-end n [] s h e = ground arith
has_indices-end n (t ∷ rest) s h e =
    let later : has_indices (suc n) rest ≡ true = ground (arith, h) in
    let first : nat_eq t.step_index n ≡ true = ground (arith, h) in
    let end = has_indices-end (suc n) rest s later (omega (arith, e)) in ground (arith, first, end)

is_chain-end :
    (first : String) (steps : List CounterexampleStep) (s : CounterexampleStep)
    → is_chain first steps s.pre_state_sha256 ≡ true
    → is_chain first (steps ++ s ∷ []) s.post_state_sha256 ≡ true
is_chain-end first [] s h = ground (arith, h, ==_self s.post_state_sha256)
is_chain-end first (t ∷ rest) s h =
    let later : is_chain t.post_state_sha256 rest s.pre_state_sha256 ≡ true = ground (arith, h) in
    let start : (t.pre_state_sha256 == first) ≡ true = ground (arith, h) in
    let end = is_chain-end t.post_state_sha256 rest s later in ground (arith, start, end)

nonempty :
    (x : ForbiddenPredicateId) (xs : List ForbiddenPredicateId) → In x xs → is_empty xs ≡ false
nonempty x [] i = absurd i
nonempty x (y ∷ ys) i = refl

all-has_indices :
    (n : ℕ) (steps : List CounterexampleStep)
    → has_indices n steps ≡ true
    → n + length steps ≤ 5
    → all (λ (s : CounterexampleStep). leb s.step_index 4) steps ≡ true
all-has_indices n [] h low = refl
all-has_indices n (s ∷ rest) h low =
    let later : has_indices (suc n) rest ≡ true = ground (arith, h) in
    let first : nat_eq s.step_index n ≡ true = ground (arith, h) in
    let limited = all-has_indices (suc n) rest later (omega (arith, low)) in
    ground (arith, first, limited, low)

filter-same :
    {T : Type 0} (p q : T → Bool) (xs : List T) → ((x : T) → p x ≡ q x) → filter p xs ≡ filter q xs
filter-same p q [] h = refl
filter-same p q (x ∷ xs) h = rw (h x, filter-same p q xs h) refl

contains-filter :
    (q : ForbiddenPredicateId → Bool) (p : ForbiddenPredicateId) (ids : List ForbiddenPredicateId)
    → contains p (filter q ids) ≡ (contains p ids && q p)
contains-filter q p [] = refl
contains-filter q p (x ∷ ids) = elim (Bool-cases (x == p)) [
  | inl own ↦
      let same = (ForbiddenPredicateId_eq.beq_iff x p).0 own in
      let agree : q x ≡ q p = ap q same in ground (arith, own, agree, contains-filter q p ids)
  | inr other ↦ ground (arith, other, contains-filter q p ids)
]

listed : (p : ForbiddenPredicateId) → In p predicate_ids
listed direct_sensitive_linkage = inl refl
listed stable_linkable_sensitive = inr (inl refl)
listed small_cohort_sensitive = inr (inr (inl refl))
listed cross_release_composition = inr (inr (inr (inl refl)))
listed temporal_differencing = inr (inr (inr (inr (inl refl))))
listed untrusted_governance_authorization = inr (inr (inr (inr (inr (inl refl)))))

In-contains-id :
    (p : ForbiddenPredicateId) (ids : List ForbiddenPredicateId) → In p ids → contains p ids ≡ true
In-contains-id p [] i = absurd i
In-contains-id p (x ∷ ids) (inl same) =
    let own : (x == p) ≡ true = (ForbiddenPredicateId_eq.beq_iff x p).1 (sym same) in
    ground (arith, own)
In-contains-id p (x ∷ ids) (inr i) = ground (arith, In-contains-id p ids i)

canonical_predicates_again :
    (matched : List ForbiddenPredicateId)
    → canonical_predicates (canonical_predicates matched) ≡ canonical_predicates matched
unfolding canonical_predicates
canonical_predicates_again matched =
    filter-same (λ p. contains p (filter (λ q. contains q matched) predicate_ids))
      (λ p. contains p matched) predicate_ids
      (λ p.
        contains-filter (λ q. contains q matched) p predicate_ids
        ∙ ap (λ b. b && contains p matched) (In-contains-id p predicate_ids (listed p)))

length-canonical_predicates :
    (matched : List ForbiddenPredicateId) → length (canonical_predicates matched) ≤ 6
unfolding canonical_predicates
length-canonical_predicates matched = length-filter-le (λ p. contains p matched) predicate_ids

nonempty-canonical_predicates :
    (matched : List ForbiddenPredicateId)
    → is_empty matched ≡ false
    → is_empty (canonical_predicates matched) ≡ false
unfolding canonical_predicates
nonempty-canonical_predicates [] h = cc
nonempty-canonical_predicates (x ∷ rest) h =
    nonempty x (filter (λ p. contains p (x ∷ rest)) predicate_ids) (
      In-filter (λ p. contains p (x ∷ rest)) x predicate_ids (listed x)
        (In-contains-id x (x ∷ rest) (inl refl)))

module _ {S A P K : Type 0} ⦃e : Eq K⦄ (model : Model S A P K) (config : PpmcSearchConfig)
    (initial : S) (start : P) where
  -- What the validator asks of steps to a state at a depth.
  record IsTrace (steps : List CounterexampleStep) (last : S) (depth : ℕ) : Type 0 where
    counted : length steps ≡ depth
    indexed : has_indices 0 steps ≡ true
    chained : is_chain (model.state_sha256 initial) steps (model.state_sha256 last) ≡ true

  IsTrace-move :
      (node : SearchNode S P) (a : A) (next : S) (d : LocalOracleDecision)
      → IsTrace node.steps node.state node.depth
      → IsTrace (child_steps model config node a next d) next (suc node.depth)
  unfolding build_counterexample_step
  IsTrace-move node a next d t =
      let s = build_counterexample_step model config node a next d in
      record {
        counted = omega (arith, length-append node.steps (s ∷ []), t.counted);
        indexed = has_indices-end 0 node.steps s t.indexed (omega (arith, t.counted));
        chained = is_chain-end (model.state_sha256 initial) node.steps s t.chained;
      }

  IsTrace-reached :
      (node : SearchNode S P)
      → IsReached model config initial start node
      → IsTrace node.steps node.state node.depth
  IsTrace-reached node at_root = record {
    counted = refl;
    indexed = refl;
    chained = ==_self (model.state_sha256 initial);
  }
  IsTrace-reached node (by_move n r a next d move path ext) =
      IsTrace-move n a next d (IsTrace-reached n r)

  IsTrace-end :
      (steps : List CounterexampleStep) (last : S) (path : Option P) (n : ℕ)
      → IsEnd model config initial start steps last path n
      → IsTrace steps last n
  IsTrace-end steps last path n (known node r) = IsTrace-reached node r
  IsTrace-end steps last path n (unknown node r a next d move lost) =
      IsTrace-move node a next d (IsTrace-reached node r)

  -- The trace that is built of a counterexample.
  abbrev pub trace_of : List CounterexampleStep → S → ForbiddenStateEvaluation → CounterexampleTrace
  trace_of steps last v =
      build_counterexample_trace config.bound (model.state_sha256 initial) steps
        (model.state_sha256 last) v

  pub IsCounterexample-validate_trace :
      (steps : List CounterexampleStep) (last : S) (v : ForbiddenStateEvaluation)
      → IsCounterexample model config initial start steps last v
      → validate_trace (trace_of steps last v) ≡ true
  unfolding validate_trace build_counterexample_trace
  IsCounterexample-validate_trace steps last v c =
      let t = IsTrace-end steps last c.path c.depth c.reached in
      let short : leb (length steps) config.bound ≡ true = ground (arith, t.counted, c.within) in
      let same = canonical_predicates_again v.matched_predicates in
      let canonical : (canonical_predicates v.matched_predicates
            == canonical_predicates (canonical_predicates v.matched_predicates))
          ≡ true =
        (Ids_eq.beq_iff _ _).1 (sym same) in
      ground (arith, short, t.indexed, t.chained, canonical)

  -- The limits hold where the bound is within its own, and a forbidden evaluation matches something.
  pub IsCounterexample-has_field_limits :
      (steps : List CounterexampleStep) (last : S) (v : ForbiddenStateEvaluation)
      → config.bound ≤ 5
      → v.forbidden ≡ not (is_empty v.matched_predicates)
      → IsCounterexample model config initial start steps last v
      → has_field_limits (trace_of steps last v) ≡ true
  unfolding has_field_limits build_counterexample_trace
  IsCounterexample-has_field_limits steps last v low summary c =
      let t = IsTrace-end steps last c.path c.depth c.reached in
      let limited = all-has_indices 0 steps t.indexed (omega (arith, t.counted, c.within, low)) in
      let some_ : is_empty v.matched_predicates ≡ false = ground (arith, summary, c.forbidden) in
      let shown = nonempty-canonical_predicates v.matched_predicates some_ in
      let six = length-canonical_predicates v.matched_predicates in
      ground (arith, t.counted, c.within, low, limited, shown, six)
