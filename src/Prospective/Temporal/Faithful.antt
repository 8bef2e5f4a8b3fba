-- ===== src/Prospective/Temporal/Faithful.antt =====
-- The keys of src/toxicjoin/prospective/ppmc_search.py tell the nodes that a search reaches apart.
mod Tests
use toxicjoin.Prelude.{
  ℕ, suc, ◌+◌, ◌≤◌, ◌<◌, ◌≡◌, ◌≢◌, ◌⊎◌, inl, inr, refl, sym, ap, ◌∙◌, subst, String, String_eq,
  Bool, true, false, not, all, any, is_empty, Option, none, some, List, [], ◌∷◌, ◌++◌, Eq, ◌==◌, In,
  In-append, Bool-cases, Option-cases, arith,
}
use toxicjoin.Disclosure.{DisclosureSemanticRelease}
use toxicjoin.Prospective.{
  ForbiddenStateEvaluation, LocalOracleDecision, PpmcSearchConfig, Transition, moved,
  temporal_differencing,
}
use toxicjoin.Prospective.Search.{Model, SearchNode}
use toxicjoin.Prospective.Search.Paths.{IsReached, at_root, by_move, IsClear}
use toxicjoin.Prospective.Search.Invariant.{key_of}
use toxicjoin.Prospective.Search.Correct.{IsFaithful}
use toxicjoin.Prospective.Forbidden.{
  DisclosureState, GovernanceTrustBinding, EvaluationHash, ForbiddenPredicateEvaluation, matched,
  indeterminate, with_status, fits, predicates_of, temporal_difference, evaluate_forbidden_state,
  observed_le, sorted_observations, TemporalReleaseObservation,
}
use toxicjoin.Prospective.Forbidden.Clear.{without_status, evaluated-parts}
use toxicjoin.Prospective.Temporal.{
  FutureAction, ObservationHash, observation_of, semantic_is_sensitive, is_historical,
  initial_temporal_path, extend_temporal_path, with_observation, pairs_from, SearchNodeKey, Key_eq,
  search_node_key, ppmc_model,
}
use toxicjoin.Prospective.Temporal.Pairs.{In-pairs_from, pairs_from-In, pairs_from-end}
use toxicjoin.Prospective.Temporal.Steady.{Observations, Steady, unmatched-Steady, Steady-clear}
use toxicjoin.Prospective.Temporal.Order.{
  Increasing, Below, sorted-Increasing, Increasing-end, Steady-pairs, extension-cases, some-same,
  none-some, initial-Increasing,
}

module _ {D : Type 0} ⦃e : Eq D⦄ (signature : List (String × String) → D)
    (observation : ObservationHash) (evaluation : EvaluationHash) (minimum : ℕ)
    (binding : Option GovernanceTrustBinding) (actions : List FutureAction)
    (apply : DisclosureState → FutureAction → Transition DisclosureState)
    (oracle : DisclosureState → FutureAction → Option LocalOracleDecision)
    (valid : DisclosureState → Bool) (bound_to : String) (config : PpmcSearchConfig)
    (initial : DisclosureState) (start : Observations) where
  abbrev model : Model DisclosureState FutureAction Observations (SearchNodeKey D)
  model =
      ppmc_model signature observation evaluation minimum binding actions apply oracle valid
        bound_to

  -- The observations of the path of a reached node stand in the order of their steps.
  reached-Increasing :
      Increasing start
      → Below 0 start
      → (node : SearchNode DisclosureState Observations) → IsReached model config initial start node
      → Increasing node.temporal_path × Below node.depth node.temporal_path
  reached-Increasing ordered early node at_root = (ordered, early)
  reached-Increasing ordered early node (by_move n r a next d move path ext) =
      let (inc, low) = reached-Increasing ordered early n r in
      elim (extension-cases observation a next) [
        | inl stays ↦
            let same =
              some-same n.temporal_path path (sym (stays n.temporal_path (suc n.depth)) ∙ ext) in
            (
              subst Increasing same inc,
              subst (Below (suc n.depth)) same (λ o i. omega (arith, low o i)),
            )
        | inr (inl lost) ↦ absurd (none-some path (sym (lost n.temporal_path (suc n.depth)) ∙ ext))
        | inr (inr (release, snapshot, grows)) ↦
            let o = observation_of observation (suc n.depth) release snapshot in
            let longer = Increasing-end n.temporal_path o inc (λ p i. omega (arith, low p i)) in
            let same : n.temporal_path ++ o ∷ [] ≡ path =
              sym (sorted-Increasing (n.temporal_path ++ o ∷ []) longer)
              ∙ some-same _ path (sym (grows n.temporal_path (suc n.depth)) ∙ ext) in
            (
              subst Increasing same longer,
              subst (Below (suc n.depth)) same (λ p i.
                  elim (In-append p n.temporal_path (o ∷ []) i) [
                    | inl old ↦ omega (arith, low p old)
                    | inr (inl new) ↦
                        subst (λ q. q.step_index ≤ suc n.depth) (sym new) (omega arith)
                    | inr (inr none_) ↦ absurd none_
                  ]),
            )
      ]

  -- Two paths of the same pairs leave a state clear together.
  IsClear-pairs :
      (s : DisclosureState) (p q : Observations)
      → pairs_from [] p ≡ pairs_from [] q
      → IsClear model config s (some p)
      → IsClear model config s (some q)
  unfolding predicates_of evaluate_forbidden_state
  IsClear-pairs s p q same c =
      let ps = predicates_of s minimum binding (some p) in
      let (within, shown, left) =
        evaluated-parts evaluation s minimum binding (some p) c.evaluation c.evaluated in
      let none_ : is_empty (with_status matched ps) ≡ true =
        ground (arith, shown, c.not_forbidden) in
      let steady : Steady p = unmatched-Steady p (
        without_status matched (temporal_difference (some p)) ps none_
          (inr (inr (inr (inr (inl refl)))))) in
      let here = Steady-clear p steady in
      let there = Steady-clear q (Steady-pairs p q same steady) in
      let agree : predicates_of s minimum binding (some p)
          ≡ predicates_of s minimum binding (some q) =
        rw (predicates_of, here, there) refl in
      let within' = subst (λ xs. all fits xs ≡ true) agree within in
      let none' = subst (λ xs. is_empty (with_status matched xs) ≡ true) agree none_ in
      let qs = predicates_of s minimum binding (some q) in
      record {
        evaluation = record {
          evaluation_sha256 = evaluation s minimum binding (some q) qs;
          matched_predicates = with_status matched qs;
          indeterminate_predicates = with_status indeterminate qs;
          forbidden = not (is_empty (with_status matched qs));
        };
        evaluated = rw (evaluate_forbidden_state, within') refl;
        not_forbidden = ap not none';
        decided =
            subst (λ xs. is_empty (with_status indeterminate xs) ≡ true) agree
              (subst (λ xs. is_empty xs ≡ true) left c.decided);
      }

  module _
      (distinct : (x y : SearchNode DisclosureState Observations)
        → IsReached model config initial start x
        → IsReached model config initial start y
        → x.state.state_sha256 ≡ y.state.state_sha256
        → x.state ≡ y.state)
      (collision_free : (ps qs : List (String × String))
        → signature ps ≡ signature qs
        → ps ≡ qs) where
    same_pairs :
        (x y : SearchNode DisclosureState Observations)
        → key_of model config initial start x ≡ key_of model config initial start y
        → pairs_from [] x.temporal_path ≡ pairs_from [] y.temporal_path
    unfolding search_node_key
    same_pairs x y same = collision_free _ _ (ap (λ k. k.temporal_signature) same)

    key-state :
        (x y : SearchNode DisclosureState Observations)
        → key_of model config initial start x ≡ key_of model config initial start y
        → x.state.state_sha256 ≡ y.state.state_sha256
    unfolding search_node_key
    key-state x y same = ap (λ k. k.state_sha256) same

    -- The key of a state and two paths of the same pairs is the same.
    key-pairs :
        (s : DisclosureState) (p q : Observations)
        → pairs_from [] p ≡ pairs_from [] q
        → search_node_key signature s p ≡ search_node_key signature s q
    unfolding search_node_key
    key-pairs s p q same =
        ap (λ ps. record { state_sha256 = s.state_sha256; temporal_signature = signature ps }) same

    extended :
        Increasing start
        → Below 0 start
        → (x y : SearchNode DisclosureState Observations) → IsReached model config initial start x
        → IsReached model config initial start y
        → pairs_from [] x.temporal_path ≡ pairs_from [] y.temporal_path
        → (a : FutureAction) (next : DisclosureState) (path : Observations)
        → extend_temporal_path observation x.temporal_path a next (suc x.depth) ≡ some path
        → (path' : Observations) × (extend_temporal_path observation y.temporal_path a next
              (suc y.depth)
            ≡ some path')
          × (pairs_from [] path ≡ pairs_from [] path')
    unfolding with_observation
    extended ordered early x y r r' same a next path ext =
        elim (extension-cases observation a next) [
          | inl stays ↦ (
            y.temporal_path,
            stays y.temporal_path (suc y.depth),
            ap (pairs_from []) (
                  sym (
                    some-same x.temporal_path path
                      (sym (stays x.temporal_path (suc x.depth)) ∙ ext)))
                ∙ same,
          )
          | inr (inl lost) ↦
              absurd (none-some path (sym (lost x.temporal_path (suc x.depth)) ∙ ext))
          | inr (inr (release, snapshot, grows)) ↦
              let o = observation_of observation (suc x.depth) release snapshot in
              let o' = observation_of observation (suc y.depth) release snapshot in
              let (inc, low) = reached-Increasing ordered early x r in
              let (inc', low') = reached-Increasing ordered early y r' in
              let put =
                sorted-Increasing (x.temporal_path ++ o ∷ [])
                  (Increasing-end x.temporal_path o inc (λ p i. omega (arith, low p i))) in
              let put' =
                sorted-Increasing (y.temporal_path ++ o' ∷ [])
                  (Increasing-end y.temporal_path o' inc' (λ p i. omega (arith, low' p i))) in
              let here : path ≡ x.temporal_path ++ o ∷ [] =
                some-same path _ (sym ext ∙ grows x.temporal_path (suc x.depth)) ∙ put in
              (
                y.temporal_path ++ o' ∷ [],
                grows y.temporal_path (suc y.depth) ∙ ap some put',
                ap (pairs_from []) here
                    ∙ pairs_from-end [] x.temporal_path o
                    ∙ ap (λ ps. with_observation ps o) same
                    ∙ sym (pairs_from-end [] y.temporal_path o'),
              )
        ]

    -- The program's own keys, paths and predicates are faithful: for a search from the temporal path
    -- that the initial state has, where the hashes of the reached states and of the pairs do not
    -- collide, nodes of one key have one state, are clear together, and are extended together by the
    -- actions of the grammar.
    pub search_node_key-IsFaithful :
        (semantic : DisclosureSemanticRelease) (base : List String)
        → initial_temporal_path observation initial semantic base ≡ some start
        → IsFaithful model config initial start
    search_node_key-IsFaithful semantic base began =
        let (ordered, early) = initial-Increasing observation initial semantic base start began in
        record {
          same_state = λ x y r r' same. distinct x y r r' (key-state x y same);
          same_verdict = λ x y r r' same c.
              let state = distinct x y r r' (key-state x y same) in
              IsClear-pairs y.state x.temporal_path y.temporal_path (same_pairs x y same)
                (subst (λ s. IsClear model config s (some x.temporal_path)) state c);
          same_extension = λ x y r r' same n m a next offered applied path ext.
              let (path', ext', agree) =
                extended ordered early x y r r' (same_pairs x y same) a next path ext in
              (path', ext', key-pairs next path path' agree);
        }
