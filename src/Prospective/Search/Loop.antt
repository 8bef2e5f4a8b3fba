-- ===== src/Prospective/Search/Loop.antt =====
-- The loops of `check_prospective_privacy` in src/toxicjoin/prospective/ppmc_search.py keep their
-- invariant.
use toxicjoin.Prelude.{
  ℕ, suc, ◌≤◌, ◌≡◌, ◌⊎◌, false≢true, refl, sym, inl, inr, ap, ◌∙◌, subst, contains, is_empty,
  length, none, some, List, [], ◌∷◌, Eq, In, Bool-cases, Option-cases, Result-cases, leb, arith, ok,
  raise,
}
use toxicjoin.Prospective.{
  LocalOracleDecision, CounterexampleStep, PpmcSearchConfig, Transition, moved, rejected, failed,
  predicate_evaluation_failure, indeterminate_security_predicate,
}
use toxicjoin.Prospective.Search.{
  Model, SearchNode, Progress, Stop, unsafe, fail_closed, invoke_local_oracle, child_steps, child,
  judge_unknown, judge_known, considered, oracle_admitted, admit, consider, consider_all,
}
use toxicjoin.Prospective.Search.Paths.{
  IsMove, IsReached, by_move, IsClear, IsEnd, known, unknown, IsJustified,
}
use toxicjoin.Prospective.Search.Invariant.{key_of, IsCovered, Inner, After, Inner-covered}
use toxicjoin.Prospective.Search.Invariant.Grow.{Inner-grow}

Transition-cases :
    {S : Type 0} (t : Transition S) → ((s : S) × (t ≡ moved s)) ⊎ ((t ≡ rejected) ⊎ (t ≡ failed))
Transition-cases (moved s) = inl (s, refl)
Transition-cases rejected = inr (inl refl)
Transition-cases failed = inr (inr refl)

moved-injective : {S : Type 0} (s t : S) → moved s ≡ moved t → s ≡ t
moved-injective s t h = cc

moved≢rejected : {S : Type 0} (s : S) → ¬ (rejected ≡ moved s)
moved≢rejected s h = cc

pub some-injective : {A : Type 0} (a b : A) → some a ≡ some b → a ≡ b
some-injective a b h = cc

module _ {S A P K : Type 0} ⦃e : Eq K⦄ (model : Model S A P K) (config : PpmcSearchConfig)
    (initial : S) (start : P) where
  judge_unknown-IsJustified :
      (steps : List CounterexampleStep) (last : S) (depth : ℕ)
      → IsEnd model config initial start steps last none depth
      → depth ≤ config.bound
      → IsJustified model config initial start (judge_unknown model config steps last)
  unfolding judge_unknown
  judge_unknown-IsJustified steps last depth reached within =
      elim (Option-cases (model.evaluate last none)) [
        | inl error ↦ rw (IsJustified, judge_unknown, error) tt
        | inr (v, found) ↦ elim (Bool-cases v.forbidden) [
          | inl bad ↦
              let same : judge_unknown model config steps last ≡ unsafe steps last v =
                rw (judge_unknown, found, bad) refl in
              subst (IsJustified model config initial start) (sym same) (record {
                path = none;
                depth = depth;
                reached = reached;
                within = within;
                evaluated = found;
                forbidden = bad;
              })
          | inr fine ↦ rw (IsJustified, judge_unknown, found, fine) tt
        ]
      ]

  -- A state that is judged: clear, or the return is justified.
  judge_known-cases :
      (node : SearchNode S P)
      → IsReached model config initial start node
      → node.depth ≤ config.bound
      → ((judge_known model config node.steps node.state node.temporal_path ≡ ok tt)
          × IsClear model config node.state (some node.temporal_path))
        ⊎ ((stop : Stop S) × (judge_known model config node.steps node.state node.temporal_path
              ≡ raise stop)
            × IsJustified model config initial start stop)
  unfolding judge_known
  judge_known-cases node reached within =
      elim (Option-cases (model.evaluate node.state (some node.temporal_path))) [
        | inl error ↦
            inr (fail_closed predicate_evaluation_failure none, rw (judge_known, error) refl, tt)
        | inr (v, found) ↦ elim (Bool-cases v.forbidden) [
          | inl bad ↦ inr (
            unsafe node.steps node.state v,
            rw (judge_known, found, bad) refl,
            record {
              path = some node.temporal_path;
              depth = node.depth;
              reached = known node reached;
              within = within;
              evaluated = found;
              forbidden = bad;
            },
          )
          | inr fine ↦ elim (Bool-cases (is_empty v.indeterminate_predicates)) [
            | inr undecided ↦ inr (
              fail_closed indeterminate_security_predicate (some v),
              rw (judge_known, found, fine, undecided) refl,
              tt,
            )
            | inl decided ↦ inl (
              rw (judge_known, found, fine, decided) refl,
              record { evaluation = v; evaluated = found; not_forbidden = fine; decided = decided },
            )
          ]
        ]
      ]

  module _ (x : SearchNode S P) (a : A) (rest : List A) (fuel : ℕ)
      (found : List (SearchNode S P)) where
    -- One move covers the action: another has the same result.
    IsCovered-by :
        (next : S) (d : LocalOracleDecision) (path : P) (y : SearchNode S P)
        (among : List (SearchNode S P))
        → IsMove model config x.state a next d
        → model.extend x.temporal_path a next (suc x.depth) ≡ some path
        → In y among
        → key_of model config initial start y ≡ model.search_node_key next path
        → y.depth ≤ suc x.depth
        → IsCovered model config initial start among x a
    IsCovered-by next d path y among move ext there same low next' d' move' =
        let again : next ≡ next' = moved-injective next next' (sym move.applied ∙ move'.applied) in
        (
          path,
          subst (λ s. model.extend x.temporal_path a s (suc x.depth) ≡ some path) again ext,
          y,
          there,
          same ∙ ap (λ s. model.search_node_key s path) again,
          low,
        )

    admit-After :
        (p : Progress S P K) (next : S) (d : LocalOracleDecision)
        → Inner model config initial start x (a ∷ rest) found p.queue p.seen fuel
        → IsMove model config x.state a next d
        → After model config initial start x rest fuel (admit model config x a next d p)
    unfolding admit
    admit-After p next d i move =
        elim (Option-cases (model.extend x.temporal_path a next (suc x.depth))) [
          | inl lost ↦
              rw (admit, lost)
                (judge_unknown-IsJustified (child_steps model config x a next d) next (suc x.depth)
                  (unknown x (i.inv.reached x i.member) a next d move lost) i.expanding)
          | inr (path, ext) ↦
              elim (Bool-cases (contains (model.search_node_key next path) p.seen)) [
                | inl old ↦
                    let (y, there, same) = i.inv.listed (model.search_node_key next path) old in
                    rw (admit, ext, old)
                      (
                        found,
                        Inner-covered model config initial start x a rest found p.queue p.seen fuel
                            i
                            (IsCovered-by next d path y found move ext there same (i.near y there)),
                      )
                | inr new ↦ elim (Bool-cases (leb config.max_states (length p.seen))) [
                  | inl full ↦ rw (admit, ext, new, full) tt
                  | inr free ↦
                      let c = child model config x a next d path in
                      elim (judge_known-cases c
                        (by_move x (i.inv.reached x i.member) a next d move path ext) i.expanding) [
                          | inr (stop, judged, justified) ↦
                              rw (admit, ext, new, free, judged) justified
                          | inl (judged, clear) ↦
                              let room : suc (length p.seen) ≤ config.max_states = ground arith in
                              rw (admit, ext, new, free, judged)
                                (
                                  c ∷ found,
                                  Inner-covered model config initial start x a rest (c ∷ found) _ _
                                      fuel
                                      (Inner-grow model config initial start x a rest found p.queue
                                        p.seen fuel next d path i move ext room clear)
                                      (IsCovered-by next d path c (c ∷ found) move ext (inl refl)
                                        refl (omega arith)),
                                )
                        ]
                ]
              ]
        ]

    skipped :
        (p : Progress S P K)
        → Inner model config initial start x (a ∷ rest) found p.queue p.seen fuel
        → ((next : S) (d : LocalOracleDecision) → ¬ IsMove model config x.state a next d)
        → Inner model config initial start x rest found p.queue p.seen fuel
    skipped p i none_ =
        Inner-covered model config initial start x a rest found p.queue p.seen fuel i
          (λ next d move. absurd (none_ next d move))

    -- One action keeps the invariant, or its return is justified.
    consider-After :
        (p : Progress S P K)
        → In a model.actions
        → Inner model config initial start x (a ∷ rest) found p.queue p.seen fuel
        → After model config initial start x rest fuel (consider model config x a p)
    unfolding consider
    consider-After p offered i = elim (Transition-cases (model.apply x.state a)) [
      | inr (inl refused) ↦
          rw (consider, refused)
            (found, skipped p i (λ next d move. moved≢rejected next (sym refused ∙ move.applied)))
      | inr (inr broken) ↦ rw (consider, broken) tt
      | inl (next, applied) ↦ elim (Option-cases (invoke_local_oracle model config x.state a)) [
        | inl silent ↦ rw (consider, applied, silent) tt
        | inr (d, decided) ↦ elim (Bool-cases d.admissible) [
          | inl admitted ↦
              let p' = oracle_admitted model config (considered model config p) in
              let same : consider model config x a p ≡ admit model config x a next d p' =
                rw (consider, applied, decided, admitted) refl in
              subst (After model config initial start x rest fuel) (sym same) (
                admit-After p' next d i (record {
                  offered = offered;
                  applied = applied;
                  decided = decided;
                  admitted = admitted;
                }))
          | inr denied ↦
              rw (consider, applied, decided, denied)
                (
                  found,
                  skipped p i (λ next' d' move.
                      let same : d ≡ d' = some-injective d d' (sym decided ∙ move.decided) in
                      false≢true (sym denied ∙ ap (λ v. v.admissible) same ∙ move.admitted)),
                )
        ]
      ]
    ]

  pub consider_all-After :
      (x : SearchNode S P) (rest : List A) (fuel : ℕ) (found : List (SearchNode S P))
      (p : Progress S P K)
      → ((a : A) → In a rest → In a model.actions)
      → Inner model config initial start x rest found p.queue p.seen fuel
      → After model config initial start x [] fuel (consider_all model config x rest p)
  unfolding consider_all
  consider_all-After x [] fuel found p offered i = (found, i)
  consider_all-After x (a ∷ rest) fuel found p offered i =
      let first = consider-After x a rest fuel found p (offered a (inl refl)) i in
      elim (Result-cases (consider model config x a p)) [
        | inr (stop, returned) ↦ let h = rw returned at first in rw returned h
        | inl (p', went) ↦
            let (found', i') = rw went at first in
            rw went (consider_all-After x rest fuel found' p' (λ b there. offered b (inr there)) i')
      ]
