-- ===== src/Limits/Principals/Tests.antt =====
-- The principal limiter over a concrete run.
use toxicjoin.Prelude.{◌≡◌, arith, List, [], ◌∷◌}
use toxicjoin.Limits.{default_limits}
use toxicjoin.Limits.Principals.Bound.{
  Event, attempt, ended, answers, ideal_answers, nothing_yet, ideal_run, IsBounded,
  answers-IsBounded,
}

-- Two calls of a principal, a third that comes before either ends, and one behind them.
abbrev events : List Event
events =
    attempt 1 "alice"
    ∷ attempt 2 "alice"
    ∷ attempt 3 "alice"
    ∷ attempt 3 "bob"
    ∷ ended 4 "alice"
    ∷ attempt 70_000 "alice"
    ∷ []

answers_example :
    (answers (default_limits 1000) 1000 [] events
      ≡ ideal_answers (default_limits 1000) 1000 nothing_yet events)
    × IsBounded (default_limits 1000) (ideal_run (default_limits 1000) 1000 nothing_yet events)
answers_example = answers-IsBounded (default_limits 1000) 1000 events (ground arith)
