-- ===== src/Limits/AuthFailures.antt =====
-- `AuthFailureLimiter` of src/toxicjoin/api/limits.py: the throttle for rejected credentials.
pub mod Budget
mod Tests
use toxicjoin.Prelude.{
  ℕ, ◌+◌, ◌≤◌, ◌≡◌, refl, String, String_eq, Bool, not, ◌&&◌, List, [], ◌∷◌, ◌++◌, arith, leb, ltb,
  ◌==◌, length, is_empty, get_or, Option, none, some, Result, ok, raise, ◌>>=◌, if◌then◌else◌,
}
use toxicjoin.Prelude.Dict
use toxicjoin.Prelude.Dict.{Dict}
use toxicjoin.Limits.{
  TrafficLimitError, limit_error, auth_failure_limit_exceeded, retry_after, prune,
}

pub record AuthFailureLimiter : Type 0 where
  pub max_failures : ℕ
  pub window : ℕ
  pub max_tracked_keys : ℕ

-- What the constructor accepts.
pub is_valid_limiter : AuthFailureLimiter → Bool
is_valid_limiter l = leb 1 l.max_failures && ltb 0 l.window

abbrev pub Failures : Type 0
Failures = Dict String (List ℕ)

-- `check` at a number of ticks in a second.
pub check :
    AuthFailureLimiter → ℕ → ℕ → String → Failures → Result TrafficLimitError (Unit {0}) × Failures
check l second now key failures = elim (Dict.get key failures) [
  | none ↦ (ok tt, failures)
  | some times ↦
      let timestamps = prune l.window now times in
      if is_empty timestamps
      then (ok tt, Dict.pop key failures)
      else if leb l.max_failures (length timestamps)
      then (
        raise
            (limit_error auth_failure_limit_exceeded (retry_after second l.window now timestamps)),
        Dict.put key timestamps failures,
      )
      else (ok tt, Dict.put key timestamps failures)
]

-- `min` of an empty table raises.
pub data EmptyMinimum : Type 0 where
  empty_minimum : EmptyMinimum

-- The loop of `_evict_stalest`: every deque is pruned, and an empty one goes.
pub prune_all : ℕ → ℕ → Failures → Failures
prune_all window now [] = []
prune_all window now ((key, times) ∷ failures) =
    let timestamps = prune window now times in
    let rest = prune_all window now failures in
    if is_empty timestamps then rest else (key, timestamps) ∷ rest

-- `timestamps[-1]`; no deque is empty after `prune_all`.
abbrev pub newest : List ℕ → ℕ
newest [] = 0
newest (t ∷ []) = t
newest (t ∷ u ∷ ts) = newest (u ∷ ts)

-- `min(..., key=...)` keeps the first of several least ones.
pub stalest_from : String → ℕ → Failures → String
stalest_from best time [] = best
stalest_from best time ((key, times) ∷ failures) =
    stalest_from (if ltb (newest times) time then key else best)
      (if ltb (newest times) time then newest times else time) failures

pub drop_stalest : Failures → Result EmptyMinimum Failures
drop_stalest [] = raise empty_minimum
drop_stalest ((key, times) ∷ failures) =
    ok (Dict.pop (stalest_from key (newest times) failures) ((key, times) ∷ failures))

pub evict_stalest : AuthFailureLimiter → ℕ → Failures → Result EmptyMinimum Failures
evict_stalest l now failures =
    let pruned = prune_all l.window now failures in
    if ltb (length pruned) l.max_tracked_keys then ok pruned else drop_stalest pruned

-- A new key makes room for itself before it enters a full table.
pub make_room : AuthFailureLimiter → ℕ → String → Failures → Result EmptyMinimum Failures
make_room l now key failures =
    if not (Dict.has key failures) && leb l.max_tracked_keys (length failures)
    then evict_stalest l now failures
    else ok failures

-- setdefault, prune and append
pub add_failure : AuthFailureLimiter → ℕ → String → Failures → Failures
add_failure l now key failures =
    Dict.put key (prune l.window now (get_or [] (Dict.get key failures)) ++ now ∷ []) failures

pub record_failure : AuthFailureLimiter → ℕ → String → Failures → Result EmptyMinimum Failures
record_failure l now key failures = do
  roomy ← make_room l now key failures
  ok (add_failure l now key roomy)
