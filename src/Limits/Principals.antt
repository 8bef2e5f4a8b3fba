-- ===== src/Limits/Principals.antt =====
-- `PrincipalTrafficLimiter` of src/toxicjoin/api/limits.py: what `acquire` does before the protected
-- call and what its `finally` does after it.
pub mod History
pub mod Bound
mod Tests
use toxicjoin.Prelude.{
  ℕ, ◌+◌, ◌-◌, String, String_eq, Bool, ◌&&◌, List, [], ◌∷◌, ◌++◌, leb, ◌==◌, length, is_empty,
  Option, none, some, Result, ok, raise, if◌then◌else◌, get_or, nat_eq,
}
use toxicjoin.Prelude.Dict
use toxicjoin.Prelude.Dict.{Dict}
use toxicjoin.Limits.{
  ApiResourceLimits, TrafficLimitError, limit_error, rate_limit_exceeded,
  concurrency_limit_exceeded, retry_after, prune,
}

pub record PrincipalState : Type 0 where
  pub timestamps : List ℕ
  pub active : ℕ

abbrev pub fresh : PrincipalState
fresh = record { timestamps = []; active = 0 }

abbrev pub States : Type 0
States = Dict String PrincipalState

-- The state of a principal after `setdefault` and `_prune`.
pub current : ApiResourceLimits → ℕ → String → States → PrincipalState
current limits now principal states =
    let state = get_or fresh (Dict.get principal states) in
    record state { timestamps = prune limits.rate_limit_window now state.timestamps }

-- The block under the lock before the `yield`; `second` is the number of ticks in a second.
pub acquire :
    ApiResourceLimits → ℕ → ℕ → String → States → Result TrafficLimitError (Unit {0}) × States
acquire limits second now principal states =
    let state = current limits now principal states in
    let counted = record state { timestamps = state.timestamps ++ now ∷ [] } in
    if leb limits.rate_limit_requests (length state.timestamps)
    then (
      raise (
          limit_error rate_limit_exceeded
            (retry_after second limits.rate_limit_window now state.timestamps)),
      Dict.put principal state states,
    )
    else if leb limits.max_concurrent_per_principal state.active
    then (raise (limit_error concurrency_limit_exceeded 1), Dict.put principal counted states)
    else (ok tt, Dict.put principal (record counted { active = state.active + 1 }) states)

-- The `finally` block; `max(0, active - 1)` is the subtraction of the numbers here.
pub finish : ApiResourceLimits → ℕ → String → States → States
finish limits finished principal states = elim (Dict.get principal states) [
  | none ↦ states
  | some state ↦
      let active = state.active - 1 in
      let timestamps = prune limits.rate_limit_window finished state.timestamps in
      if nat_eq active 0 && is_empty timestamps
      then Dict.pop principal states
      else Dict.put principal (record { timestamps = timestamps; active = active }) states
]
