-- ===== src/Limits.antt =====
-- src/toxicjoin/api/limits.py: the budgets, and what both sliding-window limiters share. A time is a
-- number of clock ticks: `now - window >= t` is written `t + window <= now`.
pub mod Window
pub mod AuthFailures
pub mod Principals
pub mod Bodies
use toxicjoin.Prelude.{ℕ, ◌+◌, ◌-◌, ◌*◌, ◌/◌, Bool, ◌&&◌, List, [], ◌∷◌, leb, if◌then◌else◌}

-- `ApiResourceLimits`; the two windows are in ticks.
pub record ApiResourceLimits : Type 0 where
  pub max_request_bytes : ℕ
  pub max_response_bytes : ℕ
  pub rate_limit_requests : ℕ
  pub rate_limit_window : ℕ
  pub max_concurrent_per_principal : ℕ
  pub auth_failure_limit : ℕ
  pub auth_failure_window : ℕ

abbrev between : ℕ → ℕ → ℕ → Bool
between low high value = leb low value && leb value high

-- The ranges that the fields declare, at a number of ticks in a second.
pub is_valid_limits : ℕ → ApiResourceLimits → Bool
is_valid_limits second l =
    between 1024 (1024 * 1024) l.max_request_bytes
    && between 4096 (8 * 1024 * 1024) l.max_response_bytes
    && between 1 100_000 l.rate_limit_requests
    && between second (3600 * second) l.rate_limit_window
    && between 1 64 l.max_concurrent_per_principal
    && between 1 10_000 l.auth_failure_limit
    && between second (3600 * second) l.auth_failure_window

-- The defaults of the fields.
pub default_limits : ℕ → ApiResourceLimits
default_limits second = record {
  max_request_bytes = 128 * 1024;
  max_response_bytes = 1024 * 1024;
  rate_limit_requests = 60;
  rate_limit_window = 60 * second;
  max_concurrent_per_principal = 2;
  auth_failure_limit = 10;
  auth_failure_window = 60 * second;
}

pub data LimitCode : Type 0 where
  auth_failure_limit_exceeded : LimitCode
  rate_limit_exceeded : LimitCode
  concurrency_limit_exceeded : LimitCode

pub record TrafficLimitError : Type 0 where
  pub code : LimitCode
  pub retry_after_seconds : ℕ

-- `self.retry_after_seconds = max(1, retry_after_seconds)`
unfoldable pub limit_error : LimitCode → ℕ → TrafficLimitError
limit_error code seconds = record {
  code = code;
  retry_after_seconds = if leb seconds 1 then 1 else seconds;
}

-- math.ceil(window - (now - first)) seconds. After `prune` the oldest time is inside the window, so
-- that `first + window - now` is the difference itself.
unfoldable pub retry_after : ℕ → ℕ → ℕ → List ℕ → ℕ
retry_after second window now [] = 0
retry_after second window now (first ∷ _) = (first + window - now + (second - 1)) / second

-- while timestamps and timestamps[0] <= now - window: timestamps.popleft()
unfoldable pub prune : ℕ → ℕ → List ℕ → List ℕ
prune window now [] = []
prune window now (t ∷ ts) = if leb (t + window) now then prune window now ts else t ∷ ts
