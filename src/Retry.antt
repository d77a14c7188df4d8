-- ===== src/Retry.antt =====
-- include/coro_http/retry_policy.hpp. Durations are milliseconds, not negative. The backoff is
-- computed in floating point with a random jitter: it is the argument `backoff`, of the attempt.
use coro_http.Base.{
  ℕ, suc, Bool, false, ◌&&◌, ◌||◌, Bytes, codes, contains, leb, ltb, ◌==◌, if◌then◌else◌,
}
use coro_http.Base.Int.{ℤ, pos, negsuc, ltz}

pub record RetryPolicy : Type 0 where
  pub max_retries : ℤ
  pub initial_delay : ℕ
  pub max_delay : ℕ
  pub retry_on_timeout : Bool
  pub retry_on_connection_error : Bool
  pub retry_on_5xx : Bool
  pub current_attempt : ℕ

is_timeout : Bytes → Bool
is_timeout message =
    contains (codes "timeout") message
    || contains (codes "Timeout") message
    || contains (codes "timed out") message

is_connection_error : Bytes → Bool
is_connection_error message =
    contains (codes "Connection") message
    || contains (codes "connection") message
    || contains (codes "refused") message
    || contains (codes "reset") message
    || contains (codes "broken pipe") message
    || contains (codes "network") message

-- `lo <= status && status < hi`
unfoldable pub in_range : ℕ → ℕ → ℤ → Bool
in_range lo hi (pos n) = leb lo n && ltb n hi
in_range lo hi (negsuc n) = false

unfoldable pub should_retry : Bytes → ℤ → RetryPolicy → Bool
unfolding is_timeout is_connection_error in_range
should_retry message status p =
    if ltz p.current_attempt p.max_retries
    then (p.retry_on_timeout && is_timeout message)
      || (p.retry_on_connection_error && is_connection_error message)
      || (p.retry_on_5xx && in_range 500 600 status)
    else false

unfoldable pub get_delay : (ℕ → ℕ) → RetryPolicy → ℕ
get_delay backoff p =
    if p.current_attempt == 0
    then p.initial_delay
    else if ltb p.max_delay (backoff p.current_attempt)
    then p.max_delay
    else backoff p.current_attempt

unfoldable pub increment_attempt : RetryPolicy → RetryPolicy
increment_attempt p = record p { current_attempt = suc p.current_attempt }

unfoldable pub reset : RetryPolicy → RetryPolicy
reset p = record p { current_attempt = 0 }
