-- ===== src/RateLimiter/Tests.antt =====
-- Runs of the limiter.
use coro_http.Base.{◌≡◌, ◌≢◌, refl, true, none, List, [], ◌∷◌, arith}
use coro_http.Base.Int.{pos}
use coro_http.RateLimiter.{RateLimiter, make, attempt, try_acquire, acquire, count_valid, remaining}
use coro_http.RateLimiter.Window.{
  LimiterCall, attempts, resets, run, started, spec_run, run-spec_run, IsPaced, run-IsPaced,
}
use coro_http.RateLimiter.Waiting.{IsValid, acquire-ne-none}

-- At most two requests in ten ticks.
abbrev limiter_calls : List LimiterCall
limiter_calls =
    attempts 1 ∷ attempts 5 ∷ attempts 8 ∷ attempts 12 ∷ resets ∷ attempts 13 ∷ attempts 14 ∷ []

run_result : (run limiter_calls (started 2 10)).log ≡ 14 ∷ 13 ∷ []
unfolding run try_acquire attempt make coro_http.RateLimiter.reset coro_http.RateLimiter.expire
run_result = refl

run_off : (run limiter_calls (started 0 10)).log ≡ 14 ∷ 13 ∷ []
unfolding run try_acquire attempt make coro_http.RateLimiter.reset coro_http.RateLimiter.expire
run_off = refl

run-spec_run_example : (run limiter_calls (started 2 10)).log ≡ spec_run 2 10 limiter_calls []
run-spec_run_example = run-spec_run 2 10 limiter_calls (omega arith)

run-IsPaced_example : IsPaced 2 10 (run limiter_calls (started 2 10)).log
run-IsPaced_example = run-IsPaced 2 10 limiter_calls (omega arith) (omega arith)

abbrev full_limiter : RateLimiter
full_limiter = record { max_requests = pos 2; window = 10; enabled = true; timestamps = 1 ∷ 5 ∷ [] }

full_limiter-IsValid : IsValid 2 5 full_limiter
full_limiter-IsValid = record {
  same_max = refl;
  on = refl;
  some_max = omega arith;
  ordered = omega arith;
  bounded = omega arith;
}

acquire-ne-none_example : acquire (8 ∷ 11 ∷ 12 ∷ []) full_limiter ≢ none
acquire-ne-none_example =
    acquire-ne-none 2 5 12 1 full_limiter (5 ∷ []) (8 ∷ 11 ∷ []) [] full_limiter-IsValid refl
      (omega arith)
