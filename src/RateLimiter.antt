-- ===== src/RateLimiter.antt =====
-- include/coro_http/rate_limiter.hpp. Times are ticks of the steady clock; `now - t > window_` is
-- written `t + window < now`, the same for a window that is not negative. The lock is released only
-- in `wait_until`, so every call is a sequence of atomic steps, and `acquire` is one step at the
-- call and one at each return of the wait, whatever the other threads did in between.
pub mod Window
pub mod Waiting
mod Tests
use coro_http.Base.{
  ℕ, ◌+◌, Bool, true, false, not, Option, none, some, List, [], ◌∷◌, ◌++◌, length, ltb, leb,
  if◌then◌else◌,
}
use coro_http.Base.Int.{ℤ, pos, ltz, minus}

pub record RateLimiter : Type 0 where
  pub max_requests : ℤ
  pub window : ℕ
  pub enabled : Bool
  pub timestamps : List ℕ

unfoldable pub make : ℤ → ℕ → RateLimiter
make max window = record {
  max_requests = max;
  window = window;
  enabled = ltz 0 max;
  timestamps = [];
}

-- The loop that pops expired timestamps off the front.
pub expire : ℕ → ℕ → List ℕ → List ℕ
expire window now [] = []
expire window now (t ∷ ts) = if ltb (t + window) now then expire window now ts else t ∷ ts

-- Under the lock, at the time `now`: whether the request is admitted, and the limiter left.
pub attempt : ℕ → RateLimiter → Bool × RateLimiter
attempt now l =
    let live = expire l.window now l.timestamps in
    if ltz (length live) l.max_requests
    then (true, record l { timestamps = live ++ (now ∷ []) })
    else (false, record l { timestamps = live })

pub try_acquire : ℕ → RateLimiter → Bool × RateLimiter
unfolding attempt
try_acquire now l = if not l.enabled then (true, l) else attempt now l

-- `timestamps_.front()`, of a deque that is not empty.
pub oldest : List ℕ → ℕ
oldest [] = 0
oldest (t ∷ ts) = t

-- `acquire` at a call and the following returns of `wait_until`, one clock reading each, with no
-- other thread in between; none where it still waits after them.
pub wait_loop : List ℕ → RateLimiter → Option RateLimiter
unfolding attempt
wait_loop [] l = none
wait_loop (now ∷ later) l = elim (attempt now l).0 [
  | true ↦ some (attempt now l).1
  | false ↦ wait_loop later (attempt now l).1
]

pub acquire : List ℕ → RateLimiter → Option RateLimiter
unfolding wait_loop
acquire readings l = if not l.enabled then some l else wait_loop readings l

-- The timestamps that are at most one window old.
pub count_valid : ℕ → ℕ → List ℕ → ℕ
count_valid window now [] = 0
count_valid window now (t ∷ ts) =
    (if leb now (t + window) then 1 else 0) + count_valid window now ts

pub remaining : ℕ → RateLimiter → ℤ
unfolding count_valid
remaining now l =
    if not l.enabled
    then l.max_requests
    else minus l.max_requests (count_valid l.window now l.timestamps)

pub reset : RateLimiter → RateLimiter
reset l = record l { timestamps = [] }
