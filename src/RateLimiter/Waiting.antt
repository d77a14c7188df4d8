-- ===== src/RateLimiter/Waiting.antt =====
-- The wait of `acquire`, and `remaining` beside `try_acquire` (include/coro_http/rate_limiter.hpp).
use coro_http.Base.{
  ℕ, ◌+◌, ◌-◌, ◌≤◌, ◌<◌, ◌≡◌, ◌≢◌, refl, ap, true, false, none, List, [], ◌∷◌, ◌++◌, arith, length,
  ltb, inl, inr, Bool-cases, length-append,
}
use coro_http.Base.Int.{pos, minus, ltz}
use coro_http.RateLimiter.{
  RateLimiter, oldest, expire, attempt, try_acquire, wait_loop, acquire, count_valid, remaining,
}
use coro_http.RateLimiter.Window.{IsOrdered, expire-le, length-expire}

-- A limiter that is on, whose deque is within the limit.
pub record IsBounded (max : ℕ) (l : RateLimiter) : Type 0 where
  pub same_max : l.max_requests ≡ pos max
  pub on : l.enabled ≡ true
  pub some_max : 0 < max
  pub bounded : length l.timestamps ≤ max

-- One whose deque is ordered, too.
pub record IsValid (max last : ℕ) (l : RateLimiter) : Type 0 where
  pub same_max : l.max_requests ≡ pos max
  pub on : l.enabled ≡ true
  pub some_max : 0 < max
  pub ordered : IsOrdered last l.timestamps
  pub bounded : length l.timestamps ≤ max

expire-eq_of_length :
    (window now : ℕ) (ts : List ℕ)
    → length ts ≤ length (expire window now ts)
    → expire window now ts ≡ ts
unfolding expire
expire-eq_of_length window now [] h = refl
expire-eq_of_length window now (t ∷ ts) h = ground (arith, expire-le window now ts)

IsValid-IsBounded : (max last : ℕ) (l : RateLimiter) → IsValid max last l → IsBounded max l
IsValid-IsBounded max last l v = record {
  same_max = v.same_max;
  on = v.on;
  some_max = v.some_max;
  bounded = v.bounded;
}

-- An attempt keeps to the limit.
pub attempt-IsBounded :
    (max now : ℕ) (l : RateLimiter) → IsBounded max l → IsBounded max (attempt now l).1
unfolding attempt
attempt-IsBounded max now l v =
    let le = expire-le l.window now l.timestamps in
    elim (Bool-cases (ltz (length (expire l.window now l.timestamps)) l.max_requests)) [
      | inl e ↦ rw e (record {
        same_max = v.same_max;
        on = v.on;
        some_max = v.some_max;
        bounded = ground (
          arith,
          length-append (expire l.window now l.timestamps) (now ∷ []),
          ap (ltz (length (expire l.window now l.timestamps))) v.same_max,
          e,
        );
      })
      | inr e ↦ rw e (record {
        same_max = v.same_max;
        on = v.on;
        some_max = v.some_max;
        bounded = omega (arith, le, v.bounded);
      })
    ]

-- An attempt that is refused changes nothing, as the deque was full.
pub attempt_refused :
    (max now : ℕ) (l : RateLimiter)
    → IsBounded max l
    → (attempt now l).0 ≡ false
    → (attempt now l).1 ≡ l
unfolding attempt
attempt_refused max now l v h =
    ground (arith, expire-eq_of_length l.window now l.timestamps, v.same_max)

-- An attempt after the oldest timestamp has run out is admitted.
attempt_late :
    (max now t : ℕ) (l : RateLimiter) (ts : List ℕ)
    → IsBounded max l
    → l.timestamps ≡ t ∷ ts
    → t + l.window < now
    → (attempt now l).0 ≡ true
unfolding attempt expire
attempt_late max now t l ts v e h =
    rw e (ground (arith, expire-le l.window now ts, v.same_max, ap length e))

-- An attempt behind a time at which the oldest timestamp has run out is admitted.
pub attempt_behind :
    (max later : ℕ) (l : RateLimiter) (ts : List ℕ)
    → IsBounded max l
    → l.timestamps ≡ ts
    → oldest ts + l.window < later
    → (attempt later l).0 ≡ true
unfolding attempt expire oldest
attempt_behind max later l [] v e k = rw e (ground (arith, v.same_max, v.some_max))
attempt_behind max later l (t ∷ ts) v e k = attempt_late max later t l ts v e k

wait_loop-ne-none :
    (max now t : ℕ) (l : RateLimiter) (ts before later : List ℕ)
    → IsBounded max l
    → l.timestamps ≡ t ∷ ts
    → t + l.window < now
    → wait_loop (before ++ (now ∷ later)) l ≢ none
unfolding wait_loop
wait_loop-ne-none max now t l ts [] later v e h = ground (arith, attempt_late max now t l ts v e h)
wait_loop-ne-none max now t l ts (b ∷ before) later v e h =
    ground (arith, attempt_refused max b l v, wait_loop-ne-none max now t l ts before later v e h)

-- `acquire` returns once a clock reading in its wait is past the oldest timestamp by more than the
-- window, however often it was woken before, as long as no other thread steps in between.
pub acquire-ne-none :
    (max last now t : ℕ) (l : RateLimiter) (ts before later : List ℕ)
    → IsValid max last l
    → l.timestamps ≡ t ∷ ts
    → t + l.window < now
    → acquire (before ++ (now ∷ later)) l ≢ none
unfolding acquire
acquire-ne-none max last now t l ts before later v e h =
    let bounded = IsValid-IsBounded max last l v in
    ground (arith, wait_loop-ne-none max now t l ts before later bounded e h)

-- At a time that is not before the last step, `remaining` is the number of further requests that
-- the window has room for, and `try_acquire` admits one exactly when that is not 0.
try_acquire-remaining :
    (max last now : ℕ) (l : RateLimiter)
    → IsValid max last l
    → last ≤ now
    → (n : ℕ) × (remaining now l ≡ pos n)
      × (n + count_valid l.window now l.timestamps ≡ max)
      × ((try_acquire now l).0 ≡ ltb 0 n)
unfolding try_acquire remaining minus attempt
try_acquire-remaining max last now l v h =
    let valid = count_valid l.window now l.timestamps in
    let same = length-expire l.window now last l.timestamps v.ordered in
    let le = expire-le l.window now l.timestamps in
    (
      max - valid,
      rw (v.on, v.same_max) (ground (arith, same, le, v.bounded)),
      omega (arith, same, le, v.bounded),
      rw (v.on, v.same_max) (ground (arith, same, le, v.bounded)),
    )
