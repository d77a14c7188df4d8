-- ===== src/Exchange/Ending.antt =====
-- When the loops that wait end: those of co_read_response and of the limiter
-- (include/coro_http/coro_http_client.hpp, include/coro_http/rate_limiter.hpp).
use coro_http.Base.{
  arith, ℕ, zero, suc, ◌+◌, ◌≤◌, ◌<◌, ◌≡◌, ◌⊎◌, inl, inr, sym, refl, Bool, true, false, not, ◌&&◌,
  Option, none, some, Bytes, is_empty, if◌then◌else◌,
}
use coro_http.Base.Outcome.{Outcome}
use coro_http.RateLimiter.{RateLimiter, attempt, oldest}
use coro_http.RateLimiter.Waiting.{IsBounded, attempt-IsBounded, attempt_refused, attempt_behind}
use mathlib.Core.Path.{subst}
use coro_http.Reading.{Reading, RoundCode, no_error, ended, failed, receive, is_complete, waits}
use coro_http.Wire.{Wire, Layer}
use coro_http.Exchange.{
  Next, finished, again, wait_more, after_read, read_round, read_loop, wait_for_slot,
}

abbrev pub IsSome : {A : Type 0} → Option A → Type 0
IsSome none = ⊥
IsSome (some a) = Unit

-- A limiter that is off, or keeps its deque within the limit.
abbrev pub Ready : RateLimiter → Type 0
Ready l = (l.enabled ≡ false) ⊎ ((max : ℕ) × IsBounded max l)

-- What the network brings has an end: so many reads at most bring bytes without an error. And a wait
-- of the limiter has one: it may end early, by a spurious wake-up or at the very time it waits for, but
-- `wakes` bounds how often that happens before the clock is past that time.
pub record EndsWithin {W : Type 0} (wire : Wire W) (limit : ℕ) : Type 0 where
  pub left : W → ℕ
  pub left_bounded : (w : W) → left w < limit
  pub reads_on :
      (l : Layer) (s : ℕ) (w : W)
      → (wire.read_some l s w).0.1 ≡ no_error
      → left (wire.read_some l s w).1 < left w
  pub reads_end : (l : Layer) (s : ℕ) (w : W) → left (wire.read_some l s w).1 ≤ left w
  pub pauses : (n : ℕ) (w : W) → left (wire.pause n w) ≤ left w
  pub wakes : ℕ → W → ℕ
  pub wakes_bounded : (t : ℕ) (w : W) → wakes t w + 2 ≤ limit
  pub waits_until :
      (t : ℕ) (w : W)
      → let (now, later) = wire.net.now (wire.wait_until t w) in
        (t < now) ⊎ (wakes t later < wakes t w)

module _ {W : Type 0} (wire : Wire W) (limit : ℕ) (end : EndsWithin wire limit) where
  open end use {left, left_bounded, reads_on, reads_end, pauses, wakes, wakes_bounded, waits_until}

  -- A round after which there is another has used up a read.
  abbrev Shorter : ℕ → Next × W → Type 0
  Shorter n (finished o, w) = Unit
  Shorter n (again t, w) = left w < n

  Shorter-if :
      (n : ℕ) (b : Bool) (x y : Next × W)
      → Shorter n x
      → Shorter n y
      → Shorter n (if b then x else y)
  Shorter-if n true x y h k = h
  Shorter-if n false x y h k = k

  wait_more-Shorter :
      (l : Layer) (s n : ℕ) (t : Reading) (w : W) → left w < n → Shorter n (wait_more wire l s t w)
  unfolding wait_more
  wait_more-Shorter l s n t w h =
      let w' = wire.pause 100 w in
      Shorter-if n (wire.available s w') _ _ (omega (arith, reads_end l s w', pauses 100 w)) tt

  after_read-Shorter :
      (l : Layer) (s n : ℕ) (bytes : Bytes) (code : RoundCode) (t : Reading) (w : W)
      → (code ≡ no_error → left w < n)
      → Shorter n (after_read wire l s bytes code t w)
  unfolding after_read
  after_read-Shorter l s n bytes ended t w h = tt
  after_read-Shorter l s n bytes (failed e) t w h = tt
  after_read-Shorter l s n bytes no_error t w h =
      Shorter-if n (waits t && not (is_empty bytes)) _ _ (wait_more-Shorter l s n t w (h refl))
        (h refl)

  read_round-Shorter :
      (head_request : Bool) (l : Layer) (s : ℕ) (state : Reading) (w : W)
      → Shorter (left w) (read_round wire head_request l s state w)
  unfolding read_round
  read_round-Shorter head_request l s state w =
      let ((bytes, code), w') = wire.read_some l s w in
      let t = receive bytes state in
      Shorter-if (left w) (not (is_empty bytes) && is_complete head_request t) _ _ tt
        (after_read-Shorter l s (left w) bytes code t w' (reads_on l s w))

  pub read_loop-IsSome :
      (head_request : Bool) (l : Layer) (s fuel : ℕ) (state : Reading) (w : W)
      → left w < fuel
      → IsSome (read_loop wire head_request l s fuel state w)
  unfolding read_loop
  read_loop-IsSome head_request l s zero state w h = absurd (omega (arith, h))
  read_loop-IsSome head_request l s (suc fuel) state w h =
      let r = read_round wire head_request l s state w in
      elim r.0
          as (λ next.
            Shorter (left w) (next, r.1)
            → IsSome {A = Outcome Bytes × W} (elim next [
              | finished o ↦ some (o, r.1)
              | again t ↦ read_loop wire head_request l s fuel t r.1
            ])) [
              | finished o ↦ λ k. tt
              | again t ↦ λ k. read_loop-IsSome head_request l s fuel t r.1 (omega (arith, h, k))
            ]
        (read_round-Shorter head_request l s state w)

  -- The limiter behind a wait that has ended.
  abbrev pub Waited : ℕ → Option (RateLimiter × W) → Type 0
  Waited max none = ⊥
  Waited max (some (l, w)) = IsBounded max l

  Waited-elim :
      (max : ℕ) (b : Bool) (l : RateLimiter) (w : W) (o : Option (RateLimiter × W))
      → IsBounded max l
      → (b ≡ false → Waited max o)
      → Waited max (elim b [ true ↦ some (l, w) | false ↦ o ])
  Waited-elim max true l w o v h = v
  Waited-elim max false l w o v h = h refl

  -- The time at which the oldest timestamp has run out.
  abbrev until : RateLimiter → ℕ
  until l = oldest l.timestamps + l.window

  admitted-Waited :
      (max fuel : ℕ) (l : RateLimiter) (w : W)
      → IsBounded max l
      → 0 < fuel
      → until l < (wire.net.now w).0
      → Waited max (wait_for_slot wire fuel l w)
  unfolding wait_for_slot
  admitted-Waited max zero l w v h lt = absurd (omega (arith, h))
  admitted-Waited max (suc fuel) l w v h lt =
      let (now, w1) = wire.net.now w in
      Waited-elim max (attempt now l).0 _ _ _ (attempt-IsBounded max now l v) (λ refused.
        absurd (ground (arith, refused, attempt_behind max now l l.timestamps v refl lt)))

  -- Each attempt but the last is behind a wait that ended early.
  wait_for_slot-Waited :
      (max fuel : ℕ) (l : RateLimiter) (w : W)
      → IsBounded max l
      → wakes (until l) (wire.net.now w).1 + 2 ≤ fuel
      → Waited max (wait_for_slot wire fuel l w)
  unfolding wait_for_slot
  wait_for_slot-Waited max zero l w v h = absurd (omega (arith, h))
  wait_for_slot-Waited max (suc fuel) l w v h =
      let (now, w1) = wire.net.now w in
      Waited-elim max (attempt now l).0 _ _ _ (attempt-IsBounded max now l v) (λ refused.
        subst
          (λ x.
            Waited max
              (wait_for_slot wire fuel x (wire.wait_until (oldest x.timestamps + l.window) w1)))
          (sym (attempt_refused max now l v refused))
          (elim (waits_until (until l) w1) [
            | inl passed ↦
                admitted-Waited max fuel l (wire.wait_until (until l) w1) v (omega (arith, h))
                  passed
            | inr fewer ↦
                wait_for_slot-Waited max fuel l (wire.wait_until (until l) w1) v
                  (omega (arith, h, fewer))
          ]))

  pub acquired-Waited :
      (max : ℕ) (l : RateLimiter) (w : W)
      → IsBounded max l
      → Waited max (wait_for_slot wire limit l w)
  acquired-Waited max l w v =
      wait_for_slot-Waited max limit l w v (wakes_bounded (until l) (wire.net.now w).1)
