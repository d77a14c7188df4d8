-- ===== src/Exchange/Loops.antt =====
-- The loops that wait for the network: what their rounds keep of the world.
use coro_http.Base.{
  ℕ, zero, suc, ◌+◌, Bool, true, false, not, ◌&&◌, Option, none, some, Bytes, is_empty,
  if◌then◌else◌,
}
use coro_http.Base.Outcome.{Outcome, returned, thrown, undefined}
use coro_http.Base.Triples.{Ends, Post}
use coro_http.RateLimiter.{RateLimiter, attempt, oldest}
use coro_http.Reading.{Reading, RoundCode, no_error, ended, failed, receive, is_complete, waits}
use coro_http.Wire.{Wire, Layer}
use coro_http.Exchange.{
  finished, again, wait_more, after_read, read_round, read_loop, wait_for_slot,
}

module _ {W : Type 0} (wire : Wire W) (I : W → Type 0) where
  if-keeps : {A : Type 0} (b : Bool) (x y : A × W) → I x.1 → I y.1 → I (if b then x else y).1
  if-keeps true x y h k = h
  if-keeps false x y h k = k

  Post-same : {A : Type 0} (o : Outcome A) (w : W) → I w → Post (λ _. I) I o w
  Post-same (returned a) w h = h
  Post-same (thrown e) w h = h
  Post-same undefined w h = tt

  module _ (pauses : (n : ℕ) (w : W) → I w → I (wire.pause n w)) (l : Layer) (s : ℕ)
      (reads : (w : W) → I w → I (wire.read_some l s w).1) where
    wait_more-keeps : (t : Reading) (w : W) → I w → I (wait_more wire l s t w).1
    unfolding wait_more
    wait_more-keeps t w h =
        let later = pauses 100 w h in
        if-keeps (wire.available s (wire.pause 100 w)) _ _ (reads _ later) later

    after_read-keeps :
        (bytes : Bytes) (code : RoundCode) (t : Reading) (w : W)
        → I w
        → I (after_read wire l s bytes code t w).1
    unfolding after_read
    after_read-keeps bytes ended t w h = h
    after_read-keeps bytes (failed e) t w h = h
    after_read-keeps bytes no_error t w h =
        if-keeps (waits t && not (is_empty bytes)) _ _ (wait_more-keeps t w h) h

    read_round-keeps :
        (head_request : Bool) (state : Reading) (w : W)
        → I w
        → I (read_round wire head_request l s state w).1
    unfolding read_round
    read_round-keeps head_request state w h =
        let r = wire.read_some l s w in
        if-keeps (not (is_empty r.0.0) && is_complete head_request (receive r.0.0 state)) _ _
          (reads w h) (after_read-keeps r.0.0 r.0.1 (receive r.0.0 state) r.1 (reads w h))

    pub read_loop-keeps :
        (head_request : Bool) (fuel : ℕ) (state : Reading) (w : W)
        → I w
        → Ends (λ _. I) I (read_loop wire head_request l s fuel state w)
    unfolding read_loop
    read_loop-keeps head_request zero state w h = tt
    read_loop-keeps head_request (suc fuel) state w h =
        let r = read_round wire head_request l s state w in
        elim r.0
          as (λ next.
            Ends {A = Bytes} (λ _. I) I
              (elim next [
                | finished o ↦ some (o, r.1)
                | again t ↦ read_loop wire head_request l s fuel t r.1
              ])) [
                | finished o ↦ Post-same o r.1 (read_round-keeps head_request state w h)
                | again t ↦
                    read_loop-keeps head_request fuel t r.1
                      (read_round-keeps head_request state w h)
              ]

  -- What holds of the limiter and the world behind a wait, if it ends.
  abbrev pub Waited : Option (RateLimiter × W) → Type 0
  Waited none = Unit
  Waited (some (l, w)) = I w

  pub wait_for_slot-keeps :
      ((w : W) → I w → I (wire.net.now w).1)
      → ((t : ℕ) (w : W) → I w → I (wire.wait_until t w))
      → (fuel : ℕ) (l : RateLimiter) (w : W) → I w
      → Waited (wait_for_slot wire fuel l w)
  unfolding wait_for_slot
  wait_for_slot-keeps now until zero l w h = tt
  wait_for_slot-keeps now until (suc fuel) l w h =
      let q = attempt (wire.net.now w).0 l in
      let now_later = now w h in
      let later = until (oldest q.1.timestamps + l.window) _ now_later in
      elim q.0
        as (λ b. Waited (elim b [
          | true ↦ some (q.1, (wire.net.now w).1)
          | false ↦
              wait_for_slot wire fuel q.1
                (wire.wait_until (oldest q.1.timestamps + l.window) (wire.net.now w).1)
        ])) [ true ↦ now_later | false ↦ wait_for_slot-keeps now until fuel q.1 _ later ]
