-- ===== src/Client/Retries.antt =====
-- The retry loop of co_execute.
use coro_http.Base.{
  ℕ, zero, suc, ◌+◌, ◌-◌, ◌≤◌, ◌<◌, ◌≡◌, refl, true, false, Option, none, some, List, [], ◌∷◌,
  length, All, arith, Bool-cases, Option-cases, inl, inr,
}
use mathlib.Core.Path.{subst}
use coro_http.Cookie.{CookieJar}
use coro_http.Base.Int.{pos_part, ltz-pos_part}
use coro_http.Base.Outcome.{Outcome, returned, thrown, undefined}
use coro_http.Request.{HttpRequest}
use coro_http.Response.{HttpResponse}
use coro_http.Retry.{RetryPolicy, should_retry, get_delay, increment_attempt, reset}
use coro_http.Url.{parse_url}
use coro_http.Config.{ClientConfig}
use coro_http.Client.{
  perform, follow, asks, redirect_request, Transport, Client, co_execute_with_redirects, pause,
  tries_again, retry_loop, co_execute,
}

-- Another attempt is made only below the limit.
tries_again-lt :
    {W : Type 0} (t : Transport W) (config : ClientConfig) (p : RetryPolicy)
    (o : Outcome HttpResponse)
    → tries_again t config p o ≡ true
    → p.current_attempt < pos_part p.max_retries
unfolding tries_again should_retry
tries_again-lt t config p (returned r) h =
    ground (arith, ltz-pos_part p.current_attempt p.max_retries)
tries_again-lt t config p (thrown e) h =
    ground (arith, ltz-pos_part p.current_attempt p.max_retries)
tries_again-lt t config p undefined h = absurd (ground arith)

get_delay-le :
    (backoff : ℕ → ℕ) (p : RetryPolicy) → get_delay backoff (increment_attempt p) ≤ p.max_delay
unfolding get_delay increment_attempt
get_delay-le backoff p = ground arith

-- A transport that keeps the waits, the last one first.
abbrev pub timed : {W : Type 0} → Transport W → Transport (List ℕ × W)
timed t = record {
  now = λ s. t.now s.1;
  exchange = λ r info s. ((t.exchange r info s.1).0, (s.0, (t.exchange r info s.1).1));
  wait = λ n s. (n ∷ s.0, t.wait n s.1);
  backoff = λ n s. t.backoff n s.1;
}

-- The loop ends, and what it ends with satisfies `P`.
abbrev pub Ends : {A : Type 0} → (A → Type 0) → Option A → Type 0
Ends P none = ⊥
Ends P (some x) = P x

-- No requests wait.
follow_waits :
    {W : Type 0} (t : Transport W) (config : ClientConfig) (left : ℕ) (r : HttpRequest)
    (s : Client (List ℕ × W))
    → (follow (timed t) config left r s).1.world.0 ≡ s.world.0
unfolding follow perform
follow_waits t config zero r s = elim (Option-cases (parse_url r.url)) [
  | inl n ↦ rw (n, follow)
  | inr (info, e) ↦ rw (e, follow)
]
follow_waits t config (suc left) r s = elim (Option-cases (parse_url r.url)) [
  | inl n ↦ rw (n, follow)
  | inr (info, e) ↦
      let q = perform (timed t) config r info s in
      elim (Option-cases (asks config q.0)) [
        | inl stop ↦ rw (e, stop, follow)
        | inr ((chain, location), go_on) ↦
            rw (e, go_on, follow)
              (follow_waits t config left (redirect_request r info location) q.1)
      ]
]

-- What the loop promises from a policy and the waits before: waits of at most `max_delay`, at most
-- as many as attempts are left, and an end only where nothing is tried again.
pub record IsPaced {W : Type 0} (t : Transport W) (config : ClientConfig) (p : RetryPolicy)
    (waits : List ℕ) (q : Outcome HttpResponse × RetryPolicy × Client (List ℕ × W)) : Type 0 where
  pub delays : All (λ n. n ≤ p.max_delay) waits → All (λ n. n ≤ p.max_delay) q.2.world.0
  pub count : length q.2.world.0 ≤ length waits + (pos_part p.max_retries - p.current_attempt)
  pub settled : tries_again (timed t) config q.1 q.0 ≡ false

Ends-map :
    {A : Type 0} (P Q : A → Type 0) (o : Option A) → ((x : A) → P x → Q x) → Ends P o → Ends Q o
Ends-map P Q none f h = h
Ends-map P Q (some x) f h = f x h

IsPaced-earlier :
    {W : Type 0} (t : Transport W) (config : ClientConfig) (p : RetryPolicy) (d : ℕ) (ws : List ℕ)
    (q : Outcome HttpResponse × RetryPolicy × Client (List ℕ × W))
    → d ≤ p.max_delay
    → p.current_attempt < pos_part p.max_retries
    → IsPaced t config (increment_attempt p) (d ∷ ws) q
    → IsPaced t config p ws q
unfolding increment_attempt
IsPaced-earlier t config p d ws q le lt i = record {
  delays = λ h. i.delays (le, h);
  count = omega (arith, i.count, lt);
  settled = i.settled;
}

retry_loop-IsPaced :
    {W : Type 0} (t : Transport W) (config : ClientConfig) (fuel : ℕ) (r : HttpRequest)
    (p : RetryPolicy) (s : Client (List ℕ × W))
    → pos_part p.max_retries - p.current_attempt < fuel
    → Ends (IsPaced t config p s.world.0) (retry_loop (timed t) config fuel r p s)
unfolding retry_loop co_execute_with_redirects pause increment_attempt
retry_loop-IsPaced t config zero r p s h = absurd (omega arith)
retry_loop-IsPaced t config (suc fuel) r p s h =
    let q = co_execute_with_redirects (timed t) config r s in
    let same = follow_waits t config (pos_part config.max_redirects) r s in
    elim (Bool-cases (tries_again (timed t) config p q.0)) [
      | inr stop ↦
          rw (stop, retry_loop)
            (record { delays = λ d. rw same d; count = rw same (omega arith); settled = stop })
      | inl again ↦
          let lt = tries_again-lt (timed t) config p q.0 again in
          rw (again, retry_loop)
            (subst
              (λ ws. Ends (IsPaced t config p ws) (
                retry_loop (timed t) config fuel r (increment_attempt p)
                  (pause (timed t) config (increment_attempt p) q.1)))
              same
              (Ends-map _ _ _
                (λ x.
                  IsPaced-earlier t config p _ q.1.world.0 x
                    (get_delay-le (λ n. t.backoff n q.1.world.1) p) lt)
                (retry_loop-IsPaced t config fuel r (increment_attempt p)
                  (pause (timed t) config (increment_attempt p) q.1) (omega arith))))
    ]

-- With retries on, `co_execute` ends, whatever the outside answers: it waits at most max_retries
-- times, each wait at most max_delay long, and what it returns or throws asks for no further
-- attempt, or the attempts are used up.
pub co_execute-IsPaced :
    {W : Type 0} (t : Transport W) (config : ClientConfig) (r : HttpRequest) (p : RetryPolicy)
    (j : CookieJar) (w : W)
    → config.enable_retry ≡ true
    → Ends
        (IsPaced t config (reset p) [])
        (co_execute (timed t) config r p (record { cookie_jar = j; world = ([], w) }))
unfolding co_execute reset
co_execute-IsPaced t config r p j w e =
    simp (e, co_execute)
      (retry_loop-IsPaced t config (suc (pos_part p.max_retries)) r (reset p)
        (record { cookie_jar = j; world = ([], w) }) (omega arith))

retry_loop-some :
    {W : Type 0} (t : Transport W) (config : ClientConfig) (fuel : ℕ) (r : HttpRequest)
    (p : RetryPolicy) (s : Client W)
    → pos_part p.max_retries - p.current_attempt < fuel
    → (q : Outcome HttpResponse × RetryPolicy × Client W) × (retry_loop t config fuel r p s
        ≡ some q)
unfolding retry_loop increment_attempt
retry_loop-some t config zero r p s h = absurd (omega arith)
retry_loop-some t config (suc fuel) r p s h =
    let q = co_execute_with_redirects t config r s in
    elim (Bool-cases (tries_again t config p q.0)) [
      | inr stop ↦ ((q.0, p, q.1), rw (stop, retry_loop) refl)
      | inl again ↦
          let lt = tries_again-lt t config p q.0 again in
          let (later, e) =
            retry_loop-some t config fuel r (increment_attempt p)
              (pause t config (increment_attempt p) q.1) (omega arith) in
          (later, rw (again, retry_loop, e) refl)
    ]

-- `co_execute` ends, with retries or without.
pub co_execute-some :
    {W : Type 0} (t : Transport W) (config : ClientConfig) (r : HttpRequest) (p : RetryPolicy)
    (s : Client W)
    → (q : Outcome HttpResponse × RetryPolicy × Client W) × (co_execute t config r p s ≡ some q)
unfolding co_execute reset
co_execute-some t config r p s = elim (Bool-cases config.enable_retry) [
  | inl on ↦
      let (q, e) =
        retry_loop-some t config (suc (pos_part p.max_retries)) r (reset p) s (omega arith) in
      (q, simp (on, co_execute) e)
  | inr off ↦
      let q = co_execute_with_redirects t config r s in ((q.0, p, q.1), simp (off, co_execute) refl)
]
