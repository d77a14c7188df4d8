-- ===== src/Exchange/Total.antt =====
-- When exchanges end: co_execute_http and co_execute_https, part by part
-- (include/coro_http/coro_http_client.hpp).
use coro_http.Base.{
  arith, ℕ, ◌≡◌, refl, Bool, true, false, not, Option, none, some, inl, inr, Bytes, if◌then◌else◌,
  List, Bool-cases,
}
use coro_http.Base.Outcome.{Outcome}
use coro_http.Base.Awaiting.{Awaitable}
use coro_http.Base.Totals.{EndsIn, IsTotal, IsTotal-finally, total_rules}
use coro_http.Pool.{ConnectionPool, PooledConnection, holds}
use coro_http.RateLimiter.{RateLimiter}
use coro_http.Reading.{RoundCode, no_error, ended, failed, no_reading}
use coro_http.Request.{HttpMethod, HttpRequest}
use coro_http.Url.{UrlInfo}
use coro_http.Wire.{Wire, Layer}
use coro_http.Exchange.{
  Setup, Session, read_loop, waited, loaded, wait_for_slot, on_world, with_pool, on_pool,
  connect_to, co_read_response, in_world, acquire_slot, with_socket,
}
use coro_http.Exchange.Requests.{
  transfer, pooled_on, pooled_tls_on, pooled_exchange, pooled_tls_exchange, let_go, pooled_transfer,
  co_execute_http_pooled, pooled_tls_transfer, co_execute_https_pooled, execute_on, execute_tls_on,
  co_execute_http, co_execute_https,
}
use coro_http.Exchange.Connect.{
  request_target, authenticate, co_perform_socks5_handshake, co_connect_socket, check_code,
  co_establish_tunnel, secure,
}
use coro_http.Exchange.Ending.{EndsWithin, IsSome, Ready, Waited, read_loop-IsSome, acquired-Waited}

-- The limiter of the session is ready.
abbrev pub IsReady : {W : Type 0} → Session W → Type 0
IsReady st = Ready st.rate_limiter

IsTotal-in_world : {W A : Type 0} (f : W → Outcome A × W) → IsTotal IsReady (in_world f)
IsTotal-in_world f = record { at = λ s p. p }

IsTotal-on_world : {W : Type 0} (f : W → W) → IsTotal IsReady (on_world f)
IsTotal-on_world f = record { at = λ s p. p }

IsTotal-with_pool :
    {W A : Type 0} (f : ConnectionPool → W → A × ConnectionPool × W) → IsTotal IsReady (with_pool f)
IsTotal-with_pool f = record { at = λ s p. p }

IsTotal-on_pool :
    {W : Type 0} (f : ConnectionPool → W → ConnectionPool × W) → IsTotal IsReady (on_pool f)
IsTotal-on_pool f = record { at = λ s p. p }

ruleset exchange_rules =
    (total_rules, IsTotal-in_world, IsTotal-on_world, IsTotal-with_pool, IsTotal-on_pool)

module _ {W : Type 0} (wire : Wire W) (c : Setup) (end : EndsWithin wire c.limit) where
  connect_to-IsTotal : (s : ℕ) (host port : Bytes) → IsTotal IsReady (connect_to wire s host port)
  unfolding connect_to
  connect_to-IsTotal s host port = search exchange_rules

  request_target-IsTotal : (s : ℕ) (info : UrlInfo) → IsTotal IsReady (request_target wire c s info)
  unfolding request_target
  request_target-IsTotal s info = search exchange_rules

  secure-IsTotal : (s : ℕ) (info : UrlInfo) → IsTotal IsReady (secure wire c s info)
  unfolding secure
  secure-IsTotal s info = search exchange_rules

  authenticate-IsTotal : (s : ℕ) → IsTotal IsReady (authenticate wire c s)
  unfolding authenticate
  authenticate-IsTotal s = search exchange_rules

  co_perform_socks5_handshake-IsTotal :
      (s : ℕ) (info : UrlInfo) → IsTotal IsReady (co_perform_socks5_handshake wire c s info)
  unfolding co_perform_socks5_handshake
  co_perform_socks5_handshake-IsTotal s info =
      search (exchange_rules, authenticate-IsTotal, request_target-IsTotal) depth 12

  co_connect_socket-IsTotal :
      (s : ℕ) (info : UrlInfo) → IsTotal IsReady (co_connect_socket wire c s info)
  unfolding co_connect_socket
  co_connect_socket-IsTotal s info =
      search (exchange_rules, connect_to-IsTotal, co_perform_socks5_handshake-IsTotal)

  check_code-IsTotal : (code : RoundCode) → IsTotal IsReady (check_code wire c code)
  check_code-IsTotal no_error = search exchange_rules
  check_code-IsTotal ended = search exchange_rules
  check_code-IsTotal (failed e) = search exchange_rules

  co_establish_tunnel-IsTotal :
      (s : ℕ) (info : UrlInfo) → IsTotal IsReady (co_establish_tunnel wire c s info)
  unfolding co_establish_tunnel
  co_establish_tunnel-IsTotal s info = search (exchange_rules, check_code-IsTotal) depth 12

  loaded-EndsIn :
      {A : Type 0} (st : Session W) (r : Option (Outcome A × W))
      → IsReady st
      → IsSome r
      → EndsIn IsReady (loaded st r)
  loaded-EndsIn st none p h = h
  loaded-EndsIn st (some (o, w)) p h = p

  co_read_response-IsTotal :
      (head_request : Bool) (l : Layer) (s : ℕ)
      → IsTotal IsReady (co_read_response wire c head_request l s)
  unfolding co_read_response
  co_read_response-IsTotal head_request l s = record {
    at = λ st p. loaded-EndsIn st (read_loop wire head_request l s c.limit no_reading st.world) p (
        read_loop-IsSome wire c.limit end head_request l s c.limit no_reading st.world
          (end.left_bounded st.world));
  }

  transfer-IsTotal :
      (l : Layer) (s : ℕ) (method : HttpMethod) (text : Bytes)
      → IsTotal IsReady (transfer wire c l s method text)
  unfolding transfer
  transfer-IsTotal l s method text = search (exchange_rules, co_read_response-IsTotal)

  let_go-IsReady :
      (connections : List PooledConnection) (s : ℕ) (st : Session W)
      → IsReady st
      → IsReady (let_go wire c connections s st)
  unfolding let_go
  let_go-IsReady connections s st h = elim (Bool-cases (holds s connections)) [
    | inl e ↦ rw e h
    | inr e ↦ rw e h
  ]

  pooled_exchange-IsTotal :
      (s : ℕ) (r : HttpRequest) (info : UrlInfo) → IsTotal IsReady (pooled_exchange wire c s r info)
  unfolding pooled_exchange pooled_transfer
  pooled_exchange-IsTotal s r info =
      search (exchange_rules, connect_to-IsTotal, transfer-IsTotal) depth 14

  pooled_on-IsTotal :
      (s : ℕ) (r : HttpRequest) (info : UrlInfo) → IsTotal IsReady (pooled_on wire c s r info)
  unfolding pooled_on
  pooled_on-IsTotal s r info =
      IsTotal-finally _ (pooled_exchange wire c s r info) (λ st h. let_go-IsReady _ s st h)
        (pooled_exchange-IsTotal s r info)

  pooled_tls_exchange-IsTotal :
      (s : ℕ) (r : HttpRequest) (info : UrlInfo)
      → IsTotal IsReady (pooled_tls_exchange wire c s r info)
  unfolding pooled_tls_exchange pooled_tls_transfer
  pooled_tls_exchange-IsTotal s r info =
      search (exchange_rules, connect_to-IsTotal, secure-IsTotal, transfer-IsTotal) depth 14

  pooled_tls_on-IsTotal :
      (s : ℕ) (r : HttpRequest) (info : UrlInfo) → IsTotal IsReady (pooled_tls_on wire c s r info)
  unfolding pooled_tls_on
  pooled_tls_on-IsTotal s r info =
      IsTotal-finally _ (pooled_tls_exchange wire c s r info) (λ st h. let_go-IsReady _ s st h)
        (pooled_tls_exchange-IsTotal s r info)

  co_execute_http_pooled-IsTotal :
      (r : HttpRequest) (info : UrlInfo) → IsTotal IsReady (co_execute_http_pooled wire c r info)
  unfolding co_execute_http_pooled
  co_execute_http_pooled-IsTotal r info = search (exchange_rules, pooled_on-IsTotal)

  co_execute_https_pooled-IsTotal :
      (r : HttpRequest) (info : UrlInfo) → IsTotal IsReady (co_execute_https_pooled wire c r info)
  unfolding co_execute_https_pooled
  co_execute_https_pooled-IsTotal r info = search (exchange_rules, pooled_tls_on-IsTotal)

  execute_on-IsTotal :
      (r : HttpRequest) (info : UrlInfo) (s : ℕ) → IsTotal IsReady (execute_on wire c r info s)
  unfolding execute_on
  execute_on-IsTotal r info s = search (exchange_rules, co_connect_socket-IsTotal, transfer-IsTotal)

  execute_tls_on-IsTotal :
      (r : HttpRequest) (info : UrlInfo) (s : ℕ) → IsTotal IsReady (execute_tls_on wire c r info s)
  unfolding execute_tls_on
  execute_tls_on-IsTotal r info s = search (
    exchange_rules, co_connect_socket-IsTotal, co_establish_tunnel-IsTotal, secure-IsTotal,
    transfer-IsTotal,
  )

  with_socket-IsTotal :
      {A : Type 0} (body : ℕ → Awaitable (Session W) A)
      → ((s : ℕ) → IsTotal IsReady (body s))
      → IsTotal IsReady (with_socket wire body)
  with_socket-IsTotal body t = record {
    at = λ st p.
        let s = (wire.net.make_socket st.world).0 in
        (IsTotal-finally {P = IsReady} _ (body s) (λ st p. p) (t s)).at
          (record st { world = (wire.net.make_socket st.world).1 }) p;
  }

  waited-EndsIn :
      (st : Session W) (max : ℕ) (r : Option (RateLimiter × W))
      → Waited wire c.limit end max r
      → EndsIn IsReady (waited st r)
  waited-EndsIn st max none h = h
  waited-EndsIn st max (some (l, w)) h = inr (max, h)

  EndsIn-if :
      {A : Type 0} (b : Bool) (x y : Option (Outcome A × Session W))
      → EndsIn IsReady x
      → (b ≡ false → EndsIn IsReady y)
      → EndsIn IsReady (if b then x else y)
  EndsIn-if true x y h k = h
  EndsIn-if false x y h k = k refl

  acquire_slot-IsTotal : IsTotal IsReady (acquire_slot wire c)
  unfolding acquire_slot
  acquire_slot-IsTotal = record {
    at = λ st ready. EndsIn-if (not st.rate_limiter.enabled) _ _ ready (λ on. elim ready [
      | inl off ↦ absurd (ground (arith, on, off))
      | inr (max, v) ↦
          waited-EndsIn st max (wait_for_slot wire c.limit st.rate_limiter st.world)
            (acquired-Waited wire c.limit end max st.rate_limiter st.world v)
    ]);
  }

  -- Where the network ends within the limit of the reads and waits, and the limiter is off or keeps to
  -- its limit, `co_execute_http` and `co_execute_https` end: they do not wait on, and leave the limiter
  -- off or within its limit.
  pub exchange-IsTotal :
      (r : HttpRequest) (info : UrlInfo)
      → IsTotal IsReady (co_execute_http wire c r info)
        × IsTotal IsReady (co_execute_https wire c r info)
  unfolding co_execute_http co_execute_https
  exchange-IsTotal r info = (
    search (
      exchange_rules, acquire_slot-IsTotal, co_execute_http_pooled-IsTotal, with_socket-IsTotal,
      execute_on-IsTotal,
    ),
    search (
      exchange_rules, acquire_slot-IsTotal, co_execute_https_pooled-IsTotal, with_socket-IsTotal,
      execute_tls_on-IsTotal,
    ),
  )
