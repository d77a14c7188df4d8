-- ===== src/Exchange.antt =====
-- include/coro_http/coro_http_client.hpp: co_execute_http, co_execute_https and their pooled forms,
-- co_connect_socket, co_establish_tunnel, co_perform_socks5_handshake and co_read_response, as
-- coroutines over the interface Wire. A socket that is a local variable is closed where its scope
-- ends. The loops that wait for the network have a bound on their rounds, and wait on beyond it.
pub mod SmallWire
mod Tests
pub mod Connect
pub mod Requests
pub mod Loops
pub mod Recorded
pub mod Heard
pub mod Answers
pub mod Transferred
pub mod Pooled
pub mod Closing
pub mod Leases
pub mod Socks
pub mod Ending
pub mod Total
pub mod Parts
pub mod Direct
pub mod Protocol
use coro_http.Base.{
  ℕ, zero, suc, ◌+◌, Bool, true, false, not, ◌&&◌, Option, none, some, List, [], ◌∷◌, ◌++◌, Bytes,
  codes, equal, is_empty, map, tolower, get_or, ◌==◌, if◌then◌else◌,
}
use coro_http.Base.Outcome.{or_throw, Outcome, returned, thrown, undefined}
use coro_http.Base.Awaiting.{
  Awaitable, co_return, throw, lift, gets, ◌>>=◌, ◌>>◌, on_exception, finally,
}
use coro_http.Chunked.{decode_chunked}
use coro_http.Config.{ClientConfig}
use coro_http.Net.{Net}
use coro_http.Pool.{
  ConnectionPool, get_connection, get_ssl_connection, release_connection, release_ssl_connection,
}
use coro_http.Proxy.{
  ProxyType, no_proxy, http, https, socks5, ProxyInfo, build_connect_request,
  parse_connect_response, build_socks5_handshake, build_socks5_auth, build_socks5_connect,
}
use coro_http.RateLimiter.{RateLimiter, attempt, oldest}
use coro_http.Reading.{
  RoundCode, no_error, ended, failed, Reading, no_reading, receive, is_complete, waits,
}
use coro_http.Request.{HttpMethod, HttpRequest, build_request, build_proxy_request}
use coro_http.Response.{HttpResponse, get_header, parse_response}
use coro_http.Url.{UrlInfo}
use coro_http.Wire.{Wire, Layer, plain, tls}

-- The members of the client that an exchange changes, and the world.
pub record Session (W : Type 0) : Type 0 where
  pub connection_pool : ConnectionPool
  pub rate_limiter : RateLimiter
  pub world : W

abbrev pub uses_proxy : ProxyType → Bool
uses_proxy no_proxy = false
uses_proxy _ = true

abbrev pub is_http : ProxyType → Bool
is_http http = true
is_http _ = false

abbrev pub is_socks5 : ProxyType → Bool
is_socks5 socks5 = true
is_socks5 _ = false

pub is_head : HttpMethod → Bool
is_head HttpMethod.head = true
is_head _ = false

-- `should_keep_alive`
pub should_keep_alive : HttpResponse → Bool
should_keep_alive r = not (equal (map tolower (get_header (codes "Connection") r)) (codes "close"))

-- What an exchange does not change: the configuration, what the constructor made of the URL of the
-- proxy, the functions of include/coro_http/compression.hpp, the longest string, and the bound.
pub record Setup : Type 0 where
  pub config : ClientConfig
  pub proxy : ProxyInfo
  pub gunzip : Bytes → Outcome Bytes
  pub inflate : Bytes → Outcome Bytes
  pub max_size : ℕ
  pub limit : ℕ

abbrev pub parse : Setup → Bytes → Outcome HttpResponse
parse c = parse_response (decode_chunked c.max_size) c.gunzip c.inflate

-- `request_str`, on a connection outside the pool.
pub request_text : Setup → HttpRequest → UrlInfo → Bytes
request_text c r info =
    if is_http c.proxy.type
    then build_proxy_request r info c.config.enable_compression
    else build_request r info c.config.enable_compression false

-- What a round of `co_read_response` leads to.
pub data Next : Type 0 where
  finished : Outcome Bytes → Next
  again : Reading → Next

module _ {W : Type 0} where
  -- A call that changes the world.
  abbrev pub in_world : {A : Type 0} → (W → Outcome A × W) → Awaitable (Session W) A
  in_world f s = some ((f s.world).0, record s { world = (f s.world).1 })

  abbrev pub on_world : (W → W) → Awaitable (Session W) Unit
  on_world f s = some (returned tt, record s { world = f s.world })

  -- A loop over the world, with the limiter beside it.
  abbrev pub waited : Session W → Option (RateLimiter × W) → Option (Outcome {0} Unit × Session W)
  waited s none = none
  waited s (some (l, w)) = some (returned tt, record s { rate_limiter = l; world = w })

  abbrev pub loaded :
      {A : Type 0} → Session W → Option (Outcome A × W) → Option (Outcome A × Session W)
  loaded s none = none
  loaded s (some (o, w)) = some (o, record s { world = w })

  abbrev pub with_pool :
      {A : Type 0} → (ConnectionPool → W → A × ConnectionPool × W) → Awaitable (Session W) A
  with_pool f s =
      let q = f s.connection_pool s.world in
      some (returned q.0, record s { connection_pool = q.1; world = q.2 })

  abbrev pub on_pool : (ConnectionPool → W → ConnectionPool × W) → Awaitable (Session W) Unit
  on_pool f s =
      let q = f s.connection_pool s.world in
      some (returned tt, record s { connection_pool = q.0; world = q.1 })

module _ {W : Type 0} (wire : Wire W) where
  -- The loop of `rate_limiter_.acquire`.
  pub wait_for_slot : ℕ → RateLimiter → W → Option (RateLimiter × W)
  wait_for_slot zero l w = none
  wait_for_slot (suc fuel) l w =
      let (now, w') = wire.net.now w in
      let q = attempt now l in
      elim q.0 [
        | true ↦ some (q.1, w')
        | false ↦ wait_for_slot fuel q.1 (wire.wait_until (oldest q.1.timestamps + l.window) w')
      ]

  -- The timer and what follows it.
  wait_more : Layer → ℕ → Reading → W → Next × W
  wait_more l s t w =
      let w = wire.pause 100 w in
      if wire.available s w
      then (let (read, later) = wire.read_some l s w in
          (again (record t { response_data = t.response_data ++ read.0 }), later))
      else (finished (returned t.response_data), w)

  -- What follows the test for a complete response.
  after_read : Layer → ℕ → Bytes → RoundCode → Reading → W → Next × W
  after_read l s bytes ended t w = (finished (returned t.response_data), w)
  after_read l s bytes (failed e) t w = (finished (thrown e), w)
  after_read l s bytes no_error t w =
      if waits t && not (is_empty bytes) then wait_more l s t w else (again t, w)

  -- The body of the loop of `co_read_response`.
  pub read_round : Bool → Layer → ℕ → Reading → W → Next × W
  read_round head_request l s state w =
      let ((bytes, code), w') = wire.read_some l s w in
      let t = receive bytes state in
      if not (is_empty bytes) && is_complete head_request t
      then (finished (returned t.response_data), w')
      else after_read l s bytes code t w'

  pub read_loop : Bool → Layer → ℕ → ℕ → Reading → W → Option (Outcome Bytes × W)
  read_loop head_request l s zero state w = none
  read_loop head_request l s (suc fuel) state w =
      let (next, w') = read_round head_request l s state w in
      elim next [ finished o ↦ some (o, w') | again t ↦ read_loop head_request l s fuel t w' ]

  -- `async_resolve` and `async_connect`
  pub connect_to : ℕ → Bytes → Bytes → Awaitable (Session W) Unit
  connect_to s host port = do
    endpoints ← in_world (wire.resolve host port)
    in_world (wire.connect s endpoints)

  -- `async_read_some` as a tuple, which does not throw.
  abbrev pub read_once : Layer → ℕ → W → Outcome (Bytes × RoundCode) × W
  read_once l s w = (returned (wire.read_some l s w).0, (wire.read_some l s w).1)

  -- A socket that is a local variable.
  abbrev pub with_socket : {A : Type 0} → (ℕ → Awaitable (Session W) A) → Awaitable (Session W) A
  with_socket body = do
    s ← in_world (λ w. let q = wire.net.make_socket w in (returned q.0, q.1))
    finally (λ st. record st { world = wire.close s st.world }) (body s)

  abbrev shut : ℕ → W → W
  shut s w = wire.close s (wire.shutdown s w)

  module _ (c : Setup) where
    -- `rate_limiter_.acquire()`
    pub acquire_slot : Awaitable (Session W) Unit
    acquire_slot s =
        if not s.rate_limiter.enabled
        then some (returned tt, s)
        else waited s (wait_for_slot c.limit s.rate_limiter s.world)

    pub co_read_response : Bool → Layer → ℕ → Awaitable (Session W) Bytes
    co_read_response head_request l s st =
        loaded st (read_loop head_request l s c.limit no_reading st.world)
