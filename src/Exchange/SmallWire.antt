-- ===== src/Exchange/SmallWire.antt =====
-- A small wire: a count of the sockets, a clock, and at most one piece of an answer; and a setup, a
-- request and a session over it.
use coro_http.Base.{
  arith, ℕ, suc, ◌+◌, ◌≤◌, ◌⊎◌, inl, inr, ltb, if◌then◌else◌, Bool-cases, ◌<◌, ◌≡◌, Bool, true,
  false, Option, none, some, List, [], ◌∷◌, Bytes, codes,
}
use coro_http.Base.Int.{pos}
use coro_http.Base.Outcome.{returned, thrown}
use coro_http.Config.{default_config}
use coro_http.Net.{Net, NetLaws, would_block}
use coro_http.Pool.{ConnectionPool}
use coro_http.Proxy.{ProxyInfo, ProxyType}
use coro_http.RateLimiter.{RateLimiter}
use coro_http.Reading.{RoundCode, no_error, ended}
use coro_http.Request.{HttpMethod, HttpRequest, new_request}
use coro_http.Url.{UrlInfo}
use coro_http.Wire.{Wire, WireLaws}
use coro_http.Exchange.{Setup, Session}
use coro_http.Exchange.Recorded.{Event}
use coro_http.Exchange.Ending.{EndsWithin}

-- What comes, the sockets made, and the time.
pub record World : Type 0 where
  pub piece : Option Bytes
  pub sockets : ℕ
  pub time : ℕ

abbrev pub small_net : Net World
small_net = record {
  now = λ w. (w.time, record w { time = suc w.time });
  make_socket = λ w. (w.sockets, record w { sockets = suc w.sockets });
  is_open = λ s w. false;
  remote_endpoint = λ s w. false;
  non_blocking = λ s w. (false, w);
  restore_blocking = λ s w. w;
  read_some = λ s w. (would_block, w);
  native_handle = λ s w. true;
  is_init_finished = λ s w. true;
  has_session = λ s w. true;
}

abbrev pub piece_of : Option Bytes → Bytes × RoundCode
piece_of none = ([], ended)
piece_of (some b) = (b, no_error)

abbrev pub pieces : Option Bytes → ℕ
pieces none = 0
pieces (some b) = 1

abbrev pub has_piece : Option Bytes → Bool
has_piece none = false
has_piece (some b) = true

abbrev pub small_wire : Wire World
small_wire = record {
  net = small_net;
  resolve = λ h q w. (returned (h ∷ []), w);
  connect = λ s es w. (returned tt, w);
  set_host_name = λ s h w. w;
  handshake = λ s w. (returned tt, w);
  write = λ l s t w. (returned tt, w);
  read_some = λ l s w. (piece_of w.piece, record w { piece = none });
  read = λ n s w. (returned (5 ∷ 0 ∷ []), w);
  available = λ s w. has_piece w.piece;
  pause = λ n w. w;
  wait_until = λ t w. record w { time = if ltb w.time t then t else suc t };
  shutdown = λ s w. w;
  close = λ s w. w;
  tls_shutdown = λ s w. (thrown (codes "stream truncated"), w);
}

abbrev pub small_net_laws : NetLaws small_net
small_net_laws = record {
  created = λ w. w.sockets;
  now_created = λ w. omega arith;
  make_socket_new = λ w. omega arith;
  make_socket_created = λ w. omega arith;
  non_blocking_created = λ s w. omega arith;
  restore_blocking_created = λ s w. omega arith;
  read_some_created = λ s w. omega arith;
}

abbrev pub small_laws : WireLaws small_wire
small_laws = record {
  net_laws = small_net_laws;
  resolve_created = λ h q w. omega arith;
  connect_created = λ s es w. omega arith;
  set_host_name_created = λ s h w. omega arith;
  handshake_created = λ s w. omega arith;
  write_created = λ l s t w. omega arith;
  read_some_created = λ l s w. omega arith;
  read_created = λ n s w. omega arith;
  pause_created = λ n w. omega arith;
  wait_until_created = λ t w. omega arith;
  shutdown_created = λ s w. omega arith;
  close_created = λ s w. omega arith;
  tls_shutdown_created = λ s w. omega arith;
}

some_piece : (p : Option Bytes) → (piece_of p).1 ≡ no_error → 0 < pieces p
some_piece none h = absurd (cc h)
some_piece (some b) h = omega arith

few_pieces : (p : Option Bytes) → pieces p < 3
few_pieces none = omega arith
few_pieces (some b) = omega arith

few_wakes : (b : Bool) → (if b then 1 else 0) + 2 ≤ 3
few_wakes true = omega arith
few_wakes false = omega arith

-- The first wait may end at its time, the next one ends behind it.
wakes_once :
    (t time : ℕ)
    → let woken = if ltb time t then t else suc t in
      (t < woken)
      ⊎ ((if ltb (suc woken) (suc t) then 1 else 0) < (if ltb time (suc t) then 1 else 0))
wakes_once t time = elim (Bool-cases (ltb time t)) [
  | inl early ↦ rw early (inr (ground (arith, early)))
  | inr late ↦ rw late (inl (omega arith))
]

pub small_wire_ends : EndsWithin small_wire 3
small_wire_ends = record {
  left = λ w. pieces w.piece;
  left_bounded = λ w. few_pieces w.piece;
  reads_on = λ l s w h. some_piece w.piece h;
  reads_end = λ l s w. omega arith;
  pauses = λ n w. omega arith;
  wakes = λ t w. if ltb w.time (suc t) then 1 else 0;
  wakes_bounded = λ t w. few_wakes (ltb w.time (suc t));
  waits_until = λ t w. wakes_once t w.time;
}

abbrev pub example_url : UrlInfo
example_url = record {
  scheme = codes "https";
  host = codes "a.org";
  port = codes "443";
  path = codes "/x";
  is_https = true;
}

abbrev pub example_request : HttpRequest
example_request = new_request HttpMethod.get (codes "https://a.org/x")

abbrev pub through : ProxyType → ProxyInfo
through type = record {
  type = type;
  host = codes "proxy.net";
  port = codes "1080";
  username = codes "joe";
  password = codes "secret";
}

abbrev pub setup : ProxyInfo → Setup
setup proxy = record {
  config = default_config;
  proxy = proxy;
  gunzip = returned;
  inflate = returned;
  max_size = 1000;
  limit = 3;
}

abbrev pub no_pool : ConnectionPool
no_pool = record {
  max_connections_per_host = pos 5;
  idle_timeout = 60;
  http_pool = [];
  ssl_pool = [];
}

abbrev pub no_limit : RateLimiter
no_limit = record { max_requests = pos 0; window = 1; enabled = false; timestamps = [] }

abbrev pub answer : Bytes
answer = codes "HTTP/1.1 200 OK\r\nContent-Length: 2\r\n\r\nhi"

abbrev pub world : World
world = record { piece = some answer; sockets = 0; time = 0 }

abbrev pub session : Session World
session = record { connection_pool = no_pool; rate_limiter = no_limit; world = world }

abbrev pub recorded_session : Session (List Event × World)
recorded_session = record {
  connection_pool = no_pool;
  rate_limiter = no_limit;
  world = ([], world);
}
