-- ===== src/Pool.antt =====
-- include/coro_http/connection_pool.hpp. Each operation runs under the pool's mutex, so it is one
-- step on the pool and on the world behind `Net`. Times are ticks of the steady clock, and
-- `now - last_used > idle_timeout` is written `last_used + idle_timeout < now`, which is the
-- same for an idle timeout that is not negative. `static_cast<int>` of a deque's size keeps the
-- value, as no deque grows past `max_connections_per_host_`, an `int`.
pub mod Deque
pub mod Held
pub mod Leases
pub mod Release
pub mod Calls
pub mod Keeps
mod Tests
use coro_http.Base.{
  ℕ, ◌+◌, Bool, true, false, not, ◌||◌, Option, none, some, List, [], ◌∷◌, ◌++◌, Bytes, length, ltb,
  ◌==◌, if◌then◌else◌,
}
use coro_http.Base.Int.{ℤ, ltz}
use coro_http.Base.Dict.{Dict, lookup, insert}
use coro_http.Net.{Net, ReadOutcome, would_block}

-- `PooledConnection` and `PooledSSLConnection`.
pub record PooledConnection : Type 0 where
  pub socket : ℕ
  pub last_used : ℕ
  pub in_use : Bool

pub record ConnectionPool : Type 0 where
  pub max_connections_per_host : ℤ
  pub idle_timeout : ℕ
  pub http_pool : Dict (List PooledConnection)
  pub ssl_pool : Dict (List PooledConnection)

-- What the loop of `get_connection` leaves: the socket that it returns from inside, the deque and
-- the world.
pub record Scan (W : Type 0) : Type 0 where
  pub found : Option ℕ
  pub connections : List PooledConnection
  pub world : W

abbrev pub pool_key : Bytes → Bytes → Bytes
pool_key host port = host ++ (b':' ∷ port)

-- `http_pool_[key]`, which makes an empty deque where there is none.
unfoldable pub bucket : Bytes → Dict (List PooledConnection) → List PooledConnection
bucket key m = elim (lookup key m) [ none ↦ [] | some cs ↦ cs ]

abbrev pub timed_out : ℕ → ℕ → PooledConnection → Bool
timed_out now idle c = ltb (c.last_used + idle) now

is_would_block : ReadOutcome → Bool
is_would_block would_block = true
is_would_block _ = false

-- `it->socket == socket`, the first such entry erased.
pub discard : ℕ → List PooledConnection → List PooledConnection
discard s [] = []
discard s (c ∷ cs) = if c.socket == s then cs else c ∷ discard s cs

-- The first such entry marked as available at the time `t`.
pub mark_available : ℕ → ℕ → List PooledConnection → List PooledConnection
mark_available s t [] = []
mark_available s t (c ∷ cs) =
    if c.socket == s
    then record c { in_use = false; last_used = t } ∷ cs
    else c ∷ mark_available s t cs

pub holds : ℕ → List PooledConnection → Bool
holds s [] = false
holds s (c ∷ cs) = c.socket == s || holds s cs

module _ {W : Type 0} (net : Net W) where
  open net use {
    now, make_socket, is_open, remote_endpoint, non_blocking, restore_blocking, read_some,
    native_handle, is_init_finished, has_session,
  }

  -- The probe of both checks: one byte read without blocking.
  probe : ℕ → W → Bool × W
  unfolding is_would_block
  probe s w =
      let (ec, w') = non_blocking s w in
      if ec
      then (false, w')
      else (is_would_block (read_some s w').0, restore_blocking s (read_some s w').1)

  pub is_socket_valid : ℕ → W → Bool × W
  unfolding probe
  is_socket_valid s w =
      if not (is_open s w)
      then (false, w)
      else if remote_endpoint s w
      then (false, w)
      else probe s w

  pub is_ssl_socket_valid : ℕ → W → Bool × W
  unfolding probe
  is_ssl_socket_valid s w =
      if not (is_open s w)
      then (false, w)
      else if remote_endpoint s w
      then (false, w)
      else if not (native_handle s w)
      then (false, w)
      else if not (is_init_finished s w)
      then (false, w)
      else if not (has_session s w)
      then (false, w)
      else probe s w

  -- `!it->in_use && is_socket_valid(it->socket)`, which probes an idle connection only.
  pub available : (ℕ → W → Bool × W) → PooledConnection → W → Bool × W
  available valid c w = if c.in_use then (false, w) else valid c.socket w

  keep : PooledConnection → Scan W → Scan W
  keep c r = record r { connections = c ∷ r.connections }

  take : ℕ → PooledConnection → List PooledConnection → W → Scan W
  take t c cs w = record {
    found = some c.socket;
    connections = record c { in_use = true; last_used = t } ∷ cs;
    world = w;
  }

  -- The loop over the deque, at the time `t`.
  pub scan : (ℕ → W → Bool × W) → ℕ → ℕ → List PooledConnection → W → Scan W
  unfolding keep take available
  scan valid t idle [] w = record { found = none; connections = []; world = w }
  scan valid t idle (c ∷ cs) w = elim (timed_out t idle c) [
    | true ↦ scan valid t idle cs w
    | false ↦ elim (available valid c w).0 [
      | true ↦ take t c cs (available valid c w).1
      | false ↦ elim (valid c.socket (available valid c w).1).0 [
        | true ↦ keep c (scan valid t idle cs (valid c.socket (available valid c w).1).1)
        | false ↦ scan valid t idle cs (valid c.socket (available valid c w).1).1
      ]
    ]
  ]

  -- What follows the loop: a new connection, put into the deque while there is room.
  pub create : ℤ → List PooledConnection → W → ℕ × List PooledConnection × W
  create max cs w =
      let (s, w') = make_socket w in
      if ltz (length cs) max
      then (
        s,
        cs ++ (record { socket = s; last_used = (now w').0; in_use = true } ∷ []),
        (now w').1,
      )
      else (s, cs, w')

  finish : ℤ → Option ℕ → Scan W → ℕ × List PooledConnection × W
  unfolding create
  finish max (some s) r = (s, r.connections, r.world)
  finish max none r = create max r.connections r.world

  -- The body of both `get` operations, on one deque.
  pub take_connection :
      (ℕ → W → Bool × W) → ℤ → ℕ → List PooledConnection → W → ℕ × List PooledConnection × W
  unfolding finish
  take_connection valid max idle cs w =
      let r = scan valid (now w).0 idle cs (now w).1 in finish max r.found r

  pub get_connection : Bytes → Bytes → ConnectionPool → W → ℕ × ConnectionPool × W
  unfolding take_connection is_socket_valid
  get_connection host port p w =
      let key = pool_key host port in
      let (s, cs, w') =
        take_connection is_socket_valid p.max_connections_per_host p.idle_timeout
          (bucket key p.http_pool) w in
      (s, record p { http_pool = insert key cs p.http_pool }, w')

  pub get_ssl_connection : Bytes → Bytes → ConnectionPool → W → ℕ × ConnectionPool × W
  unfolding take_connection is_ssl_socket_valid
  get_ssl_connection host port p w =
      let key = pool_key host port in
      let (s, cs, w') =
        take_connection is_ssl_socket_valid p.max_connections_per_host p.idle_timeout
          (bucket key p.ssl_pool) w in
      (s, record p { ssl_pool = insert key cs p.ssl_pool }, w')

  -- The body of both `release` operations, on one deque; the clock is read only at a match.
  pub put_back : ℕ → Bool → List PooledConnection → W → List PooledConnection × W
  put_back s keep_alive cs w =
      if not keep_alive
      then (discard s cs, w)
      else if holds s cs
      then (mark_available s (now w).0 cs, (now w).1)
      else (cs, w)

  pub release_connection : ℕ → Bytes → Bytes → Bool → ConnectionPool → W → ConnectionPool × W
  unfolding put_back
  release_connection s host port keep_alive p w =
      let key = pool_key host port in
      let (cs, w') = put_back s keep_alive (bucket key p.http_pool) w in
      (record p { http_pool = insert key cs p.http_pool }, w')

  pub release_ssl_connection : ℕ → Bytes → Bytes → Bool → ConnectionPool → W → ConnectionPool × W
  unfolding put_back
  release_ssl_connection s host port keep_alive p w =
      let key = pool_key host port in
      let (cs, w') = put_back s keep_alive (bucket key p.ssl_pool) w in
      (record p { ssl_pool = insert key cs p.ssl_pool }, w')

unfoldable pub clear : ConnectionPool → ConnectionPool
clear p = record p { http_pool = []; ssl_pool = [] }

pub record PoolStats : Type 0 where
  pub total_http_connections : ℕ
  pub active_http_connections : ℕ
  pub total_ssl_connections : ℕ
  pub active_ssl_connections : ℕ

pub count_active : List PooledConnection → ℕ
count_active [] = 0
count_active (c ∷ cs) = (if c.in_use then 1 else 0) + count_active cs

pub total : Dict (List PooledConnection) → ℕ
total [] = 0
total ((k, cs) ∷ m) = length cs + total m

pub active : Dict (List PooledConnection) → ℕ
active [] = 0
active ((k, cs) ∷ m) = count_active cs + active m

pub get_stats : ConnectionPool → PoolStats
get_stats p = record {
  total_http_connections = total p.http_pool;
  active_http_connections = active p.http_pool;
  total_ssl_connections = total p.ssl_pool;
  active_ssl_connections = active p.ssl_pool;
}
