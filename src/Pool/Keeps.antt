-- ===== src/Pool/Keeps.antt =====
-- Properties of the world that the operations of the pool keep (include/coro_http/connection_pool.hpp).
use coro_http.Base.{
  arith, ℕ, Bool, true, false, not, Option, none, some, List, [], ◌∷◌, Bytes, if◌then◌else◌,
}
use coro_http.Base.Int.{ℤ}
use coro_http.Net.{Net}
use coro_http.Pool.{
  PooledConnection, ConnectionPool, Scan, probe, is_socket_valid, is_ssl_socket_valid, available,
  scan, create, finish, take_connection, put_back, holds, get_connection, get_ssl_connection,
  release_connection, release_ssl_connection,
}

pub record NetKeeps {W : Type 0} (net : Net W) (I : W → Type 0) : Type 0 where
  pub now_keeps : (w : W) → I w → I (net.now w).1
  pub make_socket_keeps : (w : W) → I w → I (net.make_socket w).1
  pub non_blocking_keeps : (s : ℕ) (w : W) → I w → I (net.non_blocking s w).1
  pub restore_blocking_keeps : (s : ℕ) (w : W) → I w → I (net.restore_blocking s w)
  pub read_some_keeps : (s : ℕ) (w : W) → I w → I (net.read_some s w).1

module _ {W : Type 0} (net : Net W) (I : W → Type 0) (keeps : NetKeeps net I) where
  open keeps use {
    now_keeps, make_socket_keeps, non_blocking_keeps, restore_blocking_keeps, read_some_keeps,
  }

  if-keeps : {A : Type 0} (b : Bool) (x y : A × W) → I x.1 → I y.1 → I (if b then x else y).1
  if-keeps true x y h k = h
  if-keeps false x y h k = k

  probe-keeps : (s : ℕ) (w : W) → I w → I (probe net s w).1
  unfolding probe
  probe-keeps s w h =
      let first = non_blocking_keeps s w h in
      if-keeps (net.non_blocking s w).0 _ _ first
        (restore_blocking_keeps s _ (read_some_keeps s _ first))

  is_socket_valid-keeps : (s : ℕ) (w : W) → I w → I (is_socket_valid net s w).1
  unfolding is_socket_valid
  is_socket_valid-keeps s w h =
      if-keeps (not (net.is_open s w)) _ _ h
        (if-keeps (net.remote_endpoint s w) _ _ h (probe-keeps s w h))

  is_ssl_socket_valid-keeps : (s : ℕ) (w : W) → I w → I (is_ssl_socket_valid net s w).1
  unfolding is_ssl_socket_valid
  is_ssl_socket_valid-keeps s w h = if-keeps (not (net.is_open s w)) _ _ h (
      if-keeps (net.remote_endpoint s w) _ _ h (
        if-keeps (not (net.native_handle s w)) _ _ h (
          if-keeps (not (net.is_init_finished s w)) _ _ h
            (if-keeps (not (net.has_session s w)) _ _ h (probe-keeps s w h)))))

  module _ (valid : ℕ → W → Bool × W) (valid-keeps : (s : ℕ) (w : W) → I w → I (valid s w).1) where
    available-keeps : (c : PooledConnection) (w : W) → I w → I (available net valid c w).1
    unfolding available
    available-keeps c w h = if-keeps c.in_use _ _ h (valid-keeps c.socket w h)

    scan-keeps :
        (t idle : ℕ) (cs : List PooledConnection) (w : W)
        → I w
        → I (scan net valid t idle cs w).world
    unfolding scan
    scan-keeps t idle [] w h = h
    scan-keeps t idle (c ∷ cs) w h =
        let first = available-keeps c w h in
        let second = valid-keeps c.socket _ first in
        ground (arith, scan-keeps t idle cs w h, first, scan-keeps t idle cs _ second)

    create-keeps : (max : ℤ) (cs : List PooledConnection) (w : W) → I w → I (create net max cs w).2
    unfolding create
    create-keeps max cs w h =
        let made = make_socket_keeps w h in ground (arith, made, now_keeps _ made)

    finish-keeps : (max : ℤ) (o : Option ℕ) (r : Scan W) → I r.world → I (finish net max o r).2
    unfolding finish
    finish-keeps max (some s) r h = h
    finish-keeps max none r h = create-keeps max r.connections r.world h

    take_connection-keeps :
        (max : ℤ) (idle : ℕ) (cs : List PooledConnection) (w : W)
        → I w
        → I (take_connection net valid max idle cs w).2
    unfolding take_connection
    take_connection-keeps max idle cs w h =
        let r = scan net valid (net.now w).0 idle cs (net.now w).1 in
        finish-keeps max r.found r (scan-keeps (net.now w).0 idle cs _ (now_keeps w h))

  put_back-keeps :
      (s : ℕ) (keep_alive : Bool) (cs : List PooledConnection) (w : W)
      → I w
      → I (put_back net s keep_alive cs w).1
  unfolding put_back
  put_back-keeps s keep_alive cs w h =
      if-keeps (not keep_alive) _ _ h (if-keeps (holds s cs) _ _ (now_keeps w h) h)

  pub get_connection-keeps :
      (host port : Bytes) (p : ConnectionPool) (w : W)
      → I w
      → I (get_connection net host port p w).2
  unfolding get_connection
  get_connection-keeps host port p w h =
      take_connection-keeps (is_socket_valid net) is_socket_valid-keeps p.max_connections_per_host
        p.idle_timeout _ w h

  get_ssl_connection-keeps :
      (host port : Bytes) (p : ConnectionPool) (w : W)
      → I w
      → I (get_ssl_connection net host port p w).2
  unfolding get_ssl_connection
  get_ssl_connection-keeps host port p w h =
      take_connection-keeps (is_ssl_socket_valid net) is_ssl_socket_valid-keeps
        p.max_connections_per_host p.idle_timeout _ w h

  pub release_connection-keeps :
      (s : ℕ) (host port : Bytes) (keep_alive : Bool) (p : ConnectionPool) (w : W)
      → I w
      → I (release_connection net s host port keep_alive p w).1
  unfolding release_connection
  release_connection-keeps s host port keep_alive p w h = put_back-keeps s keep_alive _ w h

  release_ssl_connection-keeps :
      (s : ℕ) (host port : Bytes) (keep_alive : Bool) (p : ConnectionPool) (w : W)
      → I w
      → I (release_ssl_connection net s host port keep_alive p w).1
  unfolding release_ssl_connection
  release_ssl_connection-keeps s host port keep_alive p w h = put_back-keeps s keep_alive _ w h
