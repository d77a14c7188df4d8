-- ===== src/Pool/Calls.antt =====
-- Sequences of calls of the pool, by requests to many hosts, with the sockets that the requests to
-- one of them hold.
pub mod Exclusive
pub mod Capacity
use coro_http.Base.{
  ℕ, ◌≤◌, ◌<◌, ◌≡◌, ◌≢◌, refl, ◌⊎◌, inl, inr, Bool, true, false, not, List, [], ◌∷◌, Bytes, equal,
  equal_iff, arith, if◌then◌else◌, Bool-cases, Option, none, some,
}
use coro_http.Base.Dict.{Dict, lookup, insert, lookup-insert}
use coro_http.Net.{Net, NetLaws}
use coro_http.Pool.{
  PooledConnection, ConnectionPool, bucket, pool_key, probe, is_socket_valid, take_connection,
  put_back, get_connection, get_ssl_connection, release_connection, release_ssl_connection, clear,
  is_ssl_socket_valid,
}
use coro_http.Pool.Release.{without, without-LeaseInv, put_back-LeaseInv}

pub bucket-insert :
    (k j : Bytes) (cs : List PooledConnection) (m : Dict (List PooledConnection))
    → bucket j (insert k cs m) ≡ (if equal k j then cs else bucket j m)
unfolding bucket
bucket-insert k j cs m = ground (arith, lookup-insert k j cs m)

-- A call of the pool, or a request that gives its socket up without one (its connection broke, or
-- was one outside the pool).
pub data PoolCall : Type 0 where
  gets gets_ssl : Bytes → Bytes → PoolCall
  releases releases_ssl : ℕ → Bytes → Bytes → Bool → PoolCall
  drops : ℕ → PoolCall
  clears : PoolCall

-- The pool, the world, and the sockets that requests to the host and port in view hold: those of HTTP,
-- and those under TLS.
pub record Usage (W : Type 0) : Type 0 where
  pub pool : ConnectionPool
  pub world : W
  pub held : List ℕ
  pub held_ssl : List ℕ

module _ {W : Type 0} (net : Net W) (key : Bytes) where
  unfoldable pub step : Usage W → PoolCall → Usage W
  step u (gets h q) =
      let r = get_connection net h q u.pool u.world in
      record u {
        pool = r.1;
        world = r.2;
        held = if equal (pool_key h q) key then r.0 ∷ u.held else u.held;
      }
  step u (gets_ssl h q) =
      let r = get_ssl_connection net h q u.pool u.world in
      record u {
        pool = r.1;
        world = r.2;
        held_ssl = if equal (pool_key h q) key then r.0 ∷ u.held_ssl else u.held_ssl;
      }
  step u (releases s h q keep_alive) =
      let r = release_connection net s h q keep_alive u.pool u.world in
      record u {
        pool = r.0;
        world = r.1;
        held = if equal (pool_key h q) key then without s u.held else u.held;
      }
  step u (releases_ssl s h q keep_alive) =
      let r = release_ssl_connection net s h q keep_alive u.pool u.world in
      record u {
        pool = r.0;
        world = r.1;
        held_ssl = if equal (pool_key h q) key then without s u.held_ssl else u.held_ssl;
      }
  step u (drops s) = record u { held = without s u.held; held_ssl = without s u.held_ssl }
  step u clears = record u { pool = clear u.pool }

  unfoldable pub run : Usage W → List PoolCall → Usage W
  unfolding step
  run u [] = u
  run u (c ∷ cs) = run (step u c) cs

-- A client's start: no connection in the pool, and none held.
abbrev pub start : {W : Type 0} → ConnectionPool → W → Usage W
start p w = record { pool = clear p; world = w; held = []; held_ssl = [] }
