-- ===== src/Pool/Calls/Exclusive.antt =====
-- The pool's exclusion over whole runs: requests that take and release connections of one host and
-- port, between any other calls of the pool.
use coro_http.Base.{
  ℕ, ◌≤◌, inl, inr, Bool, List, [], ◌∷◌, Bytes, equal, equal_iff, arith, Bool-cases,
}
use coro_http.Base.Dict.{lookup}
use coro_http.Net.{Net, NetLaws}
use coro_http.Pool.{
  PooledConnection, ConnectionPool, bucket, pool_key, probe, is_socket_valid, put_back,
  get_connection, get_ssl_connection, release_connection, release_ssl_connection, clear,
  is_ssl_socket_valid,
}
use coro_http.Pool.Held.{AllDifferent, LeaseInv, later_LeaseInv}
use coro_http.Pool.Leases.{take_connection-LeaseInv, created-take_connection}
use coro_http.Pool.Release.{without-LeaseInv, put_back-LeaseInv}
use coro_http.Pool.Calls.{
  Usage, PoolCall, gets, gets_ssl, releases, releases_ssl, drops, clears, step, run, start,
  bucket-insert,
}

module _ {W : Type 0} (net : Net W) (laws : NetLaws net) where
  open laws use {
    created, now_created, non_blocking_created, restore_blocking_created, read_some_created,
  }

  probe_created : (s : ℕ) (w : W) → created w ≤ created (probe net s w).1
  unfolding probe
  probe_created s w =
      let w' = (net.non_blocking s w).1 in
      ground (
        arith,
        non_blocking_created s w,
        read_some_created s w',
        restore_blocking_created s (net.read_some s w').1,
      )

  is_socket_valid_created : (s : ℕ) (w : W) → created w ≤ created (is_socket_valid net s w).1
  unfolding is_socket_valid
  is_socket_valid_created s w = ground (arith, probe_created s w)

  is_ssl_socket_valid_created :
      (s : ℕ) (w : W) → created w ≤ created (is_ssl_socket_valid net s w).1
  unfolding is_ssl_socket_valid
  is_ssl_socket_valid_created s w = ground (arith, probe_created s w)

  created-put_back :
      (s : ℕ) (keep_alive : Bool) (cs : List PooledConnection) (w : W)
      → created w ≤ created (put_back net s keep_alive cs w).1
  unfolding put_back
  created-put_back s keep_alive cs w = ground (arith, now_created w)

  abbrev pub UsageInv : Bytes → Usage W → Type 0
  UsageInv key u = LeaseInv (created u.world) u.held (bucket key u.pool.http_pool)

  pub gets-UsageInv :
      (key h q : Bytes) (u : Usage W) → UsageInv key u → UsageInv key (step net key u (gets h q))
  unfolding step get_connection
  gets-UsageInv key h q u v =
      let max = u.pool.max_connections_per_host in
      let idle = u.pool.idle_timeout in
      let valid = is_socket_valid net in
      let ok = is_socket_valid_created in
      elim (Bool-cases (equal (pool_key h q) key)) [
        | inl same ↦
            rw (bucket-insert, same, (equal_iff (pool_key h q) key).0 same)
              (take_connection-LeaseInv net laws valid ok max idle u.held _ u.world v)
        | inr other ↦
            rw (bucket-insert, other)
              (later_LeaseInv (created u.world) _ u.held _
                (created-take_connection net laws valid ok max idle _ u.world) v)
      ]

  pub releases-UsageInv :
      (key h q : Bytes) (s : ℕ) (keep_alive : Bool) (u : Usage W)
      → UsageInv key u
      → UsageInv key (step net key u (releases s h q keep_alive))
  unfolding step release_connection
  releases-UsageInv key h q s keep_alive u v = elim (Bool-cases (equal (pool_key h q) key)) [
    | inl same ↦
        rw (bucket-insert, same, (equal_iff (pool_key h q) key).0 same)
          (later_LeaseInv (created u.world) _ _ _ (created-put_back s keep_alive _ u.world)
            (put_back-LeaseInv net s _ keep_alive u.held _ u.world v))
    | inr other ↦
        rw (bucket-insert, other)
          (later_LeaseInv (created u.world) _ u.held _ (created-put_back s keep_alive _ u.world) v)
  ]

  -- The same of the pool under TLS.
  abbrev SslInv : Bytes → Usage W → Type 0
  SslInv key u = LeaseInv (created u.world) u.held_ssl (bucket key u.pool.ssl_pool)

  gets_ssl-SslInv :
      (key h q : Bytes) (u : Usage W) → SslInv key u → SslInv key (step net key u (gets_ssl h q))
  unfolding step get_ssl_connection
  gets_ssl-SslInv key h q u v =
      let max = u.pool.max_connections_per_host in
      let idle = u.pool.idle_timeout in
      let valid = is_ssl_socket_valid net in
      let ok = is_ssl_socket_valid_created in
      elim (Bool-cases (equal (pool_key h q) key)) [
        | inl same ↦
            rw (bucket-insert, same, (equal_iff (pool_key h q) key).0 same)
              (take_connection-LeaseInv net laws valid ok max idle u.held_ssl _ u.world v)
        | inr other ↦
            rw (bucket-insert, other)
              (later_LeaseInv (created u.world) _ u.held_ssl _
                (created-take_connection net laws valid ok max idle _ u.world) v)
      ]

  releases_ssl-SslInv :
      (key h q : Bytes) (s : ℕ) (keep_alive : Bool) (u : Usage W)
      → SslInv key u
      → SslInv key (step net key u (releases_ssl s h q keep_alive))
  unfolding step release_ssl_connection
  releases_ssl-SslInv key h q s keep_alive u v = elim (Bool-cases (equal (pool_key h q) key)) [
    | inl same ↦
        rw (bucket-insert, same, (equal_iff (pool_key h q) key).0 same)
          (later_LeaseInv (created u.world) _ _ _ (created-put_back s keep_alive _ u.world)
            (put_back-LeaseInv net s _ keep_alive u.held_ssl _ u.world v))
    | inr other ↦
        rw (bucket-insert, other)
          (later_LeaseInv (created u.world) _ u.held_ssl _ (created-put_back s keep_alive _ u.world)
            v)
  ]

  step-UsageInv :
      (key : Bytes) (u : Usage W) (c : PoolCall) → UsageInv key u → UsageInv key (step net key u c)
  unfolding step get_ssl_connection release_ssl_connection clear bucket lookup
  step-UsageInv key u (gets h q) v = gets-UsageInv key h q u v
  step-UsageInv key u (releases s h q keep_alive) v = releases-UsageInv key h q s keep_alive u v
  step-UsageInv key u (gets_ssl h q) v =
      later_LeaseInv (created u.world) _ u.held _
        (created-take_connection net laws (is_ssl_socket_valid net) is_ssl_socket_valid_created
          u.pool.max_connections_per_host u.pool.idle_timeout _ u.world)
        v
  step-UsageInv key u (releases_ssl s h q keep_alive) v =
      later_LeaseInv (created u.world) _ u.held _ (created-put_back s keep_alive _ u.world) v
  step-UsageInv key u (drops s) v = without-LeaseInv s _ u.held _ v
  step-UsageInv key u clears v = record {
    distinct = tt;
    below = tt;
    held_below = v.held_below;
    unheld = tt;
    different = v.different;
  }

  step-SslInv :
      (key : Bytes) (u : Usage W) (c : PoolCall) → SslInv key u → SslInv key (step net key u c)
  unfolding step get_connection release_connection clear bucket lookup
  step-SslInv key u (gets_ssl h q) v = gets_ssl-SslInv key h q u v
  step-SslInv key u (releases_ssl s h q keep_alive) v = releases_ssl-SslInv key h q s keep_alive u v
  step-SslInv key u (gets h q) v =
      later_LeaseInv (created u.world) _ u.held_ssl _
        (created-take_connection net laws (is_socket_valid net) is_socket_valid_created
          u.pool.max_connections_per_host u.pool.idle_timeout _ u.world)
        v
  step-SslInv key u (releases s h q keep_alive) v =
      later_LeaseInv (created u.world) _ u.held_ssl _ (created-put_back s keep_alive _ u.world) v
  step-SslInv key u (drops s) v = without-LeaseInv s _ u.held_ssl _ v
  step-SslInv key u clears v = record {
    distinct = tt;
    below = tt;
    held_below = v.held_below;
    unheld = tt;
    different = v.different;
  }

  run-UsageInv :
      (key : Bytes) (u : Usage W) (cs : List PoolCall)
      → UsageInv key u
      → SslInv key u
      → UsageInv key (run net key u cs) × SslInv key (run net key u cs)
  unfolding run
  run-UsageInv key u [] v w = (v, w)
  run-UsageInv key u (c ∷ cs) v w =
      run-UsageInv key (step net key u c) cs (step-UsageInv key u c v) (step-SslInv key u c w)

-- Whatever calls of the pool are made, in any order, from an empty pool: the sockets held by HTTP
-- requests to one host and port are all different, and those held by HTTPS requests are.
pub run-AllDifferent :
    {W : Type 0} (net : Net W) (laws : NetLaws net) (key : Bytes) (p : ConnectionPool) (w : W)
    (cs : List PoolCall)
    → AllDifferent (run net key (start p w) cs).held
      × AllDifferent (run net key (start p w) cs).held_ssl
unfolding clear bucket lookup
run-AllDifferent net laws key p w cs =
    let none_held : LeaseInv (laws.created w) [] [] = record {
      distinct = tt;
      below = tt;
      held_below = tt;
      unheld = tt;
      different = tt;
    } in
    let (v, v_ssl) = run-UsageInv net laws key (start p w) cs none_held none_held in
    (v.different, v_ssl.different)
