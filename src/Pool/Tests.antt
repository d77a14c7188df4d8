-- ===== src/Pool/Tests.antt =====
-- Runs of the pool over a small world: a clock that moves by one at each reading, and a count of
-- the sockets made, whose probes all have one outcome.
use coro_http.Base.{ℕ, ◌+◌, ◌≡◌, refl, true, false, List, [], ◌∷◌, Bytes, codes, equal, arith}
use coro_http.Base.Int.{pos}
use coro_http.Base.Dict.{lookup, insert}
use coro_http.Pool.Release.{without}
use coro_http.Net.{Net, NetLaws, ReadOutcome, would_block}
use coro_http.Pool.{
  PooledConnection, ConnectionPool, Scan, scan, bucket, pool_key, is_socket_valid,
  is_ssl_socket_valid, get_connection, get_ssl_connection, release_connection,
}
use coro_http.Pool.Held.{AllDifferent}
use coro_http.Pool.Calls.{PoolCall, gets, gets_ssl, releases, drops, run, start}
use coro_http.Pool.Calls.Exclusive.{run-AllDifferent}
use coro_http.Pool.Calls.Capacity.{IsWithin, run-start-IsWithin}

abbrev small_net : ReadOutcome → Net (ℕ × ℕ)
small_net o = record {
  now = λ w. (w.0, (w.0 + 1, w.1));
  make_socket = λ w. (w.1, (w.0, w.1 + 1));
  is_open = λ s w. true;
  remote_endpoint = λ s w. false;
  non_blocking = λ s w. (false, w);
  restore_blocking = λ s w. w;
  read_some = λ s w. (o, w);
  native_handle = λ s w. true;
  is_init_finished = λ s w. true;
  has_session = λ s w. true;
}

small_net_laws : (o : ReadOutcome) → NetLaws (small_net o)
small_net_laws o = record {
  created = λ w. w.1;
  now_created = λ w. omega arith;
  make_socket_new = λ w. omega arith;
  make_socket_created = λ w. omega arith;
  non_blocking_created = λ s w. omega arith;
  restore_blocking_created = λ s w. omega arith;
  read_some_created = λ s w. omega arith;
}

abbrev empty_pool : ConnectionPool
empty_pool = record {
  max_connections_per_host = pos 1;
  idle_timeout = 60;
  http_pool = [];
  ssl_pool = [];
}

abbrev example_host : Bytes
example_host = codes "a.org"

abbrev port_80 : Bytes
port_80 = codes "80"

-- Two requests at once, the first released and its connection used again, one dropped; and two under TLS.
abbrev calls : List PoolCall
calls =
    gets example_host port_80
    ∷ gets example_host port_80
    ∷ releases 0 example_host port_80 true
    ∷ gets_ssl example_host port_80
    ∷ gets_ssl example_host port_80
    ∷ gets example_host port_80
    ∷ drops 1
    ∷ []

reuses :
    (run
      (small_net would_block)
      (pool_key example_host port_80)
      (start empty_pool (5, 0))
      calls).held
    ≡ 0 ∷ []
unfolding run get_connection get_ssl_connection bucket release_connection without equal lookup
    insert scan coro_http.Pool.clear coro_http.Pool.holds coro_http.Pool.mark_available
reuses = refl

reuses_ssl :
    (run
      (small_net would_block)
      (pool_key example_host port_80)
      (start empty_pool (5, 0))
      calls).held_ssl
    ≡ 3 ∷ 2 ∷ []
unfolding run get_connection get_ssl_connection bucket release_connection without equal lookup
    insert scan coro_http.Pool.clear coro_http.Pool.holds coro_http.Pool.mark_available
reuses_ssl = refl

run-AllDifferent_example :
    let u =
      run (small_net would_block) (pool_key example_host port_80) (start empty_pool (5, 0)) calls in
    AllDifferent u.held × AllDifferent u.held_ssl
run-AllDifferent_example =
    run-AllDifferent (small_net would_block) (small_net_laws would_block)
      (pool_key example_host port_80) empty_pool (5, 0) calls

run-start-IsWithin_example :
    IsWithin
      (pos 1)
      (run
        (small_net would_block)
        (pool_key example_host port_80)
        (start empty_pool (5, 0))
        calls).pool
run-start-IsWithin_example =
    run-start-IsWithin (small_net would_block) (pool_key example_host port_80) empty_pool (5, 0)
      calls
