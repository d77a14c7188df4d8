-- ===== src/Pool/Calls/Capacity.antt =====
-- The limit on the connections kept for one host.
use coro_http.Base.{
  ℕ, ◌≤◌, ◌≡◌, refl, Bool, true, Option, none, some, List, [], ◌∷◌, inl, inr, Bytes, equal, arith,
  length, length-append, Bool-cases,
}
use coro_http.Base.Int.{ℤ, ltz, pos_part, ltz-pos_part}
use coro_http.Base.Dict.{Dict, lookup, insert}
use coro_http.Net.{Net}
use coro_http.Pool.{
  PooledConnection, ConnectionPool, Scan, scan, create, finish, take_connection, discard,
  mark_available, put_back, bucket, pool_key, clear, is_socket_valid, is_ssl_socket_valid,
  get_connection, get_ssl_connection, release_connection, release_ssl_connection,
}
use coro_http.Pool.Deque.{length-scan}
use coro_http.Pool.Calls.{
  Usage, PoolCall, gets, gets_ssl, releases, releases_ssl, drops, clears, step, run, start,
  bucket-insert,
}

module _ {W : Type 0} (net : Net W) where
  length-finish :
      (max : ℤ) (o : Option ℕ) (r : Scan W)
      → length r.connections ≤ pos_part max
      → length (finish net max o r).1 ≤ pos_part max
  unfolding finish create
  length-finish max (some s) r h = h
  length-finish max none r h = elim (Bool-cases (ltz (length r.connections) max)) [
    | inl room ↦ rw room (
        ground (
          arith,
          length-append r.connections (
              record {
                socket = (net.make_socket r.world).0;
                last_used = (net.now (net.make_socket r.world).1).0;
                in_use = true;
              }
              ∷ []),
          ltz-pos_part (length r.connections) max,
        ))
    | inr full ↦ rw full h
  ]

  length-take_connection :
      (valid : ℕ → W → Bool × W) (max : ℤ) (idle : ℕ) (cs : List PooledConnection) (w : W)
      → length cs ≤ pos_part max
      → length (take_connection net valid max idle cs w).1 ≤ pos_part max
  unfolding take_connection
  length-take_connection valid max idle cs w h =
      let (t, w') = net.now w in
      let r = scan net valid t idle cs w' in
      length-finish max r.found r (omega (arith, length-scan net valid t idle cs w'))

  length-discard : (s : ℕ) (cs : List PooledConnection) → length (discard s cs) ≤ length cs
  unfolding discard
  length-discard s [] = omega arith
  length-discard s (c ∷ cs) = ground (arith, length-discard s cs)

  length-mark_available :
      (s t : ℕ) (cs : List PooledConnection) → length (mark_available s t cs) ≡ length cs
  unfolding mark_available
  length-mark_available s t [] = omega arith
  length-mark_available s t (c ∷ cs) = ground (arith, length-mark_available s t cs)

  length-put_back :
      (s : ℕ) (keep_alive : Bool) (cs : List PooledConnection) (w : W)
      → length (put_back net s keep_alive cs w).0 ≤ length cs
  unfolding put_back
  length-put_back s keep_alive cs w =
      ground (arith, length-discard s cs, length-mark_available s (net.now w).0 cs)

-- No host and port has more connections than the limit, in either pool; a negative limit means none.
pub record IsWithin (max : ℤ) (p : ConnectionPool) : Type 0 where
  pub same_limit : p.max_connections_per_host ≡ max
  pub http : (k : Bytes) → length (bucket k p.http_pool) ≤ pos_part max
  pub ssl : (k : Bytes) → length (bucket k p.ssl_pool) ≤ pos_part max

module _ {W : Type 0} (net : Net W) (key : Bytes) (max : ℤ) where
  -- One bucket written with a deque that is within the limit.
  insert_within :
      (k j : Bytes) (cs : List PooledConnection) (m : Dict (List PooledConnection))
      → ((i : Bytes) → length (bucket i m) ≤ pos_part max)
      → length cs ≤ pos_part max
      → length (bucket j (insert k cs m)) ≤ pos_part max
  insert_within k j cs m h n = elim (Bool-cases (equal k j)) [
    | inl same ↦ rw (bucket-insert, same) n
    | inr other ↦ rw (bucket-insert, other) (h j)
  ]

  taken_within :
      (valid : ℕ → W → Bool × W) (p : ConnectionPool) (cs : List PooledConnection) (w : W)
      → p.max_connections_per_host ≡ max
      → length cs ≤ pos_part max
      → length (take_connection net valid p.max_connections_per_host p.idle_timeout cs w).1
        ≤ pos_part max
  taken_within valid p cs w e h = rw e (length-take_connection net valid max p.idle_timeout cs w h)

  put_within :
      (s : ℕ) (keep_alive : Bool) (cs : List PooledConnection) (w : W)
      → length cs ≤ pos_part max
      → length (put_back net s keep_alive cs w).0 ≤ pos_part max
  put_within s keep_alive cs w h = omega (arith, length-put_back net s keep_alive cs w)

  step-IsWithin :
      (u : Usage W) (c : PoolCall) → IsWithin max u.pool → IsWithin max (step net key u c).pool
  unfolding step get_connection get_ssl_connection release_connection release_ssl_connection clear
      bucket lookup
  step-IsWithin u (gets h q) v = record {
    same_limit = v.same_limit;
    http = λ k.
        insert_within _ k _ u.pool.http_pool v.http (
          taken_within (is_socket_valid net) u.pool _ u.world v.same_limit (v.http (pool_key h q)));
    ssl = v.ssl;
  }
  step-IsWithin u (gets_ssl h q) v = record {
    same_limit = v.same_limit;
    http = v.http;
    ssl = λ k. insert_within _ k _ u.pool.ssl_pool v.ssl (
        taken_within (is_ssl_socket_valid net) u.pool _ u.world v.same_limit
          (v.ssl (pool_key h q)));
  }
  step-IsWithin u (releases s h q keep_alive) v = record {
    same_limit = v.same_limit;
    http = λ k.
        insert_within _ k _ u.pool.http_pool v.http
          (put_within s keep_alive _ u.world (v.http (pool_key h q)));
    ssl = v.ssl;
  }
  step-IsWithin u (releases_ssl s h q keep_alive) v = record {
    same_limit = v.same_limit;
    http = v.http;
    ssl = λ k.
        insert_within _ k _ u.pool.ssl_pool v.ssl
          (put_within s keep_alive _ u.world (v.ssl (pool_key h q)));
  }
  step-IsWithin u (drops s) v = v
  step-IsWithin u clears v = record {
    same_limit = v.same_limit;
    http = λ k. omega arith;
    ssl = λ k. omega arith;
  }

  run-IsWithin :
      (u : Usage W) (cs : List PoolCall)
      → IsWithin max u.pool
      → IsWithin max (run net key u cs).pool
  unfolding run
  run-IsWithin u [] v = v
  run-IsWithin u (c ∷ cs) v = run-IsWithin (step net key u c) cs (step-IsWithin u c v)

-- After any calls, in any order, no host and port has more connections in either pool than the
-- limit that the pool was made with, which is still the same; a negative limit allows none.
pub run-start-IsWithin :
    {W : Type 0} (net : Net W) (key : Bytes) (p : ConnectionPool) (w : W) (cs : List PoolCall)
    → IsWithin p.max_connections_per_host (run net key (start p w) cs).pool
unfolding clear bucket lookup
run-start-IsWithin net key p w cs =
    run-IsWithin net key p.max_connections_per_host (start p w) cs
      (record { same_limit = refl; http = λ k. omega arith; ssl = λ k. omega arith })
