-- ===== src/Exchange/Tests.antt =====
-- Exchanges over the small wire.
use coro_http.Base.{arith, equal, inr, ℕ, ◌≡◌, refl, true, false, [], ◌∷◌, Bytes, codes}
use coro_http.Base.Triples.{Ends}
use coro_http.Base.Dict.{lookup}
use coro_http.Pool.{PooledConnection, bucket, pool_key}
use coro_http.Pool.Calls.Exclusive.{UsageInv}
use coro_http.Proxy.{no_info, http, socks5}
use coro_http.Exchange.{Session, should_keep_alive}
use coro_http.Exchange.Requests.{
  co_execute_http, co_execute_https, co_execute_http_pooled, co_execute_https_pooled,
}
use coro_http.Exchange.Recorded.{recorded}
use coro_http.Exchange.Protocol.{Private}
use coro_http.Exchange.Direct.{
  Completed, Aborted, co_execute_http-Completed, co_execute_https-Private,
}
use coro_http.Exchange.Socks.{Tunnelled, co_execute_https_socks}
use coro_http.Exchange.Leases.{usage, co_execute_http_pooled-UsageInv}
use coro_http.Exchange.Closing.{co_execute_https_pooled-Kept}
use coro_http.Exchange.SmallWire.{
  World, small_net, small_wire, small_net_laws, small_laws, example_url, example_request, through,
  setup, world, session, recorded_session,
}

co_execute_https-Private_example :
    Ends
      (λ _ later. Private (setup (through socks5)) example_url false later.world.0)
      (λ later. Private (setup (through socks5)) example_url false later.world.0)
      (co_execute_https
        (recorded small_wire)
        (setup (through socks5))
        example_request
        example_url
        recorded_session)
co_execute_https-Private_example =
    co_execute_https-Private small_wire (setup (through socks5)) example_request example_url
      recorded_session refl refl

co_execute_http-Completed_example :
    Ends
      (λ _ later.
        Completed small_wire (setup (through http)) false example_request example_url later.world.0)
      (λ later.
        Aborted small_wire (setup (through http)) false example_request example_url later.world.0)
      (co_execute_http
        (recorded small_wire)
        (setup (through http))
        example_request
        example_url
        recorded_session)
co_execute_http-Completed_example =
    co_execute_http-Completed small_wire (setup (through http)) example_request example_url
      recorded_session refl refl

co_execute_https_socks_example :
    Ends
      (λ _ later.
        (s : ℕ) × Tunnelled
          (setup (through socks5))
          example_request
          example_url
          s
          refl
          later.world.0)
      (λ later. Unit)
      (co_execute_https
        (recorded small_wire)
        (setup (through socks5))
        example_request
        example_url
        recorded_session)
co_execute_https_socks_example =
    co_execute_https_socks small_wire (setup (through socks5)) example_request example_url
      recorded_session refl refl

abbrev example_key : Bytes
example_key = pool_key example_url.host example_url.port

-- The first socket is idle in the pool, and another request holds the second.
abbrev shared_session : Session World
shared_session =
    let first : PooledConnection = record { socket = 0; last_used = 0; in_use = false } in
    record session {
      connection_pool = record session.connection_pool {
        http_pool = (example_key, first ∷ []) ∷ [];
      };
      world = record session.world { sockets = 2 };
    }

co_execute_http_pooled-UsageInv_example :
    Ends
      (λ _ later. UsageInv small_net small_net_laws example_key (usage later (1 ∷ [])))
      (λ later. UsageInv small_net small_net_laws example_key (usage later (1 ∷ [])))
      (co_execute_http_pooled small_wire (setup no_info) example_request example_url shared_session)
unfolding bucket lookup equal
co_execute_http_pooled-UsageInv_example =
    co_execute_http_pooled-UsageInv small_wire small_laws example_key (setup no_info)
      example_request example_url (1 ∷ []) shared_session
      (record {
        distinct = (tt, tt);
        below = (omega arith, tt);
        held_below = (omega arith, tt);
        unheld = (inr ((λ e. omega (arith, e)), tt), tt);
        different = (tt, tt);
      })

co_execute_https_pooled-Kept_example :
    Ends
      (λ response later. should_keep_alive response ≡ true)
      (λ later. Unit)
      (co_execute_https_pooled small_wire (setup no_info) example_request example_url session)
co_execute_https_pooled-Kept_example =
    co_execute_https_pooled-Kept small_wire (setup no_info) example_request example_url
      (λ s w. (codes "stream truncated", refl)) session
