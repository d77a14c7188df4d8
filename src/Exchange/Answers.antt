-- ===== src/Exchange/Answers.antt =====
-- How co_execute_http_pooled (include/coro_http/coro_http_client.hpp) ends, in its log and in the pool.
use coro_http.Base.{ℕ, ◌≡◌, ◌⊎◌, true, ◌++◌, List, [], ◌∷◌, Bytes, if◌then◌else◌}
use coro_http.Pool.{ConnectionPool, bucket, holds, pool_key, release_connection}
use coro_http.Request.{HttpRequest, build_request}
use coro_http.Response.{HttpResponse}
use coro_http.Url.{UrlInfo}
use coro_http.Wire.{Wire, plain}
use coro_http.Exchange.{Setup, Session, parse, should_keep_alive}
use coro_http.Exchange.Recorded.{
  Event, resolves, connects, writes, shuts, closes, recorded_net, adding, By,
}
use coro_http.Exchange.Heard.{reads_of, joined}
use coro_http.Base.Outcome.{returned}

-- A beginning of the resolution of the host and the connection of the socket to what it gave.
abbrev pub Opening : ℕ → UrlInfo → List Event → Type 0
Opening s info log =
    (log ≡ [])
    ⊎ (log ≡ resolves info.host info.port ∷ [])
    ⊎ ((endpoints : List Bytes) × (log ≡ resolves info.host info.port ∷ connects s endpoints ∷ []))

module _ {W : Type 0} (wire : Wire W) (c : Setup) (r : HttpRequest) (info : UrlInfo) (s : ℕ)
    (p : ConnectionPool) where
  abbrev pub text : Bytes
  text = build_request r info c.config.enable_compression true

  -- The calls of a request on the socket, with what its reads brought.
  abbrev pub exchanged : List Event → List Bytes → List Event
  exchanged before pieces = adding before (writes plain s text) ++ reads_of plain s pieces

  abbrev pub closed : List Event → List Event
  closed log = adding (adding log (shuts s)) (closes s)

  -- The end of the request's `shared_ptr`, with the pool that it leaves.
  abbrev pub let_go_of : ConnectionPool → List Event → List Event
  let_go_of q log =
      if holds s (bucket (pool_key info.host info.port) q.http_pool)
      then log
      else adding log (closes s)

  -- The request written once, the response made of the bytes that the reads behind it brought, and the
  -- socket given back to the pool, closed where the response does not keep it.
  pub record Answered (response : HttpResponse) (st : Session (List Event × W)) : Type 0 where
    pub before : List Event
    pub opening : Opening s info before
    pub pieces : List Bytes
    pub received : parse c (joined pieces) ≡ returned response
    pub pool :
        By
          (release_connection
            (recorded_net wire.net)
            s
            info.host
            info.port
            (should_keep_alive response))
          p
          st.connection_pool
    pub events :
        st.world.0
        ≡ let_go_of st.connection_pool (
            if should_keep_alive response
            then exchanged before pieces
            else closed (exchanged before pieces))

  -- The pool is as it was; the socket is closed if the request was written.
  pub record Failed (st : Session (List Event × W)) : Type 0 where
    pub before : List Event
    pub opening : Opening s info before
    pub pool : st.connection_pool ≡ p
    pub events :
        (st.world.0 ≡ let_go_of p before)
        ⊎ ((pieces : List Bytes) × (st.world.0 ≡ let_go_of p (closed (exchanged before pieces))))
