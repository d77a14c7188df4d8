-- ===== src/Exchange/Transferred.antt =====
-- What co_execute_http_pooled (include/coro_http/coro_http_client.hpp) does before the last reference
-- to the socket goes.
use coro_http.Base.{ℕ, ◌≡◌, refl, ◌⊎◌, inl, inr, true, List, [], ◌∷◌, Bytes, if◌then◌else◌}
use coro_http.Base.Awaiting.{co_return, on_exception}
use coro_http.Base.Triples.{
  Triple, Triple-return, Triple-if, Triple-to, Triple-on_exception, Triple-bind, Triple-any,
  Triple-gets,
}
use coro_http.Pool.{ConnectionPool, release_connection}
use coro_http.Pool.Keeps.{release_connection-keeps}
use coro_http.Request.{HttpRequest, build_request}
use coro_http.Response.{HttpResponse}
use coro_http.Url.{UrlInfo}
use coro_http.Wire.{Wire, plain}
use coro_http.Exchange.{Setup, Session, parse, should_keep_alive, on_world, connect_to, shut}
use coro_http.Exchange.Requests.{pooled_transfer, pooled_exchange}
use coro_http.Exchange.Recorded.{
  Event, resolves, connects, shuts, closes, recorded, recorded_net, recorded-NetKeeps, adding, At,
  By, in_world-At, on_world-At, on_pool-At,
}
use coro_http.Exchange.Heard.{joined, transfer-At}
use coro_http.Base.Outcome.{returned}
use coro_http.Exchange.Answers.{Opening, exchanged, closed}

module _ {W : Type 0} (wire : Wire W) (c : Setup) (r : HttpRequest) (info : UrlInfo) (s : ℕ)
    (p : ConnectionPool) where
  -- What holds before the destructor: a response with its calls, or a log of a failure.
  pub record Ready (response : HttpResponse) (st : Session (List Event × W)) : Type 0 where
    pub before : List Event
    pub opening : Opening s info before
    pub pieces : List Bytes
    pub received : parse c (joined pieces) ≡ returned response
    pub pool :
        By
          (release_connection
            (recorded_net wire.net)
            s
            info.host
            info.port
            (should_keep_alive response))
          p
          st.connection_pool
    pub events : st.world.0 ≡ (
        if should_keep_alive response
        then exchanged wire c r info s p before pieces
        else closed wire c r info s p (exchanged wire c r info s p before pieces))

  pub record Broken (st : Session (List Event × W)) : Type 0 where
    pub before : List Event
    pub opening : Opening s info before
    pub pool : st.connection_pool ≡ p
    pub events :
        (st.world.0 ≡ before)
        ⊎ ((pieces : List Bytes) × (st.world.0
              ≡ closed wire c r info s p (exchanged wire c r info s p before pieces)))

  -- The socket closed, or kept, behind its return to the pool.
  ends-Ready :
      {E : Session (List Event × W) → Type 0} (before : List Event) (pieces : List Bytes)
      (response : HttpResponse)
      → parse c (joined pieces) ≡ returned response
      → Opening s info before
      → let keep = should_keep_alive response in
        Triple
          (At
            (exchanged wire c r info s p before pieces)
            (By (release_connection (recorded_net wire.net) s info.host info.port keep) p))
          (if keep then co_return tt else on_world (shut (recorded wire) s))
          (λ _. Ready response)
          E
  ends-Ready before pieces response received opening =
      let keep = should_keep_alive response in
      let calls = exchanged wire c r info s p before pieces in
      Triple-if keep _ _
        (λ kept. Triple-return tt (λ st h. record {
          before = before;
          opening = opening;
          pieces = pieces;
          received = received;
          pool = h.pool;
          events = rw kept h.events;
        }))
        (λ is_closed.
          Triple-to _ _
            (λ u st h. record {
              before = before;
              opening = opening;
              pieces = pieces;
              received = received;
              pool = h.pool;
              events = rw is_closed h.events;
            })
            (on_world-At calls _ (λ k. adding (adding k (shuts s)) (closes s)) _ (λ w. refl)))

  -- A request broke off: its connection is shut and closed.
  Closing : List Event → Session (List Event × W) → Type 0
  Closing before st =
      (pieces : List Bytes) × At (exchanged wire c r info s p before pieces) (λ q. q ≡ p) st

  shut-Broken :
      (before : List Event)
      → Opening s info before
      → Triple (Closing before) (on_world (shut (recorded wire) s)) (λ _. Broken) Broken
  unfolding Closing
  shut-Broken before opening =
      Triple-any {X = List Bytes}
        (λ pieces. At (exchanged wire c r info s p before pieces) (λ q. q ≡ p)) _ (λ st h. h)
        (λ pieces.
          Triple-to _ _
            (λ u st h. record {
              before = before;
              opening = opening;
              pool = h.pool;
              events = inr (pieces, h.events);
            })
            (on_world-At (exchanged wire c r info s p before pieces) _
              (λ k. adding (adding k (shuts s)) (closes s)) _ (λ w. refl)))

  pooled_transfer-Ready :
      (before : List Event)
      → Opening s info before
      → Triple
          (At before (λ q. q ≡ p))
          (on_exception
            (on_world (shut (recorded wire) s))
            (pooled_transfer (recorded wire) c s r info))
          Ready
          Broken
  unfolding pooled_transfer Closing
  pooled_transfer-Ready before opening =
      let text = build_request r info c.config.enable_compression true in
      let release = λ (response : HttpResponse).
        release_connection (recorded_net wire.net) s info.host info.port
          (should_keep_alive response) in
      Triple-on_exception (Closing before) (on_world (shut (recorded wire) s)) _
        (Triple-bind _ _ _
          (transfer-At wire c plain s r.method text before (λ q. q ≡ p)
            (λ pieces st h. (pieces, h)))
          (λ response.
            Triple-any {X = (pieces : List Bytes) × (parse c (joined pieces) ≡ returned response)}
              (λ x. At (exchanged wire c r info s p before x.0) (λ q. q ≡ p)) _
              (λ st h. ((h.0, h.1), h.2))
              (λ x.
                let calls = exchanged wire c r info s p before x.0 in
                Triple-bind _ _ _
                  (on_pool-At calls p (release response) (λ q w h.
                    release_connection-keeps (recorded_net wire.net) (λ w. w.0 ≡ calls)
                      (recorded-NetKeeps wire.net calls) s info.host info.port
                      (should_keep_alive response) q w h))
                  (λ u.
                    Triple-bind _ _ _ (ends-Ready before x.0 response x.1 opening)
                      (λ v. Triple-return response (λ st h. h))))))
        (shut-Broken before opening)

  connect_to-At :
      Triple
        (At [] (λ q. q ≡ p))
        (connect_to (recorded wire) s info.host info.port)
        (λ _ st. (before : List Event) × (Opening s info before × At before (λ q. q ≡ p) st))
        Broken
  unfolding connect_to
  connect_to-At =
      let first = resolves info.host info.port in
      Triple-bind _ _ _
        (in_world-At [] _ (λ k. adding k first) _ (λ w. refl)
          (λ st h. record {
            before = first ∷ [];
            opening = inr (inl refl);
            events = inl h.events;
            pool = h.pool;
          }))
        (λ endpoints.
          Triple-to _ _
            (λ u st h. (first ∷ connects s endpoints ∷ [], (inr (inr (endpoints, refl)), h)))
            (in_world-At (first ∷ []) _ (λ k. adding k (connects s endpoints)) _ (λ w. refl)
              (λ st h. record {
                before = first ∷ connects s endpoints ∷ [];
                opening = inr (inr (endpoints, refl));
                events = inl h.events;
                pool = h.pool;
              })))

  pub pooled_exchange-Ready :
      Triple (At [] (λ q. q ≡ p)) (pooled_exchange (recorded wire) c s r info) Ready Broken
  unfolding pooled_exchange
  pooled_exchange-Ready =
      Triple-bind (λ b. At [] (λ q. q ≡ p)) _ _ (Triple-gets _ (λ st h. h))
        (λ is_open.
          Triple-bind _ _ _
            (Triple-if is_open _ _ (λ e. Triple-return tt (λ st h. ([], (inl refl, h))))
              (λ e. connect_to-At))
            (λ u.
              Triple-any (λ before st. Opening s info before × At before (λ q. q ≡ p) st) _
                (λ st h. h)
                (λ before.
                  Triple-any {X = Opening s info before} (λ opening. At before (λ q. q ≡ p)) _
                    (λ st h. h) (λ opening. pooled_transfer-Ready before opening))))
