-- ===== src/Exchange/Direct.antt =====
-- co_execute_http and co_execute_https outside the pool, beside the protocol
-- (include/coro_http/coro_http_client.hpp).
use coro_http.Base.{arith, ℕ, ◌≡◌, refl, Bool, true, false, not, ◌&&◌, List, []}
use coro_http.Base.Awaiting.{Awaitable}
use coro_http.Base.Triples.{
  Ends, Triple, Triple-if, Triple-to, Triple-bind, Triple-any, Triple-finally, Triple-both,
  Ends-both,
}
use coro_http.Request.{HttpRequest, build_request}
use coro_http.Response.{HttpResponse}
use coro_http.Url.{UrlInfo}
use coro_http.Wire.{Wire, plain, tls}
use coro_http.Exchange.{Setup, Session, uses_proxy, request_text, with_socket, acquire_slot}
use coro_http.Exchange.Requests.{execute_on, execute_tls_on, co_execute_http, co_execute_https}
use coro_http.Exchange.Recorded.{Event, closes, recorded, adding, At, acquire_slot-At}
use coro_http.Exchange.Parts.{
  In, Stopped, co_connect_socket-Reach, co_establish_tunnel-Reach, secure-Reach, transfer-Reach,
  skip-Reach,
}
use coro_http.Exchange.Protocol.{
  begun, sent, closed, sends_plain, no_tunnel, sends, closing, Reach, start, onward, Private,
  Reach-Private,
}

module _ {W : Type 0} (wire : Wire W) (c : Setup) (tls_on : Bool) (r : HttpRequest)
    (info : UrlInfo) where
  -- The whole protocol, up to the request, and the socket closed.
  pub record Completed (log : List Event) : Type 0 where
    pub socket : ℕ
    pub before : List Event
    pub reached_sent : Reach c tls_on r info socket before sent
    pub events : log ≡ adding before (closes socket)

  -- A beginning of the protocol, and the socket closed.
  pub record Aborted (log : List Event) : Type 0 where
    pub socket : ℕ
    pub reached_closed : Reach c tls_on r info socket log closed

  abbrev Empty : Session (List Event × W) → Type 0
  Empty st = st.world.0 ≡ []

  with_socket-Completed :
      (body : ℕ → Awaitable (Session (List Event × W)) HttpResponse)
      → ((s : ℕ)
          → Triple
              (In wire c tls_on r info s begun)
              (body s)
              (λ _. In wire c tls_on r info s sent)
              (Stopped wire c tls_on r info s))
      → Triple Empty
          (with_socket (recorded wire) body)
          (λ _ st. Completed st.world.0)
          (λ st. Aborted st.world.0)
  with_socket-Completed body steps = record {
    at = λ st h.
        let s = (wire.net.make_socket st.world.1).0 in
        (Triple-finally {P = In wire c tls_on r info s begun} _ (body s) (
            Triple-both (body s)
              (λ a later k. record {
                socket = s;
                before = later.world.0;
                reached_sent = k;
                events = refl;
              })
              (λ later k. record { socket = s; reached_closed = onward k.1 (closing k.0) })
              (steps s))).at
          (record st { world = ((recorded wire).net.make_socket st.world).1 }) (rw h start);
  }

  acquire_slot-Empty :
      {E : Session (List Event × W) → Type 0}
      → Triple Empty (acquire_slot (recorded wire) c) (λ _. Empty) E
  acquire_slot-Empty =
      Triple-any {X = Unit} (λ u. At [] (λ _. Unit)) _
        (λ st h. (tt, record { events = h; pool = tt }))
        (λ u. Triple-to _ _ (λ a st h. h.events) (acquire_slot-At wire c [] (λ _. Unit)))

-- Whether an exchange goes to the pool.
abbrev pub is_pooled : Setup → Bool
is_pooled c = c.config.enable_connection_pool && not (uses_proxy c.proxy.type)

module _ {W : Type 0} (wire : Wire W) (c : Setup) (r : HttpRequest) (info : UrlInfo)
    (st : Session (List Event × W)) where
  -- Outside the pool, from a log without events: where `co_execute_http` returns, the calls on the wire
  -- are the whole protocol in its order, each reply of the SOCKS5 proxy read and accepted before the next
  -- message, up to the request and the reads behind it, and the close of the socket; where it throws, they
  -- are a beginning of it and the close of the socket.
  pub co_execute_http-Completed :
      is_pooled c ≡ false
      → st.world.0 ≡ []
      → Ends
          (λ _ later. Completed wire c false r info later.world.0)
          (λ later. Aborted wire c false r info later.world.0)
          (co_execute_http (recorded wire) c r info st)
  unfolding co_execute_http execute_on
  co_execute_http-Completed off h =
      let steps : (s : ℕ)
          → Triple (In wire c false r info s begun) (execute_on (recorded wire) c r info s)
              (λ _. In wire c false r info s sent) (Stopped wire c false r info s) =
        λ s. Triple-bind _ _ _ (co_connect_socket-Reach wire c false r info s) (λ u.
          transfer-Reach wire c false r info s plain (request_text c r info) refl
            (sends_plain refl)) in
      (Triple-bind _ _ _ (acquire_slot-Empty wire c false r info) (λ u.
          Triple-if (is_pooled c) _ _ (λ on. absurd (ground (arith, off, on)))
            (λ e. with_socket-Completed wire c false r info _ steps))).at
        st h

  execute_tls_on-Reach :
      (s : ℕ)
      → Triple
          (In wire c true r info s begun)
          (execute_tls_on (recorded wire) c r info s)
          (λ _. In wire c true r info s sent)
          (Stopped wire c true r info s)
  unfolding execute_tls_on
  execute_tls_on-Reach s = Triple-bind _ _ _ (co_connect_socket-Reach wire c true r info s) (λ u.
      Triple-bind _ _ _
        (Triple-if (uses_proxy c.proxy.type) _ _
          (co_establish_tunnel-Reach wire c true r info s refl)
          (λ e. skip-Reach wire c true r info s (no_tunnel refl e)))
        (λ v. Triple-bind _ _ _ (secure-Reach wire c true r info s) (λ w.
          transfer-Reach wire c true r info s tls
            (build_request r info c.config.enable_compression false) refl sends)))

  pub co_execute_https-Completed :
      is_pooled c ≡ false
      → st.world.0 ≡ []
      → Ends
          (λ _ later. Completed wire c true r info later.world.0)
          (λ later. Aborted wire c true r info later.world.0)
          (co_execute_https (recorded wire) c r info st)
  unfolding co_execute_https
  co_execute_https-Completed off h =
      (Triple-bind _ _ _ (acquire_slot-Empty wire c true r info) (λ u.
          Triple-if (is_pooled c) _ _ (λ on. absurd (ground (arith, off, on)))
            (λ e. with_socket-Completed wire c true r info _ execute_tls_on-Reach))).at
        st h

  Completed-Private :
      (log : List Event) → Completed wire c true r info log → Private c info false log
  Completed-Private log k =
      rw k.events (Reach-Private c r info k.socket (onward k.reached_sent (closing sent))).0

  -- Outside the pool, from a log without events: however `co_execute_https` ends, all that it wrote in
  -- the clear are texts of the handshakes (those of SOCKS5 and the CONNECT request), which hold the login
  -- of the proxy and the host and port of the target, whoever reads them; and what it wrote over TLS came
  -- behind the TLS handshake. Nothing of the request itself goes in the clear.
  pub co_execute_https-Private :
      is_pooled c ≡ false
      → st.world.0 ≡ []
      → Ends
          (λ _ later. Private c info false later.world.0)
          (λ later. Private c info false later.world.0)
          (co_execute_https (recorded wire) c r info st)
  co_execute_https-Private off h =
      Ends-both (co_execute_https (recorded wire) c r info st)
        (λ a later k. Completed-Private later.world.0 k)
        (λ later k. (Reach-Private c r info k.socket k.reached_closed).0)
        (co_execute_https-Completed off h)
