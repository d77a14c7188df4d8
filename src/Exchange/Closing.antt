-- ===== src/Exchange/Closing.antt =====
-- co_execute_https_pooled where the server closes the connection without the close of TLS.
use coro_http.Base.{◌≡◌, ℕ, Bool, true, Bytes, Option, none, some, if◌then◌else◌}
use coro_http.Base.Outcome.{Outcome, returned, thrown, undefined}
use coro_http.Base.Awaiting.{Awaitable, co_return, gets, ◌>>◌, on_exception}
use coro_http.Base.Triples.{
  Ends, Triple, Triple-return, Triple-if, Triple-on_exception, Triple-bind, Triple-finally,
}
use coro_http.Pool.{release_ssl_connection}
use coro_http.Request.{HttpRequest, build_request}
use coro_http.Response.{HttpResponse}
use coro_http.Url.{UrlInfo}
use coro_http.Wire.{Wire, tls}
use coro_http.Exchange.{Setup, Session, should_keep_alive, on_world, on_pool, connect_to, in_world}
use coro_http.Exchange.Requests.{
  transfer, pooled_tls_transfer, co_execute_https_pooled, pooled_tls_on, pooled_tls_exchange,
}
use coro_http.Exchange.Connect.{secure}

abbrev Any : {S : Type 0} → S → Type 0
Any s = Unit

module _ {S A : Type 0} where
  Ends-Any : (r : Option (Outcome A × S)) → Ends (λ _. Any) Any r
  Ends-Any none = tt
  Ends-Any (some (returned a, s)) = tt
  Ends-Any (some (thrown e, s)) = tt
  Ends-Any (some (undefined, s)) = tt

  -- Nothing is said of a coroutine.
  Triple-nothing : (m : Awaitable S A) → Triple Any m (λ _. Any) Any
  Triple-nothing m = record { at = λ s p. Ends-Any (m s) }

module _ {W : Type 0} (wire : Wire W) (c : Setup) (r : HttpRequest) (info : UrlInfo)
    (fails : (s : ℕ) (w : W) → (e : Bytes) × ((wire.tls_shutdown s w).0 ≡ thrown e)) where
  -- The shutdown of TLS throws, so nothing follows it.
  shutdown-throws : (s : ℕ) → Triple Any (in_world (wire.tls_shutdown s)) (λ _ _. ⊥) Any
  shutdown-throws s = record { at = λ st p. let (e, h) = fails s st.world in rw (h, Ends) tt }

  -- A response is returned only where the connection stays open.
  abbrev Kept : HttpResponse → Session W → Type 0
  Kept response st = should_keep_alive response ≡ true

  pooled_tls_transfer-Kept :
      (s : ℕ)
      → Triple Any
          (on_exception (on_world (wire.close s)) (pooled_tls_transfer wire c s r info))
          Kept
          Any
  unfolding pooled_tls_transfer
  pooled_tls_transfer-Kept s =
      let text = build_request r info c.config.enable_compression true in
      Triple-on_exception Any (on_world (wire.close s)) (pooled_tls_transfer wire c s r info)
        (Triple-bind (λ _. Any) _ _ (Triple-nothing (transfer wire c tls s r.method text))
          (λ response.
            Triple-bind (λ _. Any) _ _
              (Triple-nothing (
                on_pool (
                  release_ssl_connection wire.net s info.host info.port
                    (should_keep_alive response))))
              (λ u.
                Triple-bind (λ _ st. Kept response st) _ _
                  (Triple-if (should_keep_alive response) (co_return tt)
                    (in_world (wire.tls_shutdown s) >> on_world (wire.close s))
                    (λ e. Triple-return tt (λ st h. e))
                    (λ e.
                      Triple-bind _ (in_world (wire.tls_shutdown s)) (λ _. on_world (wire.close s))
                        (shutdown-throws s) (λ v. record { at = λ st h. absurd h })))
                  (λ v. Triple-return response (λ st h. h)))))
        (Triple-nothing _)

  pooled_tls_exchange-Kept : (s : ℕ) → Triple Any (pooled_tls_exchange wire c s r info) Kept Any
  unfolding pooled_tls_exchange
  pooled_tls_exchange-Kept s =
      let opens = λ (is_open : Bool).
        if is_open
        then co_return tt
        else connect_to wire s info.host info.port >> secure wire c s info in
      Triple-bind (λ _. Any) (gets (λ (st : Session W). wire.net.is_open s st.world)) _
        (Triple-nothing _)
        (λ is_open.
          Triple-bind (λ _. Any) (opens is_open) _ (Triple-nothing _)
            (λ u. pooled_tls_transfer-Kept s))

  pooled_tls_on-Kept : (s : ℕ) → Triple Any (pooled_tls_on wire c s r info) Kept Any
  unfolding pooled_tls_on
  pooled_tls_on-Kept s = Triple-finally _ _ (pooled_tls_exchange-Kept s)

  -- Where the shutdown of TLS throws, `co_execute_https_pooled` returns a response only if it keeps the
  -- connection alive.
  pub co_execute_https_pooled-Kept :
      (st : Session W)
      → Ends
          (λ response later. should_keep_alive response ≡ true)
          (λ later. Unit)
          (co_execute_https_pooled wire c r info st)
  unfolding co_execute_https_pooled
  co_execute_https_pooled-Kept st = (pooled_tls_on-Kept _).at _ tt
