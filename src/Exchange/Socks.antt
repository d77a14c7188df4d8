-- ===== src/Exchange/Socks.antt =====
-- co_execute_https through a SOCKS5 proxy (include/coro_http/coro_http_client.hpp).
use coro_http.Base.{arith, ℕ, ◌≡◌, refl, ◌∙◌, ap, true, List, [], ◌∷◌, ◌++◌, append_assoc}
use coro_http.Base.Triples.{Ends, Ends-both}
use coro_http.Proxy.{socks5}
use coro_http.Request.{HttpRequest}
use coro_http.Url.{UrlInfo}
use coro_http.Wire.{Wire, plain}
use coro_http.Exchange.{Setup, Session, uses_proxy}
use coro_http.Exchange.Requests.{co_execute_https}
use coro_http.Exchange.Recorded.{Event, writes, recorded}
use coro_http.Exchange.Protocol.{
  Phase, reached, tunnelling, tunnelled, named, secured, sent, Step, to_proxy, to_host, connecting,
  greets, offers_login, logs_in, admits, needs_no_login, asks, grants, no_socks, sends_plain,
  tunnels, opens, no_tunnel, verifies, trusts, secures, sends, receives, breaks, closing, Reach,
  start, onward, tunnel_request,
}
use coro_http.Exchange.Direct.{co_execute_https-Completed}

-- The phases behind the tunnel.
abbrev IsLate : Phase → Type 0
IsLate tunnelling = Unit
IsLate tunnelled = Unit
IsLate named = Unit
IsLate secured = Unit
IsLate sent = Unit
IsLate _ = ⊥

module _ (c : Setup) (r : HttpRequest) (info : UrlInfo) (s : ℕ)
    (proxied : uses_proxy c.proxy.type ≡ true) where
  -- CONNECT was written where the target was reached already.
  pub record Tunnelled (log : List Event) : Type 0 where
    pub before : List Event
    pub after : List Event
    pub reached_before : Reach c true r info s before reached
    pub events : log ≡ before ++ (writes plain s (tunnel_request c true r info s) ∷ after)

  later_Tunnelled : (log new : List Event) → Tunnelled log → Tunnelled (log ++ new)
  later_Tunnelled log new t = record {
    before = t.before;
    after = t.after ++ new;
    reached_before = t.reached_before;
    events = ap (λ l. l ++ new) t.events ∙ append_assoc t.before _ new;
  }

  Step-Tunnelled :
      {p q : Phase} (log : List Event) {new : List Event}
      → Step c true r info s p new q
      → Reach c true r info s log p
      → (IsLate p → Tunnelled log)
      → IsLate q
      → Tunnelled (log ++ new)
  Step-Tunnelled log (to_proxy e) h t late = absurd late
  Step-Tunnelled log (to_host e) h t late = absurd late
  Step-Tunnelled log (connecting endpoints) h t late = absurd late
  Step-Tunnelled log (greets e) h t late = absurd late
  Step-Tunnelled log (offers_login reply e f) h t late = absurd late
  Step-Tunnelled log logs_in h t late = absurd late
  Step-Tunnelled log (admits reply e) h t late = absurd late
  Step-Tunnelled log (needs_no_login reply e f) h t late = absurd late
  Step-Tunnelled log (asks request e) h t late = absurd late
  Step-Tunnelled log (grants reply e) h t late = absurd late
  Step-Tunnelled log (no_socks e) h t late = absurd late
  Step-Tunnelled log (sends_plain e) h t late = absurd (ground (arith, e))
  Step-Tunnelled log (tunnels e f) h t late = record {
    before = log;
    after = [];
    reached_before = h;
    events = refl;
  }
  Step-Tunnelled log (opens reply e) h t late = later_Tunnelled log _ (t tt)
  Step-Tunnelled log (no_tunnel e f) h t late = absurd (ground (arith, f, proxied))
  Step-Tunnelled log (verifies e) h t late = later_Tunnelled log _ (t tt)
  Step-Tunnelled log (trusts e) h t late = later_Tunnelled log _ (t tt)
  Step-Tunnelled log secures h t late = later_Tunnelled log _ (t tt)
  Step-Tunnelled log sends h t late = later_Tunnelled log _ (t tt)
  Step-Tunnelled log (receives bytes) h t late = later_Tunnelled log _ (t tt)
  Step-Tunnelled log (breaks p e a k) h t late = absurd late
  Step-Tunnelled log (closing p) h t late = absurd late

  Reach-Tunnelled :
      {log : List Event} {p : Phase} → Reach c true r info s log p → IsLate p → Tunnelled log
  Reach-Tunnelled start late = absurd late
  Reach-Tunnelled (onward {log} before step) late =
      Step-Tunnelled log step before (Reach-Tunnelled before) late

-- Where the proxy is a SOCKS5 proxy and `co_execute_https` returns, from a log without events, it has
-- written a CONNECT request, with the login of the proxy, in the clear on the socket on which the
-- protocol had reached the target.
pub co_execute_https_socks :
    {W : Type 0} (wire : Wire W) (c : Setup) (r : HttpRequest) (info : UrlInfo)
    (st : Session (List Event × W)) (is_socks : c.proxy.type ≡ socks5)
    → st.world.0 ≡ []
    → Ends
        (λ _ later. (s : ℕ) × Tunnelled c r info s (ap uses_proxy is_socks) later.world.0)
        (λ later. Unit)
        (co_execute_https (recorded wire) c r info st)
co_execute_https_socks wire c r info st is_socks h =
    let proxied = ap uses_proxy is_socks in
    Ends-both (co_execute_https (recorded wire) c r info st)
      (λ a later k. (
        k.socket,
        rw k.events (
            later_Tunnelled c r info k.socket proxied k.before _
              (Reach-Tunnelled c r info k.socket proxied k.reached_sent tt)),
      ))
      (λ later k. tt) (co_execute_https-Completed wire c r info st (ground (arith, proxied)) h)
