-- ===== src/Exchange/Protocol.antt =====
-- The order of the calls on a connection outside the pool, as a step relation: the connection to the
-- proxy or the host, the SOCKS5 handshake, the tunnel, TLS and the request, as
-- include/coro_http/coro_http_client.hpp puts them together.
use coro_http.Base.{
  arith, ℕ, ◌≡◌, refl, sym, ◌⊎◌, inl, inr, Bool, true, false, not, some, List, [], ◌∷◌, ◌++◌, Bytes,
  is_empty, get_or, if◌then◌else◌,
}
use coro_http.Base.Outcome.{returned}
use coro_http.Proxy.{
  parse_connect_response, build_connect_request, build_socks5_handshake, build_socks5_auth,
  build_socks5_connect,
}
use coro_http.Request.{HttpRequest, build_request}
use coro_http.Url.{UrlInfo}
use coro_http.Wire.{Layer, plain, tls}
use coro_http.Exchange.{Setup, uses_proxy, is_socks5, request_text}
use coro_http.Exchange.Recorded.{
  Event, resolves, connects, names, shakes_hands, writes, reads, replies, unread, shuts, shuts_tls,
  closes,
}

pub data Phase : Type 0 where
  begun resolved connected greeted challenged logging_in chosen requested reached : Phase
  tunnelling tunnelled named secured sent broken closed : Phase

-- A phase in which a reply of the proxy comes next.
abbrev pub Awaits : Phase → Type 0
Awaits greeted = Unit
Awaits logging_in = Unit
Awaits requested = Unit
Awaits tunnelling = Unit
Awaits _ = ⊥

-- A read of the socket, or one that threw.
abbrev pub IsRead : ℕ → Event → Type 0
IsRead s (reads plain n bytes) = n ≡ s
IsRead s (replies n bytes) = n ≡ s
IsRead s (unread n) = n ≡ s
IsRead s _ = ⊥

module _ (c : Setup) (secure : Bool) (r : HttpRequest) (info : UrlInfo) (s : ℕ) where
  abbrev pub greeting : Bytes
  greeting = build_socks5_handshake (not (is_empty c.proxy.username))

  abbrev pub credentials : Bytes
  credentials = build_socks5_auth c.proxy.username c.proxy.password

  abbrev pub tunnel_request : Bytes
  tunnel_request = build_connect_request info.host info.port c.proxy.username c.proxy.password

  abbrev pub stream : Layer
  stream = if secure then tls else plain

  -- One part of an exchange, with the calls that it makes.
  pub data Step : Phase → List Event → Phase → Type 0 where
    to_proxy :
        uses_proxy c.proxy.type ≡ true
        → Step begun (resolves c.proxy.host c.proxy.port ∷ []) resolved
    to_host :
        uses_proxy c.proxy.type ≡ false → Step begun (resolves info.host info.port ∷ []) resolved
    connecting : (endpoints : List Bytes) → Step resolved (connects s endpoints ∷ []) connected
    greets : is_socks5 c.proxy.type ≡ true → Step connected (writes plain s greeting ∷ []) greeted
    offers_login :
        (reply : Bytes)
        → get_or reply 0 0 ≡ 5
        → get_or reply 1 0 ≡ 2
        → Step greeted (replies s reply ∷ []) challenged
    logs_in : Step challenged (writes plain s credentials ∷ []) logging_in
    admits : (reply : Bytes) → get_or reply 1 0 ≡ 0 → Step logging_in (replies s reply ∷ []) chosen
    needs_no_login :
        (reply : Bytes)
        → get_or reply 0 0 ≡ 5
        → get_or reply 1 0 ≡ 0
        → Step greeted (replies s reply ∷ []) chosen
    asks :
        (request : Bytes)
        → build_socks5_connect info.host info.port ≡ some request
        → Step chosen (writes plain s request ∷ []) requested
    grants : (reply : Bytes) → get_or reply 1 0 ≡ 0 → Step requested (replies s reply ∷ []) reached
    no_socks : is_socks5 c.proxy.type ≡ false → Step connected [] reached
    sends_plain : secure ≡ false → Step reached (writes plain s (request_text c r info) ∷ []) sent
    tunnels :
        secure ≡ true
        → uses_proxy c.proxy.type ≡ true
        → Step reached (writes plain s tunnel_request ∷ []) tunnelling
    opens :
        (reply : Bytes)
        → parse_connect_response reply ≡ returned true
        → Step tunnelling (reads plain s reply ∷ []) tunnelled
    no_tunnel : secure ≡ true → uses_proxy c.proxy.type ≡ false → Step reached [] tunnelled
    verifies : c.config.verify_ssl ≡ true → Step tunnelled (names s info.host ∷ []) named
    trusts : c.config.verify_ssl ≡ false → Step tunnelled [] named
    secures : Step named (shakes_hands s ∷ []) secured
    sends :
        Step secured
          (writes tls s (build_request r info c.config.enable_compression false) ∷ [])
          sent
    receives : (bytes : Bytes) → Step sent (reads stream s bytes ∷ []) sent
    breaks : (p : Phase) (e : Event) → Awaits p → IsRead s e → Step p (e ∷ []) broken
    closing : (p : Phase) → Step p (closes s ∷ []) closed

  -- The calls that lead to a phase.
  pub data Reach : List Event → Phase → Type 0 where
    start : Reach [] begun
    onward :
        {log new : List Event} {p q : Phase} → Reach log p → Step p new q → Reach (log ++ new) q

-- A text of a handshake: those of SOCKS5, and the CONNECT request. They are made of the login of the
-- proxy and of the host and port of the target, whoever reads them.
abbrev pub Handshake : Setup → UrlInfo → Bytes → Type 0
Handshake c info text =
    (text ≡ build_socks5_handshake (not (is_empty c.proxy.username)))
    ⊎ (text ≡ build_socks5_auth c.proxy.username c.proxy.password)
    ⊎ (some text ≡ build_socks5_connect info.host info.port)
    ⊎ (text ≡ build_connect_request info.host info.port c.proxy.username c.proxy.password)

-- Whether the handshake of TLS has been made, behind a call.
abbrev handshake_made : Bool → Event → Bool
handshake_made b (shakes_hands s) = true
handshake_made b _ = b

-- Nothing but texts of the handshakes in the clear, and nothing over TLS before its own handshake.
abbrev Fine : Setup → UrlInfo → Bool → Event → Type 0
Fine c info b (writes plain s text) = Handshake c info text
Fine c info b (writes tls s text) = b ≡ true
Fine c info b _ = Unit

abbrev pub Private : Setup → UrlInfo → Bool → List Event → Type 0
Private c info b [] = Unit
Private c info b (e ∷ es) = Fine c info b e × Private c info (handshake_made b e) es

abbrev made : Bool → List Event → Bool
made b [] = b
made b (e ∷ es) = made (handshake_made b e) es

made-append : (b : Bool) (log new : List Event) → made b (log ++ new) ≡ made (made b log) new
made-append b [] new = refl
made-append b (e ∷ es) new = made-append (handshake_made b e) es new

Private-append :
    (c : Setup) (info : UrlInfo) (b : Bool) (log new : List Event)
    → Private c info b log
    → Private c info (made b log) new
    → Private c info b (log ++ new)
Private-append c info b [] new h k = k
Private-append c info b (e ∷ es) new h k =
    (h.0, Private-append c info (handshake_made b e) es new h.1 k)

-- The phase behind the handshake tells that it has been made.
abbrev SecuredBy : Phase → Bool → Type 0
SecuredBy secured b = b ≡ true
SecuredBy _ b = Unit

read_Fine :
    (c : Setup) (info : UrlInfo) (b : Bool) (s : ℕ) (e : Event) → IsRead s e → Fine c info b e
read_Fine c info b s (reads l n bytes) k = tt
read_Fine c info b s (replies n bytes) k = tt
read_Fine c info b s (unread n) k = tt
read_Fine c info b s (writes plain n bytes) k = absurd k
read_Fine c info b s (writes tls n bytes) k = absurd k
read_Fine c info b s (resolves h q) k = tt
read_Fine c info b s (connects n es) k = tt
read_Fine c info b s (names n h) k = tt
read_Fine c info b s (shakes_hands n) k = tt
read_Fine c info b s (shuts n) k = tt
read_Fine c info b s (shuts_tls n) k = tt
read_Fine c info b s (closes n) k = tt

module _ (c : Setup) (r : HttpRequest) (info : UrlInfo) (s : ℕ) where
  Step-Private :
      (b : Bool) {p q : Phase} {new : List Event}
      → Step c true r info s p new q
      → SecuredBy p b
      → Private c info b new × SecuredBy q (made b new)
  Step-Private b (to_proxy e) h = ((tt, tt), tt)
  Step-Private b (to_host e) h = ((tt, tt), tt)
  Step-Private b (connecting endpoints) h = ((tt, tt), tt)
  Step-Private b (greets e) h = ((inl refl, tt), tt)
  Step-Private b (offers_login reply e f) h = ((tt, tt), tt)
  Step-Private b logs_in h = ((inr (inl refl), tt), tt)
  Step-Private b (admits reply e) h = ((tt, tt), tt)
  Step-Private b (needs_no_login reply e f) h = ((tt, tt), tt)
  Step-Private b (asks request e) h = ((inr (inr (inl (sym e))), tt), tt)
  Step-Private b (grants reply e) h = ((tt, tt), tt)
  Step-Private b (no_socks e) h = (tt, tt)
  Step-Private b (sends_plain e) h = absurd (ground (arith, e))
  Step-Private b (tunnels e f) h = ((inr (inr (inr refl)), tt), tt)
  Step-Private b (opens reply e) h = ((tt, tt), tt)
  Step-Private b (no_tunnel e f) h = (tt, tt)
  Step-Private b (verifies e) h = ((tt, tt), tt)
  Step-Private b (trusts e) h = (tt, tt)
  Step-Private b secures h = ((tt, tt), refl)
  Step-Private b sends h = ((h, tt), tt)
  Step-Private b (receives bytes) h = ((tt, tt), tt)
  Step-Private b (breaks p e a k) h = ((read_Fine c info b s e k, tt), tt)
  Step-Private b (closing p) h = ((tt, tt), tt)

  -- What goes over the wire of a secure exchange, at any phase of it.
  pub Reach-Private :
      {log : List Event} {p : Phase}
      → Reach c true r info s log p
      → Private c info false log × SecuredBy p (made false log)
  Reach-Private start = (tt, tt)
  Reach-Private (onward {log} {new} before step) =
      let (h, k) = Reach-Private before in
      let (h', k') = Step-Private (made false log) step k in
      (Private-append c info false log new h h', rw made-append k')
