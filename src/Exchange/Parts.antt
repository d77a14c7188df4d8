-- ===== src/Exchange/Parts.antt =====
-- The parts of an exchange outside the pool, each a step of the protocol.
use coro_http.Base.{
  ℕ, ◌≡◌, refl, sym, Bool, true, not, some, List, [], ◌∷◌, ◌++◌, Bytes, codes, arith, ap, ◌∙◌,
  append_assoc, append-nil, get_or, ◌==◌, if◌then◌else◌,
}
use coro_http.Base.Outcome.{or_throw-returned, Outcome, returned, thrown, undefined}
use coro_http.Base.Awaiting.{co_return, throw}
use coro_http.Base.Triples.{
  Post, Triple-from, Triple, Triple-return, Triple-throw, Triple-lift, Triple-if, Triple-to,
  Triple-bind, Triple-any,
}
use coro_http.Proxy.{parse_connect_response, build_socks5_connect}
use coro_http.Reading.{RoundCode, no_error, ended, failed}
use coro_http.Request.{HttpRequest}
use coro_http.Url.{UrlInfo}
use coro_http.Wire.{Wire, Layer, plain}
use coro_http.Exchange.{
  Setup, Session, uses_proxy, is_socks5, on_world, connect_to, read_once, in_world,
}
use coro_http.Exchange.Requests.{transfer}
use coro_http.Exchange.Connect.{
  request_target, authenticate, co_perform_socks5_handshake, co_connect_socket, check_code,
  co_establish_tunnel, secure,
}
use coro_http.Exchange.Recorded.{
  Event, resolves, writes, reads, replies, unread, reply_of, recorded, adding, At, Post-any,
}
use coro_http.Exchange.Heard.{reads_of, transfer-At}
use mathlib.Core.Path.{subst}
use coro_http.Exchange.Protocol.{
  Phase, begun, resolved, connected, greeted, challenged, logging_in, chosen, requested, reached,
  tunnelling, tunnelled, secured, sent, broken, Awaits, IsRead, Step, to_proxy, to_host, connecting,
  greets, offers_login, logs_in, admits, needs_no_login, asks, grants, no_socks, tunnels, opens,
  verifies, trusts, secures, receives, breaks, Reach, onward, stream,
}

module _ {W : Type 0} (wire : Wire W) (c : Setup) (tls_on : Bool) (r : HttpRequest) (info : UrlInfo)
    (s : ℕ) where
  abbrev pub In : Phase → Session (List Event × W) → Type 0
  In p st = Reach c tls_on r info s st.world.0 p

  -- An exception comes at some phase.
  abbrev pub Stopped : Session (List Event × W) → Type 0
  Stopped st = (p : Phase) × In p st

  onward_to :
      (p q : Phase) (new log later : List Event)
      → Step c tls_on r info s p new q
      → later ≡ log ++ new
      → Reach c tls_on r info s log p
      → Reach c tls_on r info s later q
  onward_to p q new log later step e h = rw e (onward h step)

  in_world-Reach :
      {A : Type 0} {p q : Phase} {new : List Event}
      (f : List Event × W → Outcome A × (List Event × W))
      → Step c tls_on r info s p new q
      → ((w : List Event × W) → (f w).1.0 ≡ w.0 ++ new)
      → Triple (In p) (in_world f) (λ _. In q) Stopped
  in_world-Reach {p} {q} {new} f step adds = record {
    at = λ st h.
        let later = record st { world = (f st.world).1 } in
        let now = onward_to p q new st.world.0 later.world.0 step (adds st.world) h in
        Post-any _ Stopped (f st.world).0 later (λ _. now) (q, now);
  }

  on_world-Reach :
      {p q : Phase} {new : List Event} (f : List Event × W → List Event × W)
      → Step c tls_on r info s p new q
      → ((w : List Event × W) → (f w).0 ≡ w.0 ++ new)
      → Triple (In p) (on_world f) (λ _. In q) Stopped
  on_world-Reach {p} {q} {new} f step adds = record {
    at = λ st h. onward_to p q new st.world.0 (f st.world).0 step (adds st.world) h;
  }

  write-Reach :
      {p q : Phase} {l : Layer} {text : Bytes}
      → Step c tls_on r info s p (writes l s text ∷ []) q
      → Triple (In p) (in_world ((recorded wire).write l s text)) (λ _. In q) Stopped
  write-Reach step = in_world-Reach _ step (λ w. refl)

  -- A reply has come at the phase `p`, and nothing has been made of it yet.
  Told : Phase → Event → Session (List Event × W) → Type 0
  Told p e st =
      (log : List Event) × (Reach c tls_on r info s log p × (st.world.0 ≡ log ++ (e ∷ [])))

  Told-Stopped :
      (p : Phase) (e : Event) (st : Session (List Event × W))
      → Awaits p
      → IsRead s e
      → Told p e st
      → Stopped st
  unfolding Told
  Told-Stopped p e st a k (log, (h, same)) =
      (broken, onward_to p broken (e ∷ []) log st.world.0 (breaks p e a k) same h)

  Told-In :
      (p q : Phase) (e : Event) (st : Session (List Event × W))
      → Step c tls_on r info s p (e ∷ []) q
      → Told p e st
      → In q st
  unfolding Told
  Told-In p q e st step (log, (h, same)) = onward_to p q (e ∷ []) log st.world.0 step same h

  told :
      (p : Phase) (o : Outcome Bytes) (st : Session (List Event × W))
      → Awaits p
      → Told p (reply_of s o) st
      → Post (λ reply. Told p (replies s reply)) Stopped o st
  told p (returned reply) st a h = h
  told p (thrown e) st a h = Told-Stopped p (unread s) st a refl h
  told p undefined st a h = tt

  read-Reach :
      (p : Phase) {n : ℕ}
      → Awaits p
      → Triple
          (In p)
          (in_world ((recorded wire).read n s))
          (λ reply. Told p (replies s reply))
          Stopped
  unfolding Told
  read-Reach p {n} a = record {
    at = λ st h.
        let q = (recorded wire).read n s st.world in
        told p q.0 (record st { world = q.1 }) a (st.world.0, (h, refl));
  }

  pub skip-Reach :
      {p q : Phase}
      → Step c tls_on r info s p [] q
      → Triple (In p) (co_return tt) (λ _. In q) Stopped
  skip-Reach {p} {q} step = record {
    at = λ st h. onward_to p q [] st.world.0 st.world.0 step (sym (append-nil st.world.0)) h;
  }

  connect_to-Reach :
      (host port : Bytes)
      → Step c tls_on r info s begun (resolves host port ∷ []) resolved
      → Triple (In begun) (connect_to (recorded wire) s host port) (λ _. In connected) Stopped
  unfolding connect_to
  connect_to-Reach host port step =
      Triple-bind _ _ _ (in_world-Reach _ step (λ w. refl))
        (λ endpoints. in_world-Reach _ (connecting endpoints) (λ w. refl))

  -- What each of two ways out of a test of a reply leads to.
  decides :
      {p q : Phase} (e : Event) (b : Bool) (x : Bytes)
      → Awaits p
      → IsRead s e
      → (b ≡ true → Step c tls_on r info s p (e ∷ []) q)
      → Triple (Told p e) (if b then co_return tt else throw x) (λ _. In q) Stopped
  decides {p} {q} e b x a k step =
      Triple-if b _ _ (λ t. Triple-return tt (λ st h. Told-In p q e st (step t) h))
        (λ f. Triple-throw x (λ st h. Told-Stopped p e st a k h))

  request_target-Reach :
      Triple (In chosen) (request_target (recorded wire) c s info) (λ _. In reached) Stopped
  unfolding request_target
  request_target-Reach =
      Triple-bind _ _ _
        (Triple-lift
          {Q = λ request st.
            (build_socks5_connect info.host info.port ≡ some request) × In chosen st}
          _ (λ request e st h. (or_throw-returned (codes "stoi") _ request e, h))
          (λ st h. (chosen, h)))
        (λ request.
          Triple-any {X = build_socks5_connect info.host info.port ≡ some request} (λ e. In chosen)
            _ (λ st h. h)
            (λ e. Triple-bind _ _ _ (write-Reach (asks request e)) (λ u.
              Triple-bind _ _ _ (read-Reach requested tt) (λ reply.
                decides (replies s reply) _ _ tt refl (λ ok. grants reply (ground (arith, ok)))))))

  authenticate-Reach :
      Triple (In challenged) (authenticate (recorded wire) c s) (λ _. In chosen) Stopped
  unfolding authenticate
  authenticate-Reach = Triple-bind _ _ _ (write-Reach logs_in) (λ u.
      Triple-bind _ _ _ (read-Reach logging_in tt)
        (λ reply. decides (replies s reply) _ _ tt refl (λ ok. admits reply (ground (arith, ok)))))

  co_perform_socks5_handshake-Reach :
      is_socks5 c.proxy.type ≡ true
      → Triple
          (In connected)
          (co_perform_socks5_handshake (recorded wire) c s info)
          (λ _. In reached)
          Stopped
  unfolding co_perform_socks5_handshake
  co_perform_socks5_handshake-Reach e = Triple-bind _ _ _ (write-Reach (greets e)) (λ u.
      Triple-bind _ _ _ (read-Reach greeted tt) (λ reply.
        let fails : (st : Session (List Event × W))
            → Told greeted (replies s reply) st
            → Stopped st =
          λ st h. Told-Stopped greeted (replies s reply) st tt refl h in
        Triple-bind _ _ _
          (Triple-if (not (get_or reply 0 0 == 5)) _ _ (λ _. Triple-throw _ fails)
            (λ five.
              Triple-if (get_or reply 1 0 == 2) _ _
                (λ two.
                  Triple-from (In challenged) _
                    (λ st h.
                      Told-In greeted challenged (replies s reply) st
                        (offers_login reply (ground (arith, five)) (ground (arith, two))) h)
                    authenticate-Reach)
                (λ _.
                  decides (replies s reply) _ _ tt refl
                    (λ none. needs_no_login reply (ground (arith, five)) (ground (arith, none))))))
          (λ v. request_target-Reach)))

  pub co_connect_socket-Reach :
      Triple (In begun) (co_connect_socket (recorded wire) c s info) (λ _. In reached) Stopped
  unfolding co_connect_socket
  co_connect_socket-Reach =
      Triple-bind _ _ _
        (Triple-if (uses_proxy c.proxy.type) _ _
          (λ e. connect_to-Reach c.proxy.host c.proxy.port (to_proxy e))
          (λ e. connect_to-Reach info.host info.port (to_host e)))
        (λ u.
          Triple-if (is_socks5 c.proxy.type) _ _ co_perform_socks5_handshake-Reach
            (λ e. skip-Reach (no_socks e)))

  check_code-Told :
      (code : RoundCode) (e : Event)
      → IsRead s e
      → Triple
          (Told tunnelling e)
          (check_code (recorded wire) c code)
          (λ _. Told tunnelling e)
          Stopped
  check_code-Told no_error e k = Triple-return tt (λ st h. h)
  check_code-Told ended e k = Triple-return tt (λ st h. h)
  check_code-Told (failed x) e k = Triple-throw x (λ st h. Told-Stopped tunnelling e st tt k h)

  pub co_establish_tunnel-Reach :
      tls_on ≡ true
      → uses_proxy c.proxy.type ≡ true
      → Triple
          (In reached)
          (co_establish_tunnel (recorded wire) c s info)
          (λ _. In tunnelled)
          Stopped
  unfolding co_establish_tunnel Told
  co_establish_tunnel-Reach on e = Triple-bind _ _ _ (write-Reach (tunnels on e)) (λ u.
      Triple-bind (λ (answer : Bytes × RoundCode). Told tunnelling (reads plain s answer.0))
        (in_world (read_once (recorded wire) plain s)) _
        (record { at = λ st h. (st.world.0, (h, refl)) })
        (λ answer.
          let e = reads plain s answer.0 in
          let fails : (st : Session (List Event × W)) → Told tunnelling e st → Stopped st =
            λ st h. Told-Stopped tunnelling e st tt refl h in
          Triple-bind (λ _. Told tunnelling e) _ _ (check_code-Told answer.1 e refl)
            (λ v.
              Triple-bind
                (λ accepted st.
                  (parse_connect_response answer.0 ≡ returned accepted) × Told tunnelling e st)
                _ _ (Triple-lift (parse_connect_response answer.0) (λ a k st h. (k, h)) fails)
                (λ accepted.
                  Triple-any {X = parse_connect_response answer.0 ≡ returned accepted}
                    (λ k. Told tunnelling e) _ (λ st h. h)
                    (λ k.
                      decides e accepted (codes "Proxy CONNECT failed") tt refl
                        (λ ok. opens answer.0 (k ∙ ap returned ok)))))))

  pub secure-Reach :
      Triple (In tunnelled) (secure (recorded wire) c s info) (λ _. In secured) Stopped
  unfolding secure
  secure-Reach =
      Triple-bind _ _ _
        (Triple-if c.config.verify_ssl _ _ (λ e. on_world-Reach _ (verifies e) (λ w. refl))
          (λ e. skip-Reach (trusts e)))
        (λ u. in_world-Reach _ secures (λ w. refl))

  reads-Reach :
      (pieces : List Bytes) (log : List Event)
      → Reach c tls_on r info s log sent
      → Reach c tls_on r info s (log ++ reads_of (stream c tls_on r info s) s pieces) sent
  reads-Reach [] log h = rw (append-nil log) h
  reads-Reach (bytes ∷ pieces) log h =
      rw
        (← append_assoc log (reads (stream c tls_on r info s) s bytes ∷ [])
          (reads_of (stream c tls_on r info s) s pieces))
        (reads-Reach pieces _ (onward h (receives bytes)))

  pub transfer-Reach :
      {p : Phase} (l : Layer) (request : Bytes)
      → l ≡ stream c tls_on r info s
      → Step c tls_on r info s p (writes l s request ∷ []) sent
      → Triple (In p) (transfer (recorded wire) c l s r.method request) (λ _. In sent) Stopped
  transfer-Reach {p} l request same step =
      Triple-any {X = (log : List Event) × Reach c tls_on r info s log p} (λ x. At x.0 (λ _. Unit))
        _ (λ st h. ((st.world.0, h), record { events = refl; pool = tt }))
        (λ x.
          let arrived : (pieces : List Bytes)
              → Reach c tls_on r info s (adding x.0 (writes l s request) ++ reads_of l s pieces)
                  sent =
            λ pieces.
              subst
                (λ k.
                  Reach c tls_on r info s (adding x.0 (writes l s request) ++ reads_of k s pieces)
                    sent)
                (sym same)
                (reads-Reach pieces (adding x.0 (writes l s request)) (onward x.1 step)) in
          Triple-to _ _ (λ response st h. rw h.2.events (arrived h.0))
            (transfer-At wire c l s r.method request x.0 (λ _. Unit)
              (λ pieces st h. (sent, rw h.events (arrived pieces)))))
