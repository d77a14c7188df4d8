-- ===== src/Exchange/Leases.antt =====
-- The exclusion of the pool over whole exchanges of co_execute_http_pooled.
use coro_http.Base.{
  arith, ℕ, ◌≤◌, ◌≡◌, refl, inl, inr, Bool, true, false, Option, none, some, List, [], ◌∷◌, Bytes,
  equal, if◌then◌else◌, Bool-cases,
}
use coro_http.Base.Outcome.{Outcome, returned, thrown, undefined}
use coro_http.Base.Awaiting.{on_exception}
use coro_http.Base.Triples.{
  Ends, Post, Triple, Triple-return, Triple-lift, Triple-if, Triple-on_exception, Triple-bind,
  Triple-gets, Triple-both, Triple-finally,
}
use coro_http.Pool.{PooledConnection, holds, pool_key, get_connection, release_connection}
use coro_http.Pool.Held.{Absent, LeaseInv, Unheld, later_LeaseInv}
use coro_http.Pool.Release.{without}
use coro_http.Pool.Calls.{Usage, step}
use coro_http.Pool.Calls.Exclusive.{UsageInv, gets-UsageInv, releases-UsageInv}
use coro_http.Reading.{no_reading}
use coro_http.Request.{HttpMethod, HttpRequest, build_request}
use coro_http.Url.{UrlInfo}
use coro_http.Wire.{Wire, WireLaws, Layer, plain}
use coro_http.Exchange.{
  Setup, Session, is_head, should_keep_alive, on_world, on_pool, loaded, read_loop, connect_to,
  co_read_response, shut, in_world,
}
use coro_http.Exchange.Requests.{
  transfer, pooled_transfer, co_execute_http_pooled, pooled_on, pooled_exchange, let_go,
}
use coro_http.Exchange.Loops.{read_loop-keeps}

without-Absent : (s : ℕ) (held : List ℕ) → Absent s held → without s held ≡ held
unfolding without
without-Absent s [] a = refl
without-Absent s (x ∷ xs) a = ground (arith, a.0, without-Absent s xs a.1)

without-head : (s : ℕ) (held : List ℕ) → Absent s held → without s (s ∷ held) ≡ held
unfolding without
without-head s held a = ground (arith, without-Absent s held a)

tail_Unheld :
    (s : ℕ) (held : List ℕ) (cs : List PooledConnection) → Unheld (s ∷ held) cs → Unheld held cs
tail_Unheld s held [] u = tt
tail_Unheld s held (c ∷ cs) u =
    (elim u.0 [ inl used ↦ inl used | inr a ↦ inr a.1 ], tail_Unheld s held cs u.1)

tail_LeaseInv :
    (n s : ℕ) (held : List ℕ) (cs : List PooledConnection)
    → LeaseInv n (s ∷ held) cs
    → LeaseInv n held cs
tail_LeaseInv n s held cs v = record {
  distinct = v.distinct;
  below = v.below;
  held_below = v.held_below.1;
  unheld = tail_Unheld s held cs v.unheld;
  different = v.different.1;
}

-- The pool and the world of a session beside the sockets that requests hold.
abbrev pub usage : {W : Type 0} → Session W → List ℕ → Usage W
usage st held = record { pool = st.connection_pool; world = st.world; held = held; held_ssl = [] }

module _ {W : Type 0} (wire : Wire W) (laws : WireLaws wire) (key : Bytes) where
  open laws use {net_laws}

  abbrev Lease : List ℕ → Session W → Type 0
  Lease held st = UsageInv wire.net net_laws key (usage st held)

  -- The sockets held, with that of the exchange where it is of this host and port.
  abbrev holding : Bool → ℕ → List ℕ → List ℕ
  holding b s held = if b then s ∷ held else held

  lets_go :
      (b : Bool) (s : ℕ) (held : List ℕ) (st : Session W)
      → Lease (holding b s held) st
      → Lease held st
  lets_go true s held st v = tail_LeaseInv _ s held _ v
  lets_go false s held st v = v

  module _ (held : List ℕ) where
    Post-Lease :
        {A : Type 0} (o : Outcome A) (st : Session W)
        → Lease held st
        → Post (λ _. Lease held) (Lease held) o st
    Post-Lease (returned a) st h = h
    Post-Lease (thrown e) st h = h
    Post-Lease undefined st h = tt

    -- A call that takes no socket away.
    in_world-Lease :
        {A : Type 0} (f : W → Outcome A × W)
        → ((w : W) → net_laws.created w ≤ net_laws.created (f w).1)
        → Triple (Lease held) (in_world f) (λ _. Lease held) (Lease held)
    in_world-Lease f later = record {
      at = λ st h.
          Post-Lease (f st.world).0 (record st { world = (f st.world).1 })
            (later_LeaseInv (net_laws.created st.world) _ held _ (later st.world) h);
    }

    on_world-Lease :
        (f : W → W)
        → ((w : W) → net_laws.created w ≤ net_laws.created (f w))
        → Triple (Lease held) (on_world f) (λ _. Lease held) (Lease held)
    on_world-Lease f later = record {
      at = λ st h. later_LeaseInv (net_laws.created st.world) _ held _ (later st.world) h;
    }

    loaded-Lease :
        {A : Type 0} (st : Session W) (q : Option (Outcome A × W))
        → let I = λ (w : W). Lease held (record st { world = w }) in
          Ends (λ _. I) I q → Ends (λ _. Lease held) (Lease held) (loaded st q)
    loaded-Lease st none h = tt
    loaded-Lease st (some (returned a, w)) h = h
    loaded-Lease st (some (thrown e, w)) h = h
    loaded-Lease st (some (undefined, w)) h = tt

    co_read_response-Lease :
        (c : Setup) (head_request : Bool) (l : Layer) (s : ℕ)
        → Triple
            (Lease held)
            (co_read_response wire c head_request l s)
            (λ _. Lease held)
            (Lease held)
    unfolding co_read_response
    co_read_response-Lease c head_request l s = record {
      at = λ st h. loaded-Lease st (read_loop wire head_request l s c.limit no_reading st.world) (
          read_loop-keeps wire (λ w. Lease held (record st { world = w }))
            (λ n w k. later_LeaseInv (net_laws.created w) _ held _ (laws.pause_created n w) k) l s
            (λ w k. later_LeaseInv (net_laws.created w) _ held _ (laws.read_some_created l s w) k)
            head_request c.limit no_reading st.world h);
    }

    connect_to-Lease :
        (s : ℕ) (host port : Bytes)
        → Triple (Lease held) (connect_to wire s host port) (λ _. Lease held) (Lease held)
    unfolding connect_to
    connect_to-Lease s host port =
        Triple-bind _ _ _ (in_world-Lease (wire.resolve host port) (laws.resolve_created host port))
          (λ es. in_world-Lease (wire.connect s es) (laws.connect_created s es))

    transfer-Lease :
        (c : Setup) (l : Layer) (s : ℕ) (method : HttpMethod) (text : Bytes)
        → Triple (Lease held) (transfer wire c l s method text) (λ _. Lease held) (Lease held)
    unfolding transfer
    transfer-Lease c l s method text =
        Triple-bind _ _ _ (in_world-Lease (wire.write l s text) (laws.write_created l s text)) (λ u.
          Triple-bind _ _ _ (co_read_response-Lease c (is_head method) l s)
            (λ d. Triple-lift _ (λ a e st h. h) (λ st h. h)))

    shut-Lease :
        (s : ℕ) → Triple (Lease held) (on_world (shut wire s)) (λ _. Lease held) (Lease held)
    shut-Lease s =
        on_world-Lease (shut wire s)
          (λ w. omega (arith, laws.shutdown_created s w, laws.close_created s (wire.shutdown s w)))

  module _ (c : Setup) (r : HttpRequest) (info : UrlInfo) (held : List ℕ) where
    abbrev own : Bool
    own = equal (pool_key info.host info.port) key

    released :
        (b : Bool) (s : ℕ) (st : Session W)
        → Lease (holding b s held) st
        → (later : Session W)
        → UsageInv wire.net net_laws key
            (usage later (if b then without s (holding b s held) else holding b s held))
        → Lease held later
    released true s st v later k = rw (← without-head s held v.different.0) k
    released false s st v later k = k

    release-Lease :
        (s : ℕ) (keep : Bool)
        → Triple
            (Lease (holding own s held))
            (on_pool (release_connection wire.net s info.host info.port keep))
            (λ _. Lease held)
            (Lease held)
    unfolding step equal
    release-Lease s keep = record {
      at = λ st h.
          let u = usage st (holding own s held) in
          let q =
            release_connection wire.net s info.host info.port keep st.connection_pool st.world in
          released own s st h (record st { connection_pool = q.0; world = q.1 })
            (releases-UsageInv wire.net net_laws key info.host info.port s keep u h);
    }

    pooled_transfer-Lease :
        (s : ℕ)
        → Triple
            (Lease (holding own s held))
            (on_exception (on_world (shut wire s)) (pooled_transfer wire c s r info))
            (λ _. Lease held)
            (Lease held)
    unfolding pooled_transfer
    pooled_transfer-Lease s =
        let mine = holding own s held in
        let text = build_request r info c.config.enable_compression true in
        Triple-on_exception (Lease held) (on_world (shut wire s)) _
          (Triple-bind _ _ _
            (Triple-both (transfer wire c plain s r.method text) (λ a st h. h)
              (λ st h. lets_go own s held st h) (transfer-Lease mine c plain s r.method text))
            (λ response. Triple-bind _ _ _ (release-Lease s (should_keep_alive response)) (λ u.
              Triple-bind _ _ _
                (Triple-if (should_keep_alive response) _ _ (λ e. Triple-return tt (λ st h. h))
                  (λ e. shut-Lease held s))
                (λ v. Triple-return response (λ st h. h)))))
          (shut-Lease held s)

    let_go-Lease :
        (connections : List PooledConnection) (s : ℕ) (st : Session W)
        → Lease held st
        → Lease held (let_go wire c connections s st)
    unfolding let_go
    let_go-Lease connections s st h = elim (Bool-cases (holds s connections)) [
      | inl e ↦ rw e h
      | inr e ↦
          rw e
            (later_LeaseInv (net_laws.created st.world) _ held _ (laws.close_created s st.world) h)
    ]

    pooled_exchange-Lease :
        (s : ℕ)
        → Triple
            (Lease (holding own s held))
            (pooled_exchange wire c s r info)
            (λ _. Lease held)
            (Lease held)
    unfolding pooled_exchange
    pooled_exchange-Lease s =
        let mine = holding own s held in
        Triple-bind (λ b. Lease mine) _ _ (Triple-gets _ (λ st h. h))
          (λ is_open.
            Triple-bind (λ _. Lease mine) _ _
              (Triple-if is_open _ _ (λ e. Triple-return tt (λ st h. h))
                (λ e.
                  Triple-both (connect_to wire s info.host info.port) (λ a st h. h)
                    (λ st h. lets_go own s held st h)
                    (connect_to-Lease mine s info.host info.port)))
              (λ u. pooled_transfer-Lease s))

    pooled_on-Lease :
        (s : ℕ)
        → Triple
            (Lease (holding own s held))
            (pooled_on wire c s r info)
            (λ _. Lease held)
            (Lease held)
    unfolding pooled_on
    pooled_on-Lease s =
        let mine = holding own s held in
        Triple-finally _ _ (
          Triple-both (pooled_exchange wire c s r info) (λ a st h. let_go-Lease _ s st h)
            (λ st h. let_go-Lease _ s st h) (pooled_exchange-Lease s))

    -- Where the sockets that other requests hold are all different and the pool hands out none of them,
    -- and no other request takes or gives back a connection in between: this holds again at the end of
    -- `co_execute_http_pooled`, whether it returns or throws. Section: the wire keeps its laws, by which
    -- sockets have their own numbers.
    pub co_execute_http_pooled-UsageInv :
        (st : Session W)
        → UsageInv wire.net net_laws key (usage st held)
        → Ends
            (λ _ later. UsageInv wire.net net_laws key (usage later held))
            (λ later. UsageInv wire.net net_laws key (usage later held))
            (co_execute_http_pooled wire c r info st)
    unfolding co_execute_http_pooled step equal
    co_execute_http_pooled-UsageInv st v =
        let (s, p, w) = get_connection wire.net info.host info.port st.connection_pool st.world in
        (pooled_on-Lease s).at (record st { connection_pool = p; world = w })
          (gets-UsageInv wire.net net_laws key info.host info.port (usage st held) v)
