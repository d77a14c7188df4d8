-- ===== src/Exchange/Recorded.antt =====
-- A wire that keeps the calls made on it, in their order, and what each part of an exchange adds.
use coro_http.Base.{
  ℕ, ◌≡◌, ◌∙◌, ap, not, inl, inr, Option, none, some, List, [], ◌∷◌, ◌++◌, Bytes, Bool-cases,
}
use coro_http.Base.Outcome.{Outcome, returned, thrown, undefined}
use coro_http.Base.Triples.{Ends, Post, Triple}
use coro_http.Net.{Net}
use coro_http.Pool.{ConnectionPool}
use coro_http.Pool.Keeps.{NetKeeps}
use coro_http.RateLimiter.{RateLimiter}
use coro_http.Wire.{Wire, Layer}
use coro_http.Exchange.Loops.{wait_for_slot-keeps, Waited}
use coro_http.Exchange.{
  Session, on_world, on_pool, Setup, waited, wait_for_slot, in_world, acquire_slot,
}

-- A call on a socket or of the resolver, whether it succeeds or not, with the bytes that a read brought
-- (`unread` is a `read` that threw). The waits of timers are not kept.
pub data Event : Type 0 where
  resolves : Bytes → Bytes → Event
  connects : ℕ → List Bytes → Event
  names : ℕ → Bytes → Event
  shakes_hands : ℕ → Event
  writes reads : Layer → ℕ → Bytes → Event
  replies : ℕ → Bytes → Event
  unread : ℕ → Event
  shuts shuts_tls closes : ℕ → Event

abbrev pub under : {W A : Type 0} → List Event → A × W → A × (List Event × W)
under log q = (q.0, (log, q.1))

abbrev pub recorded_net : {W : Type 0} → Net W → Net (List Event × W)
recorded_net net = record {
  now = λ s. under s.0 (net.now s.1);
  make_socket = λ s. under s.0 (net.make_socket s.1);
  is_open = λ n s. net.is_open n s.1;
  remote_endpoint = λ n s. net.remote_endpoint n s.1;
  non_blocking = λ n s. under s.0 (net.non_blocking n s.1);
  restore_blocking = λ n s. (s.0, net.restore_blocking n s.1);
  read_some = λ n s. under s.0 (net.read_some n s.1);
  native_handle = λ n s. net.native_handle n s.1;
  is_init_finished = λ n s. net.is_init_finished n s.1;
  has_session = λ n s. net.has_session n s.1;
}

abbrev pub adding : List Event → Event → List Event
adding log e = log ++ (e ∷ [])

-- What `read` is kept as.
abbrev pub reply_of : ℕ → Outcome Bytes → Event
reply_of n (returned bytes) = replies n bytes
reply_of n (thrown e) = unread n
reply_of n undefined = unread n

abbrev pub recorded : {W : Type 0} → Wire W → Wire (List Event × W)
recorded wire = record {
  net = recorded_net wire.net;
  resolve = λ h q s. under (adding s.0 (resolves h q)) (wire.resolve h q s.1);
  connect = λ n es s. under (adding s.0 (connects n es)) (wire.connect n es s.1);
  set_host_name = λ n h s. (adding s.0 (names n h), wire.set_host_name n h s.1);
  handshake = λ n s. under (adding s.0 (shakes_hands n)) (wire.handshake n s.1);
  write = λ l n t s. under (adding s.0 (writes l n t)) (wire.write l n t s.1);
  read_some = λ l n s. let q = wire.read_some l n s.1 in under (adding s.0 (reads l n q.0.0)) q;
  read = λ k n s. let q = wire.read k n s.1 in under (adding s.0 (reply_of n q.0)) q;
  available = λ n s. wire.available n s.1;
  pause = λ n s. (s.0, wire.pause n s.1);
  wait_until = λ n s. (s.0, wire.wait_until n s.1);
  shutdown = λ n s. (adding s.0 (shuts n), wire.shutdown n s.1);
  close = λ n s. (adding s.0 (closes n), wire.close n s.1);
  tls_shutdown = λ n s. under (adding s.0 (shuts_tls n)) (wire.tls_shutdown n s.1);
}

-- The calls made so far, and what is known of the pool.
pub record At {W : Type 0} (log : List Event) (K : ConnectionPool → Type 0)
    (st : Session (List Event × W)) : Type 0 where
  pub events : st.world.0 ≡ log
  pub pool : K st.connection_pool

pub Post-any :
    {S A : Type 0} (Q : A → S → Type 0) (E : S → Type 0) (o : Outcome A) (s : S)
    → ((a : A) → Q a s)
    → E s
    → Post Q E o s
Post-any Q E (returned a) s h k = h a
Post-any Q E (thrown e) s h k = k
Post-any Q E undefined s h k = tt

module _ {W : Type 0} {E : Session (List Event × W) → Type 0} (log : List Event)
    (K : ConnectionPool → Type 0) where
  -- A call of the world that makes of the log what `g` does.
  pub in_world-At :
      {A : Type 0} (g : List Event → List Event) (f : List Event × W → Outcome A × (List Event × W))
      → ((w : List Event × W) → (f w).1.0 ≡ g w.0)
      → ((st : Session (List Event × W)) → At (g log) K st → E st)
      → Triple (At log K) (in_world f) (λ _. At (g log) K) E
  in_world-At g f adds stops = record {
    at = λ st h.
        let later = record st { world = (f st.world).1 } in
        let now : At (g log) K later = record {
          events = adds st.world ∙ ap g h.events;
          pool = h.pool;
        } in
        Post-any _ E (f st.world).0 later (λ _. now) (stops later now);
  }

  pub on_world-At :
      (g : List Event → List Event) (f : List Event × W → List Event × W)
      → ((w : List Event × W) → (f w).0 ≡ g w.0)
      → Triple (At log K) (on_world f) (λ _. At (g log) K) E
  on_world-At g f adds = record {
    at = λ st h. record { events = adds st.world ∙ ap g h.events; pool = h.pool };
  }

pub recorded-NetKeeps :
    {W : Type 0} (net : Net W) (log : List Event) → NetKeeps (recorded_net net) (λ w. w.0 ≡ log)
recorded-NetKeeps net log = record {
  now_keeps = λ w h. h;
  make_socket_keeps = λ w h. h;
  non_blocking_keeps = λ s w h. h;
  restore_blocking_keeps = λ s w h. h;
  read_some_keeps = λ s w h. h;
}

module _ {W : Type 0} (wire : Wire W) (log : List Event) (K : ConnectionPool → Type 0)
    (E : Session (List Event × W) → Type 0) where
  waited-At :
      (st : Session (List Event × W)) (r : Option (RateLimiter × (List Event × W)))
      → At log K st
      → Waited (recorded wire) (λ w. w.0 ≡ log) r
      → Ends (λ _. At log K) E (waited st r)
  waited-At st none h k = tt
  waited-At st (some (l, w)) h k = record { events = k; pool = h.pool }

module _ {W : Type 0} (wire : Wire W) (c : Setup) (log : List Event) (K : ConnectionPool → Type 0)
    {E : Session (List Event × W) → Type 0} where
  pub acquire_slot-At : Triple (At log K) (acquire_slot (recorded wire) c) (λ _. At log K) E
  unfolding acquire_slot
  acquire_slot-At = record {
    at = λ st h.
        let w =
          waited-At wire log K E st (wait_for_slot (recorded wire) c.limit st.rate_limiter st.world)
            h
            (wait_for_slot-keeps (recorded wire) (λ w. w.0 ≡ log) (λ w k. k) (λ t w k. k) c.limit
              st.rate_limiter st.world h.events) in
        elim (Bool-cases (not st.rate_limiter.enabled)) [
          | inl off ↦ rw (off, Ends) h
          | inr on ↦ rw (on, Ends) w
        ];
  }

-- What a call of the pool makes of it, whatever the world was.
abbrev pub By :
    {W : Type 0}
    → (ConnectionPool → W → ConnectionPool × W)
    → ConnectionPool
    → ConnectionPool
    → Type 0
By {W} f p q = (w : W) × (q ≡ (f p w).0)

pub on_pool-At :
    {W : Type 0} {E : Session (List Event × W) → Type 0} (log : List Event) (p : ConnectionPool)
    (f : ConnectionPool → List Event × W → ConnectionPool × (List Event × W))
    → ((q : ConnectionPool) (w : List Event × W) → w.0 ≡ log → (f q w).1.0 ≡ log)
    → Triple (At log (λ q. q ≡ p)) (on_pool f) (λ _. At log (By f p)) E
on_pool-At log p f same = record {
  at = λ st h. record {
    events = same st.connection_pool st.world h.events;
    pool = (st.world, ap (λ q. (f q st.world).0) h.pool);
  };
}
