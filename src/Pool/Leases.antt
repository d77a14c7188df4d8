-- ===== src/Pool/Leases.antt =====
-- One deque beside the sockets that requests hold: what `get` and `release` keep.
use coro_http.Base.{
  ℕ, ◌≤◌, ◌<◌, ◌≡◌, ◌≢◌, refl, ◌⊎◌, inl, inr, Bool, true, Option, none, some, List, [], ◌∷◌, ◌++◌,
  arith, length, All-append, Bool-cases,
}
use native.Mathlib.Nat.{le_trans}
use coro_http.Base.Int.{ℤ, ltz}
use coro_http.Net.{Net, NetLaws}
use coro_http.Pool.{PooledConnection, Scan, scan, available, create, finish, take_connection}
use coro_http.Pool.Deque.{NoneOf, Distinct, HasUsable, scan-All, scan-Distinct, scan-HasUsable}
use coro_http.Pool.Held.{
  Absent, AllDifferent, Unheld, Below, HeldBelow, LeaseInv, Below-mono, HeldBelow-mono,
  NoneOf-Below, Absent-Below, Distinct-concat, Unheld-cons, later_LeaseInv,
}

module _ {W : Type 0} (net : Net W) (valid : ℕ → W → Bool × W) (t idle : ℕ) where
  -- A usable connection is held by nobody, and is one of the deque.
  usable-Absent :
      (s : ℕ) (held : List ℕ) (cs : List PooledConnection)
      → HasUsable net valid t idle s cs
      → Unheld held cs
      → Absent s held
  usable-Absent s held [] (h) u = absurd h
  usable-Absent s held (c ∷ cs) (inl h) u = elim u.0 [
    | inl used ↦ absurd (ground (arith, h.idle_now))
    | inr a ↦ rw h.same at a
  ]
  usable-Absent s held (c ∷ cs) (inr h) u = usable-Absent s held cs h u.1

  usable-ne :
      (s a : ℕ) (cs : List PooledConnection) → HasUsable net valid t idle s cs → NoneOf a cs → s ≢ a
  usable-ne s a [] h n = absurd h
  usable-ne s a (c ∷ cs) (inl h) n = rw (← h.same) n.0
  usable-ne s a (c ∷ cs) (inr h) n = usable-ne s a cs h n.1

  -- The connection that the loop hands out is marked, so the deque stays free of held ones.
  scan-Unheld :
      (s : ℕ) (held : List ℕ) (cs : List PooledConnection) (w : W)
      → (scan net valid t idle cs w).found ≡ some s
      → Distinct cs
      → Unheld held cs
      → Unheld (s ∷ held) (scan net valid t idle cs w).connections
  unfolding scan
  scan-Unheld s held [] w f d u = tt
  scan-Unheld s held (c ∷ cs) w f d u =
      let w' = (valid c.socket (available net valid c w).1).1 in
      ground (
        arith,
        scan-Unheld s held cs w,
        scan-Unheld s held cs w',
        Unheld-cons c.socket held cs d.0 u.1,
        scan-HasUsable net valid t idle cs w' s,
        usable-ne s c.socket cs,
      )

  usable-lt :
      (s n : ℕ) (cs : List PooledConnection) → HasUsable net valid t idle s cs → Below n cs → s < n
  usable-lt s n [] h b = absurd h
  usable-lt s n (c ∷ cs) (inl h) b = rw h.same at b.0
  usable-lt s n (c ∷ cs) (inr h) b = usable-lt s n cs h b.1

module _ {W : Type 0} (net : Net W) (laws : NetLaws net) (valid : ℕ → W → Bool × W)
    (valid_created : (s : ℕ) (w : W) → laws.created w ≤ laws.created (valid s w).1) where
  open laws use {created, now_created, make_socket_new, make_socket_created}

  created-available :
      (c : PooledConnection) (w : W) → created w ≤ created (available net valid c w).1
  unfolding available
  created-available c w = ground (arith, valid_created c.socket w)

  created-scan :
      (t idle : ℕ) (cs : List PooledConnection) (w : W)
      → created w ≤ created (scan net valid t idle cs w).world
  unfolding scan
  created-scan t idle [] w = omega arith
  created-scan t idle (c ∷ cs) w =
      let w' = (available net valid c w).1 in
      ground (
        arith,
        created-available c w,
        valid_created c.socket w',
        created-scan t idle cs w,
        created-scan t idle cs (valid c.socket w').1,
      )

  -- What the loop's result says of the sockets held.
  abbrev Handed : List ℕ → Option ℕ → Scan W → Type 0
  Handed held none r = Unheld held r.connections
  Handed held (some s) r = Unheld (s ∷ held) r.connections × Absent s held × (s < created r.world)

  -- A connection put at the end of the deque, new and in use.
  added-LeaseInv :
      (c : PooledConnection) (n m : ℕ) (held : List ℕ) (cs : List PooledConnection)
      → c.in_use ≡ true
      → n ≤ c.socket
      → c.socket < m
      → LeaseInv n held cs
      → LeaseInv m (c.socket ∷ held) (cs ++ (c ∷ []))
  added-LeaseInv c n m held cs used new old v =
      let fresh = NoneOf-Below n c.socket cs new v.below in
      record {
        distinct = Distinct-concat c cs fresh v.distinct;
        below =
            All-append (λ x. x.socket < m) cs (c ∷ []) (Below-mono n m cs (omega arith) v.below)
              (old, tt);
        held_below = (old, HeldBelow-mono n m held (omega arith) v.held_below);
        unheld =
            All-append _ cs (c ∷ []) (Unheld-cons c.socket held cs fresh v.unheld) (inl used, tt);
        different = (Absent-Below n c.socket held new v.held_below, v.different);
      }

  -- A new connection that stays outside the deque.
  outside-LeaseInv :
      (s n m : ℕ) (held : List ℕ) (cs : List PooledConnection)
      → n ≤ s
      → s < m
      → LeaseInv n held cs
      → LeaseInv m (s ∷ held) cs
  outside-LeaseInv s n m held cs new old v = record {
    distinct = v.distinct;
    below = Below-mono n m cs (omega arith) v.below;
    held_below = (old, HeldBelow-mono n m held (omega arith) v.held_below);
    unheld = Unheld-cons s held cs (NoneOf-Below n s cs new v.below) v.unheld;
    different = (Absent-Below n s held new v.held_below, v.different);
  }

  create-LeaseInv :
      (max : ℤ) (held : List ℕ) (cs : List PooledConnection) (w : W)
      → LeaseInv (created w) held cs
      → let r = create net max cs w in LeaseInv (created r.2) (r.0 ∷ held) r.1
  unfolding create
  create-LeaseInv max held cs w v =
      let (s, w') = net.make_socket w in
      let new = make_socket_new w in
      let old = make_socket_created w in
      let later = now_created w' in
      elim (Bool-cases (ltz (length cs) max)) [
        | inl room ↦ rw room (
            added-LeaseInv (record { socket = s; last_used = (net.now w').0; in_use = true })
              (created w) (created (net.now w').1) held cs refl new (omega arith) v)
        | inr full ↦ rw full (outside-LeaseInv s (created w) (created w') held cs new old v)
      ]

  finish-LeaseInv :
      (max : ℤ) (held : List ℕ) (o : Option ℕ) (r : Scan W)
      → Distinct r.connections
      → Below (created r.world) r.connections
      → HeldBelow (created r.world) held
      → AllDifferent held
      → Handed held o r
      → let q = finish net max o r in LeaseInv (created q.2) (q.0 ∷ held) q.1
  unfolding finish
  finish-LeaseInv max held (some s) r d b hb a h = record {
    distinct = d;
    below = b;
    held_below = (h.2, hb);
    unheld = h.0;
    different = (h.1, a);
  }
  finish-LeaseInv max held none r d b hb a h =
      create-LeaseInv max held r.connections r.world
        (record { distinct = d; below = b; held_below = hb; unheld = h; different = a })

  scan-Handed :
      (t idle : ℕ) (held : List ℕ) (cs : List PooledConnection) (w : W)
      → LeaseInv (created w) held cs
      → let r = scan net valid t idle cs w in Handed held r.found r
  scan-Handed t idle held cs w v = go (scan net valid t idle cs w).found refl
    where
      go :
          (o : Option ℕ)
          → (scan net valid t idle cs w).found ≡ o
          → Handed held o (scan net valid t idle cs w)
      go none e =
          scan-All net valid t idle (λ c. (c.in_use ≡ true) ⊎ Absent c.socket held)
            (λ c u. inl refl) cs w v.unheld
      go (some s) e =
          let u = scan-HasUsable net valid t idle cs w s e in
          (
            scan-Unheld net valid t idle s held cs w e v.distinct v.unheld,
            usable-Absent net valid t idle s held cs u v.unheld,
            le_trans (usable-lt net valid t idle s (created w) cs u v.below)
                (created-scan t idle cs w),
          )

  -- A `get` hands out a socket that nobody holds, and keeps what the deque promises.
  pub take_connection-LeaseInv :
      (max : ℤ) (idle : ℕ) (held : List ℕ) (cs : List PooledConnection) (w : W)
      → LeaseInv (created w) held cs
      → let q = take_connection net valid max idle cs w in LeaseInv (created q.2) (q.0 ∷ held) q.1
  unfolding take_connection
  take_connection-LeaseInv max idle held cs w v =
      let (t, w') = net.now w in
      let r = scan net valid t idle cs w' in
      let n = created w in
      let later : n ≤ created w' = now_created w in
      let end : n ≤ created r.world = le_trans later (created-scan t idle cs w') in
      let v' = later_LeaseInv n (created w') held cs later v in
      finish-LeaseInv max held r.found r (scan-Distinct net valid t idle cs w' v.distinct)
        (scan-All net valid t idle (λ c. c.socket < created r.world) (λ c h. h) cs w'
          (Below-mono n (created r.world) cs end v.below))
        (HeldBelow-mono n (created r.world) held end v.held_below) v.different
        (scan-Handed t idle held cs w' v')

  created-finish :
      (max : ℤ) (o : Option ℕ) (r : Scan W) → created r.world ≤ created (finish net max o r).2
  unfolding finish create
  created-finish max (some s) r = omega arith
  created-finish max none r =
      let w = (net.make_socket r.world).1 in
      ground (arith, make_socket_new r.world, make_socket_created r.world, now_created w)

  pub created-take_connection :
      (max : ℤ) (idle : ℕ) (cs : List PooledConnection) (w : W)
      → created w ≤ created (take_connection net valid max idle cs w).2
  unfolding take_connection
  created-take_connection max idle cs w =
      let (t, w') = net.now w in
      let r = scan net valid t idle cs w' in
      omega (arith, now_created w, created-scan t idle cs w', created-finish max r.found r)
