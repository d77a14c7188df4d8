-- ===== src/Pool/Deque.antt =====
-- The loop of `get_connection`: what it returns, and what it leaves in the deque.
use coro_http.Base.{
  ℕ, ◌+◌, ◌≤◌, ◌≡◌, ◌≢◌, refl, ◌⊎◌, Bool, true, false, some, List, [], ◌∷◌, arith, length, All,
}
use coro_http.Net.{Net}
use coro_http.Pool.{PooledConnection, scan, timed_out, available}

-- No entry holds the socket `s`.
abbrev pub NoneOf : ℕ → List PooledConnection → Type 0
NoneOf s = All λ c. c.socket ≢ s

-- No two entries hold the same socket.
abbrev pub Distinct : List PooledConnection → Type 0
Distinct [] = Unit
Distinct (c ∷ cs) = NoneOf c.socket cs × Distinct cs

module _ {W : Type 0} (net : Net W) (valid : ℕ → W → Bool × W) (t idle : ℕ) where
  pub length-scan :
      (cs : List PooledConnection) (w : W)
      → length (scan net valid t idle cs w).connections ≤ length cs
  unfolding scan
  length-scan [] w = omega arith
  length-scan (c ∷ cs) w =
      ground
        (arith, length-scan cs w, length-scan cs (valid c.socket (available net valid c w).1).1)

  pub scan-All :
      (P : PooledConnection → Type 0)
      → ((c : PooledConnection) → P c → P (record c { in_use = true; last_used = t }))
      → (cs : List PooledConnection) (w : W) → All P cs
      → All P (scan net valid t idle cs w).connections
  unfolding scan
  scan-All P mark [] w h = tt
  scan-All P mark (c ∷ cs) w h = ground (
    arith,
    mark c h.0,
    scan-All P mark cs w h.1,
    scan-All P mark cs (valid c.socket (available net valid c w).1).1 h.1,
  )

  pub scan-Distinct :
      (cs : List PooledConnection) (w : W)
      → Distinct cs
      → Distinct (scan net valid t idle cs w).connections
  unfolding scan
  scan-Distinct [] w h = tt
  scan-Distinct (c ∷ cs) w h =
      let w' = (valid c.socket (available net valid c w).1).1 in
      ground (
        arith,
        scan-Distinct cs w h.1,
        scan-Distinct cs w' h.1,
        scan-All (λ d. d.socket ≢ c.socket) (λ d k. k) cs w' h.0,
      )

  -- The entry `c` may be handed out as the socket `s`.
  pub record IsUsable (s : ℕ) (c : PooledConnection) : Type 0 where
    pub same : c.socket ≡ s
    pub idle_now : c.in_use ≡ false
    pub fresh : t ≤ c.last_used + idle
    pub before : W
    pub alive : (valid s before).0 ≡ true

  abbrev pub HasUsable : ℕ → List PooledConnection → Type 0
  HasUsable s [] = ⊥
  HasUsable s (c ∷ cs) = IsUsable s c ⊎ HasUsable s cs

  available-IsUsable :
      (c : PooledConnection) (w : W)
      → timed_out t idle c ≡ false
      → (available net valid c w).0 ≡ true
      → IsUsable c.socket c
  unfolding available
  available-IsUsable c w h k = record {
    same = refl;
    idle_now = ground arith;
    fresh = ground arith;
    before = w;
    alive = ground arith;
  }

  pub scan-HasUsable :
      (cs : List PooledConnection) (w : W) (s : ℕ)
      → (scan net valid t idle cs w).found ≡ some s
      → HasUsable s cs
  unfolding scan
  scan-HasUsable [] w s h = cc
  scan-HasUsable (c ∷ cs) w s h = ground (
    arith,
    available-IsUsable c w,
    scan-HasUsable cs w s,
    scan-HasUsable cs (valid c.socket (available net valid c w).1).1 s,
  )
