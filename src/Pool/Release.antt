-- ===== src/Pool/Release.antt =====
-- `release` and the sockets that requests hold.
use coro_http.Base.{
  ℕ, ◌<◌, ◌≡◌, ◌≢◌, ◌⊎◌, inl, inr, Bool, true, false, List, [], ◌∷◌, arith, All, ◌==◌,
  if◌then◌else◌,
}
use coro_http.Net.{Net}
use coro_http.Pool.{PooledConnection, discard, mark_available, put_back}
use coro_http.Pool.Deque.{Distinct}
use coro_http.Pool.Held.{Absent, AllDifferent, Unheld, LeaseInv}

unfoldable pub without : ℕ → List ℕ → List ℕ
without s [] = []
without s (x ∷ xs) = if x == s then without s xs else x ∷ without s xs

without-All : (P : ℕ → Type 0) (s : ℕ) (ss : List ℕ) → All P ss → All P (without s ss)
unfolding without
without-All P s [] h = tt
without-All P s (x ∷ xs) h = ground (arith, without-All P s xs h.1)

Absent-without : (s : ℕ) (ss : List ℕ) → Absent s (without s ss)
unfolding without
Absent-without s [] = tt
Absent-without s (x ∷ xs) = ground (arith, Absent-without s xs)

without-AllDifferent : (s : ℕ) (ss : List ℕ) → AllDifferent ss → AllDifferent (without s ss)
unfolding without
without-AllDifferent s [] h = tt
without-AllDifferent s (x ∷ xs) h =
    ground (arith, without-AllDifferent s xs h.1, without-All (λ y. y ≢ x) s xs h.0)

without-Unheld :
    (s : ℕ) (held : List ℕ) (cs : List PooledConnection)
    → Unheld held cs
    → Unheld (without s held) cs
without-Unheld s held [] u = tt
without-Unheld s held (c ∷ cs) u = (
  elim u.0 [ inl used ↦ inl used | inr a ↦ inr (without-All (λ y. y ≢ c.socket) s held a) ],
  without-Unheld s held cs u.1,
)

discard-All :
    (P : PooledConnection → Type 0) (s : ℕ) (cs : List PooledConnection)
    → All P cs
    → All P (discard s cs)
unfolding discard
discard-All P s [] h = tt
discard-All P s (c ∷ cs) h = ground (arith, discard-All P s cs h.1)

discard-Distinct : (s : ℕ) (cs : List PooledConnection) → Distinct cs → Distinct (discard s cs)
unfolding discard
discard-Distinct s [] d = tt
discard-Distinct s (c ∷ cs) d =
    ground (arith, discard-Distinct s cs d.1, discard-All (λ x. x.socket ≢ c.socket) s cs d.0)

-- The socket of the entry that is marked is `s`.
mark_available-All :
    (P : PooledConnection → Type 0) (s t : ℕ)
    → ((c : PooledConnection) → c.socket ≡ s → P c → P (record c { in_use = false; last_used = t }))
    → (cs : List PooledConnection) → All P cs
    → All P (mark_available s t cs)
unfolding mark_available
mark_available-All P s t mark [] h = tt
mark_available-All P s t mark (c ∷ cs) h =
    ground (arith, mark c, mark_available-All P s t mark cs h.1)

mark_available-Distinct :
    (s t : ℕ) (cs : List PooledConnection) → Distinct cs → Distinct (mark_available s t cs)
unfolding mark_available
mark_available-Distinct s t [] d = tt
mark_available-Distinct s t (c ∷ cs) d = ground (
  arith,
  mark_available-Distinct s t cs d.1,
  mark_available-All (λ x. x.socket ≢ c.socket) s t (λ x e h. h) cs d.0,
)

pub without-LeaseInv :
    (s n : ℕ) (held : List ℕ) (cs : List PooledConnection)
    → LeaseInv n held cs
    → LeaseInv n (without s held) cs
without-LeaseInv s n held cs v = record {
  distinct = v.distinct;
  below = v.below;
  held_below = without-All (λ x. x < n) s held v.held_below;
  unheld = without-Unheld s held cs v.unheld;
  different = without-AllDifferent s held v.different;
}

discard-LeaseInv :
    (s n : ℕ) (held : List ℕ) (cs : List PooledConnection)
    → LeaseInv n held cs
    → LeaseInv n held (discard s cs)
discard-LeaseInv s n held cs v = record {
  distinct = discard-Distinct s cs v.distinct;
  below = discard-All (λ c. c.socket < n) s cs v.below;
  held_below = v.held_below;
  unheld = discard-All (λ c. (c.in_use ≡ true) ⊎ Absent c.socket held) s cs v.unheld;
  different = v.different;
}

mark_available-LeaseInv :
    (s t n : ℕ) (held : List ℕ) (cs : List PooledConnection)
    → Absent s held
    → LeaseInv n held cs
    → LeaseInv n held (mark_available s t cs)
mark_available-LeaseInv s t n held cs a v = record {
  distinct = mark_available-Distinct s t cs v.distinct;
  below = mark_available-All (λ c. c.socket < n) s t (λ c e h. h) cs v.below;
  held_below = v.held_below;
  unheld =
      mark_available-All (λ c. (c.in_use ≡ true) ⊎ Absent c.socket held) s t (λ c e h. inr (rw e a))
        cs v.unheld;
  different = v.different;
}

-- A socket given back is held no more, whether or not it stays in the deque.
pub put_back-LeaseInv :
    {W : Type 0} (net : Net W) (s n : ℕ) (keep_alive : Bool) (held : List ℕ)
    (cs : List PooledConnection) (w : W)
    → LeaseInv n held cs
    → LeaseInv n (without s held) (put_back net s keep_alive cs w).0
unfolding put_back
put_back-LeaseInv net s n keep_alive held cs w v =
    let v' = without-LeaseInv s n held cs v in
    ground (
      arith,
      discard-LeaseInv s n (without s held) cs v',
      mark_available-LeaseInv s (net.now w).0 n (without s held) cs (Absent-without s held) v',
      v',
    )
