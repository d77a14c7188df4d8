-- ===== src/Pool/Held.antt =====
-- One deque beside the sockets that requests hold: the invariant of the two.
use coro_http.Base.{
  ℕ, ◌≤◌, ◌<◌, ◌≡◌, ◌≢◌, sym, ◌⊎◌, true, List, [], ◌∷◌, ◌++◌, arith, All, All-append,
}
use coro_http.Pool.{PooledConnection}
use coro_http.Pool.Deque.{NoneOf, Distinct}

abbrev pub Absent : ℕ → List ℕ → Type 0
Absent s = All λ x. x ≢ s

abbrev pub AllDifferent : List ℕ → Type 0
AllDifferent [] = Unit
AllDifferent (s ∷ ss) = Absent s ss × AllDifferent ss

-- A connection that the pool may hand out is held by nobody.
abbrev pub Unheld : List ℕ → List PooledConnection → Type 0
Unheld held = All λ c. (c.in_use ≡ true) ⊎ Absent c.socket held

abbrev pub Below : ℕ → List PooledConnection → Type 0
Below n = All λ c. c.socket < n

abbrev pub HeldBelow : ℕ → List ℕ → Type 0
HeldBelow n = All λ s. s < n

pub record LeaseInv (n : ℕ) (held : List ℕ) (cs : List PooledConnection) : Type 0 where
  pub distinct : Distinct cs
  pub below : Below n cs
  pub held_below : HeldBelow n held
  pub unheld : Unheld held cs
  pub different : AllDifferent held

pub Below-mono : (n m : ℕ) (cs : List PooledConnection) → n ≤ m → Below n cs → Below m cs
Below-mono n m [] h b = tt
Below-mono n m (c ∷ cs) h b = (omega arith, Below-mono n m cs h b.1)

pub HeldBelow-mono : (n m : ℕ) (ss : List ℕ) → n ≤ m → HeldBelow n ss → HeldBelow m ss
HeldBelow-mono n m [] h b = tt
HeldBelow-mono n m (s ∷ ss) h b = (omega arith, HeldBelow-mono n m ss h b.1)

pub NoneOf-Below : (n s : ℕ) (cs : List PooledConnection) → n ≤ s → Below n cs → NoneOf s cs
NoneOf-Below n s [] h b = tt
NoneOf-Below n s (c ∷ cs) h b = (omega arith, NoneOf-Below n s cs h b.1)

pub Absent-Below : (n s : ℕ) (ss : List ℕ) → n ≤ s → HeldBelow n ss → Absent s ss
Absent-Below n s [] h b = tt
Absent-Below n s (x ∷ xs) h b = (omega arith, Absent-Below n s xs h b.1)

pub Distinct-concat :
    (c : PooledConnection) (cs : List PooledConnection)
    → NoneOf c.socket cs
    → Distinct cs
    → Distinct (cs ++ (c ∷ []))
Distinct-concat c [] h d = (tt, tt)
Distinct-concat c (x ∷ xs) h d = (
  All-append (λ y. y.socket ≢ x.socket) xs (c ∷ []) d.0 (λ e. h.0 (sym e), tt),
  Distinct-concat c xs h.1 d.1,
)

pub Unheld-cons :
    (s : ℕ) (held : List ℕ) (cs : List PooledConnection)
    → NoneOf s cs
    → Unheld held cs
    → Unheld (s ∷ held) cs
Unheld-cons s held [] h u = tt
Unheld-cons s held (c ∷ cs) h u = ground (arith, Unheld-cons s held cs h.1 u.1)

pub later_LeaseInv :
    (n m : ℕ) (held : List ℕ) (cs : List PooledConnection)
    → n ≤ m
    → LeaseInv n held cs
    → LeaseInv m held cs
later_LeaseInv n m held cs h v = record {
  distinct = v.distinct;
  below = Below-mono n m cs h v.below;
  held_below = HeldBelow-mono n m held h v.held_below;
  unheld = v.unheld;
  different = v.different;
}
