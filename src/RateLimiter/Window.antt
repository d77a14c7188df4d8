-- ===== src/RateLimiter/Window.antt =====
-- The limiter against its specification: a log of the requests admitted.
use coro_http.Base.{
  ℕ, zero, suc, true, false, ◌==◌, ◌||◌, ◌+◌, ◌≤◌, ◌<◌, ◌≡◌, refl, List, [], ◌∷◌, ◌++◌, arith,
  length, length-append, ltb, ap, if◌then◌else◌, All, All-append, Bool-cases, inl, inr, ◌∙◌,
}
use coro_http.Base.Int.{pos}
use coro_http.RateLimiter.{RateLimiter, make, expire, attempt, try_acquire, count_valid, reset}

-- A step of some thread: an attempt at a time, `try_acquire` or a round of `acquire`, or `reset`.
pub data LimiterCall : Type 0 where
  attempts : ℕ → LimiterCall
  resets : LimiterCall

-- The limiter, with the times of the requests admitted since the last reset, newest first.
pub record Admitted : Type 0 where
  pub limiter : RateLimiter
  pub log : List ℕ

pub step : LimiterCall → Admitted → Admitted
step (attempts now) a =
    let r = try_acquire now a.limiter in
    record { limiter = r.1; log = if r.0 then now ∷ a.log else a.log }
step resets a = record { limiter = reset a.limiter; log = [] }

unfoldable pub run : List LimiterCall → Admitted → Admitted
unfolding step
run [] a = a
run (c ∷ cs) a = run cs (step c a)

-- The specification: a request is admitted where there is no limit, which is 0, or fewer than `max` were
-- admitted in the window that ends now.
pub spec_step : ℕ → ℕ → LimiterCall → List ℕ → List ℕ
spec_step max window (attempts now) log =
    if max == 0 || ltb (count_valid window now log) max then now ∷ log else log
spec_step max window resets log = []

pub spec_run : ℕ → ℕ → List LimiterCall → List ℕ → List ℕ
unfolding spec_step
spec_run max window [] log = log
spec_run max window (c ∷ cs) log = spec_run max window cs (spec_step max window c log)

-- The clock does not go back.
abbrev pub IsMonotone : ℕ → List LimiterCall → Type 0
IsMonotone last [] = Unit
IsMonotone last (attempts now ∷ cs) = (last ≤ now) × IsMonotone now cs
IsMonotone last (resets ∷ cs) = IsMonotone last cs

-- Oldest first, none later than `last`.
abbrev pub IsOrdered : ℕ → List ℕ → Type 0
IsOrdered last [] = Unit
IsOrdered last (t ∷ ts) = (t ≤ last) × All (λ u. t ≤ u) ts × IsOrdered last ts

pub record LimiterInv (max window last : ℕ) (a : Admitted) : Type 0 where
  pub on : a.limiter.enabled ≡ true
  pub some_max : 0 < max
  pub same_max : a.limiter.max_requests ≡ pos max
  pub same_window : a.limiter.window ≡ window
  pub ordered : IsOrdered last a.limiter.timestamps
  pub bounded : length a.limiter.timestamps ≤ max
  -- the deque has forgotten only what no later window holds
  pub counts :
      (now : ℕ)
      → last ≤ now
      → count_valid window now a.limiter.timestamps ≡ count_valid window now a.log

count_valid-append :
    (window now : ℕ) (ts us : List ℕ)
    → count_valid window now (ts ++ us) ≡ count_valid window now ts + count_valid window now us
unfolding count_valid
count_valid-append window now [] us = omega arith
count_valid-append window now (t ∷ ts) us = omega (arith, count_valid-append window now ts us)

count_valid-expire :
    (window now later : ℕ) (ts : List ℕ)
    → now ≤ later
    → count_valid window later (expire window now ts) ≡ count_valid window later ts
unfolding count_valid expire
count_valid-expire window now later [] h = refl
count_valid-expire window now later (t ∷ ts) h =
    ground (arith, count_valid-expire window now later ts h)

count_valid-All :
    (window now : ℕ) (t : ℕ) (ts : List ℕ)
    → now ≤ t + window
    → All (λ u. t ≤ u) ts
    → count_valid window now ts ≡ length ts
unfolding count_valid
count_valid-All window now t [] h a = refl
count_valid-All window now t (u ∷ ts) h a = ground (arith, count_valid-All window now t ts h a.1)

-- After the loop every timestamp left is valid.
pub length-expire :
    (window now last : ℕ) (ts : List ℕ)
    → IsOrdered last ts
    → length (expire window now ts) ≡ count_valid window now ts
unfolding expire count_valid
length-expire window now last [] o = refl
length-expire window now last (t ∷ ts) o =
    ground (arith, length-expire window now last ts o.2, count_valid-All window now t ts)

pub expire-le : (window now : ℕ) (ts : List ℕ) → length (expire window now ts) ≤ length ts
unfolding expire
expire-le window now [] = omega arith
expire-le window now (t ∷ ts) = ground (arith, expire-le window now ts)

later_IsOrdered : (last now : ℕ) (ts : List ℕ) → last ≤ now → IsOrdered last ts → IsOrdered now ts
later_IsOrdered last now [] h o = tt
later_IsOrdered last now (t ∷ ts) h o = (omega arith, o.1, later_IsOrdered last now ts h o.2)

expire-IsOrdered :
    (window now last : ℕ) (ts : List ℕ)
    → last ≤ now
    → IsOrdered last ts
    → IsOrdered now (expire window now ts)
unfolding expire
expire-IsOrdered window now last [] h o = tt
expire-IsOrdered window now last (t ∷ ts) h o =
    ground (arith, expire-IsOrdered window now last ts h o.2, later_IsOrdered last now ts h o.2)

concat-IsOrdered : (now : ℕ) (ts : List ℕ) → IsOrdered now ts → IsOrdered now (ts ++ (now ∷ []))
concat-IsOrdered now [] o = (omega arith, tt, tt)
concat-IsOrdered now (t ∷ ts) o =
    (o.0, All-append (λ u. t ≤ u) ts (now ∷ []) o.1 (o.0, tt), concat-IsOrdered now ts o.2)

module _ (max window last : ℕ) (a : Admitted) (v : LimiterInv max window last a) where
  abbrev live : ℕ → List ℕ
  live now = expire window now a.limiter.timestamps

  -- The deque's length after the loop is the number of requests in the window.
  length-live : (now : ℕ) → last ≤ now → length (live now) ≡ count_valid window now a.log
  length-live now h = length-expire window now last a.limiter.timestamps v.ordered ∙ v.counts now h

  live-IsOrdered : (now : ℕ) → last ≤ now → IsOrdered now (live now)
  live-IsOrdered now h = expire-IsOrdered window now last a.limiter.timestamps h v.ordered

  live_counts :
      (now later : ℕ)
      → last ≤ now
      → now ≤ later
      → count_valid window later (live now) ≡ count_valid window later a.log
  live_counts now later h k =
      count_valid-expire window now later a.limiter.timestamps k ∙ v.counts later (omega arith)

  admitted_counts :
      (now later : ℕ)
      → last ≤ now
      → now ≤ later
      → count_valid window later (live now ++ (now ∷ [])) ≡ count_valid window later (now ∷ a.log)
  unfolding count_valid
  admitted_counts now later h k =
      omega
        (arith, count_valid-append window later (live now) (now ∷ []), live_counts now later h k)

  attempts-LimiterInv : (now : ℕ) → last ≤ now → LimiterInv max window now (step (attempts now) a)
  unfolding step try_acquire attempt
  attempts-LimiterInv now h =
      rw (v.on, v.same_max, v.same_window)
        (elim (Bool-cases (ltb (length (live now)) max)) [
          | inl room ↦ rw room (record {
            on = refl;
            some_max = v.some_max;
            same_max = refl;
            same_window = refl;
            ordered = concat-IsOrdered now (live now) (live-IsOrdered now h);
            bounded = ground (arith, length-append (live now) (now ∷ []));
            counts = λ later k. admitted_counts now later h k;
          })
          | inr full ↦ rw full (record {
            on = refl;
            some_max = v.some_max;
            same_max = refl;
            same_window = refl;
            ordered = live-IsOrdered now h;
            bounded = omega (arith, expire-le window now a.limiter.timestamps, v.bounded);
            counts = λ later k. live_counts now later h k;
          })
        ])

  attempts-log :
      (now : ℕ)
      → last ≤ now
      → (step (attempts now) a).log ≡ spec_step max window (attempts now) a.log
  unfolding step try_acquire attempt spec_step
  attempts-log now h =
      rw (v.on, v.same_max, v.same_window, length-live now h) (ground (arith, v.some_max))

  resets-LimiterInv : LimiterInv max window last (step resets a)
  unfolding step reset
  resets-LimiterInv = record {
    on = v.on;
    some_max = v.some_max;
    same_max = v.same_max;
    same_window = v.same_window;
    ordered = tt;
    bounded = omega arith;
    counts = λ later k. refl;
  }

run-log :
    (max window last : ℕ) (cs : List LimiterCall) (a : Admitted)
    → LimiterInv max window last a
    → IsMonotone last cs
    → (run cs a).log ≡ spec_run max window cs a.log
unfolding run spec_run
run-log max window last [] a v m = refl
run-log max window last (attempts now ∷ cs) a v m =
    rw (← attempts-log max window last a v now m.0) (
      run-log max window now cs (step (attempts now) a)
        (attempts-LimiterInv max window last a v now m.0) m.1)
run-log max window last (resets ∷ cs) a v m =
    run-log max window last cs (step resets a) (resets-LimiterInv max window last a v) m

abbrev pub started : ℕ → ℕ → Admitted
started max window = record { limiter = make (pos max) window; log = [] }

started-LimiterInv : (m window : ℕ) → LimiterInv (suc m) window 0 (started (suc m) window)
unfolding make
started-LimiterInv m window = record {
  on = ground arith;
  some_max = omega arith;
  same_max = refl;
  same_window = refl;
  ordered = tt;
  bounded = omega arith;
  counts = λ later k. refl;
}

step-off :
    (now : ℕ) (a : Admitted)
    → a.limiter.enabled ≡ false
    → step (attempts now) a ≡ record { limiter = a.limiter; log = now ∷ a.log }
unfolding step try_acquire
step-off now a off = simp off refl

-- A limiter that is off admits all.
off-log :
    (window : ℕ) (cs : List LimiterCall) (a : Admitted)
    → a.limiter.enabled ≡ false
    → (run cs a).log ≡ spec_run 0 window cs a.log
unfolding run spec_run step spec_step reset
off-log window [] a off = refl
off-log window (attempts now ∷ cs) a off =
    ap (λ b. (run cs b).log) (step-off now a off)
    ∙ off-log window cs (record { limiter = a.limiter; log = now ∷ a.log }) off
off-log window (resets ∷ cs) a off = off-log window cs (step resets a) off

-- Over any sequence of attempts and resets, at times that do not go back, a limiter with the limit
-- `max` admits exactly the requests of the specification: all, where `max` is 0, and otherwise those at
-- which fewer than `max` were admitted since the last reset in the window that ends at their time.
pub run-spec_run :
    (max window : ℕ) (cs : List LimiterCall)
    → IsMonotone 0 cs
    → (run cs (started max window)).log ≡ spec_run max window cs []
unfolding make
run-spec_run zero window cs m = off-log window cs (started 0 window) refl
run-spec_run (suc n) window cs m = run-log (suc n) window 0 cs _ (started-LimiterInv n window) m

-- Newest first: with each request, fewer than `max` earlier ones lie in the window that ends at it.
abbrev pub IsPaced : ℕ → ℕ → List ℕ → Type 0
IsPaced max window [] = Unit
IsPaced max window (t ∷ ts) = (count_valid window t ts < max) × IsPaced max window ts

spec_run-IsPaced :
    (max window : ℕ) (cs : List LimiterCall) (log : List ℕ)
    → 0 < max
    → IsPaced max window log
    → IsPaced max window (spec_run max window cs log)
unfolding spec_run spec_step
spec_run-IsPaced max window [] log lt p = p
spec_run-IsPaced max window (attempts now ∷ cs) log lt p =
    ground (
      arith,
      spec_run-IsPaced max window cs (now ∷ log) lt,
      spec_run-IsPaced max window cs log lt p,
    )
spec_run-IsPaced max window (resets ∷ cs) log lt p = spec_run-IsPaced max window cs [] lt tt

-- Where there is a limit, not 0, and times do not go back: no window that ends at an admitted request
-- holds more than `max` of the requests admitted since the last reset.
pub run-IsPaced :
    (max window : ℕ) (cs : List LimiterCall)
    → 0 < max
    → IsMonotone 0 cs
    → IsPaced max window (run cs (started max window)).log
run-IsPaced max window cs lt m =
    rw (run-spec_run max window cs m) (spec_run-IsPaced max window cs [] lt tt)
