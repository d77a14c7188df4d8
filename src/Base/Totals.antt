-- ===== src/Base/Totals.antt =====
-- Coroutines that end, and keep a property of their state: a rule for each way to build one.
use mathlib.Core.Bool.{Bool, true, false}
use mathlib.Core.Option.{Option, none, some}
use coro_http.Base.Outcome.{Outcome, returned, thrown, undefined}
use coro_http.Base.Text.{Bytes}
use coro_http.Base.Tests.{if◌then◌else◌}
use coro_http.Base.Awaiting.{
  Awaitable, clean_after, clean_up, co_return, finally, gets, lift, on_exception, resume, throw,
  ◌>>=◌,
}

-- Ended, in a state that `P` holds of.
abbrev pub EndsIn : {S A : Type 0} → (S → Type 0) → Option (Outcome A × S) → Type 0
EndsIn P none = ⊥
EndsIn P (some (o, s)) = P s

-- A coroutine that ends from every state that `P` holds of, and in such a state.
pub record IsTotal {S A : Type 0} (P : S → Type 0) (m : Awaitable S A) : Type 0 where
  pub at : (s : S) → P s → EndsIn P (m s)

module _ {S A : Type 0} {P : S → Type 0} where
  pub IsTotal-return : (a : A) → IsTotal P (co_return a)
  IsTotal-return a = record { at = λ s p. p }

  pub IsTotal-throw : (e : Bytes) → IsTotal {A = A} P (throw e)
  IsTotal-throw e = record { at = λ s p. p }

  pub IsTotal-lift : (o : Outcome A) → IsTotal P (lift o)
  IsTotal-lift o = record { at = λ s p. p }

  pub IsTotal-gets : (f : S → A) → IsTotal P (gets f)
  IsTotal-gets f = record { at = λ s p. p }

  pub IsTotal-if :
      (b : Bool) (m n : Awaitable S A) → IsTotal P m → IsTotal P n → IsTotal P (if b then m else n)
  IsTotal-if true m n h k = h
  IsTotal-if false m n h k = k

  EndsIn-clean_after :
      (h : S → S) (r : Option (Outcome A × S))
      → ((s : S) → P s → P (h s))
      → EndsIn P r
      → EndsIn P (clean_after h r)
  EndsIn-clean_after h none q k = k
  EndsIn-clean_after h (some (returned a, s)) q k = q s k
  EndsIn-clean_after h (some (thrown e, s)) q k = q s k
  EndsIn-clean_after h (some (undefined, s)) q k = k

  pub IsTotal-finally :
      (h : S → S) (m : Awaitable S A)
      → ((s : S) → P s → P (h s))
      → IsTotal P m
      → IsTotal P (finally h m)
  IsTotal-finally h m q t = record { at = λ s p. EndsIn-clean_after h (m s) q (t.at s p) }

module _ {S A B : Type 0} {P : S → Type 0} where
  EndsIn-resume :
      (f : A → Awaitable S B) (r : Option (Outcome A × S))
      → ((a : A) → IsTotal P (f a))
      → EndsIn P r
      → EndsIn {A = B} P (elim r [ none ↦ none | some (o, s) ↦ resume f o s ])
  EndsIn-resume f none t k = k
  EndsIn-resume f (some (returned a, s)) t k = (t a).at s k
  EndsIn-resume f (some (thrown e, s)) t k = k
  EndsIn-resume f (some (undefined, s)) t k = k

  pub IsTotal-bind :
      (m : Awaitable S A) (f : A → Awaitable S B)
      → IsTotal P m
      → ((a : A) → IsTotal P (f a))
      → IsTotal P (m >>= f)
  IsTotal-bind m f t u = record { at = λ s p. EndsIn-resume f (m s) u (t.at s p) }

module _ {S A : Type 0} {P : S → Type 0} where
  EndsIn-clean_up :
      (h : Awaitable S Unit) (r : Option (Outcome A × S))
      → IsTotal P h
      → EndsIn P r
      → EndsIn {A = A} P (elim r [ none ↦ none | some (o, s) ↦ clean_up h o s ])
  EndsIn-clean_up h none t k = k
  EndsIn-clean_up h (some (returned a, s)) t k = k
  EndsIn-clean_up h (some (thrown e, s)) t k =
      EndsIn-resume (λ _. throw e) (h s) (λ _. IsTotal-throw e) (t.at s k)
  EndsIn-clean_up h (some (undefined, s)) t k = k

  pub IsTotal-on_exception :
      (h : Awaitable S Unit) (m : Awaitable S A)
      → IsTotal P h
      → IsTotal P m
      → IsTotal P (on_exception h m)
  IsTotal-on_exception h m t u = record { at = λ s p. EndsIn-clean_up h (m s) t (u.at s p) }

pub ruleset total_rules = (
  IsTotal-return, IsTotal-throw, IsTotal-lift, IsTotal-gets, IsTotal-if, IsTotal-bind,
  IsTotal-on_exception,
)
