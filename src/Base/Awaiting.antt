-- ===== src/Base/Awaiting.antt =====
-- asio::awaitable: a coroutine that changes a state and ends in an outcome. The state comes back
-- beside an exception too, since what was done stays done.
use mathlib.Core.Option.{Option, none, some}
use mathlib.Core.Path.{◌≡◌, refl}
use coro_http.Base.Outcome.{Outcome, returned, thrown, undefined}
use coro_http.Base.Text.{Bytes}

-- None where it still waits, after as many steps as the bound of its loops allows.
abbrev pub Awaitable : Type 0 → Type 0 → Type 0
Awaitable S A = S → Option (Outcome A × S)

module _ {S A : Type 0} where
  abbrev pub co_return : A → Awaitable S A
  co_return a s = some (returned a, s)

  abbrev pub throw : Bytes → Awaitable S A
  throw e s = some (thrown e, s)

  -- A call that ends in an outcome at once.
  abbrev pub lift : Outcome A → Awaitable S A
  lift o s = some (o, s)

  abbrev pub gets : (S → A) → Awaitable S A
  gets f s = some (returned (f s), s)

abbrev pub modify : {S : Type 0} → (S → S) → Awaitable S Unit
modify f s = some (returned tt, f s)

-- How a run ended, without its state.
abbrev pub ending : {S A : Type 0} → Option (Outcome A × S) → Option (Outcome A)
ending none = none
ending (some (o, s)) = some o

-- What follows an outcome.
abbrev pub resume : {S A B : Type 0} → (A → Awaitable S B) → Outcome A → Awaitable S B
resume f (returned a) s = f a s
resume f (thrown e) s = some (thrown e, s)
resume f undefined s = some (undefined, s)

infixl 5 ◌>>=◌ ◌>>◌
abbrev pub ◌>>=◌ : {S A B : Type 0} → Awaitable S A → (A → Awaitable S B) → Awaitable S B
◌>>=◌ m f s = elim (m s) [ none ↦ none | some (o, s') ↦ resume f o s' ]

-- What follows a return.
pub bind-returned :
    {S A B : Type 0} (m : Awaitable S A) (f : A → Awaitable S B) (a : A) (s s' : S)
    → m s ≡ some (returned a, s')
    → (m >>= f) s ≡ f a s'
bind-returned m f a s s' e = rw (e, ◌>>=◌) refl

abbrev pub ◌>>◌ : {S A B : Type 0} → Awaitable S A → Awaitable S B → Awaitable S B
m >> k = m >>= λ _. k

-- `catch (...) { handler; throw; }`
abbrev pub clean_up : {S A : Type 0} → Awaitable S Unit → Outcome A → Awaitable S A
clean_up h (returned a) s = some (returned a, s)
clean_up h (thrown e) s = (h >> throw e) s
clean_up h undefined s = some (undefined, s)

abbrev pub on_exception : {S A : Type 0} → Awaitable S Unit → Awaitable S A → Awaitable S A
on_exception h m s = elim (m s) [ none ↦ none | some (o, s') ↦ clean_up h o s' ]

-- A destructor, which runs where the scope ends, by a return or an exception.
abbrev pub clean_after : {S A : Type 0} → (S → S) → Option (Outcome A × S) → Option (Outcome A × S)
clean_after h none = none
clean_after h (some (returned a, s)) = some (returned a, h s)
clean_after h (some (thrown e, s)) = some (thrown e, h s)
clean_after h (some (undefined, s)) = some (undefined, s)

abbrev pub finally : {S A : Type 0} → (S → S) → Awaitable S A → Awaitable S A
finally h m s = clean_after h (m s)
