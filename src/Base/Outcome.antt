-- ===== src/Base/Outcome.antt =====
-- How a C++ function ends.
use mathlib.Core.List.{[], ◌∷◌, ◌++◌}
use mathlib.Core.Logic.{◌≢◌}
use mathlib.Core.Option.{Option, none, some}
use native.Mathlib.Omega.{arith}
use mathlib.Core.Path.{◌≡◌, refl, ap}
use coro_http.Base.Text.{Bytes, strip_cr, strip_cr-append}

-- It returns, throws an exception with a text, or has undefined behaviour.
pub data Outcome {ℓ} (A : Type ℓ) : Type ℓ where
  returned : A → Outcome A
  thrown : Bytes → Outcome A
  undefined : Outcome A

-- What follows a call, where the call returns.
abbrev pub and_then {ℓ κ} : {A : Type ℓ} {B : Type κ} → Outcome A → (A → Outcome B) → Outcome B
and_then (returned a) f = f a
and_then (thrown e) f = thrown e
and_then undefined f = undefined

-- A value, or the exception where there is none.
abbrev pub or_throw {ℓ} : {A : Type ℓ} → Bytes → Option A → Outcome A
or_throw e none = thrown e
or_throw e (some a) = returned a

pub or_throw-returned {ℓ} :
    {A : Type ℓ} (e : Bytes) (o : Option A) (a : A) → or_throw e o ≡ returned a → o ≡ some a
or_throw-returned e none a h = absurd (cc h)
or_throw-returned e (some b) a h = ap some (ground (arith, h))

-- `line.back()` and the `pop_back` of a carriage return behind it: undefined on an empty line.
unfoldable pub chop : Bytes → Outcome Bytes
unfolding strip_cr
chop [] = undefined
chop (c ∷ cs) = returned (strip_cr (c ∷ cs))

pub chop-append : (s : Bytes) → s ≢ [] → chop (s ++ (b'\r' ∷ [])) ≡ returned s
unfolding chop
chop-append [] ne = absurd (ne refl)
chop-append (c ∷ cs) ne = ap returned (strip_cr-append (c ∷ cs))
