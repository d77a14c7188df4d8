-- ===== src/Base/Dict.antt =====
-- `std::map` keyed by strings: an association list in the order of the keys.
use mathlib.Core.Bool.{true, false}
use mathlib.Core.List.{List, [], ◌∷◌}
use mathlib.Core.Option.{Option, none, some}
use mathlib.Core.Path.{◌≡◌, refl}
use native.Mathlib.Omega.{arith}
use coro_http.Base.Tests.{if◌then◌else◌}
use coro_http.Base.Lists.{All}
use coro_http.Base.Text.{Bytes, equal, less, equal_iff}

less_trans : (a b c : Bytes) → less a b ≡ true → less b c ≡ true → less a c ≡ true
unfolding less
less_trans [] [] c h k = cc
less_trans [] (y ∷ b) [] h k = cc
less_trans [] (y ∷ b) (z ∷ c) h k = refl
less_trans (x ∷ a) [] c h k = cc
less_trans (x ∷ a) (y ∷ b) [] h k = cc
less_trans (x ∷ a) (y ∷ b) (z ∷ c) h k = ground (arith, less_trans a b c)

less_irrefl : (a : Bytes) → less a a ≡ false
unfolding less
less_irrefl [] = refl
less_irrefl (x ∷ a) = ground (arith, less_irrefl a)

-- Of two different strings one comes first.
less_total : (a b : Bytes) → equal b a ≡ false → less a b ≡ false → less b a ≡ true
unfolding less equal
less_total [] [] h k = cc
less_total [] (y ∷ b) h k = cc
less_total (x ∷ a) [] h k = refl
less_total (x ∷ a) (y ∷ b) h k = ground (arith, less_total a b)

abbrev pub Dict {ℓ} : Type ℓ → Type ℓ
Dict V = List (Bytes × V)

module _ {ℓ} {V : Type ℓ} where
  -- `find`
  unfoldable pub lookup : Bytes → Dict V → Option V
  lookup key [] = none
  lookup key (entry ∷ m) = if equal entry.0 key then some entry.1 else lookup key m

  -- `m[k] = v`
  unfoldable pub insert : Bytes → V → Dict V → Dict V
  insert k v [] = (k, v) ∷ []
  insert k v ((j, w) ∷ m) =
      if equal j k
      then (k, v) ∷ m
      else if less k j
      then (k, v) ∷ (j, w) ∷ m
      else (j, w) ∷ insert k v m

  unfoldable pub erase : Bytes → Dict V → Dict V
  erase k [] = []
  erase k ((j, w) ∷ m) = if equal j k then m else (j, w) ∷ erase k m

  pub lookup-insert :
      (k i : Bytes) (v : V) (m : Dict V)
      → lookup i (insert k v m) ≡ (if equal k i then some v else lookup i m)
  unfolding lookup insert
  lookup-insert k i v [] = refl
  lookup-insert k i v ((j, w) ∷ m) =
      ground (arith, equal_iff k i, equal_iff j k, equal_iff j i, lookup-insert k i v m)

  -- All keys come after `k`.
  abbrev pub Above : Bytes → Dict V → Type 0
  Above k = All λ e. less k e.0 ≡ true

  abbrev pub IsSorted : Dict V → Type 0
  IsSorted [] = Unit
  IsSorted ((j, w) ∷ m) = Above j m × IsSorted m

  Above-trans : (a b : Bytes) (m : Dict V) → less a b ≡ true → Above b m → Above a m
  Above-trans a b [] h k = tt
  Above-trans a b ((j, w) ∷ m) h k = (less_trans a b j h k.0, Above-trans a b m h k.1)

  pub lookup-Above : (k : Bytes) (m : Dict V) → Above k m → lookup k m ≡ none
  unfolding lookup
  lookup-Above k [] h = refl
  lookup-Above k ((j, w) ∷ m) h = ground (arith, equal_iff j k, less_irrefl k, lookup-Above k m h.1)

  insert-Above :
      (a k : Bytes) (v : V) (m : Dict V) → less a k ≡ true → Above a m → Above a (insert k v m)
  unfolding insert
  insert-Above a k v [] h b = (h, tt)
  insert-Above a k v ((j, w) ∷ m) h b = ground (arith, insert-Above a k v m h b.1)

  pub insert-IsSorted : (k : Bytes) (v : V) (m : Dict V) → IsSorted m → IsSorted (insert k v m)
  unfolding insert
  insert-IsSorted k v [] s = (tt, tt)
  insert-IsSorted k v ((j, w) ∷ m) s = ground (
    arith,
    equal_iff j k,
    less_total k j,
    Above-trans k j m,
    insert-Above j k v m,
    insert-IsSorted k v m s.1,
  )

  erase-Above : (a k : Bytes) (m : Dict V) → Above a m → Above a (erase k m)
  unfolding erase
  erase-Above a k [] b = tt
  erase-Above a k ((j, w) ∷ m) b = ground (arith, erase-Above a k m b.1)

  pub erase-IsSorted : (k : Bytes) (m : Dict V) → IsSorted m → IsSorted (erase k m)
  unfolding erase
  erase-IsSorted k [] s = tt
  erase-IsSorted k ((j, w) ∷ m) s = ground (arith, erase-Above j k m s.0, erase-IsSorted k m s.1)

  pub lookup-erase :
      (k i : Bytes) (m : Dict V)
      → IsSorted m
      → lookup i (erase k m) ≡ (if equal k i then none else lookup i m)
  unfolding lookup erase
  lookup-erase k i [] s = ground arith
  lookup-erase k i ((j, w) ∷ m) s = ground (
    arith,
    equal_iff k i,
    equal_iff j k,
    equal_iff j i,
    lookup-Above j m s.0,
    lookup-erase k i m s.1,
  )
