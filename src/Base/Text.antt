-- ===== src/Base/Text.antt =====
-- Byte strings: `std::string` as a list of byte values, and the library calls on it that the
-- code makes (`==`, `<`, `find` of one character, `substr`, `back`, `pop_back`, `tolower`).
use Prim.Native.Nat.{ℕ, ◌+◌}
use Prim.Native.Char.{code}
use Prim.Native.String.{String}
use mathlib.Core.Bool.{Bool, true, false, ◌&&◌, ◌||◌}
use mathlib.Core.List.{List, [], ◌∷◌, ◌++◌, map}
use mathlib.Core.Logic.{◌↔◌, ◌≢◌}
use mathlib.Core.Option.{Option, none, some}
use mathlib.Core.Path.{◌≡◌, refl, ap}
use native.Mathlib.Omega.{arith}
use coro_http.Base.Lists.{All}
use coro_http.Base.Tests.{◌==◌, if◌then◌else◌, leb, ltb}

abbrev pub Bytes : Type 0
Bytes = List ℕ

-- The code points of a text, which are its bytes where it is ASCII.
abbrev pub codes : String → Bytes
codes String.[] = []
codes (String.◌∷◌ c s) = code c ∷ codes s

-- `operator==`
unfoldable pub equal : Bytes → Bytes → Bool
equal [] [] = true
equal [] (d ∷ ds) = false
equal (c ∷ cs) [] = false
equal (c ∷ cs) (d ∷ ds) = if c == d then equal cs ds else false

-- `operator<` of two strings: characters compare as unsigned values.
unfoldable pub less : Bytes → Bytes → Bool
less [] [] = false
less [] (y ∷ ys) = true
less (x ∷ xs) [] = false
less (x ∷ xs) (y ∷ ys) = ltb x y || x == y && less xs ys

unfoldable pub is_empty : Bytes → Bool
is_empty [] = true
is_empty (x ∷ xs) = false

unfoldable pub tolower : ℕ → ℕ
tolower c = if leb b'A' c && leb c b'Z' then c + 32 else c

-- `std::equal` under `std::tolower`, with the lengths compared first.
unfoldable pub equal_ignoring_case : Bytes → Bytes → Bool
equal_ignoring_case a b = equal (map tolower a) (map tolower b)

-- The text before the first `c`, and what follows that `c`; none where `find` gives npos.
unfoldable pub split_at : ℕ → Bytes → Option (Bytes × Bytes)
split_at c [] = none
split_at c (x ∷ xs) =
    if x == c
    then some ([], xs)
    else elim (split_at c xs) [ none ↦ none | some (before, after) ↦ some (x ∷ before, after) ]

-- `std::getline` with delimiter `c`; none where the stream has nothing left.
unfoldable pub getline : ℕ → Bytes → Option (Bytes × Bytes)
getline c [] = none
getline c (x ∷ xs) = elim (split_at c (x ∷ xs)) [ none ↦ some (x ∷ xs, []) | some p ↦ some p ]

-- A line without the one carriage return at its end.
unfoldable pub strip_cr : Bytes → Bytes
strip_cr [] = []
strip_cr (x ∷ []) = if x == b'\r' then [] else x ∷ []
strip_cr (x ∷ y ∷ xs) = x ∷ strip_cr (y ∷ xs)

pub equal_iff : (s t : Bytes) → (equal s t ≡ true) ↔ (s ≡ t)
unfolding equal
equal_iff [] [] = ground arith
equal_iff [] (d ∷ ds) = ground arith
equal_iff (c ∷ cs) [] = ground arith
equal_iff (c ∷ cs) (d ∷ ds) = ground (arith, equal_iff cs ds)

-- The first `c` of a text is the one behind a part that has none.
pub split_at-append :
    (c : ℕ) (s rest : Bytes) → All (λ x. x ≢ c) s → split_at c (s ++ (c ∷ rest)) ≡ some (s, rest)
unfolding split_at
split_at-append c [] rest h = ground arith
split_at-append c (x ∷ xs) rest h = ground (arith, split_at-append c xs rest h.1)

pub split_at-All : (c : ℕ) (s : Bytes) → All (λ x. x ≢ c) s → split_at c s ≡ none
unfolding split_at
split_at-All c [] h = refl
split_at-All c (x ∷ xs) h = ground (arith, split_at-All c xs h.1)

-- The longest part in front whose characters pass a test, and the rest.
unfoldable pub span : (ℕ → Bool) → Bytes → Bytes × Bytes
span test [] = ([], [])
span test (c ∷ cs) = let r = span test cs in if test c then (c ∷ r.0, r.1) else ([], c ∷ cs)

-- What stands behind a given prefix.
unfoldable pub strip_prefix : Bytes → Bytes → Option Bytes
strip_prefix [] s = some s
strip_prefix (p ∷ ps) [] = none
strip_prefix (p ∷ ps) (c ∷ cs) = if c == p then strip_prefix ps cs else none

pub strip_prefix-append : (p s : Bytes) → strip_prefix p (p ++ s) ≡ some s
unfolding strip_prefix
strip_prefix-append [] s = refl
strip_prefix-append (c ∷ cs) s = ground (arith, strip_prefix-append cs s)

-- The first character, if there is one, fails the test.
abbrev pub StopsAt : (ℕ → Bool) → Bytes → Type 0
StopsAt test [] = Unit
StopsAt test (c ∷ cs) = test c ≡ false

pub span-append :
    (test : ℕ → Bool) (s rest : Bytes)
    → All (λ c. test c ≡ true) s
    → StopsAt test rest
    → span test (s ++ rest) ≡ (s, rest)
unfolding span
span-append test [] [] h k = refl
span-append test [] (c ∷ cs) h k = rw k
span-append test (c ∷ cs) rest h k = rw (h.0, span-append test cs rest h.1 k)

pub span-All : (test : ℕ → Bool) (s : Bytes) → All (λ c. test c ≡ true) (span test s).0
unfolding span
span-All test [] = tt
span-All test (c ∷ cs) = ground (arith, span-All test cs)

-- `text.find(needle) != npos`
unfoldable pub contains : Bytes → Bytes → Bool
unfolding strip_prefix
contains needle [] = is_empty needle
contains needle (c ∷ cs) = elim (strip_prefix needle (c ∷ cs)) [
  | some rest ↦ true
  | none ↦ contains needle cs
]

pub getline-append :
    (c : ℕ) (s rest : Bytes) → All (λ x. x ≢ c) s → getline c (s ++ (c ∷ rest)) ≡ some (s, rest)
unfolding getline split_at
getline-append c [] rest h = ground arith
getline-append c (x ∷ xs) rest h = ground (arith, split_at-append c xs rest h.1)

pub strip_cr-append : (s : Bytes) → strip_cr (s ++ (b'\r' ∷ [])) ≡ s
unfolding strip_cr
strip_cr-append [] = refl
strip_cr-append (x ∷ []) = refl
strip_cr-append (x ∷ y ∷ xs) = ap (◌∷◌ x) (strip_cr-append (y ∷ xs))

-- The text behind the first place where a needle stands; none where `find` gives npos.
unfoldable pub behind : Bytes → Bytes → Option Bytes
unfolding strip_prefix
behind needle [] = strip_prefix needle []
behind needle (c ∷ cs) = elim (strip_prefix needle (c ∷ cs)) [
  | some rest ↦ some rest
  | none ↦ behind needle cs
]
