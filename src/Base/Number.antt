-- ===== src/Base/Number.antt =====
-- Numbers read from text and written, in the C locale.
use Prim.Native.Nat.{ℕ, zero, suc, ◌+◌, ◌-◌, ◌*◌, ◌/◌, ◌%◌, ◌^◌}
use mathlib.Core.Bool.{Bool, true, false, ◌&&◌, ◌||◌}
use mathlib.Core.List.{[], ◌∷◌}
use mathlib.Core.Option.{Option, none, some}
use coro_http.Base.Int.{ℤ, pos, negsuc}
use coro_http.Base.Tests.{ltb, leb, ◌==◌, if◌then◌else◌}
use coro_http.Base.Text.{Bytes, span, is_empty}

unfoldable pub isspace : ℕ → Bool
isspace c = c == b' ' || leb 9 c && leb c 13

unfoldable pub isdigit : ℕ → Bool
isdigit c = leb b'0' c && leb c b'9'

-- The number that digits stand for, behind one already read.
unfoldable pub digits_value : ℕ → Bytes → ℕ
digits_value n [] = n
digits_value n (c ∷ cs) = digits_value (n * 10 + (c - b'0')) cs

-- `-n`
unfoldable pub negative : ℕ → ℤ
negative n = if n == 0 then pos 0 else negsuc (n - 1)

-- An `int` from digits, with `out_of_range` and `invalid_argument` as none.
unfoldable pub int_of_digits : Bool → Bytes → Option ℤ
unfolding digits_value negative
int_of_digits minus_sign [] = none
int_of_digits minus_sign (d ∷ ds) =
    let n = digits_value 0 (d ∷ ds) in
    if minus_sign
    then if leb n (2 ^ 31) then some (negative n) else none
    else if ltb n (2 ^ 31)
    then some (pos n)
    else none

unfoldable pub signed : Bytes → Option ℤ
unfolding int_of_digits isdigit span
signed [] = none
signed (c ∷ cs) =
    if c == b'-'
    then int_of_digits true (span isdigit cs).0
    else int_of_digits false (span isdigit (if c == b'+' then cs else c ∷ cs)).0

unfoldable pub stoi : Bytes → Option ℤ
unfolding signed isspace span
stoi text = signed (span isspace text).1

-- The decimal digits of a number, in front of text already written. A number is larger than a tenth
-- of it, so one more than the number is fuel enough.
unfoldable pub decimal_digits : ℕ → ℕ → Bytes → Bytes
decimal_digits zero n rest = rest
decimal_digits (suc fuel) n rest = elim (ltb n 10) [
  | true ↦ (n + b'0') ∷ rest
  | false ↦ decimal_digits fuel (n / 10) ((n % 10 + b'0') ∷ rest)
]

unfoldable pub decimal : ℕ → Bytes
unfolding decimal_digits
decimal n = decimal_digits (n + 1) n []

-- What `>>` reads into an `int` from text that starts with no white space: the value, whether the
-- stream is still good, and the text behind it. A number that does not fit gives the nearest `int`,
-- and no number gives 0, both with a failed stream.
unfoldable pub read_digits : Bool → Bytes → ℤ × Bool × Bytes
unfolding digits_value negative
read_digits minus_sign text =
    let s = span isdigit text in
    let n = digits_value 0 s.0 in
    if is_empty s.0
    then (pos 0, false, s.1)
    else if minus_sign
    then if leb n (2 ^ 31) then (negative n, true, s.1) else (negsuc (2 ^ 31 - 1), false, s.1)
    else if ltb n (2 ^ 31)
    then (pos n, true, s.1)
    else (pos (2 ^ 31 - 1), false, s.1)

unfoldable pub int_in : Bytes → ℤ × Bool × Bytes
unfolding read_digits isdigit span
int_in [] = (pos 0, false, [])
int_in (c ∷ cs) =
    if c == b'-' then read_digits true cs else read_digits false (if c == b'+' then cs else c ∷ cs)

unfoldable pub is_hex : ℕ → Bool
unfolding isdigit
is_hex c = isdigit c || leb b'a' c && leb c b'f' || leb b'A' c && leb c b'F'

unfoldable pub hex_value : ℕ → ℕ
hex_value c = if leb b'a' c then c - b'a' + 10 else if leb b'A' c then c - b'A' + 10 else c - b'0'

-- The number that hexadecimal digits stand for, behind one already read.
unfoldable pub hex_digits_value : ℕ → Bytes → ℕ
unfolding hex_value
hex_digits_value n [] = n
hex_digits_value n (c ∷ cs) = hex_digits_value (n * 16 + hex_value c) cs

-- `0x` in front of a digit.
unfoldable pub skip_0x : Bytes → Bytes
unfolding is_hex
skip_0x (z ∷ x ∷ d ∷ ds) =
    if z == b'0' && (x == b'x' || x == b'X') && is_hex d then d ∷ ds else z ∷ x ∷ d ∷ ds
skip_0x s = s

-- Digits behind the sign: 64 bits, negated where there was a minus; none for both exceptions.
unfoldable pub unsigned_of : Bool → Bytes → Option ℕ
unfolding hex_digits_value
unsigned_of minus_sign [] = none
unsigned_of minus_sign (d ∷ ds) =
    let n = hex_digits_value 0 (d ∷ ds) in
    if ltb n (2 ^ 64) then some (if minus_sign then (2 ^ 64 - n) % 2 ^ 64 else n) else none

unfoldable pub unsigned_signed : Bytes → Option ℕ
unfolding skip_0x unsigned_of is_hex span
unsigned_signed [] = none
unsigned_signed (c ∷ cs) =
    if c == b'-'
    then unsigned_of true (span is_hex (skip_0x cs)).0
    else unsigned_of false (span is_hex (skip_0x (if c == b'+' then cs else c ∷ cs))).0

-- `std::stoul(text, nullptr, 16)`
unfoldable pub stoul16 : Bytes → Option ℕ
unfolding unsigned_signed isspace span
stoul16 text = unsigned_signed (span isspace text).1

-- Decimal digits behind the sign, as `unsigned_of`.
unfoldable pub decimal_of : Bool → Bytes → Option ℕ
unfolding digits_value
decimal_of minus_sign [] = none
decimal_of minus_sign (d ∷ ds) =
    let n = digits_value 0 (d ∷ ds) in
    if ltb n (2 ^ 64) then some (if minus_sign then (2 ^ 64 - n) % 2 ^ 64 else n) else none

unfoldable pub decimal_signed : Bytes → Option ℕ
unfolding decimal_of isdigit span
decimal_signed [] = none
decimal_signed (c ∷ cs) =
    if c == b'-'
    then decimal_of true (span isdigit cs).0
    else decimal_of false (span isdigit (if c == b'+' then cs else c ∷ cs)).0

-- `std::stoull`
unfoldable pub stoull : Bytes → Option ℕ
unfolding decimal_signed isspace span
stoull text = decimal_signed (span isspace text).1
