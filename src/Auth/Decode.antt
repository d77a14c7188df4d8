-- ===== src/Auth/Decode.antt =====
-- The decoding of RFC 4648, for the results of base64_encode.
use coro_http.Base.{
  ℕ, zero, suc, ◌+◌, ◌-◌, ◌*◌, ◌/◌, ◌%◌, ◌<◌, ◌≡◌, refl, Bool, true, false, ◌&&◌, [], ◌∷◌, Bytes,
  leb, ◌==◌, if◌then◌else◌, arith,
}
use coro_http.Auth.{base64_char, base64_encode}
use coro_http.Auth.Base64.{AreBytes, rfc4648, base64_encode-rfc4648}

-- The value of a character of the alphabet.
pub base64_value : ℕ → ℕ
base64_value c =
    if leb b'A' c && leb c b'Z'
    then c - b'A'
    else if leb b'a' c && leb c b'z'
    then c - b'a' + 26
    else if leb b'0' c && leb c b'9'
    then c - b'0' + 52
    else if c == b'+'
    then 62
    else 63

pub decode : Bytes → Bytes
decode (p ∷ q ∷ r ∷ s ∷ rest) =
    let first = base64_value p * 4 + base64_value q / 16 in
    let second = base64_value q % 16 * 16 + base64_value r / 4 in
    let third = base64_value r % 4 * 64 + base64_value s in
    if r == b'='
    then first ∷ []
    else if s == b'='
    then first ∷ second ∷ []
    else first ∷ second ∷ third ∷ decode rest
decode _ = []

-- Every index is tried.
all_below : ℕ → (ℕ → Bool) → Bool
all_below zero test = true
all_below (suc n) test = test n && all_below n test

all_below_lt : (n : ℕ) (test : ℕ → Bool) (i : ℕ) → all_below n test ≡ true → i < n → test i ≡ true
unfolding all_below
all_below_lt zero test i h lt = absurd (omega arith)
all_below_lt (suc n) test i h lt = ground (arith, all_below_lt n test i)

value_table : all_below 64 (λ i. base64_value (base64_char i) == i) ≡ true
unfolding all_below base64_value base64_char
value_table = refl

value-base64_char : (i : ℕ) → i < 64 → base64_value (base64_char i) ≡ i
value-base64_char i h =
    ground (arith, all_below_lt 64 (λ i. base64_value (base64_char i) == i) i value_table h)

no_padding_table : all_below 64 (λ i. if base64_char i == b'=' then false else true) ≡ true
unfolding all_below base64_char
no_padding_table = refl

-- No character of the alphabet is the padding.
base64_char_ne : (i : ℕ) → i < 64 → (base64_char i == b'=') ≡ false
base64_char_ne i h = ground (
  arith,
  all_below_lt 64 (λ i. if base64_char i == b'=' then false else true) i no_padding_table h,
)

decode-rfc4648 : (input : Bytes) → AreBytes input → decode (rfc4648 input) ≡ input
unfolding decode rfc4648
decode-rfc4648 [] h = refl
decode-rfc4648 (a ∷ []) h =
    rw (value-base64_char (a / 4) (omega arith), value-base64_char (a % 4 * 16) (omega arith))
      (ground arith)
decode-rfc4648 (a ∷ b ∷ []) h =
    rw
      (
        base64_char_ne (b % 16 * 4) (omega arith),
        value-base64_char (a / 4) (omega arith),
        value-base64_char (a % 4 * 16 + b / 16) (omega arith),
        value-base64_char (b % 16 * 4) (omega arith),
      )
      (ground arith)
decode-rfc4648 (a ∷ b ∷ c ∷ rest) h =
    rw
      (
        base64_char_ne (b % 16 * 4 + c / 64) (omega arith),
        base64_char_ne (c % 64) (omega arith),
        value-base64_char (a / 4) (omega arith),
        value-base64_char (a % 4 * 16 + b / 16) (omega arith),
        value-base64_char (b % 16 * 4 + c / 64) (omega arith),
        value-base64_char (c % 64) (omega arith),
        decode-rfc4648 rest h.1.1.1,
      )
      (ground arith)

-- Decoding what `base64_encode` gives for any bytes gives the bytes back.
decode-base64_encode : (input : Bytes) → AreBytes input → decode (base64_encode input) ≡ input
decode-base64_encode input h = rw (base64_encode-rfc4648 input h) (decode-rfc4648 input h)
