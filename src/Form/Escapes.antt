-- ===== src/Form/Escapes.antt =====
-- `url_encode` beside percent-decoding, and the characters it writes.
use coro_http.Base.{
  ℕ, ◌+◌, ◌-◌, ◌*◌, ◌/◌, ◌%◌, ◌<◌, ◌≡◌, refl, true, false, [], ◌∷◌, ◌⊎◌, inl, inr, Bytes, leb, ◌==◌,
  if◌then◌else◌, arith, All, All-append,
}
use coro_http.Form.{is_unreserved, hex_digit, encode_char, url_encode}

abbrev pub AreBytes : Bytes → Type 0
AreBytes = All λ c. c < 256

pub hex_value : ℕ → ℕ
hex_value c = if leb c b'9' then c - b'0' else c - 55

-- RFC 3986: `%` and two hexadecimal digits stand for a byte.
pub url_decode : Bytes → Bytes
url_decode [] = []
url_decode (c ∷ []) = c ∷ []
url_decode (c ∷ d ∷ []) = c ∷ d ∷ []
url_decode (c ∷ d ∷ e ∷ rest) = elim (c == b'%') [
  | true ↦ (hex_value d * 16 + hex_value e) ∷ url_decode rest
  | false ↦ c ∷ url_decode (d ∷ e ∷ rest)
]

url_decode-cons :
    (c : ℕ) (cs : Bytes) → (c == b'%') ≡ false → url_decode (c ∷ cs) ≡ c ∷ url_decode cs
unfolding url_decode
url_decode-cons c [] h = refl
url_decode-cons c (d ∷ []) h = refl
url_decode-cons c (d ∷ e ∷ rest) h = ground arith

encode_char-cases :
    (c : ℕ)
    → ((encode_char c ≡ c ∷ []) × (is_unreserved c ≡ true) × ((c == b'%') ≡ false))
      ⊎ (encode_char c ≡ b'%' ∷ hex_digit (c / 16) ∷ hex_digit (c % 16) ∷ [])
unfolding encode_char
encode_char-cases c = ground arith

hex_value-hex_digit : (n : ℕ) → n < 16 → hex_value (hex_digit n) ≡ n
unfolding hex_value hex_digit
hex_value-hex_digit n h = ground arith

url_decode_escape :
    (n : ℕ) (rest : Bytes)
    → n < 256
    → url_decode (b'%' ∷ hex_digit (n / 16) ∷ hex_digit (n % 16) ∷ rest) ≡ n ∷ url_decode rest
unfolding url_decode
url_decode_escape n rest h =
    rw (hex_value-hex_digit (n / 16) (omega arith), hex_value-hex_digit (n % 16) (omega arith))
      (ground arith)

-- Percent-decoding what `url_encode` gives for any bytes gives the bytes back.
pub url_decode-url_encode : (s : Bytes) → AreBytes s → url_decode (url_encode s) ≡ s
unfolding url_encode
url_decode-url_encode [] h = unfold url_decode in refl
url_decode-url_encode (c ∷ cs) h = elim (encode_char-cases c) [
  | inl (e, u, n) ↦ rw (e, url_decode-cons c (url_encode cs) n, url_decode-url_encode cs h.1)
  | inr e ↦ rw (e, url_decode_escape c (url_encode cs) h.0, url_decode-url_encode cs h.1)
]

-- Unreserved characters, and `%` for escapes.
abbrev pub IsSafe : Bytes → Type 0
IsSafe = All λ c. (is_unreserved c ≡ true) ⊎ (c ≡ b'%')

encode_char-IsSafe : (c : ℕ) → c < 256 → IsSafe (encode_char c)
unfolding encode_char
encode_char-IsSafe c h = ground arith

-- What `url_encode` writes has only letters, digits, `-`, `_`, `.`, `~` and `%`.
pub url_encode-IsSafe : (s : Bytes) → AreBytes s → IsSafe (url_encode s)
unfolding url_encode
url_encode-IsSafe [] h = tt
url_encode-IsSafe (c ∷ cs) h =
    All-append (λ c. (is_unreserved c ≡ true) ⊎ (c ≡ b'%')) (encode_char c) (url_encode cs)
      (encode_char-IsSafe c h.0) (url_encode-IsSafe cs h.1)
