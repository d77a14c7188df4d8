-- ===== src/Auth/Base64.antt =====
-- `base64_encode` beside the encoding of RFC 4648.
use coro_http.Base.{
  ℕ, zero, suc, ◌+◌, ◌*◌, ◌/◌, ◌%◌, ◌^◌, ◌<◌, ◌≡◌, refl, [], ◌∷◌, ◌++◌, Bytes, All, arith,
}
use coro_http.Auth.{base64_char, push_byte, encode_loop, pad, base64_encode}

abbrev pub AreBytes : Bytes → Type 0
AreBytes = All λ c. c < 256

-- RFC 4648, section 4: 24-bit groups as four characters, and the two short groups at the end.
unfoldable pub rfc4648 : Bytes → Bytes
rfc4648 [] = []
rfc4648 (a ∷ []) = base64_char (a / 4) ∷ base64_char (a % 4 * 16) ∷ b'=' ∷ b'=' ∷ []
rfc4648 (a ∷ b ∷ []) =
    base64_char (a / 4) ∷ base64_char (a % 4 * 16 + b / 16) ∷ base64_char (b % 16 * 4) ∷ b'=' ∷ []
rfc4648 (a ∷ b ∷ c ∷ rest) =
    base64_char (a / 4)
    ∷ base64_char (a % 4 * 16 + b / 16)
    ∷ base64_char (b % 16 * 4 + c / 64)
    ∷ base64_char (c % 64)
    ∷ rfc4648 rest

-- Which bits of `val` the characters of a group come from.
first_bits : (v a : ℕ) → a < 256 → push_byte v a / 4 % 64 ≡ a / 4
unfolding push_byte
first_bits v a h = omega arith

second_bits :
    (v a b : ℕ) → a < 256 → b < 256 → push_byte (push_byte v a) b / 16 % 64 ≡ a % 4 * 16 + b / 16
unfolding push_byte
second_bits v a b h k = omega arith

third_bits :
    (v b c : ℕ) → b < 256 → c < 256 → push_byte (push_byte v b) c / 64 % 64 ≡ b % 16 * 4 + c / 64
unfolding push_byte
third_bits v b c h k = omega arith

fourth_bits : (v c : ℕ) → c < 256 → push_byte v c % 64 ≡ c % 64
unfolding push_byte
fourth_bits v c h = omega arith

fourth_bits_shift : (v c : ℕ) → c < 256 → push_byte v c / 1 % 64 ≡ c % 64
unfolding push_byte
fourth_bits_shift v c h = omega arith

last_bits_two : (v a : ℕ) → a < 256 → push_byte v a * 256 % 2 ^ 32 / 16 % 64 ≡ a % 4 * 16
unfolding push_byte
last_bits_two v a h = omega arith

last_bits_four : (v b : ℕ) → b < 256 → push_byte v b * 256 % 2 ^ 32 / 64 % 64 ≡ b % 16 * 4
unfolding push_byte
last_bits_four v b h = omega arith

-- The characters without the padding.
abbrev unpadded : Bytes → ℕ → Bytes
unpadded input v = encode_loop input v 0

encode_one :
    (v a : ℕ) → a < 256 → unpadded (a ∷ []) v ≡ base64_char (a / 4) ∷ base64_char (a % 4 * 16) ∷ []
unfolding encode_loop
encode_one v a h = rw (first_bits v a h, last_bits_two v a h)

encode_two :
    (v a b : ℕ)
    → a < 256
    → b < 256
    → unpadded (a ∷ b ∷ []) v
      ≡ base64_char (a / 4) ∷ base64_char (a % 4 * 16 + b / 16) ∷ base64_char (b % 16 * 4) ∷ []
unfolding encode_loop
encode_two v a b h k =
    rw (first_bits v a h, second_bits v a b h k, last_bits_four (push_byte v a) b k)

encode_three :
    (v a b c : ℕ) (rest : Bytes)
    → a < 256
    → b < 256
    → c < 256
    → unpadded (a ∷ b ∷ c ∷ rest) v
      ≡ base64_char (a / 4)
        ∷ base64_char (a % 4 * 16 + b / 16)
        ∷ base64_char (b % 16 * 4 + c / 64)
        ∷ base64_char (c % 64)
        ∷ unpadded rest (push_byte (push_byte (push_byte v a) b) c)
unfolding encode_loop
encode_three v a b c rest h k l = rw (
  first_bits v a h,
  second_bits v a b h k,
  third_bits (push_byte v a) b c k l,
  fourth_bits_shift (push_byte (push_byte v a) b) c l,
)

pad-four :
    (fuel : ℕ) (p q r s : ℕ) (rest : Bytes)
    → pad fuel (p ∷ q ∷ r ∷ s ∷ rest) ≡ p ∷ q ∷ r ∷ s ∷ pad fuel rest
unfolding pad
pad-four zero p q r s rest = refl
pad-four (suc fuel) p q r s rest = ground (arith, pad-four fuel p q r s (rest ++ (b'=' ∷ [])))

encode_loop-rfc4648 :
    (input : Bytes) (v : ℕ) → AreBytes input → pad 3 (unpadded input v) ≡ rfc4648 input
unfolding rfc4648
encode_loop-rfc4648 [] v h = unfold encode_loop pad in refl
encode_loop-rfc4648 (a ∷ []) v h = rw (encode_one v a h.0) (unfold pad in refl)
encode_loop-rfc4648 (a ∷ b ∷ []) v h = rw (encode_two v a b h.0 h.1.0) (unfold pad in refl)
encode_loop-rfc4648 (a ∷ b ∷ c ∷ rest) v h =
    let later = encode_loop-rfc4648 rest (push_byte (push_byte (push_byte v a) b) c) h.1.1.1 in
    rw (encode_three v a b c rest h.0 h.1.0 h.1.1.0, pad-four, later)

-- `base64_encode` of any bytes is the encoding of RFC 4648, padding included.
pub base64_encode-rfc4648 : (input : Bytes) → AreBytes input → base64_encode input ≡ rfc4648 input
unfolding base64_encode
base64_encode-rfc4648 input h = encode_loop-rfc4648 input 0 h
