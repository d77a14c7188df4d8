-- ===== src/Chunked/Hex.antt =====
-- Sizes of chunks in hexadecimal.
use coro_http.Base.{
  ℕ, zero, suc, ◌+◌, ◌/◌, ◌%◌, ◌^◌, ◌≤◌, ◌<◌, ◌≡◌, ◌≢◌, refl, ap, Bool, true, false, some, [], ◌∷◌,
  Bytes, All, Bool-cases, inl, inr, span, ltb, ◌==◌, if◌then◌else◌, arith,
}
use coro_http.Base.Number.{
  isspace, isdigit, is_hex, hex_value, hex_digits_value, skip_0x, unsigned_of, unsigned_signed,
  stoul16,
}
use coro_http.Chunked.{size, size_of, size_line}

-- A hexadecimal digit, in lower case.
pub hex_char : ℕ → ℕ
hex_char n = if ltb n 10 then n + b'0' else n + 87

pub hex_digits : ℕ → ℕ → Bytes → Bytes
unfolding hex_char
hex_digits zero n rest = rest
hex_digits (suc fuel) n rest = elim (ltb n 16) [
  | true ↦ hex_char n ∷ rest
  | false ↦ hex_digits fuel (n / 16) (hex_char (n % 16) ∷ rest)
]

unfoldable pub to_hex : ℕ → Bytes
unfolding hex_digits
to_hex n = hex_digits (suc n) n []

hex_char-is_hex : (n : ℕ) → n < 16 → is_hex (hex_char n) ≡ true
unfolding hex_char is_hex isdigit
hex_char-is_hex n h = ground arith

hex_value-hex_char : (n : ℕ) → n < 16 → hex_value (hex_char n) ≡ n
unfolding hex_char hex_value
hex_value-hex_char n h = ground arith

hex_digits-All :
    (fuel n : ℕ) (rest : Bytes)
    → All (λ c. is_hex c ≡ true) rest
    → All (λ c. is_hex c ≡ true) (hex_digits fuel n rest)
unfolding hex_digits
hex_digits-All zero n rest h = h
hex_digits-All (suc fuel) n rest h = ground (
  arith,
  hex_char-is_hex n,
  hex_char-is_hex (n % 16),
  hex_digits-All fuel (n / 16) (hex_char (n % 16) ∷ rest),
)

hex_digits_value-hex_digits :
    (fuel n : ℕ) (rest : Bytes)
    → n < fuel
    → hex_digits_value 0 (hex_digits fuel n rest) ≡ hex_digits_value n rest
unfolding hex_digits hex_digits_value
hex_digits_value-hex_digits zero n rest h = absurd (omega arith)
hex_digits_value-hex_digits (suc fuel) n rest h = elim (Bool-cases (ltb n 16)) [
  | inl small ↦
      rw (small, hex_digits, hex_value-hex_char n (ground arith))
        (ap (λ m. hex_digits_value m rest) (omega arith))
  | inr large ↦
      rw
        (
          large,
          hex_digits,
          hex_digits_value-hex_digits fuel (n / 16) (hex_char (n % 16) ∷ rest) (ground arith),
          hex_value-hex_char (n % 16) (omega arith),
        )
        (ap (λ m. hex_digits_value m rest) (omega arith))
]

abbrev pub IsHex : Bytes → Type 0
IsHex = All λ c. is_hex c ≡ true

pub to_hex_cons : (n : ℕ) → to_hex n ≢ []
unfolding to_hex hex_digits
to_hex_cons n = go n n [] (omega arith)
  where
    go : (fuel m : ℕ) (rest : Bytes) → 0 ≤ fuel → hex_digits (suc fuel) m rest ≢ []
    go zero m rest h = ground arith
    go (suc fuel) m rest h = ground (arith, go fuel (m / 16) (hex_char (m % 16) ∷ rest))

span_whole : (test : ℕ → Bool) (s : Bytes) → All (λ c. test c ≡ true) s → span test s ≡ (s, [])
unfolding span
span_whole test [] h = refl
span_whole test (c ∷ cs) h = ground (arith, span_whole test cs h.1)

skip_0x-IsHex : (s : Bytes) → IsHex s → skip_0x s ≡ s
unfolding skip_0x is_hex isdigit
skip_0x-IsHex [] h = refl
skip_0x-IsHex (z ∷ []) h = refl
skip_0x-IsHex (z ∷ x ∷ []) h = refl
skip_0x-IsHex (z ∷ x ∷ d ∷ ds) h = ground (arith, h.1.0)

not_hex :
    (c : ℕ) → is_hex c ≡ true → (isspace c ≡ false) × ((c == b'-') ≡ false) × ((c == b'+') ≡ false)
unfolding is_hex isdigit isspace
not_hex c h = ground arith

stoul16-IsHex :
    (c : ℕ) (cs : Bytes)
    → IsHex (c ∷ cs)
    → hex_digits_value 0 (c ∷ cs) < 2 ^ 64
    → stoul16 (c ∷ cs) ≡ some (hex_digits_value 0 (c ∷ cs))
unfolding stoul16 unsigned_signed span
stoul16-IsHex c cs h lt =
    let n = not_hex c h.0 in
    rw (n.0, n.1, n.2, unsigned_signed, skip_0x-IsHex (c ∷ cs) h, span_whole is_hex (c ∷ cs) h)
      (unfold unsigned_of in ground arith)

pub size_line-IsHex :
    (max_size n : ℕ) (s : Bytes)
    → s ≢ []
    → IsHex s
    → hex_digits_value 0 s ≡ n
    → 0 < n
    → n ≤ max_size
    → max_size < 2 ^ 64
    → size_line max_size s ≡ size n
unfolding size_line size_of
size_line-IsHex max_size n [] ne h e p le lt = absurd (ne refl)
size_line-IsHex max_size n (c ∷ cs) ne h e p le lt =
    rw (stoul16-IsHex c cs h (omega (arith, e)), e, size_line) (ground arith)

pub no_newline : (u : Bytes) → IsHex u → All (λ x. x ≢ b'\n') u
unfolding is_hex isdigit
no_newline [] k = tt
no_newline (c ∷ cs) k = (ground (arith, k.0), no_newline cs k.1)

pub to_hex-IsHex : (n : ℕ) → IsHex (to_hex n)
unfolding to_hex
to_hex-IsHex n = hex_digits-All (suc n) n [] tt

pub hex_digits_value-to_hex : (n : ℕ) → hex_digits_value 0 (to_hex n) ≡ n
unfolding to_hex hex_digits_value
hex_digits_value-to_hex n = hex_digits_value-hex_digits (suc n) n [] (omega arith)
