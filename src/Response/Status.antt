-- ===== src/Response/Status.antt =====
-- The status line, as a server writes it and as parse_response reads it.
use coro_http.Base.{
  ℕ, zero, suc, ◌+◌, ◌/◌, ◌%◌, ◌^◌, ◌<◌, ◌≡◌, ◌≢◌, refl, ap, ◌∙◌, Bool, true, false, not, Option,
  none, some, [], ◌∷◌, ◌++◌, Bytes, codes, is_empty, All, ltb, span, span-append, StopsAt, getline,
  split_at-All, ◌==◌, arith, Bool-cases, inl, inr,
}
use mathlib.Core.Path.{subst}
use coro_http.Base.Int.{ℤ, pos}
use coro_http.Base.Number.{
  isspace, isdigit, digits_value, int_in, read_digits, decimal, decimal_digits,
}
use coro_http.Base.Outcome.{returned}
use coro_http.Response.{new_response, read_int, read_status, read_reason, drop_space, parse_status}

abbrev pub AreDigits : Bytes → Type 0
AreDigits = All λ c. isdigit c ≡ true

decimal_digits-AreDigits :
    (fuel n : ℕ) (rest : Bytes) → AreDigits rest → AreDigits (decimal_digits fuel n rest)
unfolding decimal_digits isdigit
decimal_digits-AreDigits zero n rest h = h
decimal_digits-AreDigits (suc fuel) n rest h =
    ground (arith, decimal_digits-AreDigits fuel (n / 10) ((n % 10 + b'0') ∷ rest))

digits_value-decimal_digits :
    (fuel n : ℕ) (rest : Bytes)
    → n < fuel
    → digits_value 0 (decimal_digits fuel n rest) ≡ digits_value n rest
unfolding decimal_digits digits_value
digits_value-decimal_digits zero n rest h = absurd (omega arith)
digits_value-decimal_digits (suc fuel) n rest h = elim (Bool-cases (ltb n 10)) [
  | inl small ↦ rw (small, decimal_digits) (ap (λ m. digits_value m rest) (omega arith))
  | inr large ↦
      rw
        (
          large,
          decimal_digits,
          digits_value-decimal_digits fuel (n / 10) ((n % 10 + b'0') ∷ rest) (ground arith),
        )
        (ap (λ m. digits_value m rest) (omega arith))
]

decimal_digits_cons :
    (fuel n : ℕ) (rest : Bytes) → is_empty (decimal_digits (suc fuel) n rest) ≡ false
unfolding decimal_digits is_empty
decimal_digits_cons zero n rest = ground arith
decimal_digits_cons (suc fuel) n rest =
    ground (arith, decimal_digits_cons fuel (n / 10) ((n % 10 + b'0') ∷ rest))

pub decimal-AreDigits : (n : ℕ) → AreDigits (decimal n)
unfolding decimal
decimal-AreDigits n = decimal_digits-AreDigits (n + 1) n [] tt

read_digits-AreDigits :
    (s rest : Bytes)
    → is_empty s ≡ false
    → AreDigits s
    → StopsAt isdigit rest
    → digits_value 0 s < 2 ^ 31
    → read_digits false (s ++ rest) ≡ (pos (digits_value 0 s), true, rest)
unfolding read_digits
read_digits-AreDigits s rest e h k lt =
    rw (span-append isdigit s rest h k, read_digits, e) (ground (arith, lt))

sign_less :
    (c : ℕ) → isdigit c ≡ true → ((c == b'-') ≡ false) × ((c == b'+') ≡ false) × (isspace c ≡ false)
unfolding isdigit isspace
sign_less c h = ground arith

-- `>>` reads digits of a number that fits an `int`.
read_int-AreDigits :
    (s rest : Bytes)
    → is_empty s ≡ false
    → AreDigits s
    → StopsAt isdigit rest
    → digits_value 0 s < 2 ^ 31
    → read_int (b' ' ∷ (s ++ rest)) ≡ some (pos (digits_value 0 s), true, rest)
unfolding read_int
read_int-AreDigits [] rest e h k lt = absurd (unfold is_empty in ground (arith, e))
read_int-AreDigits (c ∷ cs) rest e h k lt =
    let q = sign_less c h.0 in
    ap (λ s. some_int s) (skip_space q.2)
    ∙ ap some
        (unfold int_in in rw (q.0, q.1, int_in) (read_digits-AreDigits (c ∷ cs) rest e h k lt))
  where
    some_int : Bytes → Option (ℤ × Bool × Bytes)
    some_int s = elim s [ [] ↦ none | d ∷ ds ↦ some (int_in (d ∷ ds)) ]

    skip_space : isspace c ≡ false → (span isspace (b' ' ∷ c ∷ (cs ++ rest))).1 ≡ c ∷ (cs ++ rest)
    skip_space n = unfold span isspace in ground (arith, n)

-- A status line of HTTP/1.1.
unfoldable pub status_line : ℕ → Bytes → Bytes
status_line code reason = codes "HTTP/1.1 " ++ (decimal code ++ (b' ' ∷ reason))

behind_version :
    (text : Bytes)
    → (span (λ c. not (isspace c)) (span isspace (codes "HTTP/1.1 " ++ text)).1).1 ≡ b' ' ∷ text
unfolding span isspace
behind_version text = refl

decimal_value : (n : ℕ) → digits_value 0 (decimal n) ≡ n
unfolding decimal digits_value
decimal_value n = digits_value-decimal_digits (n + 1) n [] (omega arith)

decimal_some : (n : ℕ) → is_empty (decimal n) ≡ false
unfolding decimal
decimal_some n =
    let e : suc n ≡ n + 1 = omega arith in
    subst (λ m. is_empty (decimal_digits m n []) ≡ false) e (decimal_digits_cons n n [])

read_reason-reason :
    (reason : Bytes) → All (λ c. c ≢ b'\n') reason → read_reason true (b' ' ∷ reason) ≡ reason
unfolding read_reason drop_space getline
read_reason-reason reason h =
    rw (split_at-All b'\n' (b' ' ∷ reason) (ground arith, h), read_reason) refl

pub parse_status-status_line :
    (code : ℕ) (reason : Bytes)
    → code < 2 ^ 31
    → All (λ c. c ≢ b'\n') reason
    → parse_status (status_line code reason)
      ≡ returned (record new_response { status_code = pos code; reason = reason })
unfolding parse_status read_status status_line
parse_status-status_line code reason lt h =
    rw
      (
        behind_version (decimal code ++ (b' ' ∷ reason)),
        read_int-AreDigits (decimal code) (b' ' ∷ reason) (decimal_some code)
            (decimal-AreDigits code) (unfold isdigit in refl) (rw (decimal_value code) lt),
        parse_status,
        decimal_value code,
        read_reason-reason reason h,
      )
      refl
