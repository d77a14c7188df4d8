-- ===== src/Proxy/Socks.antt =====
-- The SOCKS5 messages as a server reads them (RFC 1928, RFC 1929), and the order of the handshake.
use coro_http.Base.{
  ℕ, ◌+◌, ◌*◌, ◌/◌, ◌%◌, ◌<◌, ◌≡◌, ◌≢◌, ◌⊎◌, refl, ap, Bool, true, false, not, Option, none, some,
  List, [], ◌∷◌, ◌++◌, Bytes, is_empty, ◌==◌, ◌&&◌, if◌then◌else◌, length, length-append, take,
  drop, take-append, drop-append, get_or, All, All-append, append-nil, ltb, arith, Option-cases,
  Bool-cases, inl, inr,
}
use mathlib.Core.Path.{subst}
use coro_http.Base.Int.{pos}
use coro_http.Base.Number.{stoi}
use coro_http.Proxy.{
  ProxyInfo, build_socks5_handshake, build_socks5_auth, build_socks5_connect, low_bits,
  read_exactly, request_target, Choice, invalid, asks_password, refused, accepted, choice,
  perform_socks5_handshake,
}

-- A field with its length in front.
pub read_field : Bytes → Option (Bytes × Bytes)
unfolding read_exactly
read_field [] = none
read_field (n ∷ text) = read_exactly n text

-- User name and password, as the server of RFC 1929 reads them.
unfoldable pub read_auth : Bytes → Option (Bytes × Bytes)
unfolding read_field
read_auth [] = none
read_auth (version ∷ text) = elim (read_field text) [
  | none ↦ none
  | some (username, rest) ↦ elim (read_field rest) [
    | none ↦ none
    | some (password, left) ↦ some (username, password)
  ]
]

port_of : Bytes → Bytes → Option (Bytes × ℕ)
port_of host (hi ∷ lo ∷ []) = some (host, hi * 256 + lo)
port_of host text = none

-- Host name and port of a CONNECT to a host name, as the server of RFC 1928 reads them: version 5,
-- command 1, the reserved byte 0, address type 3.
pub read_connect : Bytes → Option (Bytes × ℕ)
unfolding read_field port_of
read_connect (version ∷ command ∷ reserved ∷ kind ∷ text) = elim (read_field text) [
  | none ↦ none
  | some (host, rest) ↦
      if version == 5 && command == 1 && reserved == 0 && kind == 3 then port_of host rest else none
]
read_connect text = none

read_exactly-append : (s rest : Bytes) → read_exactly (length s) (s ++ rest) ≡ some (s, rest)
unfolding read_exactly
read_exactly-append s rest = rw (enough, take-append s rest, drop-append s rest)
  where
    enough : ltb (length (s ++ rest)) (length s) ≡ false
    enough = grind (arith, length-append s rest)

read_field-append :
    (s rest : Bytes) → length s < 256 → read_field ((length s % 256) ∷ (s ++ rest)) ≡ some (s, rest)
unfolding read_field
read_field-append s rest h =
    subst (λ n. read_exactly n (s ++ rest) ≡ some (s, rest)) (omega arith)
      (read_exactly-append s rest)

read_field_last : (s : Bytes) → length s < 256 → read_field ((length s % 256) ∷ s) ≡ some (s, [])
read_field_last s h =
    subst (λ t. read_field ((length s % 256) ∷ t) ≡ some (s, [])) (append-nil s)
      (read_field-append s [] h)

-- The server reads the user name and the password that build_socks5_auth was given, if both are
-- shorter than 256 bytes.
read_auth-build_socks5_auth :
    (username password : Bytes)
    → length username < 256
    → length password < 256
    → read_auth (build_socks5_auth username password) ≡ some (username, password)
unfolding read_auth build_socks5_auth
read_auth-build_socks5_auth u p h k =
    rw (read_field-append u ((length p % 256) ∷ p) h, read_auth, read_field_last p k)

-- What a server makes of a message, where there is one.
abbrev pub read_by {ℓ} : {A : Type ℓ} → Option Bytes → (Bytes → Option A) → Option A
read_by none f = none
read_by (some message) f = f message

-- The server reads a CONNECT to the host name and port that build_socks5_connect was given, if the host
-- is shorter than 256 bytes and the port is a number of 16 bits.
pub read_connect-build_socks5_connect :
    (host port : Bytes) (n : ℕ)
    → stoi port ≡ some (pos n)
    → n < 65536
    → length host < 256
    → read_by (build_socks5_connect host port) read_connect ≡ some (host, n)
unfolding read_connect build_socks5_connect low_bits port_of
read_connect-build_socks5_connect host port n e lt h =
    rw
      (
        e,
        build_socks5_connect,
        read_connect,
        read_field-append host ((n % 65536) / 256 ∷ (n % 65536) % 256 ∷ []) h,
      )
      (ap (λ m. some (host, m)) (omega arith))

-- The first byte of a message of the handshake itself; that of a password message is 1.
abbrev pub IsPlain : Bytes → Type 0
IsPlain message = get_or message 0 0 ≡ 5

build_socks5_connect-IsPlain :
    (host port request : Bytes) → build_socks5_connect host port ≡ some request → IsPlain request
unfolding build_socks5_connect
build_socks5_connect-IsPlain host port request e = elim (Option-cases (stoi port)) [
  | inl n ↦ absurd (ground arith)
  | inr (m, s) ↦ ground arith
]

request_target-All :
    (host port text : Bytes) (sent : List Bytes)
    → All IsPlain sent
    → All IsPlain (request_target host port sent text).0
unfolding request_target
request_target-All host port text sent h = elim (Option-cases (build_socks5_connect host port)) [
  | inl n ↦ rw (n, request_target) h
  | inr (request, e) ↦ elim (Option-cases (read_exactly 10 text)) [
    | inl n ↦
        rw (e, n, request_target)
          (All-append IsPlain sent (request ∷ []) h
            (build_socks5_connect-IsPlain host port request e, tt))
    | inr (q, f) ↦
        rw (e, f, request_target)
          (All-append IsPlain sent (request ∷ []) h
            (build_socks5_connect-IsPlain host port request e, tt))
  ]
]

Choice-cases :
    (c : Choice) → ((c ≡ invalid) ⊎ (c ≡ asks_password)) ⊎ ((c ≡ refused) ⊎ (c ≡ accepted))
Choice-cases invalid = inl (inl refl)
Choice-cases asks_password = inl (inr refl)
Choice-cases refused = inr (inl refl)
Choice-cases accepted = inr (inr refl)

handshake-IsPlain : (use_auth : Bool) → IsPlain (build_socks5_handshake use_auth)
unfolding build_socks5_handshake
handshake-IsPlain true = refl
handshake-IsPlain false = refl

-- Unless the proxy's first reply asks for it, no user name and password are written: the handshake
-- writes messages of version 5 only, whatever else the proxy sends.
perform_socks5_handshake-IsPlain :
    (info : ProxyInfo) (host port text : Bytes)
    → choice (take 2 text) ≢ asks_password
    → All IsPlain (perform_socks5_handshake info host port text).0
unfolding perform_socks5_handshake read_exactly
perform_socks5_handshake-IsPlain info host port text ne =
    let first : All IsPlain (build_socks5_handshake (not (is_empty info.username)) ∷ []) =
      (handshake-IsPlain (not (is_empty info.username)), tt) in
    elim (Bool-cases (ltb (length text) 2)) [
      | inl short ↦ rw (short, perform_socks5_handshake) first
      | inr long ↦ elim (Choice-cases (choice (take 2 text))) [
        | inl (inl c) ↦ rw (long, c, perform_socks5_handshake) first
        | inl (inr c) ↦ absurd (ne c)
        | inr (inl c) ↦ rw (long, c, perform_socks5_handshake) first
        | inr (inr c) ↦
            rw (long, c, perform_socks5_handshake)
              (request_target-All host port (drop 2 text) _ first)
      ]
    ]
