-- ===== src/Url/Shape.antt =====
-- The form of what `parse_url` returns.
use coro_http.Base.{
  ℕ, ◌≡◌, ◌≢◌, refl, inl, inr, Bool, true, false, some, [], ◌∷◌, Bytes, codes, All, span, span-All,
  strip_prefix, arith, Option-cases,
}
use mathlib.Core.Path.{subst}
use mathlib.Core.Option.{some-injective}
use coro_http.Url.{
  UrlInfo, is_digit, is_host_char, is_path_char, match_port, match_path, port_from, with_host,
  default_port, scheme_of, match_rest, or_else, parse_url,
}

abbrev pub IsPath : Bytes → Type 0
IsPath [] = ⊥
IsPath (c ∷ cs) = (c ≡ b'/') × All (λ x. is_path_char x ≡ true) cs

pub record IsValid (i : UrlInfo) : Type 0 where
  pub scheme_is : i.scheme ≡ scheme_of i.is_https
  pub host_chars : All (λ c. is_host_char c ≡ true) i.host
  pub host_ne_nil : i.host ≢ []
  pub port_digits : All (λ c. is_digit c ≡ true) i.port
  pub port_ne_nil : i.port ≢ []
  pub is_path : IsPath i.path

abbrev IsPort : Bytes → Type 0
IsPort p = All (λ c. is_digit c ≡ true) p × (p ≢ [])

port_from-IsPort :
    (https : Bool) (c : ℕ) (cs ds rest : Bytes)
    → All (λ x. is_digit x ≡ true) ds
    → IsPort (or_else (port_from c cs ds rest).0 (default_port https))
unfolding port_from default_port is_digit
port_from-IsPort https c cs [] rest a = ground arith
port_from-IsPort https c cs (d ∷ ds) rest a = ground arith

match_port-IsPort :
    (https : Bool) (text : Bytes) → IsPort (or_else (match_port text).0 (default_port https))
unfolding match_port default_port is_digit
match_port-IsPort https [] = ground arith
match_port-IsPort https (c ∷ cs) =
    port_from-IsPort https c cs (span is_digit cs).0 (span is_digit cs).1 (span-All is_digit cs)

match_path-IsPath : (text : Bytes) → IsPath (or_else (match_path text) (codes "/"))
unfolding match_path
match_path-IsPath [] = (refl, tt)
match_path-IsPath (c ∷ cs) = ground (arith, span-All is_path_char cs)

with_host-IsValid :
    (https : Bool) (host rest : Bytes) (i : UrlInfo)
    → All (λ c. is_host_char c ≡ true) host
    → with_host https host rest ≡ some i
    → IsValid i
unfolding with_host
with_host-IsValid https [] rest i a e = cc
with_host-IsValid https (c ∷ cs) rest i a e = subst IsValid (some-injective _ _ e) (record {
  scheme_is = refl;
  host_chars = a;
  host_ne_nil = λ n. cc;
  port_digits = (match_port-IsPort https rest).0;
  port_ne_nil = (match_port-IsPort https rest).1;
  is_path = match_path-IsPath (match_port rest).1;
})

match_rest-IsValid :
    (https : Bool) (text : Bytes) (i : UrlInfo) → match_rest https text ≡ some i → IsValid i
unfolding match_rest
match_rest-IsValid https text i e =
    with_host-IsValid https (span is_host_char text).0 (span is_host_char text).1 i
      (span-All is_host_char text) e

-- A URL that `parse_url` accepts gives a scheme that fits `is_https`, a non-empty host with no
-- colon, slash or space, a non-empty port of digits, and a path that starts with a slash and has
-- no space.
pub parse_url-IsValid : (url : Bytes) (i : UrlInfo) → parse_url url ≡ some i → IsValid i
unfolding parse_url
parse_url-IsValid url i e = elim (Option-cases (strip_prefix (codes "https://") url)) [
  | inr (rest, s) ↦ match_rest-IsValid true rest i (rw (s, parse_url) at e)
  | inl n ↦ elim (Option-cases (strip_prefix (codes "http://") url)) [
    | inr (rest, s) ↦ match_rest-IsValid false rest i (rw (n, s, parse_url) at e)
    | inl m ↦ absurd (ground arith)
  ]
]
