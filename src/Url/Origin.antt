-- ===== src/Url/Origin.antt =====
-- `parse_url` on the absolute URLs of redirects.
use coro_http.Base.{
  ◌≡◌, ◌≢◌, refl, sym, ap, ◌∙◌, inl, inr, Bool, true, false, none, some, [], ◌∷◌, ◌++◌, Bytes,
  codes, All, if◌then◌else◌, span, span-append, StopsAt, strip_prefix, equal, equal_iff, Bool-cases,
  append-nil,
}
use coro_http.Url.{
  UrlInfo, is_digit, is_host_char, is_path_char, match_port, match_path, port_from, with_host,
  default_port, scheme_of, match_rest, or_else, parse_url, absolute_url,
}
use coro_http.Url.Shape.{IsPath, IsValid, parse_url-IsValid}

match_path-IsPath_self : (path : Bytes) → IsPath path → match_path path ≡ some path
unfolding match_path
match_path-IsPath_self [] h = absurd h
match_path-IsPath_self (c ∷ cs) h = rw (
  h.0,
  ap (λ (r : Bytes × Bytes). r.0)
      (ap (span is_path_char) (sym (append-nil cs)) ∙ span-append is_path_char cs [] h.1 tt),
)

path_stops_digits : (path : Bytes) → IsPath path → StopsAt is_digit path
unfolding is_digit
path_stops_digits [] h = tt
path_stops_digits (c ∷ cs) h = rw h.0

path_stops_host : (path : Bytes) → IsPath path → StopsAt is_host_char path
unfolding is_host_char
path_stops_host [] h = tt
path_stops_host (c ∷ cs) h = rw h.0

match_port-path : (path : Bytes) → IsPath path → match_port path ≡ (none, path)
unfolding match_port port_from
match_port-path [] h = absurd h
match_port-path (c ∷ cs) h = go (span is_digit cs).0
  where
    go : (ds : Bytes) → port_from c cs ds (span is_digit cs).1 ≡ (none, c ∷ cs)
    go [] = refl
    go (d ∷ ds) = rw h.0

match_port-port :
    (port path : Bytes)
    → port ≢ []
    → All (λ c. is_digit c ≡ true) port
    → IsPath path
    → match_port (b':' ∷ (port ++ path)) ≡ (some port, path)
unfolding match_port
match_port-port [] path n a h = absurd (n refl)
match_port-port (d ∷ ds) path n a h =
    rw (span-append is_digit (d ∷ ds) path a (path_stops_digits path h)) (unfold port_from in refl)

-- The text of a port as `absolute_url` writes it, and how it is read.
abbrev port_text : Bool → Bytes → Bytes
port_text https port = if equal port (default_port https) then [] else b':' ∷ port

match_port-port_text :
    (https : Bool) (port path : Bytes)
    → port ≢ []
    → All (λ c. is_digit c ≡ true) port
    → IsPath path
    → (or_else (match_port (port_text https port ++ path)).0 (default_port https) ≡ port)
      × ((match_port (port_text https port ++ path)).1 ≡ path)
match_port-port_text https port path n a h = elim (Bool-cases (equal port (default_port https))) [
  | inl same ↦
      rw (same, match_port-path path h) (sym ((equal_iff port (default_port https)).0 same), refl)
  | inr other ↦ rw (other, match_port-port port path n a h) (refl, refl)
]

port_text_stops :
    (https : Bool) (port path : Bytes)
    → IsPath path
    → StopsAt is_host_char (port_text https port ++ path)
unfolding is_host_char
port_text_stops https port path h = elim (Bool-cases (equal port (default_port https))) [
  | inl same ↦ rw same (path_stops_host path h)
  | inr other ↦ rw other
]

with_host_text :
    (https : Bool) (host port path : Bytes)
    → host ≢ []
    → port ≢ []
    → All (λ c. is_digit c ≡ true) port
    → IsPath path
    → with_host https host (port_text https port ++ path)
      ≡ some (record {
        scheme = scheme_of https;
        host = host;
        port = port;
        path = path;
        is_https = https;
      })
unfolding with_host
with_host_text https [] port path m n a h = absurd (m refl)
with_host_text https (c ∷ cs) port path m n a h =
    let read = match_port-port_text https port path n a h in
    rw (read.0, read.1, match_path-IsPath_self path h)

match_rest_text :
    (https : Bool) (host port path : Bytes)
    → All (λ c. is_host_char c ≡ true) host
    → host ≢ []
    → port ≢ []
    → All (λ c. is_digit c ≡ true) port
    → IsPath path
    → match_rest https (host ++ (port_text https port ++ path))
      ≡ some (record {
        scheme = scheme_of https;
        host = host;
        port = port;
        path = path;
        is_https = https;
      })
unfolding match_rest
match_rest_text https host port path b m n a h =
    rw (span-append is_host_char host _ b (port_text_stops https port path h))
      (with_host_text https host port path m n a h)

parse_url_text :
    (https : Bool) (rest : Bytes)
    → parse_url (scheme_of https ++ (codes "://" ++ rest)) ≡ match_rest https rest
unfolding parse_url scheme_of strip_prefix
parse_url_text true rest = refl
parse_url_text false rest = refl

-- An absolute URL made from a well-formed `UrlInfo` and a path is parsed to the same scheme, host
-- and port, with that path.
parse_url-absolute_url :
    (i : UrlInfo) (path : Bytes)
    → IsValid i
    → IsPath path
    → parse_url (absolute_url i path) ≡ some (record i { path = path })
unfolding absolute_url
parse_url-absolute_url i path v h = simp v.scheme_is (
    parse_url_text i.is_https _
    ∙ match_rest_text i.is_https i.host i.port path v.host_chars v.host_ne_nil v.port_ne_nil
        v.port_digits h)

-- A redirect to a location that starts with a slash and has no space stays at the scheme, host and
-- port of the request: the absolute form of the location is parsed to those of the request's URL,
-- with the location as its path.
pub parse_url-redirect :
    (url location : Bytes) (i : UrlInfo)
    → parse_url url ≡ some i
    → IsPath location
    → parse_url (absolute_url i location) ≡ some (record i { path = location })
parse_url-redirect url location i e h =
    parse_url-absolute_url i location (parse_url-IsValid url i e) h
