-- ===== src/Url.antt =====
-- include/coro_http/url_parser.hpp. The regular expression
-- ^(https?):\/\/([^:\/\s]+)(?::(\d+))?(\/[^\s]*)? is written as the parts that it matches: behind
-- the host every part is optional and nothing is required at the end, so the longest host, port and
-- path are the match, with no backtracking. `^` is the start of the text. None is the exception.
pub mod Shape
pub mod Origin
mod Tests
use coro_http.Base.{
  ℕ, Bool, true, false, not, ◌&&◌, ◌||◌, Option, none, some, List, [], ◌∷◌, ◌++◌, Bytes, codes,
  equal, leb, ◌==◌, if◌then◌else◌, span, strip_prefix,
}

pub record UrlInfo : Type 0 where
  pub scheme : Bytes
  pub host : Bytes
  pub port : Bytes
  pub path : Bytes
  pub is_https : Bool

-- `\s`
unfoldable pub is_space : ℕ → Bool
is_space c = c == b' ' || leb 9 c && leb c 13

-- `\d`
unfoldable pub is_digit : ℕ → Bool
is_digit c = leb b'0' c && leb c b'9'

-- `[^:\/\s]`
unfoldable pub is_host_char : ℕ → Bool
unfolding is_space
is_host_char c = not (c == b':' || c == b'/' || is_space c)

-- `[^\s]`
pub is_path_char : ℕ → Bool
unfolding is_space
is_path_char c = not (is_space c)

-- Given the digits behind the character `c` and what follows them.
port_from : ℕ → Bytes → Bytes → Bytes → Option Bytes × Bytes
port_from c cs [] rest = (none, c ∷ cs)
port_from c cs (d ∷ ds) rest = if c == b':' then (some (d ∷ ds), rest) else (none, c ∷ cs)

-- `(?::(\d+))?`: the port, if one stands here, and what follows.
pub match_port : Bytes → Option Bytes × Bytes
unfolding is_digit port_from
match_port [] = (none, [])
match_port (c ∷ cs) = port_from c cs (span is_digit cs).0 (span is_digit cs).1

-- `(\/[^\s]*)?`
pub match_path : Bytes → Option Bytes
unfolding is_path_char
match_path [] = none
match_path (c ∷ cs) = if c == b'/' then some (c ∷ (span is_path_char cs).0) else none

pub default_port : Bool → Bytes
default_port https = if https then codes "443" else codes "80"

abbrev pub or_else : Option Bytes → Bytes → Bytes
or_else none d = d
or_else (some x) d = x

pub scheme_of : Bool → Bytes
scheme_of https = if https then codes "https" else codes "http"

-- The match behind the host.
with_host : Bool → Bytes → Bytes → Option UrlInfo
unfolding match_port match_path default_port scheme_of
with_host https [] rest = none
with_host https (c ∷ cs) rest = some (record {
  scheme = scheme_of https;
  host = c ∷ cs;
  port = or_else (match_port rest).0 (default_port https);
  path = or_else (match_path (match_port rest).1) (codes "/");
  is_https = https;
})

-- The match behind `://`.
pub match_rest : Bool → Bytes → Option UrlInfo
unfolding is_host_char with_host
match_rest https text = with_host https (span is_host_char text).0 (span is_host_char text).1

unfoldable pub parse_url : Bytes → Option UrlInfo
unfolding match_rest
parse_url url = elim (strip_prefix (codes "https://") url) [
  | some rest ↦ match_rest true rest
  | none ↦ elim (strip_prefix (codes "http://") url) [
    | some rest ↦ match_rest false rest
    | none ↦ none
  ]
]

-- Scheme, host and port in front of a path, the default port left out: the absolute form of a
-- redirect's location in `co_execute_with_redirects`, and the request target of
-- `build_proxy_request`, both in include/coro_http/coro_http_client.hpp.
unfoldable pub absolute_url : UrlInfo → Bytes → Bytes
unfolding default_port
absolute_url i path =
    i.scheme
    ++ (codes "://"
        ++ (i.host
            ++ ((if equal i.port (default_port i.is_https) then [] else b':' ∷ i.port) ++ path)))
