-- ===== src/Proxy.antt =====
-- include/coro_http/proxy_handler.hpp, and co_perform_socks5_handshake of
-- include/coro_http/coro_http_client.hpp. The regular expression
-- ^(https?|socks5):\/\/([^:\/\s]+)(?::(\d+))?$ is written as the parts that it matches: a shorter host
-- would be followed by a character that neither starts a port nor ends the text, so there is no
-- backtracking. None is the exception.
pub mod Socks
mod Tests
use coro_http.Base.{
  ℕ, zero, suc, ◌+◌, ◌-◌, ◌/◌, ◌%◌, Bool, true, false, not, Option, none, some, List, [], ◌∷◌, ◌++◌,
  Bytes, codes, equal, getline, is_empty, length, take, drop, span, strip_prefix, get_or, ltb, ◌==◌,
  if◌then◌else◌,
}
use coro_http.Base.Int.{ℤ, pos, negsuc}
use coro_http.Base.Number.{stoi}
use coro_http.Base.Outcome.{Outcome, returned, thrown, undefined, chop}
use coro_http.Response.{read_status}
use coro_http.Url.{is_host_char, is_digit}

pub data ProxyType : Type 0 where
  no_proxy http https socks5 : ProxyType

pub record ProxyInfo : Type 0 where
  pub type : ProxyType
  pub host : Bytes
  pub port : Bytes
  pub username : Bytes
  pub password : Bytes

abbrev pub no_info : ProxyInfo
no_info = record { type = no_proxy; host = []; port = []; username = []; password = [] }

-- The port where the URL has none.
pub default_port : ProxyType → Bytes
default_port no_proxy = codes "1080"
default_port http = codes "8080"
default_port https = codes "8080"
default_port socks5 = codes "1080"

-- `(?::(\d+))?$` behind the host: none where the match fails, and then the port, if it is there.
pub match_port_end : Bytes → Option (Option Bytes)
match_port_end [] = some none
match_port_end (c ∷ cs) =
    let s = span is_digit cs in
    if c == b':'
    then if is_empty s.0 then none else if is_empty s.1 then some (some s.0) else none
    else none

with_port : ProxyType → Bytes → Option Bytes → ProxyInfo
unfolding default_port
with_port type host none = record no_info { type = type; host = host; port = default_port type }
with_port type host (some port) = record no_info { type = type; host = host; port = port }

match_host : ProxyType → Bytes → Option ProxyInfo
unfolding match_port_end with_port is_host_char
match_host type text =
    let s = span is_host_char text in
    if is_empty s.0
    then none
    else elim (match_port_end s.1) [ none ↦ none | some port ↦ some (with_port type s.0 port) ]

match_scheme : Bytes → Option (ProxyType × Bytes)
match_scheme url = elim (strip_prefix (codes "https://") url) [
  | some rest ↦ some (https, rest)
  | none ↦ elim (strip_prefix (codes "http://") url) [
    | some rest ↦ some (http, rest)
    | none ↦ elim (strip_prefix (codes "socks5://") url) [
      | some rest ↦ some (socks5, rest)
      | none ↦ none
    ]
  ]
]

unfoldable pub parse_proxy_url : Bytes → Option ProxyInfo
unfolding match_scheme match_host
parse_proxy_url [] = some no_info
parse_proxy_url (c ∷ cs) = elim (match_scheme (c ∷ cs)) [
  | none ↦ none
  | some (type, rest) ↦ match_host type rest
]

pub build_connect_request : Bytes → Bytes → Bytes → Bytes → Bytes
build_connect_request host port username password =
    let authority = host ++ (b':' ∷ port) in
    let credentials = codes "Basic " ++ (username ++ (b':' ∷ password)) in
    codes "CONNECT "
    ++ (authority
        ++ (codes " HTTP/1.1\r\nHost: "
            ++ (authority
                ++ (codes "\r\n"
                    ++ ((if is_empty username
                          then []
                          else codes "Proxy-Authorization: " ++ (credentials ++ codes "\r\n"))
                        ++ codes "\r\n")))))

-- `status_code == 200`
is_ok : ℤ → Bool
is_ok (pos n) = n == 200
is_ok (negsuc n) = false

pub parse_connect_response : Bytes → Outcome Bool
unfolding is_ok
parse_connect_response response = elim (getline b'\n' response) [
  | none ↦ returned false
  | some (line, rest) ↦ elim (chop line) [
    | thrown e ↦ thrown e
    | undefined ↦ undefined
    | returned l ↦ elim (read_status l) [
      | none ↦ undefined
      | some (code, ok, reason) ↦ returned (is_ok code)
    ]
  ]
]

pub build_socks5_handshake : Bool → Bytes
build_socks5_handshake use_auth = if use_auth then 5 ∷ 2 ∷ 0 ∷ 2 ∷ [] else 5 ∷ 1 ∷ 0 ∷ []

-- `static_cast<char>(size)`, as a byte.
pub build_socks5_auth : Bytes → Bytes → Bytes
build_socks5_auth username password =
    1 ∷ (length username % 256) ∷ (username ++ ((length password % 256) ∷ password))

-- The low 16 bits of an `int`.
pub low_bits : ℤ → ℕ
low_bits (pos n) = n % 65536
low_bits (negsuc n) = 65535 - n % 65536

pub build_socks5_connect : Bytes → Bytes → Option Bytes
unfolding low_bits
build_socks5_connect host port = elim (stoi port) [
  | none ↦ none
  | some n ↦
      some
        (5 ∷ 1 ∷ 0 ∷ 3 ∷ (length host % 256) ∷ (host ++ (low_bits n / 256 ∷ low_bits n % 256 ∷ [])))
]

-- `asio::async_read` of `n` bytes; none where the stream ends before.
pub read_exactly : ℕ → Bytes → Option (Bytes × Bytes)
read_exactly n text = if ltb (length text) n then none else some (take n text, drop n text)

-- The request for the target, with the messages already written.
pub request_target : Bytes → Bytes → List Bytes → Bytes → List Bytes × Outcome Bytes
unfolding build_socks5_connect read_exactly
request_target host port sent text = elim (build_socks5_connect host port) [
  | none ↦ (sent, thrown (codes "stoi"))
  | some request ↦ elim (read_exactly 10 text) [
    | none ↦ (sent ++ (request ∷ []), thrown (codes "End of file"))
    | some (reply, rest) ↦ (
      sent ++ (request ∷ []),
      if get_or reply 1 0 == 0 then returned rest else thrown (codes "SOCKS5 connection failed"),
    )
  ]
]

-- The user name and password, where the server asks for them.
pub authenticate : ProxyInfo → Bytes → Bytes → List Bytes → Bytes → List Bytes × Outcome Bytes
unfolding request_target build_socks5_auth
authenticate info host port sent text =
    let sent = sent ++ (build_socks5_auth info.username info.password ∷ []) in
    elim (read_exactly 2 text) [
      | none ↦ (sent, thrown (codes "End of file"))
      | some (reply, rest) ↦ elim (get_or reply 1 0 == 0) [
        | true ↦ request_target host port sent rest
        | false ↦ (sent, thrown (codes "SOCKS5 authentication failed"))
      ]
    ]

-- What the second byte of the first reply chooses.
pub data Choice : Type 0 where
  invalid asks_password refused accepted : Choice

pub choice : Bytes → Choice
choice reply =
    if not (get_or reply 0 0 == 5)
    then invalid
    else if get_or reply 1 0 == 2
    then asks_password
    else if get_or reply 1 0 == 0
    then accepted
    else refused

-- What is written, and how it ends, with the bytes left unread, over the bytes that the proxy sends.
pub perform_socks5_handshake : ProxyInfo → Bytes → Bytes → Bytes → List Bytes × Outcome Bytes
unfolding build_socks5_handshake authenticate request_target read_exactly choice
perform_socks5_handshake info host port text =
    let sent = build_socks5_handshake (not (is_empty info.username)) ∷ [] in
    elim (read_exactly 2 text) [
      | none ↦ (sent, thrown (codes "End of file"))
      | some (reply, rest) ↦ elim (choice reply) [
        | invalid ↦ (sent, thrown (codes "Invalid SOCKS5 response"))
        | asks_password ↦ authenticate info host port sent rest
        | refused ↦ (sent, thrown (codes "SOCKS5 method not accepted"))
        | accepted ↦ request_target host port sent rest
      ]
    ]

-- For a `min_size` that is not 0.
pub parse_socks5_response : Bytes → ℕ → Bool
parse_socks5_response response min_size =
    if ltb (length response) min_size then false else get_or response 1 0 == 0
