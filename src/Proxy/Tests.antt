-- ===== src/Proxy/Tests.antt =====
-- Runs of the proxy protocols.
use coro_http.Base.{
  ℕ, ◌≡◌, ◌≢◌, refl, true, Option, none, some, List, [], ◌∷◌, ◌++◌, Bytes, codes, All, replicate,
  arith, span, strip_prefix, getline, split_at, strip_cr, is_empty,
}
use coro_http.Base.Number.{stoi}
use coro_http.Base.Outcome.{returned, chop}
use coro_http.Response.{read_status}
use coro_http.Proxy.{
  ProxyInfo, no_info, http, socks5, parse_proxy_url, build_connect_request, parse_connect_response,
  build_socks5_auth, build_socks5_connect, perform_socks5_handshake,
}
use coro_http.Proxy.Socks.{read_auth, read_by, read_connect, read_connect-build_socks5_connect}

default_ports :
    parse_proxy_url (codes "socks5://p.org")
    ≡ some (record no_info { type = socks5; host = codes "p.org"; port = codes "1080" })
unfolding parse_proxy_url strip_prefix is_empty span
default_ports = refl

given_port :
    parse_proxy_url (codes "http://p.org:3128")
    ≡ some (record no_info { type = http; host = codes "p.org"; port = codes "3128" })
unfolding parse_proxy_url strip_prefix is_empty span coro_http.Url.is_digit
given_port = refl

no_path : parse_proxy_url (codes "http://p.org:3128/") ≡ none
unfolding parse_proxy_url strip_prefix is_empty span coro_http.Url.is_digit
no_path = refl

plain_credentials :
    build_connect_request (codes "a.org") (codes "443") (codes "me") (codes "pw")
    ≡ codes
        "CONNECT a.org:443 HTTP/1.1\r\nHost: a.org:443\r\nProxy-Authorization: Basic me:pw\r\n\r\n"
unfolding build_connect_request is_empty
plain_credentials = refl

established : parse_connect_response (codes "HTTP/1.1 200 OK\r\n\r\n") ≡ returned true
unfolding parse_connect_response getline split_at chop read_status strip_cr span
    coro_http.Base.Number.isspace is_empty
established = refl

abbrev user : ProxyInfo
user = record no_info { username = codes "me"; password = codes "pw" }

granted :
    perform_socks5_handshake user
      (codes "a")
      (codes "443")
      (5 ∷ 2 ∷ 1 ∷ 0 ∷ 5 ∷ 0 ∷ 0 ∷ 1 ∷ 9 ∷ 9 ∷ 9 ∷ 9 ∷ 8 ∷ 8 ∷ [])
    ≡ (
      (5 ∷ 2 ∷ 0 ∷ 2 ∷ [])
          ∷ (1 ∷ 2 ∷ (codes "me" ++ (2 ∷ codes "pw")))
          ∷ (5 ∷ 1 ∷ 0 ∷ 3 ∷ 1 ∷ b'a' ∷ 1 ∷ 187 ∷ [])
          ∷ [],
      returned [],
    )
unfolding perform_socks5_handshake stoi is_empty
granted = refl

-- A user name of 256 bytes is sent with the length 0.
long_name :
    read_auth (build_socks5_auth (replicate 256 b'u') (codes "pw")) ≡ some ([], replicate 117 b'u')
unfolding read_auth build_socks5_auth
long_name = refl

read_connect-build_socks5_connect_example :
    read_by (build_socks5_connect (codes "a.org") (codes "443")) read_connect
    ≡ some (codes "a.org", 443)
unfolding stoi
read_connect-build_socks5_connect_example =
    read_connect-build_socks5_connect (codes "a.org") (codes "443") 443 refl (omega arith)
      (omega arith)
