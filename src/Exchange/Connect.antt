-- ===== src/Exchange/Connect.antt =====
-- include/coro_http/coro_http_client.hpp: co_connect_socket, co_perform_socks5_handshake,
-- co_establish_tunnel, and the handshake of TLS.
use coro_http.Base.{ℕ, not, codes, is_empty, get_or, ◌==◌, if◌then◌else◌}
use coro_http.Base.Outcome.{or_throw}
use coro_http.Base.Awaiting.{Awaitable, co_return, throw, lift, ◌>>=◌, ◌>>◌}
use coro_http.Proxy.{
  build_connect_request, parse_connect_response, build_socks5_handshake, build_socks5_auth,
  build_socks5_connect,
}
use coro_http.Reading.{RoundCode, no_error, ended, failed}
use coro_http.Url.{UrlInfo}
use coro_http.Wire.{Wire, plain}
use coro_http.Exchange.{
  Session, connect_to, is_socks5, on_world, read_once, uses_proxy, in_world, Setup,
}

module _ {W : Type 0} (wire : Wire W) (c : Setup) where
  -- `co_perform_socks5_handshake` behind its first reply: the request for the target.
  unfoldable pub request_target : ℕ → UrlInfo → Awaitable (Session W) Unit
  request_target s info = do
    connect_req ← lift (or_throw (codes "stoi") (build_socks5_connect info.host info.port))
    in_world (wire.write plain s connect_req)
    connect_response ← in_world (wire.read 10 s)
    if get_or connect_response 1 0 == 0
        then co_return tt
        else throw (codes "SOCKS5 connection failed")

  -- The user name and password, where the proxy asks for them.
  unfoldable pub authenticate : ℕ → Awaitable (Session W) Unit
  authenticate s = do
    in_world (wire.write plain s (build_socks5_auth c.proxy.username c.proxy.password))
    auth_response ← in_world (wire.read 2 s)
    if get_or auth_response 1 0 == 0
        then co_return tt
        else throw (codes "SOCKS5 authentication failed")

  unfoldable pub co_perform_socks5_handshake : ℕ → UrlInfo → Awaitable (Session W) Unit
  co_perform_socks5_handshake s info = do
    in_world (wire.write plain s (build_socks5_handshake (not (is_empty c.proxy.username))))
    response ← in_world (wire.read 2 s)
    if not (get_or response 0 0 == 5)
        then throw (codes "Invalid SOCKS5 response")
        else if get_or response 1 0 == 2
        then authenticate s
        else if get_or response 1 0 == 0
        then co_return tt
        else throw (codes "SOCKS5 method not accepted")
    request_target s info

  unfoldable pub co_connect_socket : ℕ → UrlInfo → Awaitable (Session W) Unit
  co_connect_socket s info = do
    if uses_proxy c.proxy.type
        then connect_to wire s c.proxy.host c.proxy.port
        else connect_to wire s info.host info.port
    if is_socks5 c.proxy.type then co_perform_socks5_handshake s info else co_return tt

  -- `ec && ec != eof`
  abbrev pub check_code : RoundCode → Awaitable (Session W) Unit
  check_code no_error = co_return tt
  check_code ended = co_return tt
  check_code (failed e) = throw e

  unfoldable pub co_establish_tunnel : ℕ → UrlInfo → Awaitable (Session W) Unit
  co_establish_tunnel s info = do
    in_world (
        wire.write plain s
          (build_connect_request info.host info.port c.proxy.username c.proxy.password))
    (response, code) ← in_world (read_once wire plain s)
    check_code code
    accepted ← lift (parse_connect_response response)
    if accepted then co_return tt else throw (codes "Proxy CONNECT failed")

  -- `SSL_set_tlsext_host_name` where the peer is verified, and the handshake.
  unfoldable pub secure : ℕ → UrlInfo → Awaitable (Session W) Unit
  secure s info = do
    if c.config.verify_ssl then on_world (wire.set_host_name s info.host) else co_return tt
    in_world (wire.handshake s)
