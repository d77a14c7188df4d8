-- ===== src/Exchange/Requests.antt =====
-- include/coro_http/coro_http_client.hpp: co_execute_http, co_execute_https and their pooled forms.
use coro_http.Base.{ℕ, true, false, not, ◌&&◌, Bytes, if◌then◌else◌, List}
use coro_http.Base.Awaiting.{Awaitable, co_return, lift, gets, ◌>>=◌, ◌>>◌, on_exception, finally}
use coro_http.Pool.{
  PooledConnection, bucket, holds, pool_key, get_connection, get_ssl_connection, release_connection,
  release_ssl_connection,
}
use coro_http.Request.{HttpMethod, HttpRequest, build_request}
use coro_http.Response.{HttpResponse}
use coro_http.Url.{UrlInfo}
use coro_http.Wire.{Wire, Layer, plain, tls}
use coro_http.Exchange.Connect.{co_connect_socket, co_establish_tunnel, secure}
use coro_http.Exchange.{
  Session, acquire_slot, co_read_response, connect_to, in_world, is_head, on_pool, on_world, parse,
  request_text, should_keep_alive, shut, uses_proxy, with_pool, with_socket, Setup,
}

module _ {W : Type 0} (wire : Wire W) (c : Setup) where
  -- The request and its response, on a stream that is connected.
  unfoldable pub transfer : Layer → ℕ → HttpMethod → Bytes → Awaitable (Session W) HttpResponse
  transfer l s method request_str = do
    in_world (wire.write l s request_str)
    response_data ← co_read_response wire c (is_head method) l s
    lift (parse c response_data)

  -- The `try` block of `co_execute_http_pooled`.
  unfoldable pub pooled_transfer : ℕ → HttpRequest → UrlInfo → Awaitable (Session W) HttpResponse
  pooled_transfer s r info = do
    response ← transfer plain s r.method (build_request r info c.config.enable_compression true)
    on_pool (release_connection wire.net s info.host info.port (should_keep_alive response))
    if should_keep_alive response then co_return tt else on_world (shut wire s)
    co_return response

  -- The destructor of the request's `shared_ptr`, which closes a socket that the pool does not hold:
  -- it may never have been in the pool, or have been taken out of it.
  unfoldable pub let_go : List PooledConnection → ℕ → Session W → Session W
  let_go connections s st =
      if holds s connections then st else record st { world = wire.close s st.world }

  -- `co_execute_http_pooled` behind `get_connection`, but for the destructor.
  unfoldable pub pooled_exchange : ℕ → HttpRequest → UrlInfo → Awaitable (Session W) HttpResponse
  pooled_exchange s r info = do
    is_open ← gets (λ st. wire.net.is_open s st.world)
    if is_open then co_return tt else connect_to wire s info.host info.port
    on_exception (on_world (shut wire s)) (pooled_transfer s r info)

  -- `co_execute_http_pooled` behind `get_connection`.
  unfoldable pub pooled_on : ℕ → HttpRequest → UrlInfo → Awaitable (Session W) HttpResponse
  pooled_on s r info =
      finally
        (λ st. let_go (bucket (pool_key info.host info.port) st.connection_pool.http_pool) s st)
        (pooled_exchange s r info)

  unfoldable pub co_execute_http_pooled : HttpRequest → UrlInfo → Awaitable (Session W) HttpResponse
  co_execute_http_pooled r info = do
    s ← with_pool (get_connection wire.net info.host info.port)
    pooled_on s r info

  -- The `try` block of `co_execute_https_pooled`.
  unfoldable pub pooled_tls_transfer :
      ℕ → HttpRequest → UrlInfo → Awaitable (Session W) HttpResponse
  pooled_tls_transfer s r info = do
    response ← transfer tls s r.method (build_request r info c.config.enable_compression true)
    on_pool (release_ssl_connection wire.net s info.host info.port (should_keep_alive response))
    if should_keep_alive response
        then co_return tt
        else in_world (wire.tls_shutdown s) >> on_world (wire.close s)
    co_return response

  unfoldable pub pooled_tls_exchange :
      ℕ → HttpRequest → UrlInfo → Awaitable (Session W) HttpResponse
  pooled_tls_exchange s r info = do
    is_open ← gets (λ st. wire.net.is_open s st.world)
    if is_open then co_return tt else connect_to wire s info.host info.port >> secure wire c s info
    on_exception (on_world (wire.close s)) (pooled_tls_transfer s r info)

  -- `co_execute_https_pooled` behind `get_ssl_connection`.
  unfoldable pub pooled_tls_on : ℕ → HttpRequest → UrlInfo → Awaitable (Session W) HttpResponse
  pooled_tls_on s r info =
      finally
        (λ st. let_go (bucket (pool_key info.host info.port) st.connection_pool.ssl_pool) s st)
        (pooled_tls_exchange s r info)

  unfoldable pub co_execute_https_pooled :
      HttpRequest → UrlInfo → Awaitable (Session W) HttpResponse
  co_execute_https_pooled r info = do
    s ← with_pool (get_ssl_connection wire.net info.host info.port)
    pooled_tls_on s r info

  unfoldable pub execute_on : HttpRequest → UrlInfo → ℕ → Awaitable (Session W) HttpResponse
  execute_on r info s = do
    co_connect_socket wire c s info
    transfer plain s r.method (request_text c r info)

  unfoldable pub co_execute_http : HttpRequest → UrlInfo → Awaitable (Session W) HttpResponse
  co_execute_http r info = do
    acquire_slot wire c
    if c.config.enable_connection_pool && not (uses_proxy c.proxy.type)
        then co_execute_http_pooled r info
        else with_socket wire (execute_on r info)

  unfoldable pub execute_tls_on : HttpRequest → UrlInfo → ℕ → Awaitable (Session W) HttpResponse
  execute_tls_on r info s = do
    co_connect_socket wire c s info
    if uses_proxy c.proxy.type then co_establish_tunnel wire c s info else co_return tt
    secure wire c s info
    transfer tls s r.method (build_request r info c.config.enable_compression false)

  unfoldable pub co_execute_https : HttpRequest → UrlInfo → Awaitable (Session W) HttpResponse
  co_execute_https r info = do
    acquire_slot wire c
    if c.config.enable_connection_pool && not (uses_proxy c.proxy.type)
        then co_execute_https_pooled r info
        else with_socket wire (execute_tls_on r info)
