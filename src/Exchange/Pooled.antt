-- ===== src/Exchange/Pooled.antt =====
-- co_execute_http_pooled: what it does on the wire, and to the pool, on every way out.
use coro_http.Base.{ℕ, List}
use coro_http.Pool.{ConnectionPool, PooledConnection, bucket, pool_key}
use coro_http.Request.{HttpRequest}
use coro_http.Url.{UrlInfo}
use coro_http.Wire.{Wire}
use coro_http.Exchange.{Setup, Session}
use coro_http.Exchange.Recorded.{Event}

module _ {W : Type 0} (wire : Wire W) (c : Setup) (r : HttpRequest) (info : UrlInfo) (s : ℕ)
    (p : ConnectionPool) where
  abbrev deque : Session (List Event × W) → List PooledConnection
  deque st = bucket (pool_key info.host info.port) st.connection_pool.http_pool
