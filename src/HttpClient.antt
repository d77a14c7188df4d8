-- ===== src/HttpClient.antt =====
-- include/coro_http/coro_http_client.hpp: the class CoroHttpClient, its constructor, its accessors, and
-- the calls for each method. The constructors of ConnectionPool and RetryPolicy are written out in it.
pub mod Start
pub mod Execute
mod Tests
use coro_http.Base.{
  ℕ, ◌*◌, Bool, true, false, not, Option, none, some, List, [], ◌∷◌, ◌++◌, Bytes, is_empty,
  if◌then◌else◌,
}
use coro_http.Base.Int.{ℤ, pos}
use coro_http.Config.{ClientConfig}
use coro_http.Cookie.{CookieJar}
use coro_http.Pool.{ConnectionPool, PoolStats, get_stats}
use coro_http.Proxy.{ProxyInfo, parse_proxy_url}
use coro_http.RateLimiter.{RateLimiter, make, remaining}
use coro_http.Request.{HttpMethod, HttpRequest, new_request, set_body}
use coro_http.Retry.{RetryPolicy}

-- The calls that the constructor makes on `ssl_context_`.
pub data SslCall : Type 0 where
  set_default_verify_paths verify_peer verify_none : SslCall
  load_verify_file add_verify_path : Bytes → SslCall

pub record CoroHttpClient : Type 0 where
  pub ssl_context : List SslCall
  pub config : ClientConfig
  pub proxy_info : ProxyInfo
  pub connection_pool : ConnectionPool
  pub rate_limiter : RateLimiter
  pub retry_policy : RetryPolicy
  pub cookie_jar : CookieJar

pub new_pool : ℤ → ℕ → ConnectionPool
new_pool max_per_host idle_timeout = record {
  max_connections_per_host = max_per_host;
  idle_timeout = idle_timeout;
  http_pool = [];
  ssl_pool = [];
}

pub new_policy : ClientConfig → RetryPolicy
new_policy config = record {
  max_retries = config.max_retries;
  initial_delay = config.initial_retry_delay;
  max_delay = config.max_retry_delay;
  retry_on_timeout = config.retry_on_timeout;
  retry_on_connection_error = config.retry_on_connection_error;
  retry_on_5xx = config.retry_on_5xx;
  current_attempt = 0;
}

pub ssl_calls : ClientConfig → List SslCall
ssl_calls config =
    set_default_verify_paths
    ∷ (if config.verify_ssl
        then verify_peer
          ∷ ((if is_empty config.ca_cert_file
                then []
                else load_verify_file config.ca_cert_file ∷ [])
              ++ (if is_empty config.ca_cert_path
                  then []
                  else add_verify_path config.ca_cert_path ∷ []))
        else verify_none ∷ [])

-- The user name and the password of the configuration.
pub with_proxy_login : ClientConfig → ProxyInfo → ProxyInfo
with_proxy_login config info =
    if is_empty config.proxy_username
    then info
    else record info { username = config.proxy_username; password = config.proxy_password }

-- Seconds in ticks of the steady clock, which are nanoseconds.
abbrev ticks : ℕ → ℕ
ticks seconds = seconds * 1000000000

-- The members, given what `parse_proxy_url` returns.
pub client_with : ClientConfig → ProxyInfo → CoroHttpClient
client_with config info = record {
  ssl_context = ssl_calls config;
  config = config;
  proxy_info = with_proxy_login config info;
  connection_pool = new_pool config.max_connections_per_host (ticks config.connection_idle_timeout);
  rate_limiter =
      make (if config.enable_rate_limit then config.rate_limit_requests else pos 0)
        (ticks config.rate_limit_window);
  retry_policy = new_policy config;
  cookie_jar = record { cookies = [] };
}

-- None where `parse_proxy_url` throws; that a certificate file cannot be loaded is left to OpenSSL.
pub new_client : ClientConfig → Option CoroHttpClient
new_client config = elim (parse_proxy_url config.proxy_url) [
  | none ↦ none
  | some info ↦ some (client_with config info)
]

pub set_config : ClientConfig → CoroHttpClient → CoroHttpClient
set_config config client = record client { config = config }

pub get_config : CoroHttpClient → ClientConfig
get_config client = client.config

pub get_pool_stats : CoroHttpClient → PoolStats
get_pool_stats client = get_stats client.connection_pool

pub clear_connection_pool : CoroHttpClient → CoroHttpClient
clear_connection_pool client = record client {
  connection_pool = coro_http.Pool.clear client.connection_pool;
}

-- At a reading of the clock.
pub get_rate_limit_remaining : ℕ → CoroHttpClient → ℤ
get_rate_limit_remaining now client = remaining now client.rate_limiter

pub reset_rate_limiter : CoroHttpClient → CoroHttpClient
reset_rate_limiter client = record client {
  rate_limiter = coro_http.RateLimiter.reset client.rate_limiter;
}

pub cookies : CoroHttpClient → CookieJar
cookies client = client.cookie_jar

-- The requests that `co_get` to `co_options` pass to `co_execute`.
pub get_request : Bytes → HttpRequest
get_request url = new_request HttpMethod.get url

pub post_request : Bytes → Bytes → HttpRequest
post_request url body = set_body body (new_request HttpMethod.post url)

pub put_request : Bytes → Bytes → HttpRequest
put_request url body = set_body body (new_request HttpMethod.put url)

pub delete_request : Bytes → HttpRequest
delete_request url = new_request HttpMethod.del url

pub head_request : Bytes → HttpRequest
head_request url = new_request HttpMethod.head url

pub patch_request : Bytes → Bytes → HttpRequest
patch_request url body = set_body body (new_request HttpMethod.patch url)

pub options_request : Bytes → HttpRequest
options_request url = new_request HttpMethod.options url
