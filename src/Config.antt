-- ===== src/Config.antt =====
-- include/coro_http/client_config.hpp, with the defaults of its members. Durations are in the unit of
-- their member. `retry_backoff_factor`, a double, is part of the argument `backoff` of the delays.
use coro_http.Base.{ℕ, Bool, true, false, [], Bytes}
use coro_http.Base.Int.{ℤ, pos}

pub record ClientConfig : Type 0 where
  pub connect_timeout : ℕ
  pub read_timeout : ℕ
  pub request_timeout : ℕ
  pub follow_redirects : Bool
  pub max_redirects : ℤ
  pub enable_compression : Bool
  pub verify_ssl : Bool
  pub ca_cert_file : Bytes
  pub ca_cert_path : Bytes
  pub proxy_url : Bytes
  pub proxy_username : Bytes
  pub proxy_password : Bytes
  pub enable_connection_pool : Bool
  pub max_connections_per_host : ℤ
  pub connection_idle_timeout : ℕ
  pub enable_rate_limit : Bool
  pub rate_limit_requests : ℤ
  pub rate_limit_window : ℕ
  pub enable_retry : Bool
  pub max_retries : ℤ
  pub initial_retry_delay : ℕ
  pub max_retry_delay : ℕ
  pub retry_on_timeout : Bool
  pub retry_on_connection_error : Bool
  pub retry_on_5xx : Bool
  pub enable_cookies : Bool

-- `ClientConfig{}`
abbrev pub default_config : ClientConfig
default_config = record {
  connect_timeout = 30000;
  read_timeout = 30000;
  request_timeout = 60000;
  follow_redirects = true;
  max_redirects = pos 10;
  enable_compression = true;
  verify_ssl = false;
  ca_cert_file = [];
  ca_cert_path = [];
  proxy_url = [];
  proxy_username = [];
  proxy_password = [];
  enable_connection_pool = true;
  max_connections_per_host = pos 5;
  connection_idle_timeout = 60;
  enable_rate_limit = false;
  rate_limit_requests = pos 100;
  rate_limit_window = 1;
  enable_retry = false;
  max_retries = pos 3;
  initial_retry_delay = 1000;
  max_retry_delay = 30000;
  retry_on_timeout = true;
  retry_on_connection_error = true;
  retry_on_5xx = false;
  enable_cookies = false;
}
