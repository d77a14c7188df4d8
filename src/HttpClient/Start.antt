-- ===== src/HttpClient/Start.antt =====
-- The limiter of a client that has just been constructed.
use coro_http.Base.{arith, ℕ, zero, suc, refl, inl, inr, if◌then◌else◌}
use coro_http.Base.Int.{ℤ, pos, negsuc}
use coro_http.Config.{ClientConfig}
use coro_http.Exchange.Ending.{Ready}
use coro_http.Proxy.{ProxyInfo}
use coro_http.RateLimiter.{make}
use coro_http.HttpClient.{client_with}

make-Ready : (max : ℤ) (window : ℕ) → Ready (make max window)
unfolding make
make-Ready (pos zero) window = inl refl
make-Ready (pos (suc n)) window = inr (
  suc n,
  record { same_max = refl; on = ground arith; some_max = omega arith; bounded = omega arith },
)
make-Ready (negsuc n) window = inl refl

-- It is off, or within its limit.
pub client_with-Ready :
    (config : ClientConfig) (info : ProxyInfo) → Ready (client_with config info).rate_limiter
unfolding client_with
client_with-Ready config info =
    make-Ready (if config.enable_rate_limit then config.rate_limit_requests else pos 0) _
