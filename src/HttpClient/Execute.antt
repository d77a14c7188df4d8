-- ===== src/HttpClient/Execute.antt =====
-- include/coro_http/coro_http_client.hpp: co_execute of a CoroHttpClient, on its own members.
use coro_http.Base.{ℕ, ◌≡◌, refl, Option, none, some, Bytes}
use coro_http.Base.Outcome.{Outcome}
use coro_http.Client.{Client, co_execute}
use coro_http.Client.Retries.{co_execute-some}
use coro_http.Client.Wired.{ReadySession, over_wire}
use coro_http.Exchange.{Setup}
use coro_http.Exchange.Ending.{EndsWithin, Ready}
use coro_http.Request.{HttpRequest}
use coro_http.Response.{HttpResponse}
use coro_http.Retry.{RetryPolicy}
use coro_http.Wire.{Wire}
use coro_http.HttpClient.{CoroHttpClient}

-- What a client is used with: the functions of include/coro_http/compression.hpp, the longest string,
-- the bound of the loops, the clock of cookies, and the backoff.
pub record Surroundings (W : Type 0) : Type 0 where
  pub gunzip : Bytes → Outcome Bytes
  pub inflate : Bytes → Outcome Bytes
  pub max_size : ℕ
  pub limit : ℕ
  pub system_now : W → ℕ
  pub backoff : ℕ → W → ℕ

module _ {W : Type 0} (wire : Wire W) (around : Surroundings W)
    (end : EndsWithin wire around.limit) where
  setup_of : CoroHttpClient → Setup
  setup_of client = record {
    config = client.config;
    proxy = client.proxy_info;
    gunzip = around.gunzip;
    inflate = around.inflate;
    max_size = around.max_size;
    limit = around.limit;
  }

  -- The members that `co_execute` works on.
  abbrev members :
      (client : CoroHttpClient) → Ready client.rate_limiter → W → Client (ReadySession W)
  members client ready w = record {
    cookie_jar = client.cookie_jar;
    world = (
      record {
        connection_pool = client.connection_pool;
        rate_limiter = client.rate_limiter;
        world = w;
      },
      ready,
    );
  }

  -- The members behind `co_execute`.
  left_client :
      CoroHttpClient
      → Outcome HttpResponse × RetryPolicy × Client (ReadySession W)
      → Outcome HttpResponse × CoroHttpClient × W
  left_client client (o, p, s) = (
    o,
    record client {
      connection_pool = s.world.0.connection_pool;
      rate_limiter = s.world.0.rate_limiter;
      retry_policy = p;
      cookie_jar = s.cookie_jar;
    },
    s.world.0.world,
  )

  pub execute :
      HttpRequest
      → (client : CoroHttpClient) → Ready client.rate_limiter
      → W
      → Option (Outcome HttpResponse × CoroHttpClient × W)
  unfolding setup_of
  execute r client ready w =
      let wired = over_wire wire (setup_of client) end around.system_now around.backoff in
      elim (co_execute wired client.config r client.retry_policy (members client ready w)) [
        | none ↦ none
        | some q ↦ some (left_client client q)
      ]

  -- Where the limit is above the number of reads that bring bytes, and of the times that a wait of the
  -- limiter ends early, with one more, and the limiter of the client is off or within its limit:
  -- `co_execute` ends, retries and redirects included, it keeps the settings, and leaves a client whose
  -- limiter is off or within its limit again.
  pub execute-Ends :
      (r : HttpRequest) (client : CoroHttpClient) (ready : Ready client.rate_limiter) (w : W)
      → (q : Outcome HttpResponse × CoroHttpClient × W) × (execute r client ready w ≡ some q)
        × Ready q.1.rate_limiter
        × (q.1.config ≡ client.config)
        × (q.1.proxy_info ≡ client.proxy_info)
  unfolding execute left_client setup_of
  execute-Ends r client ready w =
      let wired = over_wire wire (setup_of client) end around.system_now around.backoff in
      let (q, e) =
        co_execute-some wired client.config r client.retry_policy (members client ready w) in
      (left_client client q, rw (e, execute) refl, q.2.world.1, refl, refl)
