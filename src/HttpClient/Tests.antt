-- ===== src/HttpClient/Tests.antt =====
-- Runs of the constructor.
use coro_http.Base.{true, ◌≡◌, refl, some, codes}
use coro_http.Config.{ClientConfig, default_config}
use coro_http.Proxy.{no_info, parse_proxy_url}
use coro_http.Base.Outcome.{Outcome, returned}
use coro_http.Response.{HttpResponse}
use coro_http.Exchange.Ending.{Ready}
use coro_http.Exchange.SmallWire.{World, small_wire, small_wire_ends, world}
use coro_http.HttpClient.Execute.{Surroundings, execute, execute-Ends}
use coro_http.HttpClient.{CoroHttpClient, new_client, client_with, get_request, with_proxy_login}
use coro_http.HttpClient.Start.{client_with-Ready}

abbrev limited : ClientConfig
limited = record default_config { enable_rate_limit = true; proxy_username = codes "joe" }

abbrev limited_client : CoroHttpClient
limited_client = client_with limited no_info

starts : new_client limited ≡ some limited_client
unfolding new_client client_with parse_proxy_url with_proxy_login
starts = refl

limited_Ready : Ready limited_client.rate_limiter
limited_Ready = client_with-Ready limited no_info

abbrev around : Surroundings World
around = record {
  gunzip = returned;
  inflate = returned;
  max_size = 1000;
  limit = 3;
  system_now = λ w. w.time;
  backoff = λ n w. n;
}

execute-Ends_example :
    (q : Outcome HttpResponse × CoroHttpClient × World) × (execute small_wire around small_wire_ends
        (get_request (codes "https://a.org/x"))
        limited_client
        limited_Ready
        world
      ≡ some q)
    × Ready q.1.rate_limiter
    × (q.1.config ≡ limited_client.config)
    × (q.1.proxy_info ≡ limited_client.proxy_info)
execute-Ends_example =
    execute-Ends small_wire around small_wire_ends (get_request (codes "https://a.org/x"))
      limited_client limited_Ready world
