-- ===== src/Client/Tests.antt =====
-- Runs of co_execute against scripted servers.
use coro_http.Base.{inl, if◌then◌else◌}
use coro_http.Base.{
  ℕ, ◌*◌, ◌≡◌, refl, Bool, true, false, Option, none, some, List, [], ◌∷◌, Bytes, codes, length,
  ◌≤◌, suc, All,
}
use coro_http.Base.Int.{pos, pos_part}
use coro_http.Base.Outcome.{Outcome, returned, thrown}
use coro_http.Cookie.{Cookie, CookieJar, new_cookie, get_cookies_for_request}
use coro_http.Request.{HttpMethod, get, post, HttpRequest}
use coro_http.Response.{HttpResponse, new_response}
use coro_http.Retry.{RetryPolicy, reset}
use coro_http.Url.{UrlInfo, parse_url}
use coro_http.Config.{ClientConfig, default_config}
use coro_http.Client.{Transport, co_execute_with_redirects, co_execute}
use coro_http.Client.Sends.{logged, Sent, Same, follow_sends}
use coro_http.Client.Cookies.{sends_cookies}
use coro_http.Base.Dict.{lookup}
use coro_http.Base.{◌++◌, is_empty}
use coro_http.Client.Redirects.{answered, Plain, Finished, redirect_chain_complete}
use coro_http.Client.Retries.{timed, Ends, IsPaced, co_execute-IsPaced}

-- The answers still to come, each a status and a location.
abbrev answers : List (ℕ × Bytes) → Outcome HttpResponse × List (ℕ × Bytes)
answers [] = (thrown (codes "Connection reset"), [])
answers ((status, location) ∷ later) = (
  returned (record new_response {
    status_code = pos status;
    headers = (codes "Location", location) ∷ [];
  }),
  later,
)

abbrev scripted : Transport (List (ℕ × Bytes))
scripted = record {
  now = λ w. 0;
  exchange = λ r info w. answers w;
  wait = λ n w. w;
  backoff = λ n w. 3 * n;
}

abbrev config : ClientConfig
config = record default_config { max_redirects = pos 2; enable_retry = true; retry_on_5xx = true }

abbrev policy : RetryPolicy
policy = record {
  max_retries = pos 2;
  initial_delay = 1;
  max_delay = 5;
  retry_on_timeout = true;
  retry_on_connection_error = true;
  retry_on_5xx = true;
  current_attempt = 7;
}

abbrev posted : HttpRequest
posted = record {
  method = HttpMethod.post;
  url = codes "http://a.org/x";
  headers = (codes "A", codes "b") ∷ [];
  body = codes "data";
}

abbrev jar : CookieJar
jar = record { cookies = [] }

abbrev redirects : List (ℕ × Bytes)
redirects = (302, codes "/y") ∷ (302, codes "http://b.org/") ∷ (200, []) ∷ []

two_redirects :
    (co_execute_with_redirects
      (logged scripted)
      config
      posted
      (record { cookie_jar = jar; world = ([], redirects) })).1.world.1
    ≡ []
unfolding co_execute_with_redirects parse_url coro_http.Base.strip_prefix coro_http.Base.span
    coro_http.Retry.in_range coro_http.Base.is_empty coro_http.Response.get_header
    coro_http.Base.Dict.lookup coro_http.Base.equal coro_http.Request.add_header
    coro_http.Url.absolute_url coro_http.Base.Dict.insert
two_redirects = refl

follow_sends_example :
    let sent =
      (co_execute_with_redirects
        (logged scripted)
        config
        posted
        (record { cookie_jar = jar; world = ([], redirects) })).1.world.0 in
    (length sent ≤ suc (pos_part config.max_redirects)) × All (Sent posted) sent
follow_sends_example = follow_sends scripted config posted jar redirects (tt, tt)

abbrev c_jar : CookieJar
c_jar =
    let c : Cookie = record (new_cookie (codes "c") (codes "1")) {
      domain = codes "a.org";
      path = codes "/";
    } in
    record { cookies = (codes "a.org/c", c) ∷ [] }

abbrev target : UrlInfo
target = record {
  scheme = codes "http";
  host = codes "a.org";
  port = codes "80";
  path = codes "/x";
  is_https = false;
}

target_parsed : parse_url posted.url ≡ some target
unfolding parse_url coro_http.Base.strip_prefix coro_http.Base.span
target_parsed = refl

has_cookies : is_empty (get_cookies_for_request 0 target.host target.path false c_jar) ≡ false
unfolding get_cookies_for_request coro_http.Base.equal is_empty coro_http.Base.strip_prefix
    coro_http.Base.Int.zlt
has_cookies = refl

abbrev with_jar : ClientConfig
with_jar = record config { enable_cookies = true }

sends_cookies_example :
    (first : HttpRequest) × (later : List HttpRequest) × ((co_execute_with_redirects
        (logged scripted)
        with_jar
        posted
        (record { cookie_jar = c_jar; world = ([], redirects) })).1.world.0
      ≡ later ++ (first ∷ []))
    × Same posted first
    × (lookup (codes "Cookie") first.headers
        ≡ some (get_cookies_for_request 0 target.host target.path false c_jar))
sends_cookies_example =
    sends_cookies scripted with_jar posted target c_jar redirects refl target_parsed has_cookies

answers-Plain : (w : List (ℕ × Bytes)) → Plain (answers w).0
answers-Plain [] = tt
answers-Plain ((status, location) ∷ later) = refl

redirect_chain_complete_example :
    let q =
      co_execute_with_redirects
        (answered scripted)
        config
        posted
        (record { cookie_jar = jar; world = ([], redirects) }) in
    Finished config (pos_part config.max_redirects) [] q.1.world.0 q.0
redirect_chain_complete_example =
    redirect_chain_complete scripted config posted jar redirects (λ x info v. answers-Plain v)

co_execute-IsPaced_example : Ends (IsPaced scripted config (reset policy) []) (
    co_execute
      (timed scripted)
      config
      posted
      policy
      (record { cookie_jar = jar; world = ([], (503, []) ∷ []) }))
co_execute-IsPaced_example =
    co_execute-IsPaced scripted config posted policy jar ((503, []) ∷ []) refl
