-- ===== src/Client.antt =====
-- include/coro_http/coro_http_client.hpp: co_execute and co_execute_with_redirects. What a request
-- does to the outside (co_execute_http, co_execute_https), the wait of a timer and the clock for
-- cookies are the interface Transport; the state threaded through is the jar and the outside.
pub mod Sends
pub mod Cookies
pub mod Redirects
pub mod Retries
pub mod Wired
mod Tests
use coro_http.Base.{
  ℕ, zero, suc, ◌+◌, Bool, true, false, not, ◌&&◌, Option, none, some, List, [], ◌∷◌, Bytes, codes,
  equal_ignoring_case, is_empty, ◌==◌, if◌then◌else◌,
}
use coro_http.Base.Int.{ℤ, pos, pos_part, ltz}
use coro_http.Config.{ClientConfig}
use coro_http.Base.Dict.{Dict}
use coro_http.Base.Outcome.{Outcome, returned, thrown, undefined}
use coro_http.Cookie.{CookieJar, get_cookies_for_request, parse_set_cookie}
use coro_http.Request.{HttpMethod, get, HttpRequest, new_request, add_header}
use coro_http.Response.{HttpResponse, get_header, add_redirect}
use coro_http.Retry.{RetryPolicy, should_retry, in_range, get_delay, increment_attempt, reset}
use coro_http.Url.{UrlInfo, parse_url, absolute_url}

pub record Transport (W : Type 0) : Type 0 where
  pub now : W → ℕ
  pub exchange : HttpRequest → UrlInfo → W → Outcome HttpResponse × W
  pub wait : ℕ → W → W
  pub backoff : ℕ → W → ℕ

pub record Client (W : Type 0) : Type 0 where
  pub cookie_jar : CookieJar
  pub world : W

-- The loop over the response's headers.
pub store_cookies : ℕ → Bytes → Dict Bytes → CookieJar → CookieJar
store_cookies now host [] j = j
store_cookies now host (h ∷ hs) j =
    store_cookies now host hs
      (if equal_ignoring_case h.0 (codes "Set-Cookie") then parse_set_cookie now h.1 host j else j)

-- The jar after an exchange.
pub keep_cookies : ClientConfig → ℕ → Bytes → Outcome HttpResponse → CookieJar → CookieJar
unfolding store_cookies
keep_cookies config now host (returned r) j =
    if config.enable_cookies then store_cookies now host r.headers j else j
keep_cookies config now host (thrown e) j = j
keep_cookies config now host undefined j = j

-- `req_with_cookies`
pub with_cookies : ClientConfig → ℕ → UrlInfo → CookieJar → HttpRequest → HttpRequest
with_cookies config now info j r =
    let cookies = get_cookies_for_request now info.host info.path info.is_https j in
    if config.enable_cookies
    then if is_empty cookies then r else add_header (codes "Cookie") cookies r
    else r

-- `location[0] == '/'`
pub starts_with_slash : Bytes → Bool
starts_with_slash [] = false
starts_with_slash (c ∷ cs) = c == b'/'

-- The loop that copies the headers of the request.
pub copy_headers : Dict Bytes → HttpRequest → HttpRequest
copy_headers [] r = r
copy_headers (h ∷ hs) r = copy_headers hs (add_header h.0 h.1 r)

-- `redirect_req`, for a location.
pub redirect_request : HttpRequest → UrlInfo → Bytes → HttpRequest
unfolding starts_with_slash copy_headers
redirect_request r info location =
    let target = if starts_with_slash location then absolute_url info location else location in
    copy_headers r.headers (new_request HttpMethod.get target)

-- The location of a response that asks for a redirect; none where it does not.
pub redirect_location : HttpResponse → Option Bytes
redirect_location r =
    let location = get_header (codes "Location") r in
    if in_range 300 400 r.status_code && not (is_empty location) then some location else none

-- The loop over `redirect_chain`.
pub add_redirects : List Bytes → HttpResponse → HttpResponse
add_redirects [] r = r
add_redirects (url ∷ urls) r = add_redirects urls (add_redirect url r)

-- What becomes of the response to a redirected request.
pub add_chain : List Bytes → Outcome HttpResponse → Outcome HttpResponse
unfolding add_redirects
add_chain urls (returned r) = returned (add_redirects urls r)
add_chain urls (thrown e) = thrown e
add_chain urls undefined = undefined

-- Where the client goes on with a redirect: the chain of the response, with the location added, and
-- the location.
pub asks : ClientConfig → Outcome HttpResponse → Option (List Bytes × Bytes)
unfolding redirect_location add_redirect
asks config (returned response) = elim (redirect_location response) [
  | none ↦ none
  | some location ↦
      if config.follow_redirects
      then some ((add_redirect location response).redirect_chain, location)
      else none
]
asks config (thrown e) = none
asks config undefined = none

module _ {W : Type 0} (t : Transport W) (config : ClientConfig) where
  -- One request, with the cookies it sends and stores.
  pub perform : HttpRequest → UrlInfo → Client W → Outcome HttpResponse × Client W
  unfolding with_cookies keep_cookies
  perform r info s =
      let p = t.exchange (with_cookies config (t.now s.world) info s.cookie_jar r) info s.world in
      (
        p.0,
        record {
          cookie_jar = keep_cookies config (t.now p.1) info.host p.0 s.cookie_jar;
          world = p.1;
        },
      )

  -- `co_execute_with_redirects`, on the number of redirects left, max_redirects - redirect_count,
  -- and with the exception of `parse_url`.
  pub follow : ℕ → HttpRequest → Client W → Outcome HttpResponse × Client W
  unfolding perform asks redirect_request add_chain
  follow zero r s = elim (parse_url r.url) [
    | none ↦ (thrown (codes "Invalid URL format"), s)
    | some info ↦ perform r info s
  ]
  follow (suc left) r s = elim (parse_url r.url) [
    | none ↦ (thrown (codes "Invalid URL format"), s)
    | some info ↦ elim (asks config (perform r info s).0) [
      | none ↦ perform r info s
      | some (chain, location) ↦
          let q = follow left (redirect_request r info location) (perform r info s).1 in
          (add_chain chain q.0, q.1)
    ]
  ]

  pub co_execute_with_redirects : HttpRequest → Client W → Outcome HttpResponse × Client W
  unfolding follow
  co_execute_with_redirects r s = follow (pos_part config.max_redirects) r s

  -- The delay, and the wait for it, before the next attempt.
  pub pause : RetryPolicy → Client W → Client W
  unfolding get_delay
  pause p s = record s { world = t.wait (get_delay (λ n. t.backoff n s.world) p) s.world }

  -- Whether there is another attempt: by the status of a response, or by the text of an exception.
  pub tries_again : RetryPolicy → Outcome HttpResponse → Bool
  unfolding in_range should_retry
  tries_again p (returned r) =
      ltz p.current_attempt p.max_retries && config.retry_on_5xx && in_range 500 600 r.status_code
  tries_again p (thrown e) = config.enable_retry && should_retry e (pos 0) p
  tries_again p undefined = false

  -- The loop of `co_execute`; none where the fuel does not reach.
  pub retry_loop :
      ℕ
      → HttpRequest
      → RetryPolicy
      → Client W
      → Option (Outcome HttpResponse × RetryPolicy × Client W)
  unfolding co_execute_with_redirects tries_again pause increment_attempt
  retry_loop zero r p s = none
  retry_loop (suc fuel) r p s = elim (tries_again p (co_execute_with_redirects r s).0) [
    | false ↦ some ((co_execute_with_redirects r s).0, p, (co_execute_with_redirects r s).1)
    | true ↦
        retry_loop fuel r (increment_attempt p)
          (pause (increment_attempt p) (co_execute_with_redirects r s).1)
  ]

  -- Each round but the last counts an attempt below `max_retries`, so one more than these rounds are
  -- fuel enough.
  pub co_execute :
      HttpRequest → RetryPolicy → Client W → Option (Outcome HttpResponse × RetryPolicy × Client W)
  unfolding retry_loop reset co_execute_with_redirects
  co_execute r p s = elim config.enable_retry [
    | false ↦ some ((co_execute_with_redirects r s).0, p, (co_execute_with_redirects r s).1)
    | true ↦ retry_loop (suc (pos_part p.max_retries)) r (reset p) s
  ]
