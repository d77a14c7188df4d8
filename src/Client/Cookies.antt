-- ===== src/Client/Cookies.antt =====
-- co_execute_with_redirects: the cookies that it sends.
use coro_http.Base.{
  ℕ, zero, suc, ◌≡◌, refl, ◌∙◌, sym, true, false, some, inl, inr, List, [], ◌∷◌, ◌++◌, append_assoc,
  codes, is_empty, equal, Option-cases,
}
use coro_http.Base.Int.{pos_part}
use coro_http.Base.Dict.{lookup, lookup-insert}
use coro_http.Cookie.{CookieJar, get_cookies_for_request}
use coro_http.Request.{HttpRequest, add_header}
use coro_http.Url.{UrlInfo, parse_url}
use coro_http.Config.{ClientConfig}
use coro_http.Client.{
  Transport, Client, with_cookies, redirect_request, asks, perform, follow,
  co_execute_with_redirects,
}
use coro_http.Client.Sends.{logged, Same, with_cookies-Same}

with_cookies-Cookie :
    (config : ClientConfig) (now : ℕ) (info : UrlInfo) (j : CookieJar) (r : HttpRequest)
    → config.enable_cookies ≡ true
    → is_empty (get_cookies_for_request now info.host info.path info.is_https j) ≡ false
    → lookup (codes "Cookie") (with_cookies config now info j r).headers
      ≡ some (get_cookies_for_request now info.host info.path info.is_https j)
unfolding with_cookies add_header equal
with_cookies-Cookie config now info j r on h =
    rw (on, h) (lookup-insert (codes "Cookie") (codes "Cookie") _ r.headers)

module _ {W : Type 0} (t : Transport W) (config : ClientConfig) where
  abbrev Logged : Type 0
  Logged = Client (List HttpRequest × W)

  -- A call only adds to the log.
  follow_appends :
      (left : ℕ) (r : HttpRequest) (s : Logged)
      → (later : List HttpRequest) × ((follow (logged t) config left r s).1.world.0
          ≡ later ++ s.world.0)
  unfolding follow perform
  follow_appends zero r s = elim (Option-cases (parse_url r.url)) [
    | inl n ↦ ([], rw (n, follow) refl)
    | inr (info, e) ↦
        (with_cookies config (t.now s.world.1) info s.cookie_jar r ∷ [], rw (e, follow) refl)
  ]
  follow_appends (suc left) r s = elim (Option-cases (parse_url r.url)) [
    | inl n ↦ ([], rw (n, follow) refl)
    | inr (info, e) ↦
        let sent = with_cookies config (t.now s.world.1) info s.cookie_jar r in
        let q = perform (logged t) config r info s in
        elim (Option-cases (asks config q.0)) [
          | inl stop ↦ (sent ∷ [], rw (e, stop, follow) refl)
          | inr ((chain, location), go_on) ↦
              let (later, k) = follow_appends left (redirect_request r info location) q.1 in
              (
                later ++ (sent ∷ []),
                rw (e, go_on, follow) (k ∙ sym (append_assoc later (sent ∷ []) s.world.0)),
              )
        ]
  ]

  -- The first request of a call is at the end of the log.
  follow_first :
      (left : ℕ) (r : HttpRequest) (info : UrlInfo) (s : Logged)
      → parse_url r.url ≡ some info
      → (later : List HttpRequest) × ((follow (logged t) config left r s).1.world.0
          ≡ later ++ (with_cookies config (t.now s.world.1) info s.cookie_jar r ∷ s.world.0))
  unfolding follow perform
  follow_first zero r info s e = ([], rw (e, follow) refl)
  follow_first (suc left) r info s e =
      let q = perform (logged t) config r info s in
      elim (Option-cases (asks config q.0)) [
        | inl stop ↦ ([], rw (e, stop, follow) refl)
        | inr ((chain, location), go_on) ↦
            let (later, k) = follow_appends left (redirect_request r info location) q.1 in
            (later, rw (e, go_on, follow) k)
      ]

-- With cookies on, and a jar that has some for the URL of a call: the first request that the call sends
-- has the method, the URL, the body and, but for Cookie, the headers of the request of the call, and the
-- text of the jar for this URL as its Cookie header, whatever requests follow it.
pub sends_cookies :
    {W : Type 0} (t : Transport W) (config : ClientConfig) (r : HttpRequest) (info : UrlInfo)
    (j : CookieJar) (w : W)
    → config.enable_cookies ≡ true
    → parse_url r.url ≡ some info
    → is_empty (get_cookies_for_request (t.now w) info.host info.path info.is_https j) ≡ false
    → (first : HttpRequest) × (later : List HttpRequest) × ((co_execute_with_redirects
          (logged t)
          config
          r
          (record { cookie_jar = j; world = ([], w) })).1.world.0
        ≡ later ++ (first ∷ []))
      × Same r first
      × (lookup (codes "Cookie") first.headers
          ≡ some (get_cookies_for_request (t.now w) info.host info.path info.is_https j))
unfolding co_execute_with_redirects
sends_cookies t config r info j w on e h =
    let s : Client (List HttpRequest × _) = record { cookie_jar = j; world = ([], w) } in
    let (later, k) = follow_first t config (pos_part config.max_redirects) r info s e in
    (
      with_cookies config (t.now w) info j r,
      later,
      k,
      with_cookies-Same config (t.now w) info j r,
      with_cookies-Cookie config (t.now w) info j r on h,
    )
