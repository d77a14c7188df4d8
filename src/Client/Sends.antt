-- ===== src/Client/Sends.antt =====
-- co_execute_with_redirects: the requests that it sends.
use coro_http.Base.{
  Option, ℕ, zero, suc, ◌+◌, ◌≤◌, ◌≡◌, refl, ◌∙◌, ◌⊎◌, inl, inr, true, none, some, List, [], ◌∷◌,
  Bytes, codes, sym, ap, Bool, false, equal, equal_iff, Bool-cases, if◌then◌else◌, length, All,
  arith, Option-cases,
}
use coro_http.Base.Int.{pos_part}
use coro_http.Base.Dict.{Dict, lookup, lookup-insert, lookup-Above, IsSorted, insert-IsSorted}
use mathlib.Core.Path.{subst}
use coro_http.Cookie.{CookieJar}
use coro_http.Request.{HttpMethod, HttpRequest, add_header, new_request}
use coro_http.Url.{UrlInfo, parse_url}
use coro_http.Config.{ClientConfig}
use coro_http.Client.{
  Transport, Client, with_cookies, copy_headers, redirect_request, asks, perform, follow,
  co_execute_with_redirects,
}

-- A transport that keeps the requests it sends, the last one first.
abbrev pub logged : {W : Type 0} → Transport W → Transport (List HttpRequest × W)
logged t = record {
  now = λ s. t.now s.1;
  exchange = λ r info s. ((t.exchange r info s.1).0, (r ∷ s.0, (t.exchange r info s.1).1));
  wait = λ n s. (s.0, t.wait n s.1);
  backoff = λ n s. t.backoff n s.1;
}

-- The headers of a request, but for Cookie.
abbrev KeepsHeaders : HttpRequest → HttpRequest → Type 0
KeepsHeaders r x =
    (name : Bytes) → (lookup name x.headers ≡ lookup name r.headers) ⊎ (name ≡ codes "Cookie")

-- The request of a call, up to its header Cookie.
pub record Same (r x : HttpRequest) : Type 0 where
  pub method : x.method ≡ r.method
  pub url : x.url ≡ r.url
  pub body : x.body ≡ r.body
  pub headers : KeepsHeaders r x

-- A request made for a redirect.
pub record Redirected (r x : HttpRequest) : Type 0 where
  pub method : x.method ≡ HttpMethod.get
  pub body : x.body ≡ []
  pub headers : KeepsHeaders r x

abbrev pub Sent : HttpRequest → HttpRequest → Type 0
Sent r x = Same r x ⊎ Redirected r x

Same-refl : (r : HttpRequest) → Same r r
Same-refl r = record { method = refl; url = refl; body = refl; headers = λ name. inl refl }

cookie_added : (cookies : Bytes) (r : HttpRequest) → Same r (add_header (codes "Cookie") cookies r)
unfolding add_header
cookie_added cookies r = record {
  method = refl;
  url = refl;
  body = refl;
  headers = λ name. elim (Bool-cases (equal (codes "Cookie") name)) [
    | inl e ↦ inr (sym ((equal_iff (codes "Cookie") name).0 e))
    | inr e ↦ inl (
        lookup-insert (codes "Cookie") name cookies r.headers
        ∙ ap (λ b. if b then some cookies else lookup name r.headers) e)
  ];
}

Same-if : (b : Bool) (r x y : HttpRequest) → Same r x → Same r y → Same r (if b then x else y)
Same-if true r x y h k = h
Same-if false r x y h k = k

pub with_cookies-Same :
    (config : ClientConfig) (now : ℕ) (info : UrlInfo) (j : CookieJar) (r : HttpRequest)
    → Same r (with_cookies config now info j r)
unfolding with_cookies
with_cookies-Same config now info j r =
    Same-if config.enable_cookies r _ r (Same-if _ r r _ (Same-refl r) (cookie_added _ r))
      (Same-refl r)

KeepsHeaders-trans : (r x y : HttpRequest) → KeepsHeaders r x → KeepsHeaders x y → KeepsHeaders r y
KeepsHeaders-trans r x y h k name = elim (k name) [
  | inr cookie ↦ inr cookie
  | inl e ↦ elim (h name) [ inr cookie ↦ inr cookie | inl e' ↦ inl (e ∙ e') ]
]

Sent-Same : (r x y : HttpRequest) → Sent r x → Same x y → Sent r y
Sent-Same r x y (inl h) k = inl (record {
  method = k.method ∙ h.method;
  url = k.url ∙ h.url;
  body = k.body ∙ h.body;
  headers = KeepsHeaders-trans r x y h.headers k.headers;
})
Sent-Same r x y (inr h) k = inr (record {
  method = k.method ∙ h.method;
  body = k.body ∙ h.body;
  headers = KeepsHeaders-trans r x y h.headers k.headers;
})

Sent-KeepsHeaders : (r x : HttpRequest) → Sent r x → KeepsHeaders r x
Sent-KeepsHeaders r x (inl h) = h.headers
Sent-KeepsHeaders r x (inr h) = h.headers

abbrev or_else : {A : Type 0} → Option A → Option A → Option A
or_else (some a) b = some a
or_else none b = b

or_else-none : {A : Type 0} (a : Option A) → or_else a none ≡ a
or_else-none none = refl
or_else-none (some a) = refl

-- Copied headers replace those of the same name.
lookup-copy_headers :
    (name : Bytes) (hs : Dict Bytes) (x : HttpRequest)
    → IsSorted hs
    → lookup name (copy_headers hs x).headers ≡ or_else (lookup name hs) (lookup name x.headers)
unfolding copy_headers add_header lookup
lookup-copy_headers name [] x s = refl
lookup-copy_headers name ((k, v) ∷ hs) x s =
    lookup-copy_headers name hs (add_header k v x) s.1
    ∙ ap (or_else (lookup name hs)) (lookup-insert k name v x.headers)
    ∙ elim (Bool-cases (equal k name)) [
      | inl e ↦
          rw (e, subst (λ n. lookup n hs ≡ none) ((equal_iff k name).0 e) (lookup-Above k hs s.0))
            refl
      | inr e ↦ rw e refl
    ]

copy_headers-Redirected :
    (hs : Dict Bytes) (x : HttpRequest)
    → IsSorted x.headers
    → (IsSorted (copy_headers hs x).headers)
      × ((copy_headers hs x).method ≡ x.method)
      × ((copy_headers hs x).body ≡ x.body)
unfolding copy_headers add_header
copy_headers-Redirected [] x s = (s, refl, refl)
copy_headers-Redirected ((k, v) ∷ hs) x s =
    copy_headers-Redirected hs (add_header k v x) (insert-IsSorted k v x.headers s)

redirect_request-Redirected :
    (r : HttpRequest) (info : UrlInfo) (location : Bytes)
    → IsSorted r.headers
    → IsSorted (redirect_request r info location).headers
      × Redirected r (redirect_request r info location)
unfolding redirect_request lookup
redirect_request-Redirected r info location s =
    let (sorted, method, body) =
      copy_headers-Redirected r.headers (new_request HttpMethod.get _) tt in
    (
      sorted,
      record {
        method = method;
        body = body;
        headers = λ name.
            inl (lookup-copy_headers name r.headers _ s ∙ or_else-none (lookup name r.headers));
      },
    )

Sent-redirect_request :
    (first r : HttpRequest) (info : UrlInfo) (location : Bytes)
    → IsSorted r.headers
    → Sent first r
    → Sent first (redirect_request r info location)
Sent-redirect_request first r info location s h =
    let x = redirect_request r info location in
    let made = (redirect_request-Redirected r info location s).1 in
    inr (record {
      method = made.method;
      body = made.body;
      headers = KeepsHeaders-trans first r x (Sent-KeepsHeaders first r h) made.headers;
    })

module _ {W : Type 0} (t : Transport W) (config : ClientConfig) where
  follow-Sent :
      (first : HttpRequest) (left : ℕ) (r : HttpRequest) (s : Client (List HttpRequest × W))
      → IsSorted r.headers
      → Sent first r
      → All (Sent first) s.world.0
      → All (Sent first) (follow (logged t) config left r s).1.world.0
  unfolding follow perform
  follow-Sent first zero r s sorted k h = elim (Option-cases (parse_url r.url)) [
    | inl n ↦ rw (n, follow) h
    | inr (info, e) ↦
        rw (e, follow)
          (
            Sent-Same first r _ k (with_cookies-Same config (t.now s.world.1) info s.cookie_jar r),
            h,
          )
  ]
  follow-Sent first (suc left) r s sorted k h = elim (Option-cases (parse_url r.url)) [
    | inl n ↦ rw (n, follow) h
    | inr (info, e) ↦
        let q = perform (logged t) config r info s in
        let sent : All (Sent first) q.1.world.0 = (
          Sent-Same first r _ k (with_cookies-Same config (t.now s.world.1) info s.cookie_jar r),
          h,
        ) in
        elim (Option-cases (asks config q.0)) [
          | inl stop ↦ rw (e, stop, follow) sent
          | inr ((chain, location), go_on) ↦
              rw (e, go_on, follow)
                (follow-Sent first left (redirect_request r info location) q.1
                  (redirect_request-Redirected r info location sorted).0
                  (Sent-redirect_request first r info location sorted k) sent)
        ]
  ]

  length-follow :
      (left : ℕ) (r : HttpRequest) (s : Client (List HttpRequest × W))
      → length (follow (logged t) config left r s).1.world.0 ≤ length s.world.0 + suc left
  unfolding follow perform
  length-follow zero r s = elim (Option-cases (parse_url r.url)) [
    | inl n ↦ rw (n, follow) (omega arith)
    | inr (info, e) ↦ rw (e, follow) (omega arith)
  ]
  length-follow (suc left) r s = elim (Option-cases (parse_url r.url)) [
    | inl n ↦ rw (n, follow) (omega arith)
    | inr (info, e) ↦
        let q = perform (logged t) config r info s in
        elim (Option-cases (asks config q.0)) [
          | inl stop ↦ rw (e, stop, follow) (omega arith)
          | inr ((chain, location), go_on) ↦
              rw (e, go_on, follow)
                (omega (arith, length-follow left (redirect_request r info location) q.1))
        ]
  ]

-- A call whose headers are in the order of their names, as a std::map has them, sends at most one request
-- more than max_redirects. Each has the headers of the request of the call, but for Cookie, and either its
-- method, URL and body, or is a GET without a body.
pub follow_sends :
    {W : Type 0} (t : Transport W) (config : ClientConfig) (r : HttpRequest) (j : CookieJar) (w : W)
    → IsSorted r.headers
    → let sent =
        (co_execute_with_redirects
          (logged t)
          config
          r
          (record { cookie_jar = j; world = ([], w) })).1.world.0 in
      (length sent ≤ suc (pos_part config.max_redirects)) × All (Sent r) sent
unfolding co_execute_with_redirects
follow_sends t config r j w sorted =
    let s : Client (List HttpRequest × _) = record { cookie_jar = j; world = ([], w) } in
    (
      omega (arith, length-follow t config (pos_part config.max_redirects) r s),
      follow-Sent t config r (pos_part config.max_redirects) r s sorted (inl (Same-refl r)) tt,
    )
