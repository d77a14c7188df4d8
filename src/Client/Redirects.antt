-- ===== src/Client/Redirects.antt =====
-- co_execute_with_redirects: the chain of redirects, and when it stops.
use coro_http.Base.{
  ℕ, zero, suc, ◌≡◌, ◌≢◌, refl, ◌∙◌, inl, inr, true, none, some, List, [], ◌∷◌, Bytes, codes, sym,
  ap, ◌++◌, length, length-append, arith, Option-cases,
}
use coro_http.Base.Int.{pos_part}
use mathlib.Core.Path.{subst}
use coro_http.Base.Outcome.{Outcome, returned, thrown, undefined}
use coro_http.Cookie.{CookieJar}
use coro_http.Request.{HttpRequest}
use coro_http.Response.{HttpResponse, add_redirect, get_header}
use coro_http.Url.{UrlInfo, parse_url}
use coro_http.Config.{ClientConfig}
use coro_http.Client.{
  Transport, Client, redirect_request, redirect_location, asks, add_redirects, add_chain, perform,
  follow, co_execute_with_redirects,
}

-- A response as parse_response gives it, with an empty chain.
abbrev pub Plain : Outcome HttpResponse → Type 0
Plain (returned r) = r.redirect_chain ≡ []
Plain (thrown e) = Unit
Plain undefined = Unit

-- A transport that keeps how its exchanges end, the last one first.
abbrev pub answered : {W : Type 0} → Transport W → Transport (List (Outcome HttpResponse) × W)
answered t = record {
  now = λ s. t.now s.1;
  exchange = λ r info s. let q = t.exchange r info s.1 in (q.0, (q.0 ∷ s.0, q.1));
  wait = λ n s. (s.0, t.wait n s.1);
  backoff = λ n s. t.backoff n s.1;
}

-- Responses as they were returned, before those of earlier exchanges.
abbrev pub onto : List HttpResponse → List (Outcome HttpResponse) → List (Outcome HttpResponse)
onto [] os = os
onto (x ∷ xs) os = returned x ∷ onto xs os

abbrev pub locations : List HttpResponse → List Bytes
locations [] = []
locations (x ∷ xs) = get_header (codes "Location") x ∷ locations xs

onto-append :
    (xs ys : List HttpResponse) (os : List (Outcome HttpResponse))
    → onto (xs ++ ys) os ≡ onto xs (onto ys os)
onto-append [] ys os = refl
onto-append (x ∷ xs) ys os = ap (◌∷◌ (returned x)) (onto-append xs ys os)

locations-append : (xs ys : List HttpResponse) → locations (xs ++ ys) ≡ locations xs ++ locations ys
locations-append [] ys = refl
locations-append (x ∷ xs) ys = ap (◌∷◌ (get_header (codes "Location") x)) (locations-append xs ys)

-- What holds of a response that is returned, where the exchanges ended as in `before`, and then as in
-- `after`: of the exchanges in between, the last gave the response, and those before it the `redirects`,
-- whose Location headers are the chain, the last one first. Where the response still asks for a
-- redirect, the limit is reached.
pub record Followed (config : ClientConfig) (left : ℕ) (before after : List (Outcome HttpResponse))
    (r : HttpResponse) : Type 0 where
  pub redirects : List HttpResponse
  pub last : HttpResponse
  pub exchanges : after ≡ returned last ∷ onto redirects before
  pub chain : r.redirect_chain ≡ locations redirects
  pub same : (r.status_code ≡ last.status_code) × (r.headers ≡ last.headers) × (r.body ≡ last.body)
  pub limit :
      (config.follow_redirects ≡ true × redirect_location r ≢ none) → length r.redirect_chain ≡ left

abbrev pub Finished :
    ClientConfig
    → ℕ
    → List (Outcome HttpResponse)
    → List (Outcome HttpResponse)
    → Outcome HttpResponse
    → Type 0
Finished config left before after (returned r) = Followed config left before after r
Finished config left before after (thrown e) = Unit
Finished config left before after undefined = Unit

Finished-last :
    (config : ClientConfig) (before : List (Outcome HttpResponse)) (o : Outcome HttpResponse)
    → Plain o
    → Finished config 0 before (o ∷ before) o
Finished-last config before (returned r) h = record {
  redirects = [];
  last = r;
  exchanges = refl;
  chain = h;
  same = (refl, refl, refl);
  limit = λ k. ap length h;
}
Finished-last config before (thrown e) h = tt
Finished-last config before undefined h = tt

Finished-stop :
    (config : ClientConfig) (left : ℕ) (before : List (Outcome HttpResponse))
    (o : Outcome HttpResponse)
    → Plain o
    → asks config o ≡ none
    → Finished config (suc left) before (o ∷ before) o
unfolding asks
Finished-stop config left before (returned r) h e = record {
  redirects = [];
  last = r;
  exchanges = refl;
  chain = h;
  same = (refl, refl, refl);
  limit = λ (f, l). absurd (ground arith);
}
Finished-stop config left before (thrown x) h e = tt
Finished-stop config left before undefined h e = tt

-- A response that asks for a redirect.
record Asked (o : Outcome HttpResponse) (chain : List Bytes) (location : Bytes) : Type 0 where
  response : HttpResponse
  outcome : o ≡ returned response
  one_link : chain ≡ location ∷ []
  from_header : location ≡ get_header (codes "Location") response

asks-Asked :
    (config : ClientConfig) (o : Outcome HttpResponse) (chain : List Bytes) (location : Bytes)
    → Plain o
    → asks config o ≡ some (chain, location)
    → Asked o chain location
unfolding asks add_redirect redirect_location
asks-Asked config (returned r) chain location h e = record {
  response = r;
  outcome = refl;
  one_link = ground arith;
  from_header = ground arith;
}
asks-Asked config (thrown x) chain location h e = absurd (ground arith)
asks-Asked config undefined chain location h e = absurd (ground arith)

Finished-more :
    (config : ClientConfig) (left : ℕ) (before after : List (Outcome HttpResponse))
    (x : HttpResponse) (o : Outcome HttpResponse)
    → Finished config left (returned x ∷ before) after o
    → Finished config (suc left) before after (add_chain (get_header (codes "Location") x ∷ []) o)
unfolding add_chain add_redirects add_redirect redirect_location get_header
Finished-more config left before after x (returned r) h = record {
  redirects = h.redirects ++ (x ∷ []);
  last = h.last;
  exchanges =
      h.exchanges ∙ ap (◌∷◌ (returned h.last)) (sym (onto-append h.redirects (x ∷ []) before));
  chain =
      ap (λ c. c ++ (get_header (codes "Location") x ∷ [])) h.chain
      ∙ sym (locations-append h.redirects (x ∷ []));
  same = h.same;
  limit = λ k.
      omega
        (arith, h.limit k, length-append r.redirect_chain (get_header (codes "Location") x ∷ []));
}
Finished-more config left before after x (thrown e) h = tt
Finished-more config left before after x undefined h = tt

Finished-Asked :
    (config : ClientConfig) (left : ℕ) (before after : List (Outcome HttpResponse))
    (first o : Outcome HttpResponse) (chain : List Bytes) (location : Bytes)
    → Asked first chain location
    → Finished config left (first ∷ before) after o
    → Finished config (suc left) before after (add_chain chain o)
Finished-Asked config left before after first o chain location a h =
    rw (a.one_link, a.from_header)
      (Finished-more config left before after a.response o
        (subst (λ f. Finished config left (f ∷ before) after o) a.outcome h))

module _ {W : Type 0} (t : Transport W) (config : ClientConfig) where
  follow-Finished :
      ((x : HttpRequest) (info : UrlInfo) (w : W) → Plain (t.exchange x info w).0)
      → (left : ℕ) (r : HttpRequest) (s : Client (List (Outcome HttpResponse) × W))
      → let q = follow (answered t) config left r s in
        Finished config left s.world.0 q.1.world.0 q.0
  unfolding follow perform
  follow-Finished plain zero r s = elim (Option-cases (parse_url r.url)) [
    | inl n ↦ rw (n, follow) tt
    | inr (info, e) ↦ rw (e, follow) (Finished-last config s.world.0 _ (plain _ info s.world.1))
  ]
  follow-Finished plain (suc left) r s = elim (Option-cases (parse_url r.url)) [
    | inl n ↦ rw (n, follow) tt
    | inr (info, e) ↦
        let q = perform (answered t) config r info s in
        let from : Plain q.0 = plain _ info s.world.1 in
        elim (Option-cases (asks config q.0)) [
          | inl stop ↦ rw (e, stop, follow) (Finished-stop config left s.world.0 q.0 from stop)
          | inr ((chain, location), go_on) ↦
              rw (e, go_on, follow)
                (Finished-Asked config left s.world.0 _ q.0 _ chain location
                  (asks-Asked config q.0 chain location from go_on)
                  (follow-Finished plain left (redirect_request r info location) q.1))
        ]
  ]

-- Where exchanges give responses with an empty chain, a response that a call returns is that of its last
-- exchange, with the Location headers of the responses of all exchanges before it as its redirect chain,
-- the last one first; and where it still asks for a redirect that the client follows, max_redirects of
-- them were followed.
pub redirect_chain_complete :
    {W : Type 0} (t : Transport W) (config : ClientConfig) (r : HttpRequest) (j : CookieJar) (w : W)
    → ((x : HttpRequest) (info : UrlInfo) (v : W) → Plain (t.exchange x info v).0)
    → let q =
        co_execute_with_redirects
          (answered t)
          config
          r
          (record { cookie_jar = j; world = ([], w) }) in
      Finished config (pos_part config.max_redirects) [] q.1.world.0 q.0
unfolding co_execute_with_redirects
redirect_chain_complete t config r j w plain =
    follow-Finished t config plain (pos_part config.max_redirects) r
      (record { cookie_jar = j; world = ([], w) })
