-- ===== src/Interceptor/Chains.antt =====
-- Chains of interceptors: the order in which they run, and what an exception does to them.
use coro_http.Base.Int.{ℤ, pos, negsuc}
use coro_http.Base.{
  arith, ℕ, ◌<◌, Bytes, sym, Bool, false, true, if◌then◌else◌, ◌≡◌, refl, ◌∙◌, ap, List, [], ◌∷◌,
  ◌++◌,
}
use coro_http.Base.Outcome.{Outcome, returned, thrown, undefined}
use coro_http.Request.{HttpRequest}
use coro_http.Response.{HttpResponse}
use coro_http.Interceptor.{
  Left, RequestInterceptor, ResponseInterceptor, InterceptorChain, unless_thrown, process,
  for_request, add_request_interceptor, add_response_interceptor, process_request, process_response,
  throw_on_error, at_least,
}

module _ {S A : Type 0} where
  unless_thrown_assoc :
      (r : Left S A) (h k m : A → S → Left S A)
      → ((a : A) (s : S) → m a s ≡ unless_thrown (h a s) k)
      → unless_thrown r m ≡ unless_thrown (unless_thrown r h) k
  unless_thrown_assoc (returned u, a, s) h k m e = e a s
  unless_thrown_assoc (thrown x, a, s) h k m e = refl
  unless_thrown_assoc (undefined, a, s) h k m e = refl

  process-append :
      (fs gs : List (A → S → Left S A)) (a : A) (s : S)
      → process (fs ++ gs) a s ≡ unless_thrown (process fs a s) (process gs)
  unfolding process
  process-append [] gs a s = refl
  process-append (f ∷ fs) gs a s =
      unless_thrown_assoc (f a s) (process fs) (process gs) (process (fs ++ gs))
        (process-append fs gs)

  unless_thrown_return : (r : Left S A) → unless_thrown r (λ a s. (returned tt, a, s)) ≡ r
  unless_thrown_return (returned tt, a, s) = refl
  unless_thrown_return (thrown e, a, s) = refl
  unless_thrown_return (undefined, a, s) = refl

  process_last : (f : A → S → Left S A) (a : A) (s : S) → process (f ∷ []) a s ≡ f a s
  unfolding process
  process_last f a s = unless_thrown_return (f a s)

  process_added :
      (fs : List (A → S → Left S A)) (f : A → S → Left S A) (a : A) (s : S)
      → process (fs ++ (f ∷ [])) a s ≡ unless_thrown (process fs a s) f
  process_added fs f a s =
      process-append fs (f ∷ []) a s
      ∙ ap (unless_thrown (process fs a s)) (λ i a s. process_last f a s i)

for_request-append :
    {S : Type 0} (r : HttpRequest) (fs gs : List (ResponseInterceptor S))
    → for_request r (fs ++ gs) ≡ for_request r fs ++ for_request r gs
unfolding for_request
for_request-append r [] gs = refl
for_request-append r (f ∷ fs) gs = ap (◌∷◌ (f r)) (for_request-append r fs gs)

-- An interceptor that is added runs behind those of the chain, on what they leave, unless one of them
-- throws: of requests, and of responses, where it gets the request too.
process_last_added :
    {S : Type 0} (chain : InterceptorChain S) (f : RequestInterceptor S) (g : ResponseInterceptor S)
    (request : HttpRequest) (response : HttpResponse) (s : S)
    → (process_request (add_request_interceptor f chain) request s
        ≡ unless_thrown (process_request chain request s) f)
      × (process_response (add_response_interceptor g chain) request response s
          ≡ unless_thrown (process_response chain request response s) (g request))
unfolding process_request process_response add_request_interceptor add_response_interceptor
    for_request
process_last_added chain f g request response s = (
  process_added chain.request_interceptors f request s,
  ap (λ fs. process fs response s) (for_request-append request chain.response_interceptors (g ∷ []))
      ∙ process_added (for_request request chain.response_interceptors) (g request) response s,
)

returned_only :
    (b : Bool) (e : Bytes)
    → Path (Outcome {0} Unit) (if b then thrown e else returned tt) (returned tt)
    → b ≡ false
returned_only true e h = absurd (cc h)
returned_only false e h = refl

passed :
    {S : Type 0} (request : HttpRequest) (r : Left S HttpResponse)
    → (unless_thrown r (throw_on_error request)).0 ≡ returned tt
    → at_least 400 (unless_thrown r (throw_on_error request)).1.status_code ≡ false
unfolding throw_on_error
passed request (returned u, response, s) h = returned_only (at_least 400 response.status_code) _ h
passed request (thrown e, response, s) h = absurd (cc h)
passed request (undefined, response, s) h = absurd (cc h)

below : (status : ℤ) (n : ℕ) → at_least 400 status ≡ false → status ≡ pos n → n < 400
unfolding at_least
below (pos k) n h e = ground (arith, h, e)
below (negsuc k) n h e = absurd (cc e)

-- Where a chain that ends with `throw_on_error` returns, and the response it leaves has a status that is
-- not negative, this status is below 400.
pub throw_on_error_last :
    {S : Type 0} (chain : InterceptorChain S) (request : HttpRequest) (response : HttpResponse)
    (s : S) (n : ℕ)
    → (process_response (add_response_interceptor throw_on_error chain) request response s).0
      ≡ returned tt
    → (process_response
        (add_response_interceptor throw_on_error chain)
        request
        response
        s).1.status_code
      ≡ pos n
    → n < 400
throw_on_error_last chain request response s n h k =
    let last =
      (process_last_added chain (λ r s. (returned tt, r, s)) throw_on_error request response s).1 in
    below _ n
      (passed request (process_response chain request response s) (sym (ap (λ q. q.0) last) ∙ h))
      (sym (ap (λ q. q.1.status_code) last) ∙ k)
