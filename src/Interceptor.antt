-- ===== src/Interceptor.antt =====
-- include/coro_http/interceptor.hpp. A callback changes its argument, or throws: it is a function to an
-- outcome beside what it leaves of the argument, over a state `S` of its own (that of a logger).
pub mod Chains
mod Tests
use coro_http.Base.{
  ℕ, suc, Bool, true, false, not, List, [], ◌∷◌, ◌++◌, Bytes, codes, leb, if◌then◌else◌,
}
use coro_http.Base.Int.{ℤ, pos, negsuc}
use coro_http.Base.Number.{decimal}
use coro_http.Base.Outcome.{Outcome, returned, thrown, undefined}
use coro_http.Request.{HttpRequest, add_header}
use coro_http.Response.{HttpResponse}

-- What a callback leaves: how it ended, its argument, and its state.
abbrev pub Left : Type 0 → Type 0 → Type 0
Left S A = Outcome {0} Unit × A × S

abbrev pub RequestInterceptor : Type 0 → Type 0
RequestInterceptor S = HttpRequest → S → Left S HttpRequest

abbrev pub ResponseInterceptor : Type 0 → Type 0
ResponseInterceptor S = HttpRequest → HttpResponse → S → Left S HttpResponse

pub record InterceptorChain (S : Type 0) : Type 0 where
  pub request_interceptors : List (RequestInterceptor S)
  pub response_interceptors : List (ResponseInterceptor S)

-- What follows a callback, unless it threw.
abbrev pub unless_thrown : {S A : Type 0} → Left S A → (A → S → Left S A) → Left S A
unless_thrown (returned u, a, s) k = k a s
unless_thrown (thrown e, a, s) k = (thrown e, a, s)
unless_thrown (undefined, a, s) k = (undefined, a, s)

-- The loop over the callbacks.
pub process : {S A : Type 0} → List (A → S → Left S A) → A → S → Left S A
process [] a s = (returned tt, a, s)
process (f ∷ fs) a s = unless_thrown (f a s) (process fs)

-- The response interceptors of a request.
pub for_request :
    {S : Type 0}
    → HttpRequest
    → List (ResponseInterceptor S)
    → List (HttpResponse → S → Left S HttpResponse)
for_request request [] = []
for_request request (f ∷ fs) = f request ∷ for_request request fs

-- `n <= status`
pub at_least : ℕ → ℤ → Bool
at_least n (pos k) = leb n k
at_least n (negsuc k) = false

-- `std::to_string` of an int.
pub to_string : ℤ → Bytes
to_string (pos n) = decimal n
to_string (negsuc n) = b'-' ∷ decimal (suc n)

error_text : ℤ → Bytes → Bytes
error_text status reason = codes "HTTP Error " ++ (to_string status ++ (codes ": " ++ reason))

abbrev is_nil : {A : Type 0} → List A → Bool
is_nil [] = true
is_nil (x ∷ xs) = false

module _ {S : Type 0} where
  pub no_interceptors : InterceptorChain S
  no_interceptors = record { request_interceptors = []; response_interceptors = [] }

  pub add_request_interceptor : RequestInterceptor S → InterceptorChain S → InterceptorChain S
  add_request_interceptor f chain = record chain {
    request_interceptors = chain.request_interceptors ++ (f ∷ []);
  }

  pub add_response_interceptor : ResponseInterceptor S → InterceptorChain S → InterceptorChain S
  add_response_interceptor f chain = record chain {
    response_interceptors = chain.response_interceptors ++ (f ∷ []);
  }

  pub process_request : InterceptorChain S → HttpRequest → S → Left S HttpRequest
  process_request chain request s = process chain.request_interceptors request s

  pub process_response : InterceptorChain S → HttpRequest → HttpResponse → S → Left S HttpResponse
  process_response chain request response s =
      process (for_request request chain.response_interceptors) response s

  pub clear : InterceptorChain S → InterceptorChain S
  clear chain = record { request_interceptors = []; response_interceptors = [] }

  pub has_request_interceptors : InterceptorChain S → Bool
  has_request_interceptors chain = not (is_nil chain.request_interceptors)

  pub has_response_interceptors : InterceptorChain S → Bool
  has_response_interceptors chain = not (is_nil chain.response_interceptors)

  -- The factories.
  pub custom_header : Bytes → Bytes → RequestInterceptor S
  custom_header key v request s = (returned tt, add_header key v request, s)

  pub authorization : Bytes → RequestInterceptor S
  authorization auth_header request s =
      (returned tt, add_header (codes "Authorization") auth_header request, s)

  pub user_agent : Bytes → RequestInterceptor S
  user_agent ua = custom_header (codes "User-Agent") ua

  -- The logger does not change what it logs.
  pub log_request : (HttpRequest → S → Outcome {0} Unit × S) → RequestInterceptor S
  log_request logger request s = ((logger request s).0, request, (logger request s).1)

  pub log_response : (HttpResponse → S → Outcome {0} Unit × S) → ResponseInterceptor S
  log_response logger request response s = ((logger response s).0, response, (logger response s).1)

  pub throw_on_error : ResponseInterceptor S
  throw_on_error request response s = (
    if at_least 400 response.status_code
        then thrown (error_text response.status_code response.reason)
        else returned tt,
    response,
    s,
  )
