-- ===== src/Interceptor/Tests.antt =====
-- Runs of chains of interceptors.
use coro_http.Base.{ℕ, ◌≡◌, refl, [], ◌∷◌, codes}
use coro_http.Base.Outcome.{returned}
use coro_http.Request.{HttpMethod, HttpRequest, new_request}
use coro_http.Response.{HttpResponse, new_response}
use coro_http.Base.Int.{pos}
use coro_http.Base.{◌<◌}
use coro_http.Interceptor.{
  InterceptorChain, no_interceptors, add_request_interceptor, add_response_interceptor,
  process_request, process_response, unless_thrown, log_response, throw_on_error, custom_header,
  at_least,
}
use coro_http.Interceptor.Chains.{throw_on_error_last}

-- Counts the responses that it logs.
abbrev counted : InterceptorChain ℕ
counted = record {
  request_interceptors = [];
  response_interceptors = log_response (λ response n. (returned tt, n)) ∷ [];
}

abbrev example_request : HttpRequest
example_request = new_request HttpMethod.get (codes "http://a.org/")

abbrev fine_response : HttpResponse
fine_response = record new_response { status_code = pos 399 }

passes :
    (process_response
      (add_response_interceptor throw_on_error counted)
      example_request
      fine_response
      7).0
    ≡ returned tt
unfolding process_response coro_http.Interceptor.process coro_http.Interceptor.for_request
    add_response_interceptor log_response throw_on_error at_least
passes = refl

fine_status :
    (process_response
      (add_response_interceptor throw_on_error counted)
      example_request
      fine_response
      7).1.status_code
    ≡ pos 399
unfolding process_response coro_http.Interceptor.process coro_http.Interceptor.for_request
    add_response_interceptor log_response throw_on_error at_least
fine_status = refl

throw_on_error_last_example : 399 < 400
throw_on_error_last_example =
    throw_on_error_last counted example_request fine_response 7 399 passes fine_status
