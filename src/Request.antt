-- ===== src/Request.antt =====
-- include/coro_http/http_request.hpp, method_to_string of include/coro_http/url_parser.hpp,
-- strcasecmp_parser and build_request of include/coro_http/http_parser.hpp, and build_proxy_request of
-- include/coro_http/coro_http_client.hpp. Texts are in the C locale.
pub mod Fields
pub mod ReadBack
mod Tests
use coro_http.Base.{
  Bool, false, not, ◌&&◌, ◌||◌, [], ◌∷◌, ◌++◌, Bytes, codes, equal_ignoring_case, is_empty, length,
  if◌then◌else◌,
}
use coro_http.Base.Dict.{Dict, insert}
use coro_http.Base.Number.{decimal}
use coro_http.Url.{UrlInfo, absolute_url}

pub data HttpMethod : Type 0 where
  get post put del head patch options : HttpMethod

pub method_to_string : HttpMethod → Bytes
method_to_string HttpMethod.get = codes "GET"
method_to_string HttpMethod.post = codes "POST"
method_to_string HttpMethod.put = codes "PUT"
method_to_string HttpMethod.del = codes "DELETE"
method_to_string HttpMethod.head = codes "HEAD"
method_to_string HttpMethod.patch = codes "PATCH"
method_to_string HttpMethod.options = codes "OPTIONS"

pub record HttpRequest : Type 0 where
  pub method : HttpMethod
  pub url : Bytes
  pub headers : Dict Bytes
  pub body : Bytes

abbrev pub new_request : HttpMethod → Bytes → HttpRequest
new_request method url = record { method = method; url = url; headers = []; body = [] }

unfoldable pub add_header : Bytes → Bytes → HttpRequest → HttpRequest
add_header key v r = record r { headers = insert key v r.headers }

pub set_body : Bytes → HttpRequest → HttpRequest
set_body body r = record r { body = body }

abbrev pub crlf : Bytes
crlf = b'\r' ∷ b'\n' ∷ []

-- `key: value` and the end of its line, which the text goes on behind.
unfoldable pub header_line : Bytes → Bytes → Bytes → Bytes
header_line key v rest = key ++ (b':' ∷ b' ' ∷ (v ++ (b'\r' ∷ b'\n' ∷ rest)))

-- The loop over the headers, as the text it writes in front of the rest.
unfoldable pub header_lines : Dict Bytes → Bytes → Bytes
unfolding header_line
header_lines [] rest = rest
header_lines (h ∷ hs) rest = header_line h.0 h.1 (header_lines hs rest)

-- The flags `has_accept_encoding` and `has_connection`.
pub has_header : Bytes → Dict Bytes → Bool
has_header name [] = false
has_header name (h ∷ hs) = equal_ignoring_case h.0 name || has_header name hs

-- The two headers that both builders add behind those of the request.
pub added_headers : Bool → HttpRequest → Bytes → Bytes
unfolding header_line has_header
added_headers compression r rest =
    let length_and_rest =
      if is_empty r.body
      then rest
      else header_line (codes "Content-Length") (decimal (length r.body)) rest in
    if compression && not (has_header (codes "Accept-Encoding") r.headers)
    then header_line (codes "Accept-Encoding") (codes "gzip, deflate") length_and_rest
    else length_and_rest

pub request_line : HttpMethod → Bytes → Bytes → Bytes
unfolding method_to_string
request_line method target rest =
    method_to_string method ++ (b' ' ∷ (target ++ (codes " HTTP/1.1\r\n" ++ rest)))

pub build_request : HttpRequest → UrlInfo → Bool → Bool → Bytes
unfolding request_line header_line header_lines added_headers has_header
build_request r info compression keep_alive =
    let tail = crlf ++ r.body in
    let connection =
      if has_header (codes "Connection") r.headers
      then tail
      else header_line (codes "Connection")
          (if keep_alive then codes "keep-alive" else codes "close") tail in
    request_line r.method info.path (
      header_line (codes "Host") info.host
        (header_lines r.headers (added_headers compression r connection)))

pub build_proxy_request : HttpRequest → UrlInfo → Bool → Bytes
unfolding request_line header_line header_lines added_headers
build_proxy_request r info compression = request_line r.method (absolute_url info info.path) (
    header_line (codes "Host") info.host (
      header_lines r.headers (
        added_headers compression r
          (header_line (codes "Connection") (codes "close") (crlf ++ r.body)))))
