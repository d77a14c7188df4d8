-- ===== src/Request/Tests.antt =====
-- Requests as text.
use coro_http.Base.{
  ◌≡◌, ◌≢◌, refl, true, false, some, List, [], ◌∷◌, ◌++◌, Bytes, codes, arith, equal_ignoring_case,
  is_empty, All, length,
}
use coro_http.Base.Number.{decimal}
use coro_http.Url.{UrlInfo}
use coro_http.Request.{HttpMethod, HttpRequest, build_request, build_proxy_request, has_header}
use coro_http.Request.Fields.{read_request}
use coro_http.Request.ReadBack.{sent_fields, first_line, IsSendable, read_request-build_request}

abbrev posted : HttpRequest
posted = record {
  method = HttpMethod.post;
  url = codes "http://a.org:81/x";
  headers = (codes "accept-encoding", codes "br") ∷ [];
  body = codes "0123456789";
}

abbrev info : UrlInfo
info = record {
  scheme = codes "http";
  host = codes "a.org";
  port = codes "81";
  path = codes "/x";
  is_https = false;
}

direct :
    build_request posted info true true
    ≡ codes
        "POST /x HTTP/1.1\r\nHost: a.org\r\naccept-encoding: br\r\nContent-Length: 10\r\nConnection: keep-alive\r\n\r\n0123456789"
unfolding build_request equal_ignoring_case coro_http.Base.equal coro_http.Base.tolower is_empty
    decimal
direct = refl

by_proxy :
    build_proxy_request posted info true
    ≡ codes
        "POST http://a.org:81/x HTTP/1.1\r\nHost: a.org\r\naccept-encoding: br\r\nContent-Length: 10\r\nConnection: close\r\n\r\n0123456789"
unfolding build_proxy_request coro_http.Url.absolute_url coro_http.Base.equal equal_ignoring_case
    coro_http.Base.tolower is_empty decimal
by_proxy = refl

posted-IsSendable : IsSendable posted info
unfolding is_empty
posted-IsSendable = record {
  fields = (
    record {
      name_line = ground arith;
      name_colon = ground arith;
      name_some = refl;
      value_line = ground arith;
    },
    tt,
  );
  host_line = ground arith;
  path_line = ground arith;
}

read_request-build_request_example :
    read_request 9 (build_request posted info true true)
    ≡ some (
      first_line HttpMethod.post (codes "/x"),
      sent_fields posted info true true,
      codes "0123456789",
    )
unfolding sent_fields has_header equal_ignoring_case is_empty coro_http.Base.equal
    coro_http.Base.tolower
read_request-build_request_example =
    read_request-build_request posted info true true 9 posted-IsSendable (omega arith)
