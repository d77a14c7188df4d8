-- ===== src/Url/Tests.antt =====
-- Runs of the URL parser.
use coro_http.Base.{◌≡◌, refl, true, false, some, none, Bytes, codes, span, strip_prefix}
use coro_http.Url.{UrlInfo, parse_url, absolute_url, is_path_char}
use coro_http.Url.Shape.{IsPath, IsValid, parse_url-IsValid}
use coro_http.Url.Origin.{parse_url-redirect}

abbrev example_url : Bytes
example_url = codes "https://a.org:8443/x?y#z"

abbrev example_info : UrlInfo
example_info = record {
  scheme = codes "https";
  host = codes "a.org";
  port = codes "8443";
  path = codes "/x?y#z";
  is_https = true;
}

parses : parse_url example_url ≡ some example_info
unfolding parse_url span strip_prefix
parses = refl

no_scheme : parse_url (codes "ftp://a.org") ≡ none
unfolding parse_url span strip_prefix
no_scheme = refl

default_path :
    parse_url (codes "http://a.org:x")
    ≡ some (record {
      scheme = codes "http";
      host = codes "a.org";
      port = codes "80";
      path = codes "/";
      is_https = false;
    })
unfolding parse_url span strip_prefix
default_path = refl

new-IsPath : IsPath (codes "/new")
unfolding is_path_char
new-IsPath = (refl, (refl, (refl, (refl, tt))))

parse_url-IsValid_example : IsValid example_info
parse_url-IsValid_example = parse_url-IsValid example_url example_info parses

parse_url-redirect_example :
    parse_url (absolute_url example_info (codes "/new"))
    ≡ some (record example_info { path = codes "/new" })
parse_url-redirect_example =
    parse_url-redirect example_url (codes "/new") example_info parses new-IsPath
