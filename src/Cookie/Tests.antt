-- ===== src/Cookie/Tests.antt =====
-- Runs of the cookie jar.
use coro_http.Base.{
  ℕ, ◌≡◌, refl, Bool, true, false, none, some, if◌then◌else◌, List, [], ◌∷◌, ◌++◌, Bytes, codes,
  equal, less, arith, getline, split_at, is_empty, map, tolower, span, strip_prefix,
}
use coro_http.Base.Int.{ℤ, pos}
use coro_http.Base.Dict.{insert}
use coro_http.Base.Number.{stoi}
use coro_http.Cookie.{
  Cookie, new_cookie, CookieJar, set, parse_set_cookie, get_cookies_for_request, remove_expired,
}
use coro_http.Cookie.Jar.{
  JarCall, sets, parses, removes_expired, run, empty_jar, JarInv, run-empty-JarInv,
}
use coro_http.Cookie.Requests.{without_secure, get_cookies-without_secure}

abbrev jar_calls : List JarCall
jar_calls =
    sets (codes "a") (codes "1") [] (codes "/")
    ∷ parses 5 (codes "sid=x=y; Domain=.a.org ;PATH=/p; secure;HttpOnly; Max-Age=60")
        (codes "b.org")
    ∷ removes_expired 9
    ∷ []

abbrev sid : Cookie
sid = record {
  name = codes "sid";
  value = codes "x=y";
  domain = codes ".a.org";
  path = codes "/p";
  expires = pos 60000000005;
  secure = true;
  http_only = true;
  session = false;
}

parsed_jar : run empty_jar jar_calls ≡ record {
  cookies =
      (codes ".a.org/psid", sid)
      ∷ (codes "/a", record (new_cookie (codes "a") (codes "1")) { path = codes "/" })
      ∷ [];
}
unfolding run set parse_set_cookie getline split_at is_empty tolower equal insert less stoi
    remove_expired coro_http.Base.Int.plus coro_http.Base.Int.zlt
parsed_jar = refl

run-empty-JarInv_example : JarInv (run empty_jar jar_calls)
run-empty-JarInv_example = run-empty-JarInv jar_calls

abbrev at_path : Bytes → Bytes → Cookie
at_path path name = record (new_cookie name (codes "1")) { domain = codes "a"; path = path }

abbrev sid_jar : CookieJar
sid_jar = record { cookies = (codes ".a.org/psid", sid) ∷ [] }

header_text :
    get_cookies_for_request 7 (codes "w.a.org") (codes "/p/q") true sid_jar ≡ codes "sid=x=y"
unfolding get_cookies_for_request equal is_empty strip_prefix coro_http.Base.Int.zlt
header_text = refl

get_cookies-without_secure_example :
    get_cookies_for_request 7 (codes "w.a.org") (codes "/p/q") false sid_jar
    ≡ get_cookies_for_request 7
        (codes "w.a.org")
        (codes "/p/q")
        false
        (record { cookies = without_secure sid_jar.cookies })
get_cookies-without_secure_example =
    get_cookies-without_secure 7 (codes "w.a.org") (codes "/p/q") sid_jar
