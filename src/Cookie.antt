-- ===== src/Cookie.antt =====
-- include/coro_http/cookie_jar.hpp. Times are nanoseconds of the system clock; a call reads the clock
-- once here, at its start, where the code reads it for each cookie.
pub mod Jar
pub mod Requests
mod Tests
use coro_http.Base.{
  ℕ, zero, suc, ◌+◌, ◌-◌, ◌*◌, Bool, true, false, not, ◌&&◌, ◌||◌, Option, none, some, List, [],
  ◌∷◌, ◌++◌, map, Bytes, codes, length, drop, equal, is_empty, tolower, split_at, getline,
  strip_prefix, leb, ◌==◌, if◌then◌else◌,
}
use coro_http.Base.Int.{ℤ, pos, negsuc, zlt, plus}
use coro_http.Base.Dict.{Dict, insert, erase}
use coro_http.Base.Number.{stoi}

pub record Cookie : Type 0 where
  pub name : Bytes
  pub value : Bytes
  pub domain : Bytes
  pub path : Bytes
  pub expires : ℤ
  pub secure : Bool
  pub http_only : Bool
  pub session : Bool

-- A cookie as its constructors leave it.
abbrev pub new_cookie : Bytes → Bytes → Cookie
new_cookie name v = record {
  name = name;
  value = v;
  domain = [];
  path = codes "/";
  expires = pos 0;
  secure = false;
  http_only = false;
  session = true;
}

pub is_expired : ℕ → Cookie → Bool
is_expired now c = if c.session then false else zlt c.expires now

-- `request_domain.substr(pos) == domain_suffix`, for a domain that starts with a dot.
has_suffix : Bytes → Bytes → Bool
has_suffix suffix request =
    if leb (length suffix) (length request)
    then equal (drop (length request - length suffix) request) suffix
    else false

-- The test of a domain that starts with `c`.
dotted : ℕ → Bytes → Bytes → Bool
unfolding has_suffix
dotted c rest request = if c == b'.' then has_suffix rest request else false

domain_matches : Bytes → Bytes → Bool
unfolding dotted
domain_matches [] request = true
domain_matches (c ∷ cs) request = if equal (c ∷ cs) request then true else dotted c cs request

pub matches_domain : Cookie → Bytes → Bool
unfolding domain_matches
matches_domain c request = domain_matches c.domain request

starts_with_slash : Bytes → Bool
starts_with_slash [] = false
starts_with_slash (c ∷ cs) = c == b'/'

pub ends_with_slash : Bytes → Bool
ends_with_slash [] = false
ends_with_slash (c ∷ []) = c == b'/'
ends_with_slash (c ∷ d ∷ cs) = ends_with_slash (d ∷ cs)

-- `request_path.find(path) == 0`, and what stands behind the path then.
path_matches : Bytes → Bytes → Bool
unfolding starts_with_slash ends_with_slash
path_matches path request = elim (strip_prefix path request) [
  | none ↦ false
  | some rest ↦ is_empty rest || starts_with_slash rest || ends_with_slash path
]

pub matches_path : Cookie → Bytes → Bool
unfolding path_matches
matches_path c request =
    if is_empty c.path || equal c.path (codes "/") then true else path_matches c.path request

pub record CookieJar : Type 0 where
  pub cookies : Dict Cookie

abbrev pub cookie_key : Bytes → Bytes → Bytes → Bytes
cookie_key domain path name = domain ++ (path ++ name)

pub add : Cookie → CookieJar → CookieJar
add c j = record { cookies = insert (cookie_key c.domain c.path c.name) c j.cookies }

pub set : Bytes → Bytes → Bytes → Bytes → CookieJar → CookieJar
unfolding add
set name v domain path = add (record (new_cookie name v) { domain = domain; path = path })

pub is_blank : ℕ → Bool
is_blank c = c == b' ' || c == b'\t'

trim_start : Bytes → Bytes
trim_start [] = []
trim_start (c ∷ cs) = if is_blank c then trim_start cs else c ∷ cs

trim_end : Bytes → Bytes
trim_end [] = []
trim_end (c ∷ cs) = elim (trim_end cs) [
  | [] ↦ if is_blank c then [] else c ∷ []
  | d ∷ ds ↦ c ∷ d ∷ ds
]

-- The two `erase` calls on a segment.
unfoldable pub trim : Bytes → Bytes
unfolding trim_start trim_end is_blank
trim s = trim_end (trim_start s)

-- The first segment, `name=value`.
pub set_pair : Bytes → Cookie → Cookie
set_pair segment c = elim (split_at b'=' segment) [
  | none ↦ c
  | some (name, v) ↦ record c { name = name; value = v }
]

-- A time some seconds away.
expiry : ℕ → ℤ → ℤ
expiry now (pos n) = plus now (pos (n * 1000000000))
expiry now (negsuc n) = plus now (negsuc (n * 1000000000 + 999999999))

-- `max-age`: a value that is no `int` changes nothing.
pub set_max_age : ℕ → Bytes → Cookie → Cookie
unfolding expiry
set_max_age now v c = elim (stoi v) [
  | none ↦ c
  | some seconds ↦ record c { expires = expiry now seconds; session = false }
]

-- Attribute name, in lower case, and value of a segment.
pub attribute : Bytes → Bytes × Bytes
attribute segment = elim (split_at b'=' segment) [
  | none ↦ (map tolower segment, [])
  | some (name, v) ↦ (map tolower name, v)
]

pub set_attribute : ℕ → Bytes → Bytes → Cookie → Cookie
unfolding set_max_age
set_attribute now name v c =
    if equal name (codes "domain")
    then record c { domain = v }
    else if equal name (codes "path")
    then record c { path = v }
    else if equal name (codes "secure")
    then record c { secure = true }
    else if equal name (codes "httponly")
    then record c { http_only = true }
    else if equal name (codes "max-age")
    then set_max_age now v c
    else c

-- One round of the loop over the segments, with its flag `first`.
pub set_segment : ℕ → Bool → Bytes → Cookie → Cookie
unfolding set_pair attribute set_attribute trim
set_segment now first segment c =
    let s = trim segment in
    if first then set_pair s c else set_attribute now (attribute s).0 (attribute s).1 c

-- `while (std::getline(ss, segment, ';'))`. A round takes a character off the text at least, so its
-- length is fuel enough.
pub read_segments : ℕ → ℕ → Bool → Bytes → Cookie → Cookie
unfolding set_segment
read_segments zero now first text c = c
read_segments (suc fuel) now first text c = elim (getline b';' text) [
  | none ↦ c
  | some (segment, rest) ↦ read_segments fuel now false rest (set_segment now first segment c)
]

pub parse_set_cookie : ℕ → Bytes → Bytes → CookieJar → CookieJar
unfolding read_segments add
parse_set_cookie now header default_domain j =
    let c =
      read_segments (length header) now true header
        (record (new_cookie [] []) { domain = default_domain }) in
    if is_empty c.name then j else add c j

-- Whether a cookie goes with a request.
pub is_sent : ℕ → Bytes → Bytes → Bool → Cookie → Bool
unfolding is_expired matches_domain matches_path
is_sent now domain path is_https c =
    if is_expired now c
    then false
    else if c.secure && not is_https
    then false
    else matches_domain c domain && matches_path c path

-- The vector `matching_cookies`.
pub matching_cookies : ℕ → Bytes → Bytes → Bool → Dict Cookie → List Bytes
unfolding is_sent
matching_cookies now domain path is_https [] = []
matching_cookies now domain path is_https ((k, c) ∷ m) =
    let rest = matching_cookies now domain path is_https m in
    if is_sent now domain path is_https c then (c.name ++ (b'=' ∷ c.value)) ∷ rest else rest

-- The loop that joins them, with its test `i > 0`.
pub join_cookies : Bool → List Bytes → Bytes
join_cookies first [] = []
join_cookies first (x ∷ xs) = (if first then [] else codes "; ") ++ (x ++ join_cookies false xs)

unfoldable pub get_cookies_for_request : ℕ → Bytes → Bytes → Bool → CookieJar → Bytes
unfolding matching_cookies join_cookies
get_cookies_for_request now domain path is_https j =
    join_cookies true (matching_cookies now domain path is_https j.cookies)

get_from : ℕ → Bytes → Bytes → Dict Cookie → Bytes
unfolding is_expired matches_domain
get_from now name domain [] = []
get_from now name domain ((k, c) ∷ m) =
    let rest = get_from now name domain m in
    if equal c.name name && not (is_expired now c) && (is_empty domain || matches_domain c domain)
    then c.value
    else rest

pub get : ℕ → Bytes → Bytes → CookieJar → Bytes
unfolding get_from
get now name domain j = get_from now name domain j.cookies

pub remove : Bytes → Bytes → Bytes → CookieJar → CookieJar
remove name domain path j = record { cookies = erase (cookie_key domain path name) j.cookies }

pub clear : CookieJar → CookieJar
clear j = record { cookies = [] }

unexpired : ℕ → Dict Cookie → Dict Cookie
unfolding is_expired
unexpired now [] = []
unexpired now ((k, c) ∷ m) =
    let rest = unexpired now m in if is_expired now c then rest else (k, c) ∷ rest

pub all_cookies : ℕ → CookieJar → List Cookie
unfolding unexpired
all_cookies now j = map (λ e. e.1) (unexpired now j.cookies)

pub remove_expired : ℕ → CookieJar → CookieJar
unfolding unexpired
remove_expired now j = record { cookies = unexpired now j.cookies }
