-- ===== src/Cookie/Requests.antt =====
-- Which cookies go with a request.
use coro_http.Base.{
  ℕ, ◌-◌, ◌≤◌, ◌≡◌, ◌≢◌, refl, ap, sym, Bool, true, false, List, [], ◌∷◌, ◌++◌, Bytes, codes, equal,
  equal_iff, is_empty, less, length, length-append, drop-append, strip_prefix-append, arith,
  if◌then◌else◌, inl, inr, ◌⊎◌, Bool-cases, ◌==◌,
}
use coro_http.Base.Int.{ℤ, pos, negsuc, zlt}
use coro_http.Base.Dict.{Dict, insert}
use coro_http.Cookie.{
  Cookie, CookieJar, cookie_key, is_expired, has_suffix, matches_domain, matches_path, path_matches,
  ends_with_slash, add, is_sent, matching_cookies, join_cookies, get_cookies_for_request, get_from,
  get, unexpired, all_cookies, remove_expired,
}

-- The cookies that are not marked secure.
pub without_secure : Dict Cookie → Dict Cookie
without_secure [] = []
without_secure ((k, c) ∷ m) =
    let rest = without_secure m in if c.secure then rest else (k, c) ∷ rest

matching-without_secure :
    (now : ℕ) (domain path : Bytes) (m : Dict Cookie)
    → matching_cookies now domain path false (without_secure m)
      ≡ matching_cookies now domain path false m
unfolding matching_cookies without_secure
matching-without_secure now domain path [] = refl
matching-without_secure now domain path ((k, c) ∷ m) =
    ground (arith, matching-without_secure now domain path m)

-- Without TLS the `Cookie` header does not depend on the secure cookies: it is the one that the jar
-- gives when they are all taken out.
pub get_cookies-without_secure :
    (now : ℕ) (domain path : Bytes) (j : CookieJar)
    → get_cookies_for_request now domain path false j
      ≡ get_cookies_for_request now domain path false
          (record { cookies = without_secure j.cookies })
unfolding get_cookies_for_request
get_cookies-without_secure now domain path j =
    ap (join_cookies true) (sym (matching-without_secure now domain path j.cookies))

is_expired_later :
    (now later : ℕ) (c : Cookie) → now ≤ later → is_expired now c ≡ true → is_expired later c ≡ true
unfolding is_expired zlt
is_expired_later now later c h e = go c.expires e
  where
    go :
        (t : ℤ)
        → (if c.session then false else zlt t now) ≡ true
        → (if c.session then false else zlt t later) ≡ true
    go (pos m) k = ground arith
    go (negsuc m) k = ground arith

module _ (now later : ℕ) (h : now ≤ later) where
  matching-unexpired :
      (domain path : Bytes) (https : Bool) (m : Dict Cookie)
      → matching_cookies later domain path https (unexpired now m)
        ≡ matching_cookies later domain path https m
  unfolding matching_cookies unexpired
  matching-unexpired domain path https [] = refl
  matching-unexpired domain path https ((k, c) ∷ m) =
      ground (arith, is_expired_later now later c h, matching-unexpired domain path https m)

  get_from-unexpired :
      (name domain : Bytes) (m : Dict Cookie)
      → get_from later name domain (unexpired now m) ≡ get_from later name domain m
  unfolding get_from unexpired
  get_from-unexpired name domain [] = refl
  get_from-unexpired name domain ((k, c) ∷ m) =
      ground (arith, is_expired_later now later c h, get_from-unexpired name domain m)

  unexpired_twice : (m : Dict Cookie) → unexpired later (unexpired now m) ≡ unexpired later m
  unfolding unexpired
  unexpired_twice [] = refl
  unexpired_twice ((k, c) ∷ m) = ground (arith, is_expired_later now later c h, unexpired_twice m)

-- `remove_expired` changes no answer of the jar, at that time or later: not the header of a
-- request, not the value of a name, not the list of all cookies.
remove_expired_unseen :
    (now later : ℕ) (domain path name : Bytes) (https : Bool) (j : CookieJar)
    → now ≤ later
    → let r = remove_expired now j in
      (get_cookies_for_request later domain path https r
        ≡ get_cookies_for_request later domain path https j)
      × (get later name domain r ≡ get later name domain j)
      × (all_cookies later r ≡ all_cookies later j)
unfolding remove_expired get_cookies_for_request get all_cookies
remove_expired_unseen now later domain path name https j h = (
  rw (matching-unexpired now later h domain path https j.cookies),
  get_from-unexpired now later h name domain j.cookies,
  rw (unexpired_twice now later h j.cookies),
)

-- `x` is one of the texts.
abbrev pub Has : Bytes → List Bytes → Type 0
Has x [] = ⊥
Has x (y ∷ ys) = (x ≡ y) ⊎ Has x ys

abbrev pair_of : Cookie → Bytes
pair_of c = c.name ++ (b'=' ∷ c.value)

Has-skip : (x y : Bytes) (b : Bool) (ys : List Bytes) → Has x ys → Has x (if b then y ∷ ys else ys)
Has-skip x y true ys h = inr h
Has-skip x y false ys h = h

matching_cons :
    (now : ℕ) (domain path k : Bytes) (https : Bool) (c : Cookie) (m : Dict Cookie)
    → is_sent now domain path https c ≡ true
    → Has (pair_of c) (matching_cookies now domain path https ((k, c) ∷ m))
unfolding matching_cookies
matching_cons now domain path k https c m s = rw s (inl refl)

skip :
    (now : ℕ) (domain path k : Bytes) (https : Bool) (c : Cookie) (m : Dict Cookie) (x : Bytes)
    → Has x (matching_cookies now domain path https m)
    → Has x (matching_cookies now domain path https ((k, c) ∷ m))
unfolding matching_cookies
skip now domain path k https c m x h =
    Has-skip x (pair_of c) (is_sent now domain path https c)
      (matching_cookies now domain path https m) h

insert-Has :
    (now : ℕ) (domain path k : Bytes) (https : Bool) (c : Cookie) (m : Dict Cookie)
    → is_sent now domain path https c ≡ true
    → Has (pair_of c) (matching_cookies now domain path https (insert k c m))
unfolding insert
insert-Has now domain path k https c [] s = matching_cons now domain path k https c [] s
insert-Has now domain path k https c ((i, d) ∷ m) s = elim (Bool-cases (equal i k)) [
  | inl same ↦ rw same (matching_cons now domain path k https c m s)
  | inr other ↦ elim (Bool-cases (less k i)) [
    | inl before ↦ rw (other, before) (matching_cons now domain path k https c ((i, d) ∷ m) s)
    | inr after ↦
        rw (other, after)
          (skip now domain path i https d (insert k c m) (pair_of c)
            (insert-Has now domain path k https c m s))
  ]
]

-- A cookie just added goes with every request that it matches, whatever else is in the jar.
add_sent :
    (now : ℕ) (domain path : Bytes) (https : Bool) (c : Cookie) (j : CookieJar)
    → is_sent now domain path https c ≡ true
    → Has (c.name ++ (b'=' ∷ c.value)) (matching_cookies now domain path https (add c j).cookies)
unfolding add
add_sent now domain path https c j s =
    insert-Has now domain path (cookie_key c.domain c.path c.name) https c j.cookies s

has_suffix-append : (name before : Bytes) → has_suffix name (before ++ name) ≡ true
unfolding has_suffix
has_suffix-append name before =
    let e : length (before ++ name) - length name ≡ length before =
      omega (arith, length-append before name) in
    rw (e, drop-append before name) (ground (arith, length-append before name, equal_iff name name))

-- A cookie whose domain is a dot and a name goes to every host that ends with the name, also where
-- the name does not start at a label of the host.
matches_domain_suffix :
    (c : Cookie) (name before : Bytes)
    → c.domain ≡ b'.' ∷ name
    → matches_domain c (before ++ name) ≡ true
unfolding matches_domain has_suffix
matches_domain_suffix c name before e = rw e (ground (arith, has_suffix-append name before))

slash_ends : (p : Bytes) → ends_with_slash p ≡ false → equal p (codes "/") ≡ false
unfolding ends_with_slash equal
slash_ends [] e = refl
slash_ends (c ∷ []) e = ground arith
slash_ends (c ∷ d ∷ cs) e = ground arith

not_empty : (p : Bytes) → p ≢ [] → is_empty p ≡ false
unfolding is_empty
not_empty [] n = absurd (n refl)
not_empty (c ∷ cs) n = refl

-- A path that does not end with a slash matches a longer one only if a slash comes next.
matches_path_boundary :
    (c : Cookie) (x : ℕ) (rest : Bytes)
    → c.path ≢ []
    → ends_with_slash c.path ≡ false
    → matches_path c (c.path ++ (x ∷ rest)) ≡ (x == b'/')
unfolding matches_path
matches_path_boundary c x rest n e =
    rw
      (slash_ends c.path e, not_empty c.path n, strip_prefix-append c.path (x ∷ rest), path_matches)
      (unfold is_empty in ground arith)
