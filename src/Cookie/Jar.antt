-- ===== src/Cookie/Jar.antt =====
-- What the jar stores, over any sequence of changes.
use coro_http.Base.{
  ℕ, ◌≡◌, refl, true, none, some, List, [], ◌∷◌, Bytes, equal, equal_iff, is_empty, length, less,
  All, arith, if◌then◌else◌, inl, inr, Bool-cases,
}
use coro_http.Base.Dict.{
  Dict, lookup, insert, erase, IsSorted, insert-IsSorted, erase-IsSorted, lookup-insert,
  lookup-erase,
}
use coro_http.Cookie.{
  Cookie, new_cookie, CookieJar, cookie_key, add, set, read_segments, parse_set_cookie, remove,
  clear, unexpired, remove_expired,
}

-- Each cookie stands under its own key.
abbrev pub IsKeyed : Dict Cookie → Type 0
IsKeyed = All λ e. e.0 ≡ cookie_key e.1.domain e.1.path e.1.name

pub record JarInv (j : CookieJar) : Type 0 where
  pub sorted : IsSorted j.cookies
  pub keyed : IsKeyed j.cookies

insert-IsKeyed :
    (k : Bytes) (c : Cookie) (m : Dict Cookie)
    → k ≡ cookie_key c.domain c.path c.name
    → IsKeyed m
    → IsKeyed (insert k c m)
unfolding insert
insert-IsKeyed k c [] e h = (e, tt)
insert-IsKeyed k c ((j, d) ∷ m) e h = ground (arith, insert-IsKeyed k c m e h.1)

erase-IsKeyed : (k : Bytes) (m : Dict Cookie) → IsKeyed m → IsKeyed (erase k m)
unfolding erase
erase-IsKeyed k [] h = tt
erase-IsKeyed k ((j, d) ∷ m) h = ground (arith, erase-IsKeyed k m h.1)

unexpired-All :
    (P : Bytes × Cookie → Type 0) (now : ℕ) (m : Dict Cookie) → All P m → All P (unexpired now m)
unfolding unexpired
unexpired-All P now [] h = tt
unexpired-All P now ((k, c) ∷ m) h = ground (arith, unexpired-All P now m h.1)

unexpired-IsSorted : (now : ℕ) (m : Dict Cookie) → IsSorted m → IsSorted (unexpired now m)
unfolding unexpired
unexpired-IsSorted now [] h = tt
unexpired-IsSorted now ((k, c) ∷ m) h =
    ground (arith, unexpired-IsSorted now m h.1, unexpired-All (λ e. less k e.0 ≡ true) now m h.0)

add-JarInv : (c : Cookie) (j : CookieJar) → JarInv j → JarInv (add c j)
unfolding add
add-JarInv c j v = record {
  sorted = insert-IsSorted (cookie_key c.domain c.path c.name) c j.cookies v.sorted;
  keyed = insert-IsKeyed (cookie_key c.domain c.path c.name) c j.cookies refl v.keyed;
}

parse_set_cookie-JarInv :
    (now : ℕ) (header domain : Bytes) (j : CookieJar)
    → JarInv j
    → JarInv (parse_set_cookie now header domain j)
unfolding parse_set_cookie
parse_set_cookie-JarInv now header domain j v =
    let c =
      read_segments (length header) now true header
        (record (new_cookie [] []) { domain = domain }) in
    elim (Bool-cases (is_empty c.name)) [
      | inl none_read ↦ rw none_read v
      | inr named ↦ rw named (add-JarInv c j v)
    ]

-- A change of the jar, at a time.
pub data JarCall : Type 0 where
  adds : Cookie → JarCall
  sets : Bytes → Bytes → Bytes → Bytes → JarCall
  parses : ℕ → Bytes → Bytes → JarCall
  removes : Bytes → Bytes → Bytes → JarCall
  removes_expired : ℕ → JarCall
  clears : JarCall

unfoldable pub step : CookieJar → JarCall → CookieJar
step j (adds c) = add c j
step j (sets name v domain path) = set name v domain path j
step j (parses now header domain) = parse_set_cookie now header domain j
step j (removes name domain path) = remove name domain path j
step j (removes_expired now) = remove_expired now j
step j clears = clear j

unfoldable pub run : CookieJar → List JarCall → CookieJar
unfolding step
run j [] = j
run j (c ∷ cs) = run (step j c) cs

step-JarInv : (j : CookieJar) (c : JarCall) → JarInv j → JarInv (step j c)
unfolding step set remove clear remove_expired
step-JarInv j (adds c) v = add-JarInv c j v
step-JarInv j (sets name w domain path) v =
    add-JarInv (record (new_cookie name w) { domain = domain; path = path }) j v
step-JarInv j (parses now header domain) v = parse_set_cookie-JarInv now header domain j v
step-JarInv j (removes name domain path) v = record {
  sorted = erase-IsSorted (cookie_key domain path name) j.cookies v.sorted;
  keyed = erase-IsKeyed (cookie_key domain path name) j.cookies v.keyed;
}
step-JarInv j (removes_expired now) v = record {
  sorted = unexpired-IsSorted now j.cookies v.sorted;
  keyed = unexpired-All _ now j.cookies v.keyed;
}
step-JarInv j clears v = record { sorted = tt; keyed = tt }

run-JarInv : (j : CookieJar) (cs : List JarCall) → JarInv j → JarInv (run j cs)
unfolding run
run-JarInv j [] v = v
run-JarInv j (c ∷ cs) v = run-JarInv (step j c) cs (step-JarInv j c v)

abbrev pub empty_jar : CookieJar
empty_jar = record { cookies = [] }

-- After any changes of an empty jar its keys are all different and in order, and each cookie stands
-- under the key made from its own domain, path and name.
pub run-empty-JarInv : (cs : List JarCall) → JarInv (run empty_jar cs)
run-empty-JarInv cs = run-JarInv empty_jar cs (record { sorted = tt; keyed = tt })

-- `set` stores the cookie, and `remove` with the same name, domain and path takes it out again and
-- no other cookie, after any changes before.
remove-set :
    (cs : List JarCall) (name w domain path key : Bytes)
    → let j = run empty_jar cs in
      let stored = set name w domain path j in
      let own = cookie_key domain path name in
      (lookup own stored.cookies
        ≡ some (record (new_cookie name w) { domain = domain; path = path }))
      × (lookup key (remove name domain path stored).cookies
          ≡ (if equal own key then none else lookup key j.cookies))
unfolding set remove add
remove-set cs name w domain path key =
    let j = run empty_jar cs in
    let own = cookie_key domain path name in
    let c : Cookie = record (new_cookie name w) { domain = domain; path = path } in
    let v = add-JarInv c j (run-empty-JarInv cs) in
    (
      ground (arith, lookup-insert own own c j.cookies, equal_iff own own),
      ground (
        arith,
        lookup-erase own key (insert own c j.cookies) v.sorted,
        lookup-insert own key c j.cookies,
      ),
    )

-- Two cookies whose domain, path and name run together to the same text share a key, whatever the
-- three are: the second added takes the place of the first.
add_same_key :
    (c d : Cookie) (j : CookieJar)
    → cookie_key c.domain c.path c.name ≡ cookie_key d.domain d.path d.name
    → lookup (cookie_key c.domain c.path c.name) (add d (add c j)).cookies ≡ some d
unfolding add
add_same_key c d j e =
    let k = cookie_key d.domain d.path d.name in
    rw e (ground (arith, lookup-insert k k d (insert k c j.cookies), equal_iff k k))
