-- ===== src/Request/ReadBack.antt =====
-- What a server reads of a request that build_request wrote.
use coro_http.Base.{
  ℕ, zero, suc, ◌+◌, ◌/◌, ◌%◌, ◌<◌, ◌≡◌, ◌≢◌, refl, ap, sym, ◌∙◌, Bool, true, false, not, ◌&&◌,
  some, [], ◌∷◌, ◌++◌, Bytes, codes, is_empty, length, All, All-append, if◌then◌else◌, arith,
  append_assoc,
}
use coro_http.Base.Dict.{Dict}
use coro_http.Base.Number.{decimal, decimal_digits}
use coro_http.Url.{UrlInfo}
use coro_http.Request.{
  HttpMethod, HttpRequest, method_to_string, header_line, header_lines, has_header, added_headers,
  build_request, request_line,
}
use coro_http.Request.Fields.{
  read_line-append, read_request, HasNoCr, IsField, read_fields-header_lines,
}

-- The fields that the builder adds behind those of the request.
unfoldable pub added_fields : Bool → HttpRequest → Dict Bytes
added_fields compression r =
    (if compression && not (has_header (codes "Accept-Encoding") r.headers)
      then (codes "Accept-Encoding", codes "gzip, deflate") ∷ []
      else [])
    ++ (if is_empty r.body then [] else (codes "Content-Length", decimal (length r.body)) ∷ [])

unfoldable pub connection_field : Bool → HttpRequest → Dict Bytes
connection_field keep_alive r =
    if has_header (codes "Connection") r.headers
    then []
    else (codes "Connection", if keep_alive then codes "keep-alive" else codes "close") ∷ []

-- All fields of a request on the wire.
unfoldable pub sent_fields : HttpRequest → UrlInfo → Bool → Bool → Dict Bytes
unfolding added_fields connection_field
sent_fields r info compression keep_alive =
    (codes "Host", info.host)
    ∷ (r.headers ++ (added_fields compression r ++ connection_field keep_alive r))

header_lines-append :
    (a b : Dict Bytes) (rest : Bytes)
    → header_lines (a ++ b) rest ≡ header_lines a (header_lines b rest)
unfolding header_lines
header_lines-append [] b rest = refl
header_lines-append (h ∷ hs) b rest = ap (header_line h.0 h.1) (header_lines-append hs b rest)

added_headers-added_fields :
    (compression : Bool) (r : HttpRequest) (rest : Bytes)
    → added_headers compression r rest ≡ header_lines (added_fields compression r) rest
unfolding added_headers added_fields header_lines
added_headers-added_fields compression r rest =
    go (compression && not (has_header (codes "Accept-Encoding") r.headers)) (is_empty r.body)
  where
    go :
        (b d : Bool)
        → (let later =
              if d
              then rest
              else header_line (codes "Content-Length") (decimal (length r.body)) rest in
            if b
            then header_line (codes "Accept-Encoding") (codes "gzip, deflate") later
            else later)
          ≡ header_lines
              ((if b then (codes "Accept-Encoding", codes "gzip, deflate") ∷ [] else [])
                ++ (if d then [] else (codes "Content-Length", decimal (length r.body)) ∷ []))
              rest
    go true true = refl
    go true false = refl
    go false true = refl
    go false false = refl

connection_lines :
    (keep_alive : Bool) (r : HttpRequest) (rest : Bytes)
    → (if has_header (codes "Connection") r.headers
        then rest
        else header_line
            (codes "Connection")
            (if keep_alive then codes "keep-alive" else codes "close")
            rest)
      ≡ header_lines (connection_field keep_alive r) rest
unfolding connection_field header_lines
connection_lines keep_alive r rest = go (has_header (codes "Connection") r.headers)
  where
    go :
        (b : Bool)
        → (if b
            then rest
            else header_line
                (codes "Connection")
                (if keep_alive then codes "keep-alive" else codes "close")
                rest)
          ≡ header_lines
              (if b
                then []
                else (codes "Connection", if keep_alive then codes "keep-alive" else codes "close")
                  ∷ [])
              rest
    go true = refl
    go false = refl

build_request-sent_fields :
    (r : HttpRequest) (info : UrlInfo) (compression keep_alive : Bool)
    → build_request r info compression keep_alive
      ≡ request_line r.method info.path
          (header_lines (sent_fields r info compression keep_alive) (b'\r' ∷ b'\n' ∷ r.body))
unfolding build_request sent_fields header_lines
build_request-sent_fields r info compression keep_alive =
    let tail = b'\r' ∷ b'\n' ∷ r.body in
    let connection = connection_field keep_alive r in
    ap (λ rest. request_line r.method info.path (header_line (codes "Host") info.host rest))
      (ap (λ rest. header_lines r.headers (added_headers compression r rest))
          (connection_lines keep_alive r tail)
        ∙ ap (header_lines r.headers)
            (added_headers-added_fields compression r (header_lines connection tail))
        ∙ ap (header_lines r.headers)
            (sym (header_lines-append (added_fields compression r) connection tail))
        ∙ sym (header_lines-append r.headers (added_fields compression r ++ connection) tail))

decimal_digits-HasNoCr :
    (fuel n : ℕ) (rest : Bytes) → HasNoCr rest → HasNoCr (decimal_digits fuel n rest)
unfolding decimal_digits
decimal_digits-HasNoCr zero n rest h = h
decimal_digits-HasNoCr (suc fuel) n rest h =
    ground (arith, decimal_digits-HasNoCr fuel (n / 10) ((n % 10 + b'0') ∷ rest))

if_All :
    (P : Bytes × Bytes → Type 0) (b : Bool) (xs ys : Dict Bytes)
    → All P xs
    → All P ys
    → All P (if b then xs else ys)
if_All P true xs ys h k = h
if_All P false xs ys h k = k

literal-IsField :
    (name v : Bytes)
    → HasNoCr name
    → All (λ c. c ≢ b':') name
    → is_empty name ≡ false
    → HasNoCr v
    → IsField (name, v)
literal-IsField name v a b c d = record {
  name_line = a;
  name_colon = b;
  name_some = c;
  value_line = d;
}

added_fields-All : (compression : Bool) (r : HttpRequest) → All IsField (added_fields compression r)
unfolding added_fields is_empty decimal
added_fields-All compression r =
    All-append IsField _ _
      (if_All IsField (compression && not (has_header (codes "Accept-Encoding") r.headers)) _ _
        (literal-IsField _ _ (ground arith) (ground arith) refl (ground arith), tt) tt)
      (if_All IsField (is_empty r.body) _ _ tt (
        literal-IsField _ _ (ground arith) (ground arith) refl
            (decimal_digits-HasNoCr (length r.body + 1) (length r.body) [] tt),
        tt,
      ))

connection_field-All :
    (keep_alive : Bool) (r : HttpRequest) → All IsField (connection_field keep_alive r)
unfolding connection_field is_empty
connection_field-All keep_alive r =
    if_All IsField (has_header (codes "Connection") r.headers) _ _ tt (field keep_alive, tt)
  where
    field :
        (k : Bool) → IsField (codes "Connection", if k then codes "keep-alive" else codes "close")
    field true = literal-IsField _ _ (ground arith) (ground arith) refl (ground arith)
    field false = literal-IsField _ _ (ground arith) (ground arith) refl (ground arith)

-- A request whose fields fit on lines, at a host and a path that do.
pub record IsSendable (r : HttpRequest) (info : UrlInfo) : Type 0 where
  pub fields : All IsField r.headers
  pub host_line : HasNoCr info.host
  pub path_line : HasNoCr info.path

method_to_string-HasNoCr : (m : HttpMethod) → HasNoCr (method_to_string m)
unfolding method_to_string
method_to_string-HasNoCr HttpMethod.get = ground arith
method_to_string-HasNoCr HttpMethod.post = ground arith
method_to_string-HasNoCr HttpMethod.put = ground arith
method_to_string-HasNoCr HttpMethod.del = ground arith
method_to_string-HasNoCr HttpMethod.head = ground arith
method_to_string-HasNoCr HttpMethod.patch = ground arith
method_to_string-HasNoCr HttpMethod.options = ground arith

sent_fields-All :
    (r : HttpRequest) (info : UrlInfo) (compression keep_alive : Bool)
    → IsSendable r info
    → All IsField (sent_fields r info compression keep_alive)
unfolding sent_fields is_empty
sent_fields-All r info compression keep_alive v = (
  literal-IsField (codes "Host") info.host (ground arith) (ground arith) refl v.host_line,
  All-append IsField r.headers _ v.fields (
      All-append IsField (added_fields compression r) _ (added_fields-All compression r)
        (connection_field-All keep_alive r)),
)

-- The text of the request line.
pub first_line : HttpMethod → Bytes → Bytes
first_line method path = method_to_string method ++ (b' ' ∷ (path ++ codes " HTTP/1.1"))

first_line-HasNoCr : (m : HttpMethod) (path : Bytes) → HasNoCr path → HasNoCr (first_line m path)
unfolding first_line
first_line-HasNoCr m path h =
    All-append _ (method_to_string m) _ (method_to_string-HasNoCr m)
      (ground arith, All-append _ path (codes " HTTP/1.1") h (ground arith))

request_line-first_line :
    (m : HttpMethod) (path rest : Bytes)
    → request_line m path rest ≡ first_line m path ++ (b'\r' ∷ b'\n' ∷ rest)
unfolding request_line first_line
request_line-first_line m path rest = simp append_assoc refl

-- A server reads from what build_request writes the request line, exactly the fields of the request
-- with those that the builder adds, in their order, and the body, where names, values, host and path
-- have no carriage return, names no colon and some character; it looks at so many header lines at
-- most as there are fields, and one more.
pub read_request-build_request :
    (r : HttpRequest) (info : UrlInfo) (compression keep_alive : Bool) (lines : ℕ)
    → IsSendable r info
    → length (sent_fields r info compression keep_alive) < lines
    → read_request lines (build_request r info compression keep_alive)
      ≡ some (first_line r.method info.path, sent_fields r info compression keep_alive, r.body)
unfolding read_request
read_request-build_request r info compression keep_alive lines v lt =
    let fields = sent_fields r info compression keep_alive in
    rw
      (
        build_request-sent_fields r info compression keep_alive,
        request_line-first_line r.method info.path (header_lines fields (b'\r' ∷ b'\n' ∷ r.body)),
        read_line-append (first_line r.method info.path)
            (header_lines fields (b'\r' ∷ b'\n' ∷ r.body))
            (first_line-HasNoCr r.method info.path v.path_line),
        read_request,
        read_fields-header_lines fields lines r.body
            (sent_fields-All r info compression keep_alive v) lt,
      )
      refl
