-- ===== src/Response/Parsed.antt =====
-- parse_response on responses of HTTP/1.1 without codings.
use coro_http.Base.{
  ℕ, zero, suc, ◌+◌, ◌^◌, ◌≤◌, ◌<◌, ◌≡◌, ◌≢◌, refl, ap, sym, ◌∙◌, false, some, [], ◌∷◌, ◌++◌, Bytes,
  codes, equal, length, length-append, map, tolower, contains, All, All-append, getline,
  getline-append, split_at, split_at-append, arith, append_assoc, Option, none, if◌then◌else◌,
}
use coro_http.Base.Dict.{Dict, lookup, lookup-insert}
use coro_http.Base.Int.{pos}
use coro_http.Base.Outcome.{Outcome, returned, chop-append}
use coro_http.Request.{header_line, header_lines}
use coro_http.Response.{
  HttpResponse, new_response, add_header, get_header, trim_spaces, add_line, parse_headers,
  parse_first, decode_transfer, decode_content, parse_response,
}
use coro_http.Base.Number.{decimal, isdigit}
use coro_http.Response.Status.{AreDigits, decimal-AreDigits, status_line, parse_status-status_line}

abbrev pub IsLine : Bytes → Type 0
IsLine = All λ c. c ≢ b'\n'

-- A header field on one line: a name without a colon, and a value without spaces around it.
pub record IsHeader (field : Bytes × Bytes) : Type 0 where
  pub name_line : IsLine field.0
  pub name_colon : All (λ c. c ≢ b':') field.0
  pub value_line : IsLine field.1
  pub value_trimmed : trim_spaces field.1 ≡ field.1

-- The response with the fields added, in their order.
unfoldable pub add_fields : Dict Bytes → HttpResponse → HttpResponse
add_fields [] r = r
add_fields (f ∷ fs) r = add_fields fs (add_header f.0 f.1 r)

field_text : Bytes → Bytes → Bytes
field_text name v = name ++ (b':' ∷ b' ' ∷ v)

field_text_cons : (name v : Bytes) → field_text name v ≢ []
unfolding field_text
field_text_cons [] v = ground arith
field_text_cons (c ∷ cs) v = ground arith

not_blank : (name v : Bytes) → equal (field_text name v ++ (b'\r' ∷ [])) (b'\r' ∷ []) ≡ false
unfolding field_text equal
not_blank [] v = ground arith
not_blank (c ∷ []) v = ground arith
not_blank (c ∷ d ∷ cs) v = ground arith

add_line-field_text :
    (name v : Bytes) (r : HttpResponse)
    → All (λ c. c ≢ b':') name
    → trim_spaces v ≡ v
    → add_line (field_text name v) r ≡ add_header name v r
unfolding add_line field_text trim_spaces
add_line-field_text name v r h e =
    rw (split_at-append b':' name (b' ' ∷ v) h, add_line) (ap (λ w. add_header name w r) e)

getline-header_line :
    (name v rest : Bytes)
    → IsLine name
    → IsLine v
    → getline b'\n' (header_line name v rest) ≡ some (field_text name v ++ (b'\r' ∷ []), rest)
unfolding header_line field_text
getline-header_line name v rest h k =
    ap (getline b'\n') joined
    ∙ getline-append b'\n' (field_text name v ++ (b'\r' ∷ [])) rest (
        All-append _ (field_text name v) (b'\r' ∷ [])
          (All-append _ name (b':' ∷ b' ' ∷ v) h (ground arith, (ground arith, k)))
          (ground arith, tt))
  where
    joined :
        name ++ (b':' ∷ b' ' ∷ (v ++ (b'\r' ∷ b'\n' ∷ rest)))
        ≡ ((name ++ (b':' ∷ b' ' ∷ v)) ++ (b'\r' ∷ [])) ++ (b'\n' ∷ rest)
    joined = simp append_assoc refl

parse_headers-header_lines :
    (fields : Dict Bytes) (fuel : ℕ) (body : Bytes) (r : HttpResponse)
    → All IsHeader fields
    → length fields < fuel
    → parse_headers fuel (header_lines fields (b'\r' ∷ b'\n' ∷ body)) r
      ≡ returned (add_fields fields r, body)
unfolding parse_headers header_lines add_fields
parse_headers-header_lines fields zero body r h lt = absurd (omega arith)
parse_headers-header_lines [] (suc fuel) body r h lt = unfold getline split_at equal in refl
parse_headers-header_lines (f ∷ fs) (suc fuel) body r h lt =
    rw
      (
        getline-header_line f.0 f.1 (header_lines fs (b'\r' ∷ b'\n' ∷ body)) h.0.name_line
            h.0.value_line,
        parse_headers,
        not_blank f.0 f.1,
        chop-append (field_text f.0 f.1) (field_text_cons f.0 f.1),
        add_line-field_text f.0 f.1 r h.0.name_colon h.0.value_trimmed,
      )
      (parse_headers-header_lines fs fuel body (add_header f.0 f.1 r) h.1 (omega arith))

length-header_lines :
    (fields : Dict Bytes) (rest : Bytes)
    → length fields + length rest ≤ length (header_lines fields rest)
unfolding header_lines header_line
length-header_lines [] rest = omega arith
length-header_lines (f ∷ fs) rest =
    let later = header_lines fs rest in
    omega (
      arith,
      length-header_lines fs rest,
      length-append f.0 (b':' ∷ b' ' ∷ (f.1 ++ (b'\r' ∷ b'\n' ∷ later))),
      length-append f.1 (b'\r' ∷ b'\n' ∷ later),
    )

-- A response on the wire.
pub response_text : ℕ → Bytes → Dict Bytes → Bytes → Bytes
response_text code reason fields body =
    status_line code reason ++ (b'\r' ∷ b'\n' ∷ header_lines fields (b'\r' ∷ b'\n' ∷ body))

-- A response that names no transfer coding `chunked`, and neither `gzip` nor `deflate`.
pub record IsUncoded (r : HttpResponse) : Type 0 where
  pub no_chunks :
      contains (codes "chunked") (map tolower (get_header (codes "Transfer-Encoding") r)) ≡ false
  pub no_gzip : equal (map tolower (get_header (codes "Content-Encoding") r)) (codes "gzip") ≡ false
  pub no_deflate :
      equal (map tolower (get_header (codes "Content-Encoding") r)) (codes "deflate") ≡ false

-- What parse_response reads, but for the body.
unfoldable pub head_of : ℕ → Bytes → Dict Bytes → HttpResponse
unfolding add_fields
head_of code reason fields =
    add_fields fields (record new_response { status_code = pos code; reason = reason })

digits-IsLine : (s : Bytes) → AreDigits s → IsLine s
unfolding isdigit
digits-IsLine [] h = tt
digits-IsLine (c ∷ cs) h = (ground (arith, h.0), digits-IsLine cs h.1)

status_line_cons : (code : ℕ) (reason : Bytes) → status_line code reason ≢ []
unfolding status_line
status_line_cons code reason = ground arith

status_line-IsLine : (code : ℕ) (reason : Bytes) → IsLine reason → IsLine (status_line code reason)
unfolding status_line
status_line-IsLine code reason h = All-append _ (codes "HTTP/1.1 ") _ (ground arith) (
    All-append _ (decimal code) _ (digits-IsLine (decimal code) (decimal-AreDigits code))
      (ground arith, h))

parse_first-status_line :
    (code : ℕ) (reason rest : Bytes)
    → code < 2 ^ 31
    → IsLine reason
    → parse_first (status_line code reason ++ (b'\r' ∷ b'\n' ∷ rest))
      ≡ returned (record new_response { status_code = pos code; reason = reason }, rest)
unfolding parse_first
parse_first-status_line code reason rest lt h =
    let line = status_line code reason in
    rw
      (
        sym (append_assoc line (b'\r' ∷ []) (b'\n' ∷ rest)),
        getline-append b'\n' (line ++ (b'\r' ∷ [])) rest
            (All-append _ line (b'\r' ∷ []) (status_line-IsLine code reason h) (ground arith, tt)),
        parse_first,
        chop-append line (status_line_cons code reason),
        parse_status-status_line code reason lt h,
      )
      refl

parse_response-head_of :
    (dechunk : Bytes → Outcome Bytes) (gunzip : Bytes → Outcome Bytes)
    (inflate : Bytes → Outcome Bytes) (code : ℕ) (reason body : Bytes) (fields : Dict Bytes)
    → code < 2 ^ 31
    → IsLine reason
    → All IsHeader fields
    → IsUncoded (head_of code reason fields)
    → parse_response dechunk gunzip inflate (response_text code reason fields body)
      ≡ returned (record (head_of code reason fields) { body = body })
unfolding parse_response response_text head_of decode_transfer decode_content
parse_response-head_of dechunk gunzip inflate code reason body fields lt h fs u =
    let rest = header_lines fields (b'\r' ∷ b'\n' ∷ body) in
    let first : HttpResponse = record new_response { status_code = pos code; reason = reason } in
    rw
      (
        parse_first-status_line code reason rest lt h,
        parse_headers-header_lines fields (length rest) body first fs
            (omega (arith, length-header_lines fields (b'\r' ∷ b'\n' ∷ body))),
        u.no_chunks,
        u.no_gzip,
        u.no_deflate,
      )
      refl

-- The last value of a name in a list of fields, or else `before`.
abbrev pub last_value : Bytes → Dict Bytes → Option Bytes → Option Bytes
last_value name [] before = before
last_value name (f ∷ fs) before = last_value name fs (if equal f.0 name then some f.1 else before)

lookup-add_fields :
    (name : Bytes) (fields : Dict Bytes) (r : HttpResponse)
    → lookup name (add_fields fields r).headers ≡ last_value name fields (lookup name r.headers)
unfolding add_fields add_header
lookup-add_fields name [] r = refl
lookup-add_fields name (f ∷ fs) r =
    lookup-add_fields name fs (add_header f.0 f.1 r)
    ∙ ap (last_value name fs) (lookup-insert f.0 name f.1 r.headers)

add_fields_same :
    (fields : Dict Bytes) (r : HttpResponse)
    → ((add_fields fields r).status_code ≡ r.status_code)
      × ((add_fields fields r).reason ≡ r.reason)
unfolding add_fields add_header
add_fields_same [] r = (refl, refl)
add_fields_same (f ∷ fs) r = add_fields_same fs (add_header f.0 f.1 r)

-- What a response of HTTP/1.1 says.
pub record Reads (code : ℕ) (reason body : Bytes) (fields : Dict Bytes) (r : HttpResponse)
    : Type 0 where
  pub same_status : r.status_code ≡ pos code
  pub same_reason : r.reason ≡ reason
  pub same_body : r.body ≡ body
  pub same_headers : (name : Bytes) → lookup name r.headers ≡ last_value name fields none

-- parse_response reads from a response of HTTP/1.1 its status, its reason, its header fields, the last
-- of each name, and its body, where the status fits an int, reason, names and values stand on one line
-- each, names have no colon, values no spaces around them, and no coding is named that is undone.
pub parse_response-response_text :
    (dechunk : Bytes → Outcome Bytes) (gunzip : Bytes → Outcome Bytes)
    (inflate : Bytes → Outcome Bytes) (code : ℕ) (reason body : Bytes) (fields : Dict Bytes)
    → code < 2 ^ 31
    → IsLine reason
    → All IsHeader fields
    → IsUncoded (head_of code reason fields)
    → (r : HttpResponse) × ((parse_response dechunk gunzip inflate
            (response_text code reason fields body)
          ≡ returned r)
        × Reads code reason body fields r)
unfolding head_of lookup
parse_response-response_text dechunk gunzip inflate code reason body fields lt h fs u =
    let first : HttpResponse = record new_response { status_code = pos code; reason = reason } in
    let same = add_fields_same fields first in
    (
      record (head_of code reason fields) { body = body },
      (
        parse_response-head_of dechunk gunzip inflate code reason body fields lt h fs u,
        record {
          same_status = same.0;
          same_reason = same.1;
          same_body = refl;
          same_headers = λ name. lookup-add_fields name fields first;
        },
      ),
    )
