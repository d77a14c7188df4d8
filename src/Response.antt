-- ===== src/Response.antt =====
-- include/coro_http/http_response.hpp, and parse_response of include/coro_http/http_parser.hpp. Its
-- calls of decode_chunked and of the zlib functions of include/coro_http/compression.hpp stand in the
-- arguments `dechunk`, `gunzip` and `inflate`.
pub mod Status
pub mod Parsed
mod Tests
use coro_http.Base.{
  ℕ, zero, suc, Bool, true, false, not, Option, none, some, List, [], ◌∷◌, ◌++◌, Bytes, codes,
  equal, equal_ignoring_case, length, map, tolower, getline, split_at, contains, span, ◌==◌,
  if◌then◌else◌,
}
use coro_http.Base.Int.{ℤ, pos}
use coro_http.Base.Dict.{Dict, insert, lookup}
use coro_http.Base.Number.{isspace, int_in}
use coro_http.Base.Outcome.{Outcome, returned, thrown, undefined, and_then, chop}

pub record HttpResponse : Type 0 where
  pub status_code : ℤ
  pub reason : Bytes
  pub headers : Dict Bytes
  pub body : Bytes
  pub redirect_chain : List Bytes

abbrev pub new_response : HttpResponse
new_response = record {
  status_code = pos 0;
  reason = [];
  headers = [];
  body = [];
  redirect_chain = [];
}

unfoldable pub add_header : Bytes → Bytes → HttpResponse → HttpResponse
add_header key v r = record r { headers = insert key v r.headers }

unfoldable pub add_redirect : Bytes → HttpResponse → HttpResponse
add_redirect url r = record r { redirect_chain = r.redirect_chain ++ (url ∷ []) }

-- The loop of `get_header`, behind the exact search.
pub find_ignoring_case : Bytes → Dict Bytes → Bytes
find_ignoring_case key [] = []
find_ignoring_case key (h ∷ hs) =
    if equal_ignoring_case h.0 key then h.1 else find_ignoring_case key hs

unfoldable pub get_header : Bytes → HttpResponse → Bytes
unfolding find_ignoring_case
get_header key r = elim (lookup key r.headers) [
  | some v ↦ v
  | none ↦ find_ignoring_case key r.headers
]

-- What `status_line >> status_code` leaves: none where the stream has failed or has nothing but
-- white space left, which leaves the variable as it was; else the value, and the text behind it, in
-- front of which the stream has failed where the flag is false.
pub read_int : Bytes → Option (ℤ × Bool × Bytes)
unfolding int_in
read_int text = elim (span isspace text).1 [ [] ↦ none | c ∷ cs ↦ some (int_in (c ∷ cs)) ]

-- `if (!reason.empty() && reason[0] == ' ')`
pub drop_space : Bytes → Bytes
drop_space [] = []
drop_space (c ∷ cs) = if c == b' ' then cs else c ∷ cs

-- `std::getline(status_line, reason)` and what follows.
pub read_reason : Bool → Bytes → Bytes
unfolding drop_space
read_reason false text = []
read_reason true text = elim (getline b'\n' text) [ none ↦ [] | some p ↦ drop_space p.0 ]

-- `status_line >> http_version >> status_code`
unfoldable pub read_status : Bytes → Option (ℤ × Bool × Bytes)
unfolding read_int
read_status line = read_int (span (λ c. not (isspace c)) (span isspace line).1).1

-- The status line. Where the code is not set, using it is undefined.
pub parse_status : Bytes → Outcome HttpResponse
unfolding read_status read_reason
parse_status line = elim (read_status line) [
  | none ↦ undefined
  | some (code, ok, rest) ↦
      returned (record new_response { status_code = code; reason = read_reason ok rest })
]

-- The two loops that trim a value.
trim_left : Bytes → Bytes
trim_left [] = []
trim_left (c ∷ cs) = if c == b' ' then trim_left cs else c ∷ cs

trim_right : Bytes → Bytes
trim_right [] = []
trim_right (c ∷ cs) = elim (trim_right cs) [
  | [] ↦ if c == b' ' then [] else c ∷ []
  | d ∷ ds ↦ c ∷ d ∷ ds
]

pub trim_spaces : Bytes → Bytes
unfolding trim_left trim_right
trim_spaces v = trim_right (trim_left v)

pub add_line : Bytes → HttpResponse → HttpResponse
unfolding trim_spaces add_header
add_line line r = elim (split_at b':' line) [
  | none ↦ r
  | some (key, v) ↦ add_header key (trim_spaces v) r
]

-- The loop over the header lines, which stops at a line that is a carriage return; with the text
-- left in the stream. A round takes a character off the text at least, so its length is fuel enough.
pub parse_headers : ℕ → Bytes → HttpResponse → Outcome (HttpResponse × Bytes)
unfolding add_line chop
parse_headers zero text r = returned (r, text)
parse_headers (suc fuel) text r = elim (getline b'\n' text) [
  | none ↦ returned (r, [])
  | some (line, rest) ↦ elim (equal line (b'\r' ∷ [])) [
    | true ↦ returned (r, rest)
    | false ↦ elim (chop line) [
      | returned l ↦ parse_headers fuel rest (add_line l r)
      | thrown e ↦ thrown e
      | undefined ↦ undefined
    ]
  ]
]

-- The first line, if there is one.
pub parse_first : Bytes → Outcome (HttpResponse × Bytes)
unfolding parse_status chop
parse_first text = elim (getline b'\n' text) [
  | none ↦ returned (new_response, [])
  | some (line, rest) ↦
      and_then (chop line) (λ l. and_then (parse_status l) (λ r. returned (r, rest)))
]

module _ (dechunk : Bytes → Outcome Bytes) (gunzip : Bytes → Outcome Bytes)
    (inflate : Bytes → Outcome Bytes) where
  pub decode_transfer : HttpResponse → Bytes → Outcome Bytes
  unfolding get_header
  decode_transfer r remaining =
      if contains (codes "chunked") (map tolower (get_header (codes "Transfer-Encoding") r))
      then dechunk remaining
      else returned remaining

  pub decode_content : HttpResponse → Bytes → Outcome Bytes
  unfolding get_header
  decode_content r remaining =
      let content_encoding = map tolower (get_header (codes "Content-Encoding") r) in
      if equal content_encoding (codes "gzip")
      then gunzip remaining
      else if equal content_encoding (codes "deflate")
      then inflate remaining
      else returned remaining

  pub parse_response : Bytes → Outcome HttpResponse
  unfolding parse_first parse_headers decode_transfer decode_content
  parse_response text = and_then (parse_first text) λ s.
      and_then (parse_headers (length s.1) s.1 s.0) λ p.
        and_then (decode_transfer p.0 p.1)
          λ plain. and_then (decode_content p.0 plain) λ body. returned (record p.0 { body = body })
