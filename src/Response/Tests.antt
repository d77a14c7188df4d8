-- ===== src/Response/Tests.antt =====
-- Responses read from text.
use coro_http.Base.{
  ◌≡◌, refl, List, [], ◌∷◌, Bytes, codes, arith, All, is_empty, equal, map, tolower, contains,
  getline, split_at, span, strip_cr, equal_ignoring_case,
}
use coro_http.Base.Dict.{Dict, lookup, insert}
use coro_http.Base.Outcome.{Outcome, returned, undefined}
use coro_http.Response.{
  HttpResponse, parse_response, parse_status, get_header, trim_spaces, add_header,
}
use coro_http.Response.Parsed.{
  Reads, response_text, head_of, IsLine, IsHeader, IsUncoded, parse_response-response_text,
}

-- A decoder that does nothing.
abbrev same : Bytes → Outcome Bytes
same text = returned text

abbrev fields : Dict Bytes
fields =
    (codes "X", codes "1") ∷ (codes "Content-Encoding", codes "br") ∷ (codes "X", codes "2") ∷ []

fields-All : All IsHeader fields
unfolding trim_spaces
fields-All = (
  record {
    name_line = ground arith;
    name_colon = ground arith;
    value_line = ground arith;
    value_trimmed = refl;
  },
  (
    record {
      name_line = ground arith;
      name_colon = ground arith;
      value_line = ground arith;
      value_trimmed = refl;
    },
    (
      record {
        name_line = ground arith;
        name_colon = ground arith;
        value_line = ground arith;
        value_trimmed = refl;
      },
      tt,
    ),
  ),
)

fields-IsUncoded : IsUncoded (head_of 404 (codes "Not Found") fields)
unfolding head_of get_header contains equal tolower lookup insert add_header is_empty
    equal_ignoring_case coro_http.Base.less
fields-IsUncoded = record { no_chunks = refl; no_gzip = refl; no_deflate = refl }

parse_response-response_text_example :
    (r : HttpResponse) × ((parse_response same same same
          (response_text 404 (codes "Not Found") fields (codes "gone\n"))
        ≡ returned r)
      × Reads 404 (codes "Not Found") (codes "gone\n") fields r)
parse_response-response_text_example =
    parse_response-response_text same same same 404 (codes "Not Found") (codes "gone\n") fields
      (omega arith) reason_line fields-All fields-IsUncoded
  where
    reason_line : IsLine (codes "Not Found")
    reason_line = ground arith

-- A status line without a number leaves the status code as it was.
no_code : parse_status (codes "HTTP/1.1") ≡ undefined
unfolding parse_status coro_http.Base.Number.isspace
no_code = refl

-- A line that is a newline only.
bare_newline : parse_response same same same (codes "HTTP/1.1 200 OK\r\n\nbody") ≡ undefined
unfolding parse_response getline split_at coro_http.Base.Number.isspace equal
bare_newline = refl
