-- ===== src/Reading.antt =====
-- include/coro_http/coro_http_client.hpp: co_read_response, over what each of its rounds gets from the
-- stream: the results of `async_read_some`, of `available` behind the wait, and of the second read.

pub mod Splits
pub mod Sized
pub mod Cut
mod Tests
use coro_http.Base.{
  ℕ, ◌+◌, ◌-◌, Bool, true, false, not, ◌&&◌, ◌||◌, Option, none, some, List, [], ◌∷◌, ◌++◌, Bytes,
  codes, behind, contains, is_empty, length, take, span, ltb, leb, ◌==◌, if◌then◌else◌,
}
use coro_http.Base.Number.{stoull}
use coro_http.Base.Outcome.{Outcome, returned, thrown, undefined}
use coro_http.Cookie.{trim}

-- No error, the end (`eof`, `stream_truncated`), or another error, with its text.
pub data RoundCode : Type 0 where
  no_error : RoundCode
  ended : RoundCode
  failed : Bytes → RoundCode

pub record Round : Type 0 where
  pub bytes : Bytes
  pub code : RoundCode
  pub available : Bool
  pub peeked : Bytes

pub record Reading : Type 0 where
  pub response_data : Bytes
  pub headers_complete : Bool
  pub content_length : ℕ
  pub is_chunked : Bool
  pub headers_end_pos : ℕ

abbrev pub no_reading : Reading
no_reading = record {
  response_data = [];
  headers_complete = false;
  content_length = 0;
  is_chunked = false;
  headers_end_pos = 0;
}

-- The text behind `Content-Length:`, in one of two spellings.
length_field : Bytes → Option Bytes
length_field headers = elim (behind (codes "Content-Length:") headers) [
  | some v ↦ some v
  | none ↦ behind (codes "content-length:") headers
]

-- `content_length`, 0 where there is none or it is no number.
pub find_content_length : Bytes → ℕ
unfolding length_field
find_content_length headers = elim (length_field headers) [
  | none ↦ 0
  | some v ↦ elim (stoull (trim (span (λ c. not (c == b'\r')) v).0)) [ none ↦ 0 | some n ↦ n ]
]

pub find_chunked : Bytes → Bool
find_chunked headers =
    contains (codes "Transfer-Encoding: chunked") headers
    || contains (codes "transfer-encoding: chunked") headers

-- `if (!headers_complete)`
unfoldable pub find_headers : Reading → Reading
unfolding find_content_length find_chunked
find_headers s = elim (behind (codes "\r\n\r\n") s.response_data) [
  | none ↦ s
  | some body ↦
      let end = length s.response_data - length body in
      let headers = take end s.response_data in
      record s {
        headers_complete = true;
        headers_end_pos = end;
        is_chunked = find_chunked headers;
        content_length = find_content_length headers;
      }
]

-- `if (len > 0)`, without its last test.
unfoldable pub receive : Bytes → Reading → Reading
unfolding find_headers
receive [] s = s
receive (b ∷ bs) s =
    let s = record s { response_data = s.response_data ++ (b ∷ bs) } in
    if s.headers_complete then s else find_headers s

-- Whether the response is complete.
pub is_complete : Bool → Reading → Bool
is_complete head_request s =
    s.headers_complete
    && (head_request
        || (if s.is_chunked
            then contains (codes "0\r\n\r\n") s.response_data
            else ltb 0 s.content_length
              && leb s.content_length (length s.response_data - s.headers_end_pos)))

-- The test of the last part of a round.
pub waits : Reading → Bool
waits s = s.headers_complete && not s.is_chunked && s.content_length == 0

-- The loop; none where it still waits for a further round.
unfoldable pub read_response : Bool → List Round → Reading → Option (Outcome Bytes)
unfolding receive is_complete waits
read_response head_request [] s = none
read_response head_request (r ∷ rs) s =
    let t = receive r.bytes s in
    elim (not (is_empty r.bytes) && is_complete head_request t) [
      | true ↦ some (returned t.response_data)
      | false ↦ elim r.code [
        | ended ↦ some (returned t.response_data)
        | failed e ↦ some (thrown e)
        | no_error ↦ elim (waits t && not (is_empty r.bytes)) [
          | false ↦ read_response head_request rs t
          | true ↦ elim r.available [
            | false ↦ some (returned t.response_data)
            | true ↦
                read_response head_request rs
                  (record t { response_data = t.response_data ++ r.peeked })
          ]
        ]
      ]
    ]

unfoldable pub co_read_response : Bool → List Round → Option (Outcome Bytes)
unfolding read_response
co_read_response head_request rounds = read_response head_request rounds no_reading
