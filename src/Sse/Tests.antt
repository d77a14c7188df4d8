-- ===== src/Sse/Tests.antt =====
-- Runs of the parser and of the streaming loop.
use coro_http.Base.{
  ℕ, ◌≡◌, refl, Bool, true, false, List, [], ◌∷◌, ◌++◌, ◌∷◌, Bytes, codes, All, arith, equal,
  getline, split_at, strip_cr, is_empty, inl, inr,
}
use coro_http.Sse.{
  SseEvent, SseParser, fresh, no_event, to_string, pending_event, parse_sse_stream, parse_sse_line,
}
use coro_http.Sse.Lines.{feed, all_lines}
use coro_http.Sse.RoundTrip.{IsPrintable, print_events, parse_sse_stream-print_events}
use coro_http.Base.{some}
use coro_http.Base.Outcome.{returned}
use coro_http.Sse.Streaming.{stream_response, ReadResult, no_error, eof, stream_events}
use coro_http.Sse.Streaming.Chunks.{opened, stream_events-parse, stream_response_lost}

abbrev update : SseEvent
update = record no_event { type = codes "update"; value = codes " 12"; id = codes "7" }

abbrev plain : SseEvent
plain = record no_event { value = codes "a:b" }

update-IsPrintable : IsPrintable update
unfolding coro_http.Sse.is_blank is_empty
update-IsPrintable = record {
  type_clean = omega arith;
  id_clean = omega arith;
  retry_clean = tt;
  value_clean = omega arith;
  no_fields = refl;
  not_blank = refl;
}

plain-IsPrintable : IsPrintable plain
unfolding coro_http.Sse.is_blank is_empty
plain-IsPrintable = record {
  type_clean = tt;
  id_clean = tt;
  retry_clean = tt;
  value_clean = omega arith;
  no_fields = refl;
  not_blank = refl;
}

parse_sse_stream-print_events_example :
    parse_sse_stream (print_events (update ∷ plain ∷ [])) ≡ update ∷ plain ∷ []
parse_sse_stream-print_events_example =
    parse_sse_stream-print_events (update ∷ plain ∷ [])
      (update-IsPrintable, (plain-IsPrintable, tt))

joined :
    parse_sse_stream (codes ": note\ndata: a\r\ndata:b\n\nid: 3\nnone\ndata")
    ≡ record no_event { value = codes "a\nb" }
      ∷ record no_event { id = codes "3"; fields = (codes "none", []) ∷ [] }
      ∷ []
unfolding parse_sse_stream parse_sse_line getline split_at strip_cr is_empty equal
    coro_http.Base.Dict.insert
joined = refl

abbrev chunk : Bytes → ReadResult
chunk b = record { bytes = b; code = no_error }

abbrev closed : ReadResult
closed = record { bytes = []; code = eof }

abbrev chunks : List ReadResult
chunks = chunk (codes "data: a\n\nda") ∷ chunk (codes "ta: b\n") ∷ []

stream_events-parse_example :
    (stream_events (chunks ++ (closed ∷ [])) opened
      ≡ ((feed (all_lines (codes "data: a\n\ndata: b\n")) fresh).1, true))
    × (parse_sse_stream (codes "data: a\n\ndata: b\n")
        ≡ (feed (all_lines (codes "data: a\n\ndata: b\n")) fresh).1
          ++ pending_event (feed (all_lines (codes "data: a\n\ndata: b\n")) fresh).0)
unfolding coro_http.Sse.Streaming.ends is_empty
stream_events-parse_example = stream_events-parse chunks closed (refl, (refl, tt)) refl

stream_response_lost_example :
    stream_response
      (record { bytes = codes "HTTP/1.1 200 OK\r\n\r\ndata: a\n\n"; code = no_error } ∷ closed ∷ [])
    ≡ some (returned ([], true))
unfolding coro_http.Base.behind coro_http.Base.strip_prefix
stream_response_lost_example =
    stream_response_lost (codes "ta: a\n\n") b'd' b'a'
      (record { bytes = codes "HTTP/1.1 200 OK\r\n\r\ndata: a\n\n"; code = no_error }) closed refl
      refl refl
