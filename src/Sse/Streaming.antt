-- ===== src/Sse/Streaming.antt =====
-- The loops "Read response headers first" and "Stream event lines" of `co_stream_events_http` and `co_stream_events_https`, over the
-- results of its calls of `async_read_some`.
pub mod Chunks
use coro_http.Base.{
  ℕ, zero, suc, ◌+◌, Bool, true, false, not, ◌||◌, Option, none, some, List, [], ◌∷◌, ◌++◌, Bytes,
  is_empty, length, split_at, codes, behind, if◌then◌else◌,
}
use coro_http.Base.Outcome.{Outcome, returned, thrown, undefined}
use coro_http.Sse.{SseEvent, SseParser, fresh, parse_sse_line}

pub data ReadCode : Type 0 where
  no_error eof would_block other_error : ReadCode

-- One result of `async_read_some`: the bytes and the error code.
pub record ReadResult : Type 0 where
  pub bytes : Bytes
  pub code : ReadCode

pub record Stream : Type 0 where
  pub partial_event : Bytes
  pub parser : SseParser

-- The inner loop over the complete lines; the events are those handed to the callback. A round
-- takes a newline off the text at least, so its length is fuel enough.
pub process_lines : ℕ → Stream → Stream × List SseEvent
process_lines zero s = (s, [])
process_lines (suc fuel) s = elim (split_at b'\n' s.partial_event) [
  | none ↦ (s, [])
  | some (line, rest) ↦
      let q = parse_sse_line line s.parser in
      let r = process_lines fuel (record { partial_event = rest; parser = q.0 }) in
      (r.0, q.1 ++ r.1)
]

pub receive : Bytes → Stream → Stream × List SseEvent
unfolding process_lines
receive bytes s =
    let text = s.partial_event ++ bytes in
    process_lines (length text) (record s { partial_event = text })

is_final : ReadCode → Bool
is_final no_error = false
is_final would_block = false
is_final eof = true
is_final other_error = true

-- `len == 0 || ec == eof || (ec && ec != would_block)`
unfoldable pub ends : ReadResult → Bool
unfolding is_final
ends r = is_empty r.bytes || is_final r.code

-- `if (len > 0)`
pub receive_some : Bytes → Stream → Stream × List SseEvent
unfolding receive
receive_some [] s = (s, [])
receive_some (b ∷ bs) s = receive (b ∷ bs) s

-- The text left at the end is parsed as one more line.
pub finish : Bytes → SseParser → List SseEvent
finish [] p = []
finish (b ∷ bs) p = (parse_sse_line (b ∷ bs) p).1

-- All events handed to the callback, and whether the loop has ended.
unfoldable pub stream_events : List ReadResult → Stream → List SseEvent × Bool
unfolding receive_some ends finish
stream_events [] s = ([], false)
stream_events (r ∷ rs) s = elim (ends r) [
  | true ↦ let q = receive_some r.bytes s in (q.1 ++ finish q.0.partial_event q.0.parser, true)
  | false ↦
      let q = receive_some r.bytes s in
      let later = stream_events rs q.0 in (q.1 ++ later.0, later.1)
]

-- The loop "Read response headers first": `partial_event`, and the results that come later; none where
-- it still waits for one.
unfoldable pub read_header : List ReadResult → Bytes → Option (Outcome (Bytes × List ReadResult))
read_header [] headers = none
read_header (r ∷ rs) headers = elim r.code [
  | no_error ↦ elim (is_empty r.bytes) [
    | true ↦ some (thrown (codes "Connection closed while reading headers"))
    | false ↦ elim (behind (codes "\r\n\r\n") (headers ++ r.bytes)) [
      | some partial ↦ some (returned (partial, rs))
      | none ↦ read_header rs (headers ++ r.bytes)
    ]
  ]
  | _ ↦ some (thrown (codes "system_error"))
]

-- Both loops: the events handed to the callback, and whether the second loop has ended.
unfoldable pub stream_response : List ReadResult → Option (Outcome (List SseEvent × Bool))
unfolding read_header stream_events
stream_response rs = elim (read_header rs []) [
  | none ↦ none
  | some (thrown e) ↦ some (thrown e)
  | some undefined ↦ some undefined
  | some (returned (partial, later)) ↦
      some (returned (stream_events later (record { partial_event = partial; parser = fresh })))
]
