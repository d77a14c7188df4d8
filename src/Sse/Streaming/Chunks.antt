-- ===== src/Sse/Streaming/Chunks.antt =====
-- The streaming loop beside `parse_sse_stream`, on texts that arrive in pieces.
use coro_http.Base.{
  ℕ, zero, suc, ◌≤◌, ◌≡◌, refl, ◌∙◌, ap, sym, true, false, List, [], ◌∷◌, ◌++◌, Bytes, is_empty,
  All, length, split_at, strip_cr, arith, append_assoc, append-nil, Option-cases, inl, inr,
}
use coro_http.Sse.{
  SseEvent, SseParser, fresh, pending_event, parse_sse_line, parse_sse_stream, parse_stripped,
}
use coro_http.Sse.Lines.{
  cut, all_lines, last_line, feed, feed-append, cut-append, cut-none, cut-some, cut_rest,
  length-split_at, parse_sse_stream-feed,
}
use coro_http.Base.{some, codes, behind, strip_prefix}
use coro_http.Base.Outcome.{returned}
use coro_http.Sse.Streaming.{
  stream_response, read_header, no_error, ReadResult, Stream, process_lines, receive, ends,
  receive_some, finish, stream_events,
}

-- The stream after the complete lines of a text, with their events.
abbrev after_lines : Bytes → SseParser → Stream × List SseEvent
after_lines text p =
    let r = feed (cut text).0 p in (record { partial_event = (cut text).1; parser = r.0 }, r.1)

process_lines-after_lines :
    (fuel : ℕ) (text : Bytes) (p : SseParser)
    → length text ≤ fuel
    → process_lines fuel (record { partial_event = text; parser = p }) ≡ after_lines text p
unfolding process_lines feed cut
process_lines-after_lines zero [] p h = refl
process_lines-after_lines zero (c ∷ cs) p h = absurd (omega arith)
process_lines-after_lines (suc fuel) text p h = elim (Option-cases (split_at b'\n' text)) [
  | inl e ↦ rw (cut-none text e, e, process_lines)
  | inr ((l, r), e) ↦
      rw (cut-some text l r e, e, process_lines)
        (rw (
          process_lines-after_lines fuel r (parse_sse_line l p).0
            (omega (arith, length-split_at b'\n' text l r e))))
]

receive-after_lines :
    (bytes : Bytes) (s : Stream) → receive bytes s ≡ after_lines (s.partial_event ++ bytes) s.parser
unfolding receive
receive-after_lines bytes s =
    process_lines-after_lines (length (s.partial_event ++ bytes)) (s.partial_event ++ bytes)
      s.parser (omega arith)

-- No complete line waits.
abbrev IsCut : Bytes → Type 0
IsCut text = cut text ≡ ([], text)

receive_some-after_lines :
    (bytes : Bytes) (s : Stream)
    → IsCut s.partial_event
    → receive_some bytes s ≡ after_lines (s.partial_event ++ bytes) s.parser
unfolding receive_some feed
receive_some-after_lines [] s h = simp append-nil (rw h)
receive_some-after_lines (b ∷ bs) s h = receive-after_lines (b ∷ bs) s

finish-feed : (text : Bytes) (p : SseParser) → finish text p ≡ (feed (last_line text) p).1
unfolding finish feed last_line
finish-feed [] p = refl
finish-feed (b ∷ bs) p = sym (append-nil (parse_sse_line (b ∷ bs) p).1)

all_lines-append : (a b : Bytes) → all_lines (a ++ b) ≡ (cut a).0 ++ all_lines ((cut a).1 ++ b)
unfolding all_lines
all_lines-append a b =
    rw (cut-append a b)
      (append_assoc (cut a).0 (cut ((cut a).1 ++ b)).0 (last_line (cut ((cut a).1 ++ b)).1))

feed_pieces :
    (a b : Bytes) (p : SseParser)
    → (feed (all_lines (a ++ b)) p).1
      ≡ (feed (cut a).0 p).1 ++ (feed (all_lines ((cut a).1 ++ b)) (feed (cut a).0 p).0).1
feed_pieces a b p = rw (all_lines-append a b) (
    ap (λ (r : SseParser × List SseEvent). r.1)
      (feed-append (cut a).0 (all_lines ((cut a).1 ++ b)) p))

feed_last :
    (text : Bytes) (p : SseParser)
    → (feed (all_lines text) p).1
      ≡ (feed (cut text).0 p).1 ++ finish (cut text).1 (feed (cut text).0 p).0
unfolding all_lines
feed_last text p = rw (finish-feed (cut text).1 (feed (cut text).0 p).0) (
    ap (λ (r : SseParser × List SseEvent). r.1)
      (feed-append (cut text).0 (last_line (cut text).1) p))

-- All bytes that a list of results brings.
abbrev pub text_of : List ReadResult → Bytes
text_of [] = []
text_of (r ∷ rs) = r.bytes ++ text_of rs

stream_events-feed :
    (rs : List ReadResult) (last : ReadResult) (s : Stream)
    → All (λ r. ends r ≡ false) rs
    → ends last ≡ true
    → IsCut s.partial_event
    → stream_events (rs ++ (last ∷ [])) s
      ≡ ((feed (all_lines (s.partial_event ++ text_of (rs ++ (last ∷ [])))) s.parser).1, true)
unfolding stream_events
stream_events-feed [] last s h e c =
    let t = s.partial_event ++ last.bytes in
    rw (e, stream_events, receive_some-after_lines last.bytes s c)
      (simp append-nil (rw (feed_last t s.parser)))
stream_events-feed (r ∷ rs) last s h e c =
    let t = s.partial_event ++ r.bytes in
    rw (h.0, stream_events, receive_some-after_lines r.bytes s c)
      (rw
        (
          stream_events-feed rs last
              (record { partial_event = (cut t).1; parser = (feed (cut t).0 s.parser).0 }) h.1 e
              (cut_rest t),
          ← append_assoc s.partial_event r.bytes (text_of (rs ++ (last ∷ []))),
        )
        (rw (feed_pieces t (text_of (rs ++ (last ∷ []))) s.parser)))

abbrev pub opened : Stream
opened = record { partial_event = []; parser = fresh }

-- However the network splits the text, the loop ends with the first result that tells it to, and
-- then the events handed to the callback are those of the lines of the whole text, so that
-- `parse_sse_stream` of the text gives the same events, and behind them only the event that no
-- empty line has ended, which the loop leaves out.
pub stream_events-parse :
    (rs : List ReadResult) (last : ReadResult)
    → All (λ r. ends r ≡ false) rs
    → ends last ≡ true
    → let text = text_of (rs ++ (last ∷ [])) in
      let lines = feed (all_lines text) fresh in
      (stream_events (rs ++ (last ∷ [])) opened ≡ (lines.1, true))
      × (parse_sse_stream text ≡ lines.1 ++ pending_event lines.0)
unfolding cut
stream_events-parse rs last h e = (
  stream_events-feed rs last opened h e refl,
  parse_sse_stream-feed (text_of (rs ++ (last ∷ []))),
)

-- Two runs of results that end and bring the same text hand the same events to the callback.
stream_events_split :
    (rs ss : List ReadResult) (last end : ReadResult)
    → All (λ r. ends r ≡ false) rs
    → All (λ r. ends r ≡ false) ss
    → ends last ≡ true
    → ends end ≡ true
    → text_of (rs ++ (last ∷ [])) ≡ text_of (ss ++ (end ∷ []))
    → stream_events (rs ++ (last ∷ [])) opened ≡ stream_events (ss ++ (end ∷ [])) opened
stream_events_split rs ss last end h k e f same =
    (stream_events-parse rs last h e).0 ∙ rw same (sym (stream_events-parse ss end k f).0)

stream_events_lost :
    (c d : ℕ) (text : Bytes) (last : ReadResult)
    → last.bytes ≡ []
    → stream_events (last ∷ []) (record { partial_event = c ∷ d ∷ text; parser = fresh })
      ≡ ([], true)
unfolding stream_events parse_sse_line strip_cr is_empty parse_stripped
stream_events_lost c d text last e = rw e (ground arith)

not_empty :
    (bytes rest : Bytes) → behind (codes "\r\n\r\n") bytes ≡ some rest → is_empty bytes ≡ false
unfolding behind strip_prefix is_empty
not_empty [] rest e = absurd (ground arith)
not_empty (b ∷ bs) rest e = refl

-- Where the text of the events, of two characters at least, comes in one result with the response's
-- header, and the next result brings nothing more, no event is handed to the callback, whatever events
-- the text holds.
pub stream_response_lost :
    (text : Bytes) (c d : ℕ) (first last : ReadResult)
    → first.code ≡ no_error
    → behind (codes "\r\n\r\n") first.bytes ≡ some (c ∷ d ∷ text)
    → last.bytes ≡ []
    → stream_response (first ∷ last ∷ []) ≡ some (returned ([], true))
unfolding stream_response read_header
stream_response_lost text c d first last e f nothing =
    rw
      (
        e,
        stream_response,
        read_header,
        not_empty first.bytes (c ∷ d ∷ text) f,
        f,
        stream_events_lost c d text last nothing,
      )
      refl
