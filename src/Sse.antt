-- ===== src/Sse.antt =====
-- include/coro_http/sse_event.hpp, and the loop of `co_stream_events_http` and
-- `co_stream_events_https` in include/coro_http/coro_http_client.hpp that feeds lines to it.
-- The body of the loop of `parse_sse_stream` is that of `parse_sse_line`, and stands here once.
pub mod Lines
pub mod Streaming
pub mod Wired
pub mod RoundTrip
mod Tests
use coro_http.Base.{
  ℕ, zero, suc, ◌+◌, Bool, true, false, not, ◌&&◌, ◌||◌, Option, none, some, List, [], ◌∷◌, ◌++◌,
  Bytes, codes, equal, is_empty, length, split_at, getline, strip_cr, ◌==◌, if◌then◌else◌,
}
use coro_http.Base.Dict.{Dict, insert}

pub record SseEvent : Type 0 where
  pub type : Bytes
  pub value : Bytes
  pub id : Bytes
  pub retry : Bytes
  pub fields : Dict Bytes

abbrev pub no_event : SseEvent
no_event = record { type = []; value = []; id = []; retry = []; fields = [] }

-- `SseEvent::empty`
pub is_blank : SseEvent → Bool
is_blank e = is_empty e.value && is_empty e.type && is_empty e.id

-- One line of `to_string`, written where the value is not empty.
pub print_field : Bytes → Bytes → Bytes
print_field name [] = []
print_field name (c ∷ cs) = name ++ (b':' ∷ b' ' ∷ c ∷ (cs ++ (b'\n' ∷ [])))

-- `SseEvent::to_string`
pub to_string : SseEvent → Bytes
unfolding print_field
to_string e =
    print_field (codes "event") e.type
    ++ (print_field (codes "id") e.id
        ++ (print_field (codes "retry") e.retry ++ print_field (codes "data") e.value))

-- `current_event` and `data_lines`.
pub record SseParser : Type 0 where
  pub current : SseEvent
  pub data_lines : List Bytes

abbrev pub fresh : SseParser
fresh = record { current = no_event; data_lines = [] }

-- The loop that appends the data lines, a newline in front of all but the first.
pub append_lines : Bool → Bytes → List Bytes → Bytes
append_lines first text [] = text
append_lines first text (l ∷ ls) =
    append_lines false ((if first then text else text ++ (b'\n' ∷ [])) ++ l) ls

no_lines : List Bytes → Bool
no_lines [] = true
no_lines (l ∷ ls) = false

-- Something was read since the last event.
pub is_pending : SseParser → Bool
unfolding no_lines
is_pending p =
    not (no_lines p.data_lines)
    || not (is_empty p.current.type)
    || not (is_empty p.current.id)
    || not (is_empty p.current.retry)

-- `current_event` with its data lines put together.
pub complete : SseParser → SseEvent
unfolding append_lines
complete p = let e = p.current in record e { value = append_lines true e.value p.data_lines }

-- What an empty line, or the end of the text, makes of the parser: the event, if there is one.
pub pending_event : SseParser → List SseEvent
unfolding is_pending complete is_blank
pending_event p =
    if is_pending p then if not (is_blank (complete p)) then complete p ∷ [] else [] else []

-- The value without one leading space.
pub skip_space : Bytes → Bytes
skip_space [] = []
skip_space (c ∷ cs) = if c == b' ' then cs else c ∷ cs

-- Field name and value of a line.
pub field_of : Bytes → Bytes × Bytes
unfolding skip_space
field_of line = elim (split_at b':' line) [
  | none ↦ (line, [])
  | some (name, rest) ↦ (name, skip_space rest)
]

pub set_field : Bytes → Bytes → SseParser → SseParser
set_field name v p =
    let e = p.current in
    if equal name (codes "event")
    then record p { current = record e { type = v } }
    else if equal name (codes "data")
    then record p { data_lines = p.data_lines ++ (v ∷ []) }
    else if equal name (codes "id")
    then record p { current = record e { id = v } }
    else if equal name (codes "retry")
    then record p { current = record e { retry = v } }
    else record p { current = record e { fields = insert name v e.fields } }

-- A line whose carriage return is off.
pub parse_stripped : Bytes → SseParser → SseParser × List SseEvent
unfolding pending_event field_of set_field
parse_stripped [] p = (if is_pending p then fresh else p, pending_event p)
parse_stripped (c ∷ cs) p =
    if c == b':' then (p, []) else (set_field (field_of (c ∷ cs)).0 (field_of (c ∷ cs)).1 p, [])

pub parse_sse_line : Bytes → SseParser → SseParser × List SseEvent
unfolding parse_stripped
parse_sse_line line p = parse_stripped (strip_cr line) p

-- The loop `while (std::getline(stream, line))` and what follows it. Each round takes a character
-- off the text at least, so its length is fuel enough.
pub stream_loop : ℕ → Bytes → SseParser → List SseEvent
stream_loop zero text p = pending_event p
stream_loop (suc fuel) text p = elim (getline b'\n' text) [
  | none ↦ pending_event p
  | some (line, rest) ↦ (parse_sse_line line p).1 ++ stream_loop fuel rest (parse_sse_line line p).0
]

pub parse_sse_stream : Bytes → List SseEvent
unfolding stream_loop
parse_sse_stream text = stream_loop (length text) text fresh
