-- ===== src/Sse/RoundTrip.antt =====
-- `parse_sse_stream` on events that `to_string` writes.
use coro_http.Base.{
  ℕ, ◌≡◌, ◌≢◌, refl, false, some, List, [], ◌∷◌, ◌++◌, Bytes, codes, is_empty, equal, All,
  All-append, split_at, strip_cr, if◌then◌else◌, arith, append_assoc, append-nil,
}
use coro_http.Sse.{
  SseEvent, SseParser, fresh, print_field, to_string, is_blank, pending_event, append_lines,
  field_of, set_field, parse_stripped, parse_sse_line, parse_sse_stream,
}
use coro_http.Sse.Lines.{all_lines, all_lines-some, all_lines-nil, feed, parse_sse_stream-feed}

abbrev pub Clean : Bytes → Type 0
Clean = All λ c. (c ≢ b'\n') × (c ≢ b'\r')

abbrev IsName : Bytes → Type 0
IsName = All λ c. (c ≢ b'\n') × (c ≢ b'\r') × (c ≢ b':')

-- An event that the text format can hold: values without line ends, no further fields, and more
-- than a `retry`.
pub record IsPrintable (e : SseEvent) : Type 0 where
  pub type_clean : Clean e.type
  pub id_clean : Clean e.id
  pub retry_clean : Clean e.retry
  pub value_clean : Clean e.value
  pub no_fields : e.fields ≡ []
  pub not_blank : is_blank e ≡ false

split_at-Clean : (l r : Bytes) → Clean l → split_at b'\n' (l ++ (b'\n' ∷ r)) ≡ some (l, r)
unfolding split_at
split_at-Clean [] r h = refl
split_at-Clean (c ∷ cs) r h = ground (arith, split_at-Clean cs r h.1)

split_at_name : (n v : Bytes) → IsName n → split_at b':' (n ++ (b':' ∷ v)) ≡ some (n, v)
unfolding split_at
split_at_name [] v h = refl
split_at_name (c ∷ cs) v h = ground (arith, split_at_name cs v h.1)

strip_cr-Clean : (l : Bytes) → Clean l → strip_cr l ≡ l
unfolding strip_cr
strip_cr-Clean [] h = refl
strip_cr-Clean (c ∷ []) h = ground arith
strip_cr-Clean (c ∷ d ∷ cs) h = ground (arith, strip_cr-Clean (d ∷ cs) h.1)

IsName-Clean : (n : Bytes) → IsName n → Clean n
IsName-Clean [] h = tt
IsName-Clean (c ∷ cs) h = ((h.0.0, h.0.1), IsName-Clean cs h.1)

field_line : ℕ → Bytes → Bytes → Bytes
field_line c cs v = c ∷ (cs ++ (b':' ∷ b' ' ∷ v))

field_line-Clean : (c : ℕ) (cs v : Bytes) → IsName (c ∷ cs) → Clean v → Clean (field_line c cs v)
unfolding field_line
field_line-Clean c cs v n h = (
  (n.0.0, n.0.1),
  All-append (λ x. (x ≢ b'\n') × (x ≢ b'\r')) cs (b':' ∷ b' ' ∷ v) (IsName-Clean cs n.1)
      (omega arith, (omega arith, h)),
)

parse_field_line :
    (c : ℕ) (cs v : Bytes) (p : SseParser)
    → IsName (c ∷ cs)
    → Clean v
    → parse_sse_line (field_line c cs v) p ≡ (set_field (c ∷ cs) v p, [])
unfolding parse_sse_line parse_stripped field_of field_line
parse_field_line c cs v p n h =
    rw (strip_cr-Clean (field_line c cs v) (field_line-Clean c cs v n h))
      (ground (arith, split_at_name (c ∷ cs) (b' ' ∷ v) n))

-- The effect of one printed field on the parser.
apply_field : Bytes → Bytes → SseParser → SseParser
apply_field name [] p = p
apply_field name (x ∷ xs) p = set_field name (x ∷ xs) p

feed_field :
    (c : ℕ) (cs v rest : Bytes) (p : SseParser)
    → IsName (c ∷ cs)
    → Clean v
    → feed (all_lines (print_field (c ∷ cs) v ++ rest)) p
      ≡ feed (all_lines rest) (apply_field (c ∷ cs) v p)
unfolding print_field apply_field field_line
feed_field c cs [] rest p n h = refl
feed_field c cs (x ∷ xs) rest p n h = rw (spelled) (
    rw
      (all_lines-some _ (field_line c cs (x ∷ xs)) rest
        (split_at-Clean (field_line c cs (x ∷ xs)) rest (field_line-Clean c cs (x ∷ xs) n h)))
      (unfold feed in rw (parse_field_line c cs (x ∷ xs) p n h)))
  where
    spelled : print_field (c ∷ cs) (x ∷ xs) ++ rest ≡ field_line c cs (x ∷ xs) ++ (b'\n' ∷ rest)
    spelled = simp append_assoc

-- The parser after the four fields of an event.
read_event : SseEvent → SseParser
read_event e = record {
  current = record { type = e.type; value = []; id = e.id; retry = e.retry; fields = [] };
  data_lines = if is_empty e.value then [] else e.value ∷ [];
}

apply_fields :
    (e : SseEvent)
    → apply_field (codes "data") e.value (
        apply_field
          (codes "retry")
          e.retry
          (apply_field (codes "id") e.id (apply_field (codes "event") e.type fresh)))
      ≡ read_event e
unfolding read_event apply_field set_field equal is_empty
apply_fields e = ground arith

-- The empty line behind an event.
parse_end : (e : SseEvent) → IsPrintable e → parse_sse_line [] (read_event e) ≡ (fresh, e ∷ [])
unfolding parse_sse_line strip_cr parse_stripped read_event is_empty append_lines
parse_end e v = ground (arith, v.not_blank, v.no_fields)

feed_blank :
    (rest : Bytes) (p : SseParser)
    → feed (all_lines (b'\n' ∷ rest)) p ≡ (
      (feed (all_lines rest) (parse_sse_line [] p).0).0,
      (parse_sse_line [] p).1 ++ (feed (all_lines rest) (parse_sse_line [] p).0).1,
    )
unfolding feed split_at
feed_blank rest p = rw (all_lines-some (b'\n' ∷ rest) [] rest refl)

feed_event :
    (e : SseEvent) (rest : Bytes)
    → IsPrintable e
    → feed (all_lines (to_string e ++ (b'\n' ∷ rest))) fresh
      ≡ ((feed (all_lines rest) fresh).0, e ∷ (feed (all_lines rest) fresh).1)
unfolding to_string
feed_event e rest v = simp append_assoc (
    rw (
      feed_field b'e' (codes "vent") e.type _ fresh (omega arith) v.type_clean,
      feed_field b'i' (codes "d") e.id _ _ (omega arith) v.id_clean,
      feed_field b'r' (codes "etry") e.retry _ _ (omega arith) v.retry_clean,
      feed_field b'd' (codes "ata") e.value _ _ (omega arith) v.value_clean,
      apply_fields e,
      feed_blank rest (read_event e),
      parse_end e v,
    ))

-- Events as a server sends them: each as `to_string` writes it, with an empty line behind it.
pub print_events : List SseEvent → Bytes
print_events [] = []
print_events (e ∷ es) = to_string e ++ (b'\n' ∷ print_events es)

feed_events :
    (es : List SseEvent)
    → All IsPrintable es
    → feed (all_lines (print_events es)) fresh ≡ (fresh, es)
unfolding print_events
feed_events [] h = rw all_lines-nil (unfold feed in refl)
feed_events (e ∷ es) h = rw (feed_event e (print_events es) h.0, feed_events es h.1)

-- `parse_sse_stream` reads back any list of events, each written by `to_string` with an empty line
-- behind it, if each has a type, an id or data, values without line ends, and no other fields.
pub parse_sse_stream-print_events :
    (es : List SseEvent) → All IsPrintable es → parse_sse_stream (print_events es) ≡ es
unfolding pending_event is_empty
parse_sse_stream-print_events es h =
    rw (parse_sse_stream-feed (print_events es), feed_events es h) (append-nil es)
