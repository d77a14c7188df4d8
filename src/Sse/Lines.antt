-- ===== src/Sse/Lines.antt =====
-- The lines of a text, by one recursion: what the `getline` and `find` loops come to.
use coro_http.Base.{
  ℕ, zero, suc, ◌≤◌, ◌<◌, ◌≡◌, refl, sym, false, none, some, List, [], ◌∷◌, ◌++◌, Bytes, length,
  split_at, getline, ◌==◌, if◌then◌else◌, arith, append_assoc, Option-cases, Bool-cases, inl, inr,
}
use coro_http.Sse.{
  SseEvent, SseParser, fresh, pending_event, parse_sse_line, stream_loop, parse_sse_stream,
}

-- A character in front of the first line, or of the rest where no line is complete.
pub extend : ℕ → List Bytes → Bytes → List Bytes × Bytes
extend c [] rest = ([], c ∷ rest)
extend c (l ∷ ls) rest = ((c ∷ l) ∷ ls, rest)

-- The lines that a newline ends, and the text behind the last newline.
unfoldable pub cut : Bytes → List Bytes × Bytes
unfolding extend
cut [] = ([], [])
cut (c ∷ cs) = let r = cut cs in if c == b'\n' then ([] ∷ r.0, r.1) else extend c r.0 r.1

-- The unfinished last line counts too, unless it is empty.
unfoldable pub last_line : Bytes → List Bytes
last_line [] = []
last_line (c ∷ cs) = (c ∷ cs) ∷ []

unfoldable pub all_lines : Bytes → List Bytes
unfolding last_line
all_lines text = (cut text).0 ++ last_line (cut text).1

-- The parser over a list of lines.
unfoldable pub feed : List Bytes → SseParser → SseParser × List SseEvent
feed [] p = (p, [])
feed (l ∷ ls) p = let r = feed ls (parse_sse_line l p).0 in (r.0, (parse_sse_line l p).1 ++ r.1)

pub feed-append :
    (xs ys : List Bytes) (p : SseParser)
    → feed (xs ++ ys) p ≡ ((feed ys (feed xs p).0).0, (feed xs p).1 ++ (feed ys (feed xs p).0).1)
unfolding feed
feed-append [] ys p = refl
feed-append (x ∷ xs) ys p =
    let q = (parse_sse_line x p).0 in
    ground (
      arith,
      feed-append xs ys q,
      append_assoc (parse_sse_line x p).1 (feed xs q).1 (feed ys (feed xs q).0).1,
    )

pub cut-none : (s : Bytes) → split_at b'\n' s ≡ none → cut s ≡ ([], s)
unfolding split_at cut
cut-none [] h = refl
cut-none (c ∷ cs) h = ground (arith, cut-none cs)

pub cut-some : (s l r : Bytes) → split_at b'\n' s ≡ some (l, r) → cut s ≡ (l ∷ (cut r).0, (cut r).1)
unfolding split_at cut
cut-some [] l r h = cc
cut-some (c ∷ cs) l r h = elim (Option-cases (split_at b'\n' cs)) [
  | inl e ↦ ground arith
  | inr ((m, t), e) ↦ ground (arith, cut-some cs m t e)
]

pub length-split_at : (c : ℕ) (s l r : Bytes) → split_at c s ≡ some (l, r) → length r < length s
unfolding split_at
length-split_at c [] l r h = cc
length-split_at c (x ∷ xs) l r h = elim (Option-cases (split_at c xs)) [
  | inl e ↦ ground arith
  | inr ((m, t), e) ↦ ground (arith, length-split_at c xs m t e)
]

extend-append :
    (c : ℕ) (ls : List Bytes) (rest t : Bytes)
    → (c == b'\n') ≡ false
    → extend c (ls ++ (cut (rest ++ t)).0) (cut (rest ++ t)).1 ≡ (
      (extend c ls rest).0 ++ (cut ((extend c ls rest).1 ++ t)).0,
      (cut ((extend c ls rest).1 ++ t)).1,
    )
unfolding cut
extend-append c [] rest t h = rw h
extend-append c (l ∷ ls) rest t h = refl

-- Cutting a text in two pieces: what the first leaves unfinished goes in front of the second.
pub cut-append :
    (s t : Bytes) → cut (s ++ t) ≡ ((cut s).0 ++ (cut ((cut s).1 ++ t)).0, (cut ((cut s).1 ++ t)).1)
unfolding cut
cut-append [] t = refl
cut-append (c ∷ cs) t = rw (cut-append cs t) (elim (Bool-cases (c == b'\n')) [
  | inl newline ↦ rw newline
  | inr other ↦ rw other (extend-append c (cut cs).0 (cut cs).1 t other)
])

-- The text behind the last newline holds no complete line.
pub cut_rest : (s : Bytes) → cut (cut s).1 ≡ ([], (cut s).1)
unfolding cut
cut_rest [] = refl
cut_rest (c ∷ cs) = elim (Bool-cases (c == b'\n')) [
  | inl newline ↦ rw newline (cut_rest cs)
  | inr other ↦ rw other (go (cut cs).0 (cut cs).1 other (cut_rest cs))
]
  where
    go :
        (ls : List Bytes) (rest : Bytes)
        → (c == b'\n') ≡ false
        → cut rest ≡ ([], rest)
        → cut (extend c ls rest).1 ≡ ([], (extend c ls rest).1)
    go [] rest n h = rw (n, h)
    go (l ∷ ls) rest n h = h

all_lines-none : (s : Bytes) → split_at b'\n' s ≡ none → all_lines s ≡ last_line s
unfolding all_lines
all_lines-none s h = rw (cut-none s h)

pub all_lines-some :
    (s l r : Bytes) → split_at b'\n' s ≡ some (l, r) → all_lines s ≡ l ∷ all_lines r
unfolding all_lines
all_lines-some s l r h = rw (cut-some s l r h)

pub all_lines-nil : all_lines [] ≡ []
unfolding all_lines cut
all_lines-nil = refl

-- With fuel for the text, the `getline` loop feeds its lines to the parser, the unfinished one
-- too, and then gives the event that is pending.
stream_loop-feed :
    (fuel : ℕ) (text : Bytes) (p : SseParser)
    → length text ≤ fuel
    → stream_loop fuel text p
      ≡ (feed (all_lines text) p).1 ++ pending_event (feed (all_lines text) p).0
unfolding stream_loop feed getline last_line
stream_loop-feed zero [] p h = rw all_lines-nil
stream_loop-feed zero (c ∷ cs) p h = absurd (omega arith)
stream_loop-feed (suc fuel) [] p h = rw all_lines-nil
stream_loop-feed (suc fuel) (c ∷ cs) p h = elim (Option-cases (split_at b'\n' (c ∷ cs))) [
  | inl e ↦
      let q = (parse_sse_line (c ∷ cs) p).0 in
      rw (all_lines-none (c ∷ cs) e, e, stream_loop, getline)
        (rw (stream_loop-feed fuel [] q (omega arith), all_lines-nil)
          (sym (append_assoc (parse_sse_line (c ∷ cs) p).1 [] (pending_event q))))
  | inr ((l, r), e) ↦
      let q = (parse_sse_line l p).0 in
      rw (all_lines-some (c ∷ cs) l r e, e, stream_loop, getline)
        (rw (stream_loop-feed fuel r q (omega (arith, length-split_at b'\n' (c ∷ cs) l r e))) (
          sym (
            append_assoc (parse_sse_line l p).1 (feed (all_lines r) q).1
              (pending_event (feed (all_lines r) q).0))))
]

-- `parse_sse_stream` gives the events of the lines of its text, the unfinished last one included,
-- and after them the event that no empty line has ended.
pub parse_sse_stream-feed :
    (text : Bytes)
    → parse_sse_stream text
      ≡ (feed (all_lines text) fresh).1 ++ pending_event (feed (all_lines text) fresh).0
unfolding parse_sse_stream
parse_sse_stream-feed text = stream_loop-feed (length text) text fresh (omega arith)
