-- ===== src/Reading/Splits.antt =====
-- The state of co_read_response after a text, and the first place of a text in a longer one.
use coro_http.Base.{
  ℕ, zero, suc, ◌+◌, ◌-◌, ◌≤◌, ◌≡◌, refl, ap, ◌∙◌, true, none, some, [], ◌∷◌, ◌++◌, Bytes, codes,
  behind, strip_prefix, length, length-append, take, arith, append-nil, Option-cases, inl, inr,
}
use coro_http.Reading.{
  Reading, no_reading, find_content_length, find_chunked, find_headers, receive,
}

-- The state after a text.
pub state_of : Bytes → Reading
unfolding find_headers
state_of text = find_headers (record no_reading { response_data = text })

strip_prefix_longer :
    (p s more rest : Bytes)
    → strip_prefix p s ≡ some rest
    → strip_prefix p (s ++ more) ≡ some (rest ++ more)
unfolding strip_prefix
strip_prefix_longer [] s more rest e = ground (arith, e)
strip_prefix_longer (c ∷ cs) [] more rest e = ground (arith, e)
strip_prefix_longer (c ∷ cs) (d ∷ ds) more rest e =
    ground (arith, e, strip_prefix_longer cs ds more rest)

strip_prefix_short :
    (p s more : Bytes)
    → strip_prefix p s ≡ none
    → length p ≤ length s
    → strip_prefix p (s ++ more) ≡ none
unfolding strip_prefix
strip_prefix_short [] s more e h = absurd (ground (arith, e))
strip_prefix_short (c ∷ cs) [] more e h = absurd (omega arith)
strip_prefix_short (c ∷ cs) (d ∷ ds) more e h = ground (arith, e, h, strip_prefix_short cs ds more)

strip_prefix-length :
    (p s rest : Bytes) → strip_prefix p s ≡ some rest → length p + length rest ≤ length s
unfolding strip_prefix
strip_prefix-length [] s rest e = ground (arith, e)
strip_prefix-length (c ∷ cs) [] rest e = absurd (ground (arith, e))
strip_prefix-length (c ∷ cs) (d ∷ ds) rest e = ground (arith, e, strip_prefix-length cs ds rest)

pub behind-length : (p s rest : Bytes) → behind p s ≡ some rest → length p + length rest ≤ length s
unfolding behind
behind-length p [] rest e = strip_prefix-length p [] rest e
behind-length p (d ∷ ds) rest e = elim (Option-cases (strip_prefix p (d ∷ ds))) [
  | inl n ↦ omega (arith, behind-length p ds rest (rw (n, behind) at e))
  | inr (r, f) ↦ strip_prefix-length p (d ∷ ds) rest (f ∙ (rw (f, behind) at e))
]

-- The first place of a needle stays the first in a longer text.
pub behind_longer :
    (c : ℕ) (cs s more rest : Bytes)
    → behind (c ∷ cs) s ≡ some rest
    → behind (c ∷ cs) (s ++ more) ≡ some (rest ++ more)
unfolding behind
behind_longer c cs [] more rest e = absurd (unfold strip_prefix in ground (arith, e))
behind_longer c cs (d ∷ ds) more rest e = elim (Option-cases (strip_prefix (c ∷ cs) (d ∷ ds))) [
  | inl n ↦
      let later : behind (c ∷ cs) ds ≡ some rest = rw (n, behind) at e in
      rw
        (
          strip_prefix_short (c ∷ cs) (d ∷ ds) more n
              (omega (arith, behind-length (c ∷ cs) ds rest later)),
          behind,
        )
        (behind_longer c cs ds more rest later)
  | inr (r, f) ↦
      let same : some r ≡ some rest = rw (f, behind) at e in
      rw (strip_prefix_longer (c ∷ cs) (d ∷ ds) more r f, behind) (ground (arith, same))
]

abbrev pub blank_line : Bytes
blank_line = codes "\r\n\r\n"

take_longer : (n : ℕ) (a b : Bytes) → n ≤ length a → take n (a ++ b) ≡ take n a
take_longer zero a b h = refl
take_longer (suc n) [] b h = absurd (omega arith)
take_longer (suc n) (x ∷ xs) b h = ap (◌∷◌ x) (take_longer n xs b (omega arith))

-- The state after the header, of which the text behind it is known.
unfoldable pub found : Bytes → Bytes → Reading
found text body =
    let end = length text - length body in
    record {
      response_data = text;
      headers_complete = true;
      content_length = find_content_length (take end text);
      is_chunked = find_chunked (take end text);
      headers_end_pos = end;
    }

pub state_of-found : (a body : Bytes) → behind blank_line a ≡ some body → state_of a ≡ found a body
unfolding state_of find_headers found
state_of-found a body e = rw (e, find_headers)

pub state_of-none :
    (a : Bytes) → behind blank_line a ≡ none → state_of a ≡ record no_reading { response_data = a }
unfolding state_of find_headers
state_of-none a e = rw (e, find_headers)

same_header :
    (a more body : Bytes)
    → length body ≤ length a
    → length (a ++ more) - length (body ++ more) ≡ length a - length body
same_header a more body h = omega (arith, length-append a more, length-append body more)

pub found_longer :
    (a more body : Bytes)
    → length body ≤ length a
    → found (a ++ more) (body ++ more) ≡ record (found a body) { response_data = a ++ more }
unfolding found
found_longer a more body h =
    rw (same_header a more body h, take_longer (length a - length body) a more (omega arith))

-- Receiving goes from the state after a text to the state after the longer one.
pub receive-state_of : (a bs : Bytes) → receive bs (state_of a) ≡ state_of (a ++ bs)
unfolding receive
receive-state_of a [] = rw (append-nil a)
receive-state_of a (b ∷ bs) = elim (Option-cases (behind blank_line a)) [
  | inl n ↦ rw (state_of-none a n) (unfold state_of in refl)
  | inr (body, e) ↦
      rw
        (
          state_of-found a body e,
          state_of-found (a ++ (b ∷ bs)) (body ++ (b ∷ bs))
              (behind_longer b'\r' _ a (b ∷ bs) body e),
          found_longer a (b ∷ bs) body (omega (arith, behind-length blank_line a body e)),
        )
        (unfold found in refl)
]

pub state_of-response_data : (a : Bytes) → (state_of a).response_data ≡ a
state_of-response_data a = elim (Option-cases (behind blank_line a)) [
  | inl n ↦ rw (state_of-none a n)
  | inr (body, e) ↦ rw (state_of-found a body e) (unfold found in refl)
]

pub state_of-nil : state_of [] ≡ no_reading
state_of-nil = rw (state_of-none [] nowhere)
  where
    nowhere : behind blank_line [] ≡ none
    nowhere = unfold behind strip_prefix in refl
