-- ===== src/Reading/Sized.antt =====
-- co_read_response on responses with a Content-Length.
use coro_http.Base.{
  ◌+◌, ◌-◌, ◌<◌, ◌≡◌, refl, ap, sym, ◌∙◌, Bool, true, false, Option, none, some, List, [], ◌∷◌,
  ◌++◌, Bytes, behind, is_empty, length, length-append, take, take-append, All, arith, append_assoc,
  append-nil, Option-cases, inl, inr,
}
use mathlib.Core.Path.{subst}
use coro_http.Base.Outcome.{returned}
use coro_http.Reading.{
  no_error, Round, Reading, find_content_length, find_chunked, receive, is_complete, waits,
  read_response, co_read_response,
}
use coro_http.Reading.Splits.{
  state_of, blank_line, found, state_of-found, state_of-none, found_longer, behind_longer,
  behind-length, receive-state_of, state_of-response_data, state_of-nil,
}

-- A header that ends with its first empty line, and a body of the length that it gives.
pub record IsSized (header body : Bytes) : Type 0 where
  pub header_end : behind blank_line header ≡ some []
  pub not_chunked : find_chunked header ≡ false
  pub sized : find_content_length header ≡ length body
  pub not_empty : 0 < length body

-- A round that brings bytes and no error.
pub record IsArrival (r : Round) : Type 0 where
  pub some_bytes : is_empty r.bytes ≡ false
  pub no_failure : r.code ≡ no_error

-- The text that rounds bring in their first reads.
abbrev pub text_of : List Round → Bytes
text_of [] = []
text_of (r ∷ rs) = r.bytes ++ text_of rs

text_of_pos : (r : Round) (rs : List Round) → IsArrival r → 0 < length (text_of (r ∷ rs))
text_of_pos r rs a = go r.bytes a.some_bytes
  where
    go : (bs : Bytes) → is_empty bs ≡ false → 0 < length (bs ++ text_of rs)
    go [] e = absurd (unfold is_empty in ground (arith, e))
    go (b ∷ bs) e = omega arith

abbrev rest_of : Option Bytes → Bytes
rest_of none = []
rest_of (some text) = text

pub round_stops :
    (head_request : Bool) (r : Round) (rs : List Round) (s : Reading)
    → is_empty r.bytes ≡ false
    → is_complete head_request (receive r.bytes s) ≡ true
    → read_response head_request (r ∷ rs) s ≡ some (returned (receive r.bytes s).response_data)
unfolding read_response
round_stops head_request r rs s e c = rw (e, read_response, c)

round_continues :
    (head_request : Bool) (r : Round) (rs : List Round) (s : Reading)
    → IsArrival r
    → is_complete head_request (receive r.bytes s) ≡ false
    → waits (receive r.bytes s) ≡ false
    → read_response head_request (r ∷ rs) s ≡ read_response head_request rs (receive r.bytes s)
unfolding read_response
round_continues head_request r rs s a c w = rw (a.some_bytes, read_response, c, a.no_failure, w)

module _ (h body : Bytes) (v : IsSized h body) where
  whole : behind blank_line (h ++ body) ≡ some body
  whole = behind_longer b'\r' _ h body [] v.header_end

  whole_header : take (length (h ++ body) - length body) (h ++ body) ≡ h
  whole_header =
      subst (λ n. take n (h ++ body) ≡ h) (omega (arith, length-append h body)) (take-append h body)

  -- What a text that starts the response tells, once the header is in it.
  found_part :
      (p more b : Bytes)
      → p ++ more ≡ h ++ body
      → behind blank_line p ≡ some b
      → (length b + length more ≡ length body)
        × ((found p b).content_length ≡ length body)
        × ((found p b).is_chunked ≡ false)
  unfolding found
  found_part p more b e f =
      let rest : b ++ more ≡ body =
        ap rest_of (sym (behind_longer b'\r' _ p more b f) ∙ (ap (behind blank_line) e ∙ whole)) in
      let longer : found (h ++ body) body ≡ record (found p b) { response_data = h ++ body } =
        subst (λ t. found t body ≡ record (found p b) { response_data = t }) e
          (subst (λ u. found (p ++ more) u ≡ record (found p b) { response_data = p ++ more }) rest
            (found_longer p more b (omega (arith, behind-length blank_line p b f)))) in
      (
        omega (arith, length-append b more, ap length rest),
        sym (ap (λ s. s.content_length) longer) ∙ (ap find_content_length whole_header ∙ v.sized),
        sym (ap (λ s. s.is_chunked) longer) ∙ (ap find_chunked whole_header ∙ v.not_chunked),
      )

  ends_whole : (p : Bytes) → p ≡ h ++ body → is_complete false (state_of p) ≡ true
  unfolding is_complete
  ends_whole p e =
      let f = ap (behind blank_line) e ∙ whole in
      let q = found_part p [] body (append-nil p ∙ e) f in
      rw (state_of-found p body f)
        (unfold found in ground (arith, q, v.not_empty, behind-length blank_line p body f))

  goes_on :
      (p more : Bytes)
      → p ++ more ≡ h ++ body
      → 0 < length more
      → (is_complete false (state_of p) ≡ false) × (waits (state_of p) ≡ false)
  unfolding is_complete waits
  goes_on p more e lt = elim (Option-cases (behind blank_line p)) [
    | inl n ↦ rw (state_of-none p n) (refl, refl)
    | inr (b, f) ↦
        let q = found_part p more b e f in
        rw (state_of-found p b f)
          (unfold found in ground (arith, q, v.not_empty, lt, behind-length blank_line p b f))
  ]

  sized_rounds :
      (p : Bytes) (r : Round) (rs : List Round)
      → All IsArrival (r ∷ rs)
      → p ++ text_of (r ∷ rs) ≡ h ++ body
      → read_response false (r ∷ rs) (state_of p) ≡ some (returned (h ++ body))
  unfolding read_response
  sized_rounds p r [] a e =
      let q = p ++ r.bytes in
      let same : q ≡ h ++ body = ap (◌++◌ p) (sym (append-nil r.bytes)) ∙ e in
      let received = receive-state_of p r.bytes in
      round_stops false r [] (state_of p) a.0.some_bytes
        (subst (λ t. is_complete false t ≡ true) (sym received) (ends_whole q same))
      ∙ ap (λ t. some (returned t.response_data)) received
      ∙ ap (λ text. some (returned text)) (state_of-response_data q ∙ same)
  sized_rounds p r (s ∷ rs) a e =
      let q = p ++ r.bytes in
      let same : q ++ text_of (s ∷ rs) ≡ h ++ body =
        append_assoc p r.bytes (text_of (s ∷ rs)) ∙ e in
      let g = goes_on q (text_of (s ∷ rs)) same (text_of_pos s rs a.1.0) in
      let received = receive-state_of p r.bytes in
      round_continues false r (s ∷ rs) (state_of p) a.0
        (subst (λ t. is_complete false t ≡ false) (sym received) g.0)
        (subst (λ t. waits t ≡ false) (sym received) g.1)
      ∙ ap (read_response false (s ∷ rs)) received
      ∙ sized_rounds q s rs a.1 same

-- Where the response's header ends with its first empty line, gives the length of the body in a
-- Content-Length, not 0, and is not chunked, co_read_response returns the header and the body,
-- however the bytes arrive in rounds without an error, to any request but HEAD.
pub co_read_response-IsSized :
    (header body : Bytes) (rounds : List Round)
    → IsSized header body
    → All IsArrival rounds
    → text_of rounds ≡ header ++ body
    → co_read_response false rounds ≡ some (returned (header ++ body))
unfolding co_read_response
co_read_response-IsSized header body [] v a e =
    absurd (omega (arith, v.not_empty, length-append header body, ap length e))
co_read_response-IsSized header body (r ∷ rs) v a e =
    rw (sym state_of-nil) (sized_rounds header body v [] r rs a e)
