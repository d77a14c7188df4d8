-- ===== src/Reading/Cut.antt =====
-- co_read_response on chunked responses with a 0 at the end of the header.
use coro_http.Base.{
  ◌-◌, ◌≡◌, refl, ap, sym, ◌∙◌, true, false, some, List, [], ◌∷◌, Bytes, codes, behind, contains,
  is_empty, length, take, take-append, append-nil, arith,
}
use mathlib.Core.Path.{subst}
use coro_http.Base.Outcome.{returned}
use coro_http.Reading.{Round, find_chunked, receive, is_complete, co_read_response, no_reading}
use coro_http.Reading.Splits.{
  state_of, blank_line, found, state_of-found, receive-state_of, state_of-response_data,
  state_of-nil,
}
use coro_http.Reading.Sized.{round_stops}

complete_header :
    (header : Bytes)
    → behind blank_line header ≡ some []
    → find_chunked header ≡ true
    → contains (codes "0\r\n\r\n") header ≡ true
    → is_complete false (state_of header) ≡ true
unfolding is_complete found
complete_header header e c z = rw (state_of-found header [] e, all_taken) (rw (c, z) refl)
  where
    all_taken : take (length header - 0) header ≡ header
    all_taken =
        subst (λ n. take n header ≡ header) (omega arith)
          (subst (λ t. take (length header) t ≡ header) (append-nil header) (take-append header []))

-- Where a chunked response's header has a 0 in front of its empty line, as in
-- `Keep-Alive: timeout=5, max=100`, and the first round brings the header alone, co_read_response
-- returns it without a body, whatever the later rounds bring, to any request but HEAD.
pub co_read_response_cut :
    (header : Bytes) (r : Round) (rs : List Round)
    → behind blank_line header ≡ some []
    → find_chunked header ≡ true
    → contains (codes "0\r\n\r\n") header ≡ true
    → r.bytes ≡ header
    → is_empty r.bytes ≡ false
    → co_read_response false (r ∷ rs) ≡ some (returned header)
unfolding co_read_response
co_read_response_cut header r rs e c z b ne =
    let received = ap (receive r.bytes) (sym state_of-nil) ∙ receive-state_of [] r.bytes in
    round_stops false r rs no_reading ne (
      subst (λ t. is_complete false t ≡ true) (sym received)
        (subst (λ t. is_complete false (state_of t) ≡ true) (sym b) (complete_header header e c z)))
    ∙ ap (λ t. some (returned t.response_data)) received
    ∙ ap (λ text. some (returned text)) (state_of-response_data r.bytes ∙ b)
