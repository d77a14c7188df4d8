-- ===== src/Reading/Tests.antt =====
-- Runs of co_read_response.
use coro_http.Base.{
  ◌≡◌, refl, false, none, some, List, [], ◌∷◌, ◌++◌, Bytes, codes, behind, contains, is_empty,
  arith, strip_prefix, span, All,
}
use coro_http.Base.Number.{stoull}
use coro_http.Base.Outcome.{returned}
use coro_http.Reading.{no_error, Round, co_read_response, find_content_length, find_chunked}
use coro_http.Reading.Sized.{IsSized, IsArrival, co_read_response-IsSized}
use coro_http.Reading.Cut.{co_read_response_cut}

abbrev arrives : Bytes → Round
arrives bytes = record { bytes = bytes; code = no_error; available = false; peeked = [] }

abbrev sized_header : Bytes
sized_header = codes "HTTP/1.1 200 OK\r\nContent-Length: 5 \r\n\r\n"

abbrev sized_rounds : List Round
sized_rounds =
    arrives (codes "HTTP/1.1 200 OK\r\nContent-Le")
    ∷ arrives (codes "ngth: 5 \r\n\r")
    ∷ arrives (codes "\nab")
    ∷ arrives (codes "cde")
    ∷ []

sized_header-IsSized : IsSized sized_header (codes "abcde")
unfolding behind strip_prefix find_content_length stoull span contains find_chunked
    coro_http.Cookie.trim is_empty
sized_header-IsSized = record {
  header_end = refl;
  not_chunked = refl;
  sized = refl;
  not_empty = omega arith;
}

arrives-IsArrival : All IsArrival sized_rounds
unfolding is_empty
arrives-IsArrival = (
  record { some_bytes = refl; no_failure = refl },
  (
    record { some_bytes = refl; no_failure = refl },
    (
      record { some_bytes = refl; no_failure = refl },
      (record { some_bytes = refl; no_failure = refl }, tt),
    ),
  ),
)

co_read_response-IsSized_example :
    co_read_response false sized_rounds ≡ some (returned (sized_header ++ codes "abcde"))
co_read_response-IsSized_example =
    co_read_response-IsSized sized_header (codes "abcde") sized_rounds sized_header-IsSized
      arrives-IsArrival refl

abbrev chunked_header : Bytes
chunked_header =
    codes "HTTP/1.1 200 OK\r\nTransfer-Encoding: chunked\r\nKeep-Alive: max=100\r\n\r\n"

co_read_response_cut_example :
    co_read_response false (arrives chunked_header ∷ arrives (codes "1\r\nx\r\n0\r\n\r\n") ∷ [])
    ≡ some (returned chunked_header)
unfolding behind strip_prefix contains find_chunked is_empty
co_read_response_cut_example =
    co_read_response_cut chunked_header (arrives chunked_header)
      (arrives (codes "1\r\nx\r\n0\r\n\r\n") ∷ []) refl refl refl refl refl

-- Without a length the response is over when nothing is available for a while.
quiet :
    co_read_response false (arrives (codes "HTTP/1.1 204 \r\n\r\n") ∷ [])
    ≡ some (returned (codes "HTTP/1.1 204 \r\n\r\n"))
unfolding co_read_response is_empty behind contains
quiet = refl

still_waiting : co_read_response false (arrives (codes "HTTP/1.1 204") ∷ []) ≡ none
unfolding co_read_response is_empty behind
still_waiting = refl
