-- ===== src/Chunked/Tests.antt =====
-- Runs of decode_chunked.
use coro_http.Base.{
  ℕ, ◌≡◌, ◌^◌, refl, List, [], ◌∷◌, ◌++◌, Bytes, codes, length, replicate, getline, split_at,
  strip_cr, span, arith, ◌-◌,
}
use coro_http.Base.Outcome.{returned, undefined, chop}
use coro_http.Chunked.{decode_chunked}
use coro_http.Chunked.Hex.{to_hex}
use coro_http.Chunked.RoundTrip.{
  encode_chunks, concat, decode_chunked-encode_chunks, decode_chunked_truncated,
}

mixed_case :
    decode_chunked 100 (codes "0xA;ext\r\n0123456789\r\n\r\n1\r\nz\r\n0\r\nTrailer: x\r\n\r\n")
    ≡ returned (codes "0123456789z")
unfolding decode_chunked getline split_at chop coro_http.Base.Number.stoul16
mixed_case = refl

bare_newline : decode_chunked 100 (codes "\n1\nz\n") ≡ undefined
unfolding decode_chunked getline split_at chop
bare_newline = refl

abbrev two_chunks : List Bytes
two_chunks = codes "ab\r\n" ∷ codes "c" ∷ []

decode_chunked-encode_chunks_example :
    decode_chunked 1000 (encode_chunks two_chunks) ≡ returned (concat two_chunks)
decode_chunked-encode_chunks_example =
    decode_chunked-encode_chunks 1000 two_chunks (omega arith)
      ((omega arith, omega arith), ((omega arith, omega arith), tt))

decode_chunked_truncated_example :
    decode_chunked 1000 (to_hex 5 ++ (b'\r' ∷ b'\n' ∷ codes "ab"))
    ≡ returned (codes "ab" ++ replicate (5 - length (codes "ab")) 0)
decode_chunked_truncated_example =
    decode_chunked_truncated 1000 5 (codes "ab") (omega arith) (omega arith) (omega arith)
