-- ===== src/Chunked/RoundTrip.antt =====
-- decode_chunked on bodies as a server sends them, whole and cut off.
use coro_http.Base.{
  ℕ, zero, suc, ◌-◌, ◌^◌, ◌≤◌, ◌<◌, ◌≡◌, refl, ap, some, List, [], ◌∷◌, ◌++◌, Bytes, codes, length,
  length-append, take, drop, take-append, drop-append, replicate, All, All-append, getline,
  getline-append, strip_cr, span, split_at, arith, append_assoc, append-nil,
}
use mathlib.Core.Path.{subst}
use coro_http.Base.Number.{
  isspace, isdigit, is_hex, hex_value, hex_digits_value, skip_0x, unsigned_of, unsigned_signed,
  stoul16,
}
use coro_http.Base.Outcome.{returned, and_then, chop, chop-append}
use coro_http.Chunked.{read_chunk, skip_line, size_of, size_line, chunk_loop, decode_chunked}
use coro_http.Chunked.Hex.{
  to_hex, to_hex_cons, IsHex, size_line-IsHex, no_newline, to_hex-IsHex, hex_digits_value-to_hex,
}

-- The chunked coding of RFC 9112, section 7.1, without extensions and trailers.
pub encode_chunks : List Bytes → Bytes
unfolding to_hex
encode_chunks [] = codes "0\r\n\r\n"
encode_chunks (c ∷ cs) =
    to_hex (length c) ++ (b'\r' ∷ b'\n' ∷ (c ++ (b'\r' ∷ b'\n' ∷ encode_chunks cs)))

pub concat : List Bytes → Bytes
concat [] = []
concat (c ∷ cs) = c ++ concat cs

-- The size of a chunk is read from its line, in front of any text.
getline_line :
    (s rest : Bytes)
    → IsHex s
    → getline b'\n' (s ++ (b'\r' ∷ b'\n' ∷ rest)) ≡ some (s ++ (b'\r' ∷ []), rest)
getline_line s rest h =
    subst (λ t. getline b'\n' t ≡ some (s ++ (b'\r' ∷ []), rest))
      (append_assoc s (b'\r' ∷ []) (b'\n' ∷ rest))
      (getline-append b'\n' (s ++ (b'\r' ∷ [])) rest
        (All-append _ s (b'\r' ∷ []) (no_newline s h) (ground arith, tt)))

read_chunk-append : (c rest : Bytes) → read_chunk (length c) (c ++ rest) ≡ c
unfolding read_chunk
read_chunk-append c rest = rw (take-append c rest, none_missing) (append-nil c)
  where
    none_missing : length c - length (c ++ rest) ≡ 0
    none_missing = omega (arith, length-append c rest)

-- The end of a body.
last_chunk : (fuel max_size : ℕ) → chunk_loop (suc fuel) max_size (codes "0\r\n\r\n") ≡ returned []
unfolding chunk_loop getline split_at chop strip_cr size_line stoul16 unsigned_signed skip_0x is_hex
    isspace span unsigned_of hex_digits_value hex_value size_of isdigit
last_chunk fuel max_size = refl

length-chunk :
    (c more : Bytes)
    → length more < length (to_hex (length c) ++ (b'\r' ∷ b'\n' ∷ (c ++ (b'\r' ∷ b'\n' ∷ more))))
length-chunk c more = omega (
  arith,
  length-append (to_hex (length c)) (b'\r' ∷ b'\n' ∷ (c ++ (b'\r' ∷ b'\n' ∷ more))),
  length-append c (b'\r' ∷ b'\n' ∷ more),
)

-- One round of the loop, on a chunk as it is sent.
chunk_loop-chunk :
    (fuel max_size : ℕ) (c more : Bytes)
    → 0 < length c
    → length c ≤ max_size
    → max_size < 2 ^ 64
    → chunk_loop
        (suc fuel)
        max_size
        (to_hex (length c) ++ (b'\r' ∷ b'\n' ∷ (c ++ (b'\r' ∷ b'\n' ∷ more))))
      ≡ and_then (chunk_loop fuel max_size more) (λ later. returned (c ++ later))
unfolding chunk_loop
chunk_loop-chunk fuel max_size c more p le lt =
    let text = c ++ (b'\r' ∷ b'\n' ∷ more) in
    rw
      (
        getline_line (to_hex (length c)) text (to_hex-IsHex (length c)),
        chunk_loop,
        chop-append (to_hex (length c)) (to_hex_cons (length c)),
        size_line-IsHex max_size (length c) (to_hex (length c)) (to_hex_cons (length c))
            (to_hex-IsHex (length c)) (hex_digits_value-to_hex (length c)) p le lt,
        drop-append c (b'\r' ∷ b'\n' ∷ more),
        read_chunk-append c (b'\r' ∷ b'\n' ∷ more),
      )
      (unfold skip_line getline split_at in refl)

abbrev pub AreChunks : ℕ → List Bytes → Type 0
AreChunks max_size = All λ c. (0 < length c) × (length c ≤ max_size)

chunk_loop-encode_chunks :
    (fuel max_size : ℕ) (cs : List Bytes)
    → length (encode_chunks cs) ≤ fuel
    → max_size < 2 ^ 64
    → AreChunks max_size cs
    → chunk_loop fuel max_size (encode_chunks cs) ≡ returned (concat cs)
unfolding encode_chunks concat
chunk_loop-encode_chunks zero max_size [] h lt a = absurd (omega arith)
chunk_loop-encode_chunks (suc fuel) max_size [] h lt a = last_chunk fuel max_size
chunk_loop-encode_chunks zero max_size (c ∷ cs) h lt a =
    absurd (omega (arith, length-chunk c (encode_chunks cs), h))
chunk_loop-encode_chunks (suc fuel) max_size (c ∷ cs) h lt a =
    rw
      (
        chunk_loop-chunk fuel max_size c (encode_chunks cs) a.0.0 a.0.1 lt,
        chunk_loop-encode_chunks fuel max_size cs
            (omega (arith, length-chunk c (encode_chunks cs), h)) lt a.1,
      )
      refl

-- A body sent in chunks, none empty and each short enough for a string, is decoded to the chunks
-- joined.
pub decode_chunked-encode_chunks :
    (max_size : ℕ) (cs : List Bytes)
    → max_size < 2 ^ 64
    → AreChunks max_size cs
    → decode_chunked max_size (encode_chunks cs) ≡ returned (concat cs)
unfolding decode_chunked
decode_chunked-encode_chunks max_size cs lt a =
    chunk_loop-encode_chunks (length (encode_chunks cs)) max_size cs (omega arith) lt a

take_past : (n : ℕ) (c : Bytes) → length c < n → take n c ≡ c
take_past zero c h = absurd (omega arith)
take_past (suc n) [] h = refl
take_past (suc n) (x ∷ xs) h = ap (◌∷◌ x) (take_past n xs (omega arith))

drop_past : (n : ℕ) (c : Bytes) → length c < n → drop n c ≡ []
drop_past zero c h = absurd (omega arith)
drop_past (suc n) [] h = refl
drop_past (suc n) (x ∷ xs) h = drop_past n xs (omega arith)

chunk_loop-nil : (fuel max_size : ℕ) → chunk_loop fuel max_size [] ≡ returned []
unfolding chunk_loop getline
chunk_loop-nil zero max_size = refl
chunk_loop-nil (suc fuel) max_size = refl

chunk_loop_truncated :
    (fuel max_size n : ℕ) (c : Bytes)
    → 0 < fuel
    → length c < n
    → n ≤ max_size
    → max_size < 2 ^ 64
    → chunk_loop fuel max_size (to_hex n ++ (b'\r' ∷ b'\n' ∷ c))
      ≡ returned (c ++ replicate (n - length c) 0)
unfolding chunk_loop read_chunk
chunk_loop_truncated zero max_size n c p lt le max = absurd (omega arith)
chunk_loop_truncated (suc fuel) max_size n c p lt le max =
    rw
      (
        getline_line (to_hex n) c (to_hex-IsHex n),
        chunk_loop,
        chop-append (to_hex n) (to_hex_cons n),
        size_line-IsHex max_size n (to_hex n) (to_hex_cons n) (to_hex-IsHex n)
            (hex_digits_value-to_hex n) (omega arith) le max,
        drop_past n c lt,
        take_past n c lt,
      )
      (unfold skip_line getline in rw (chunk_loop-nil fuel max_size) (ap returned (append-nil _)))

-- A body that ends within a chunk is decoded to the announced size all the same, with NUL bytes for
-- those that are missing.
pub decode_chunked_truncated :
    (max_size n : ℕ) (c : Bytes)
    → length c < n
    → n ≤ max_size
    → max_size < 2 ^ 64
    → decode_chunked max_size (to_hex n ++ (b'\r' ∷ b'\n' ∷ c))
      ≡ returned (c ++ replicate (n - length c) 0)
unfolding decode_chunked
decode_chunked_truncated max_size n c lt le max =
    chunk_loop_truncated (length (to_hex n ++ (b'\r' ∷ b'\n' ∷ c))) max_size n c
      (omega (arith, length-append (to_hex n) (b'\r' ∷ b'\n' ∷ c))) lt le max
