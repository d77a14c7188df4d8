-- ===== src/Chunked.antt =====
-- include/coro_http/chunked_decoder.hpp. `max_size` is the longest `std::string`.
mod Hex
pub mod RoundTrip
mod Tests
use coro_http.Base.{
  ℕ, zero, suc, ◌-◌, Bool, true, false, Option, none, some, [], ◌∷◌, ◌++◌, Bytes, codes, is_empty,
  length, take, drop, replicate, getline, ltb, ◌==◌, if◌then◌else◌,
}
use coro_http.Base.Number.{stoul16}
use coro_http.Base.Outcome.{Outcome, returned, thrown, undefined, and_then, chop}

-- `chunk_data` after the `read`: NULs where the stream had less.
pub read_chunk : ℕ → Bytes → Bytes
read_chunk n text = take n text ++ replicate (n - length text) 0

-- The text behind the chunk and the rest of its line.
pub skip_line : Bytes → Bytes
skip_line text = elim (getline b'\n' text) [ none ↦ [] | some p ↦ p.1 ]

-- What a line of a chunk's size says; a string that is too long is the length_error of its constructor,
-- with the text it has in libstdc++.
pub data SizeLine : Type 0 where
  blank : SizeLine
  stop : SizeLine
  too_long : SizeLine
  size : ℕ → SizeLine

size_of : ℕ → ℕ → SizeLine
size_of max_size n = if n == 0 then stop else if ltb max_size n then too_long else size n

pub size_line : ℕ → Bytes → SizeLine
unfolding size_of
size_line max_size [] = blank
size_line max_size (c ∷ cs) = elim (stoul16 (c ∷ cs)) [ none ↦ stop | some n ↦ size_of max_size n ]

-- The loop. A round takes a character off the text at least, so its length is fuel enough.
pub chunk_loop : ℕ → ℕ → Bytes → Outcome Bytes
unfolding read_chunk skip_line size_line
chunk_loop zero max_size text = returned []
chunk_loop (suc fuel) max_size text = elim (getline b'\n' text) [
  | none ↦ returned []
  | some (line, rest) ↦ elim (chop line) [
    | thrown e ↦ thrown e
    | undefined ↦ undefined
    | returned l ↦ elim (size_line max_size l) [
      | blank ↦ chunk_loop fuel max_size rest
      | stop ↦ returned []
      | too_long ↦ thrown (codes "basic_string::_M_create")
      | size n ↦
          and_then (chunk_loop fuel max_size (skip_line (drop n rest)))
            (λ later. returned (read_chunk n rest ++ later))
    ]
  ]
]

pub decode_chunked : ℕ → Bytes → Outcome Bytes
unfolding chunk_loop
decode_chunked max_size text = chunk_loop (length text) max_size text
