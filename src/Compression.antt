-- ===== src/Compression.antt =====
-- include/coro_http/compression.hpp: decompress_gzip and decompress_deflate, around zlib.
use coro_http.Base.{
  ℕ, zero, suc, ◌%◌, Bool, true, false, List, [], ◌++◌, Bytes, codes, length, take, if◌then◌else◌,
  some, none, Option,
}
use coro_http.Base.Awaiting.{Awaitable, co_return, throw, modify, ◌>>=◌, ◌>>◌}
use coro_http.Base.Outcome.{Outcome, returned, thrown}
mod Whole
mod Closed
mod Tests

-- What `inflate` returns: Z_OK, Z_STREAM_END, or another code.
pub data ReturnCode : Type 0 where
  ok stream_end failed : ReturnCode

-- zlib, which is not part of the repository: `Z` is the state of the one stream and of its memory.
pub record Zlib (Z : Type 0) : Type 0 where
  -- `inflateInit2` with these window bits, on a stream whose input is set, and whether it is Z_OK
  pub inflate_init : ℕ → Bytes → Z → Bool × Z
  -- `inflate` with room for so many bytes: what it returns, and the bytes that it writes
  pub inflate : ℕ → Z → (ReturnCode × Bytes) × Z
  pub inflate_end : Z → Z

-- `avail_in` has 32 bits.
unfoldable pub available_input : Bytes → Bytes
available_input compressed_data = take (length compressed_data % 4294967296) compressed_data

module _ {Z : Type 0} (zlib : Zlib Z) where
  abbrev pub initialized : ℕ → Bytes → Awaitable Z Bool
  initialized bits compressed_data z =
      let q = zlib.inflate_init bits (available_input compressed_data) z in some (returned q.0, q.1)

  -- The loop, for so many rounds, with the text of its exception.
  pub inflate_loop : Bytes → ℕ → Bytes → Awaitable Z Bytes
  inflate_loop error zero decompressed z = none
  inflate_loop error (suc fuel) decompressed z =
      let ((ret, bytes), z') = zlib.inflate 32768 z in
      elim ret [
        | failed ↦ some (thrown error, zlib.inflate_end z')
        | stream_end ↦ some (returned (decompressed ++ bytes), z')
        | ok ↦ inflate_loop error fuel (decompressed ++ bytes) z'
      ]

  pub decompress_gzip : ℕ → Bytes → Awaitable Z Bytes
  decompress_gzip fuel compressed_data = do
    is_ok ← initialized 31 compressed_data
    if is_ok then co_return tt else throw (codes "Failed to initialize gzip decompression")
    decompressed ← inflate_loop (codes "Failed to decompress gzip data") fuel []
    modify zlib.inflate_end
    co_return decompressed

  pub decompress_deflate : ℕ → Bytes → Awaitable Z Bytes
  decompress_deflate fuel compressed_data = do
    is_ok ← initialized 15 compressed_data
    if is_ok then co_return tt else throw (codes "Failed to initialize deflate decompression")
    decompressed ← inflate_loop (codes "Failed to decompress deflate data") fuel []
    modify zlib.inflate_end
    co_return decompressed
