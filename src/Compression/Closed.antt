-- ===== src/Compression/Closed.antt =====
-- The stream of zlib on every way out of the functions of include/coro_http/compression.hpp.
use coro_http.Base.{
  ℕ, zero, suc, ◌≡◌, refl, ◌⊎◌, inl, inr, Bool, true, false, Option, some, Bytes, ◌++◌, codes, [],
}
use coro_http.Base.Outcome.{Outcome, returned, thrown}
use coro_http.Base.Triples.{Ends, Ends-both, Triple-bind}
use coro_http.Base.Awaiting.{co_return, throw, modify, ◌>>=◌, ◌>>◌}
use coro_http.Base.{if◌then◌else◌}
use coro_http.Compression.{
  Zlib, ReturnCode, ok, stream_end, failed, available_input, inflate_loop, decompress_gzip,
  decompress_deflate,
}

module _ {Z : Type 0} (zlib : Zlib Z) where
  -- The calls of `inflate` behind `z`, none of them failed but maybe the last.
  pub data Inflated : Z → ReturnCode → Bytes → Z → Type 0 where
    first : (z : Z) → Inflated z ok [] z
    another :
        {z z' : Z} {bytes : Bytes}
        → Inflated z ok bytes z'
        → Inflated z
            (zlib.inflate 32768 z').0.0
            (bytes ++ (zlib.inflate 32768 z').0.1)
            (zlib.inflate 32768 z').1

  -- The bytes of the calls up to the end of the stream, which has been ended.
  abbrev Ended : Z → Bytes → Z → Type 0
  Ended z bytes later = (z' : Z) × (Inflated z stream_end bytes z' × (later ≡ zlib.inflate_end z'))

  -- A call failed, and the stream has been ended.
  abbrev Broken : Z → Z → Type 0
  Broken z later =
      (bytes : Bytes) × ((z' : Z) × (Inflated z failed bytes z' × (later ≡ zlib.inflate_end z')))

  inflate_loop-Inflated :
      (error : Bytes) (z : Z) (fuel : ℕ) (decompressed : Bytes) (z' : Z)
      → Inflated z ok decompressed z'
      → Ends
          (λ bytes later. Inflated z stream_end bytes later)
          (Broken z)
          (inflate_loop zlib error fuel decompressed z')
  unfolding inflate_loop
  inflate_loop-Inflated error z zero decompressed z' h = tt
  inflate_loop-Inflated error z (suc fuel) decompressed z' h =
      let r = zlib.inflate 32768 z' in
      elim r.0.0
          as (λ ret.
            Inflated z ret (decompressed ++ r.0.1) r.1
            → Ends (λ bytes later. Inflated z stream_end bytes later) (Broken z)
                (elim ret [
                  | failed ↦ some (thrown error, zlib.inflate_end r.1)
                  | stream_end ↦ some (returned (decompressed ++ r.0.1), r.1)
                  | ok ↦ inflate_loop zlib error fuel (decompressed ++ r.0.1) r.1
                ])) [
                  | failed ↦ λ k. (decompressed ++ r.0.1, (r.1, (k, refl)))
                  | stream_end ↦ λ k. k
                  | ok ↦ λ k. inflate_loop-Inflated error z fuel (decompressed ++ r.0.1) r.1 k
                ]
        (another h)

  -- Either the initialisation has failed, or the stream is ended where the function is left.
  abbrev Closed : Bool → Z → Option (Outcome Bytes × Z) → Type 0
  Closed is_ok z =
      Ends (λ bytes later. (is_ok ≡ true) × Ended z bytes later)
        (λ later. ((is_ok ≡ false) × (later ≡ z)) ⊎ ((is_ok ≡ true) × Broken z later))

  abbrev pub Closes : ℕ → Bytes → Z → Option (Outcome Bytes × Z) → Type 0
  Closes bits compressed_data z =
      let (is_ok, z') = zlib.inflate_init bits (available_input compressed_data) z in
      Closed is_ok z'

  -- What both functions do behind the initialisation.
  behind_init-Closed :
      (is_ok : Bool) (init_error error : Bytes) (fuel : ℕ) (z : Z)
      → Closed is_ok z (
          ((if is_ok then co_return tt else throw init_error)
              >> (inflate_loop zlib error fuel [] >>= λ decompressed.
                  modify zlib.inflate_end >> co_return decompressed))
            z)
  behind_init-Closed false init_error error fuel z = inl (refl, refl)
  behind_init-Closed true init_error error fuel z =
      (Triple-bind {P = λ s. s ≡ z} (λ bytes later. Inflated z stream_end bytes later)
          (inflate_loop zlib error fuel []) _
          (record {
            at = λ s p. rw p (
                Ends-both (inflate_loop zlib error fuel [] z) (λ bytes later h. h)
                  (λ later h. inr (refl, h)) (inflate_loop-Inflated error z fuel [] z (first z)));
          })
          (λ decompressed. record { at = λ later h. (refl, (later, (h, refl))) })).at
        z refl

  -- Whatever zlib does: a text that the functions return is what the calls of `inflate` wrote, up to the
  -- end of the stream; where they throw, the initialisation or a call has failed; and the stream is ended
  -- once behind the last call on every way out, but where it was not initialised.
  pub decompress-Closes :
      (fuel : ℕ) (compressed_data : Bytes) (z : Z)
      → Closes 31 compressed_data z (decompress_gzip zlib fuel compressed_data z)
        × Closes 15 compressed_data z (decompress_deflate zlib fuel compressed_data z)
  unfolding decompress_gzip decompress_deflate
  decompress-Closes fuel compressed_data z = (
    behind_init-Closed _ _ (codes "Failed to decompress gzip data") fuel _,
    behind_init-Closed _ _ (codes "Failed to decompress deflate data") fuel _,
  )
