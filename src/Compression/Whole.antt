-- ===== src/Compression/Whole.antt =====
-- Whole compressed bodies (include/coro_http/compression.hpp).
use coro_http.Base.{
  Option, codes, arith, ℕ, zero, suc, ◌+◌, ◌<◌, ◌≡◌, refl, ◌⊎◌, inl, inr, true, [], ◌++◌,
  append_assoc, Bytes, length, some,
}
use coro_http.Base.Awaiting.{bind-returned, co_return, modify, ◌>>=◌, ◌>>◌}
use coro_http.Base.Outcome.{Outcome, returned}
use coro_http.Compression.{
  Zlib, ok, stream_end, available_input, inflate_loop, decompress_gzip, decompress_deflate,
}

module _ {Z : Type 0} (zlib : Zlib Z) where
  -- What zlib documents of a stream: `Holds text n z` is one that has `text` left to write, and `n` bytes
  -- of input left. It ends where all is written, and until then makes some progress.
  pub record Documented : Type 1 where
    pub Holds : Bytes → ℕ → Z → Type 0
    pub proceeds :
        (text : Bytes) (n : ℕ) (z : Z)
        → Holds text n z
        → let ((ret, bytes), z') = zlib.inflate 32768 z in
          ((ret ≡ stream_end) × (bytes ≡ text))
          ⊎ ((ret ≡ ok)
              × ((rest : Bytes) × (m : ℕ) × (text ≡ bytes ++ rest)
                  × (Holds rest m z')
                  × (m + length rest < n + length text)))

  module _ (documented : Documented) where
    open documented use {Holds, proceeds}

    -- The stream behind its initialisation, which succeeds.
    abbrev pub Initialized : ℕ → Bytes → Z → Bytes → ℕ → Type 0
    Initialized bits compressed_data z text n =
        let q = zlib.inflate_init bits (available_input compressed_data) z in
        (q.0 ≡ true) × Holds text n q.1

  -- The text is returned, and the stream ended.
  abbrev pub Decompresses : Option (Outcome Bytes × Z) → Bytes → Type 0
  Decompresses r text = (later : Z) × (r ≡ some (returned text, zlib.inflate_end later))

  module _ (documented : Documented) where
    open documented use {Holds, proceeds}

    inflate_loop-Holds :
        (error : Bytes) (fuel : ℕ) (decompressed text : Bytes) (n : ℕ) (z : Z)
        → Holds text n z
        → n + length text < fuel
        → (later : Z) × (inflate_loop zlib error fuel decompressed z
            ≡ some (returned (decompressed ++ text), later))
    unfolding inflate_loop
    inflate_loop-Holds error zero decompressed text n z h lt = absurd (omega (arith, lt))
    inflate_loop-Holds error (suc fuel) decompressed text n z h lt = elim (proceeds text n z h) [
      | inl (e, b) ↦ ((zlib.inflate 32768 z).1, rw (e, b, inflate_loop) refl)
      | inr (e, (rest, m, t, k, less)) ↦
          let (later, q) =
            inflate_loop-Holds error fuel (decompressed ++ (zlib.inflate 32768 z).0.1) rest m
              (zlib.inflate 32768 z).1 k (omega (arith, less, lt)) in
          (
            later,
            rw (e, inflate_loop, q, t, append_assoc decompressed (zlib.inflate 32768 z).0.1 rest)
                refl,
          )
    ]

    -- What both functions do on a stream that is initialised.
    ended-Holds :
        (error : Bytes) (fuel : ℕ) (text : Bytes) (n : ℕ) (z : Z)
        → Holds text n z
        → n + length text < fuel
        → Decompresses
            ((inflate_loop zlib error fuel [] >>= λ decompressed.
                modify zlib.inflate_end >> co_return decompressed)
              z)
            text
    ended-Holds error fuel text n z h lt =
        let (later, e) = inflate_loop-Holds error fuel [] text n z h lt in
        (
          later,
          bind-returned (inflate_loop zlib error fuel [])
              (λ decompressed. modify zlib.inflate_end >> co_return decompressed) text z later e,
        )

    -- Where zlib is as documented: from data that it takes for a gzip stream, decompress_gzip returns
    -- exactly the text that the stream holds, and from data that it takes for a zlib stream,
    -- decompress_deflate does; both end the stream, within one round more than the bytes of text and
    -- input left.
    pub decompress-Holds :
        (fuel n m : ℕ) (gzipped deflated text other : Bytes) (z : Z)
        → Initialized documented 31 gzipped z text n
        → Initialized documented 15 deflated z other m
        → n + length text < fuel
        → m + length other < fuel
        → Decompresses (decompress_gzip zlib fuel gzipped z) text
          × Decompresses (decompress_deflate zlib fuel deflated z) other
    unfolding decompress_gzip decompress_deflate
    decompress-Holds fuel n m gzipped deflated text other z h k lt lt' = (
      rw h.0 (ended-Holds (codes "Failed to decompress gzip data") fuel text n _ h.1 lt),
      rw k.0 (ended-Holds (codes "Failed to decompress deflate data") fuel other m _ k.1 lt'),
    )
