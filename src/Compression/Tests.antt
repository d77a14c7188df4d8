-- ===== src/Compression/Tests.antt =====
-- Runs over a zlib that writes a text in two pieces.
use coro_http.Base.{
  Bool, true, false, get_or, ◌==◌, if◌then◌else◌, [], ◌∷◌, arith, ℕ, suc, zero, ◌<◌, ◌+◌, ◌++◌, ◌⊎◌,
  length, sym, ◌≡◌, refl, inl, inr, Bytes, codes,
}
use coro_http.Compression.{
  Zlib, ReturnCode, ok, stream_end, failed, decompress_gzip, decompress_deflate,
}
use coro_http.Compression.Whole.{Documented, Decompresses, decompress-Holds}
use coro_http.Compression.Closed.{Closes, decompress-Closes}

-- The pieces left to write; 3 and more: the stream is broken.
abbrev pieces : ℕ → (ReturnCode × Bytes) × ℕ
pieces zero = ((stream_end, codes "c"), 0)
pieces (suc zero) = ((ok, codes "ab"), 0)
pieces (suc (suc n)) = ((failed, codes ""), suc n)

-- A gzip stream starts with 31, a zlib stream with 120; other data is refused.
abbrev starts : ℕ → Bytes → ℕ → Bool × ℕ
starts bits bytes z =
    if get_or bytes 0 0 == (if bits == 31 then 31 else 120) then (true, z) else (false, 0)

abbrev small_zlib : Zlib ℕ
small_zlib = record {
  inflate_init = λ bits bytes z. starts bits bytes z;
  inflate = λ room z. pieces z;
  inflate_end = λ z. 9;
}

abbrev Left : Bytes → ℕ → ℕ → Type 0
Left text n zero = text ≡ codes "c"
Left text n (suc zero) = text ≡ codes "abc"
Left text n (suc (suc z)) = ⊥

small_proceeds :
    (text : Bytes) (n z : ℕ)
    → Left text n z
    → let ((ret, bytes), z') = pieces z in
      ((ret ≡ stream_end) × (bytes ≡ text))
      ⊎ ((ret ≡ ok)
          × ((rest : Bytes) × (m : ℕ) × (text ≡ bytes ++ rest)
              × (Left rest m z')
              × (m + length rest < n + length text)))
small_proceeds text n zero h = inl (refl, sym h)
small_proceeds text n (suc zero) h = inr (refl, (codes "c", n, h, refl, rw h (omega arith)))
small_proceeds text n (suc (suc z)) h = absurd h

abbrev small_documented : Documented small_zlib
small_documented = record { Holds = Left; proceeds = small_proceeds }

decompress-Holds_example :
    Decompresses small_zlib (decompress_gzip small_zlib 5 (31 ∷ 139 ∷ []) 1) (codes "abc")
    × Decompresses small_zlib (decompress_deflate small_zlib 5 (120 ∷ 156 ∷ []) 1) (codes "abc")
unfolding coro_http.Compression.available_input
decompress-Holds_example =
    decompress-Holds small_zlib small_documented 5 1 1 (31 ∷ 139 ∷ []) (120 ∷ 156 ∷ [])
      (codes "abc") (codes "abc") 1 (refl, refl) (refl, refl) (omega arith) (omega arith)

decompress-Closes_example :
    Closes small_zlib 31 (31 ∷ 139 ∷ []) 2 (decompress_gzip small_zlib 5 (31 ∷ 139 ∷ []) 2)
    × Closes small_zlib 15 (31 ∷ 139 ∷ []) 2 (decompress_deflate small_zlib 5 (31 ∷ 139 ∷ []) 2)
decompress-Closes_example = decompress-Closes small_zlib 5 (31 ∷ 139 ∷ []) 2
