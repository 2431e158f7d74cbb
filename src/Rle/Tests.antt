-- ===== src/Rle/Tests.antt =====
-- Runs of the run-length coding, and its theorems at concrete buffers.
use asm_os.Prelude.{
  ℕ, ◌+◌, ◌≤◌, ◌≡◌, refl, ◌⊎◌, inl, some, List, [], ◌∷◌, ◌++◌, arith, length, replicate,
}
use asm_os.Rle.{count_run, compress_from, swap_compress, swap_decompress}
use asm_os.Rle.Roundtrip.{swap_decompress-compress}
use asm_os.Rle.Truncation.{swap_compress_plain}

abbrev zeros : List ℕ
zeros = replicate 6 0 ++ 7 ∷ []

compress_runs : swap_compress zeros ≡ 134 ∷ 0 ∷ 7 ∷ []
unfolding swap_compress compress_from count_run
compress_runs = refl

swap_decompress-compress_example :
    (read : List ℕ) × (rest : List ℕ) × (read ++ rest ≡ zeros)
    × (swap_decompress (swap_compress zeros) ≡ some read)
    × ((rest ≡ []) ⊎ (length zeros ≤ length (swap_compress zeros) + 2))
    × (length (swap_compress zeros) ≤ length zeros)
swap_decompress-compress_example = swap_decompress-compress zeros (omega arith)

swap_compress_plain_example : swap_compress (1 ∷ 2 ∷ 3 ∷ 4 ∷ []) ≡ 1 ∷ 2 ∷ []
swap_compress_plain_example =
    swap_compress_plain (1 ∷ 2 ∷ 3 ∷ 4 ∷ [])
      (inl (omega arith), (inl (omega arith), (tt, (tt, tt))))
