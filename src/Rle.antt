-- ===== src/Rle.antt =====
-- src/memory_budget.c, `swap_compress` and `swap_decompress`: run-length coding of a byte buffer.
pub mod Bits
pub mod Roundtrip
pub mod Truncation
mod Tests
use asm_os.Prelude.{
  ℕ, zero, suc, ◌+◌, ◌-◌, bit_and, bit_or, true, false, ◌&&◌, Option, none, some, List, [], ◌∷◌,
  ◌++◌, ltb, leb, ◌==◌, if◌then◌else◌, length, drop, replicate,
}
use asm_os.Prelude.Words.{u8}
use mathlib.Core.Option

-- The inner loop of `swap_compress`: how long the run of `run` is, given `count` bytes of it.
pub count_run : ℕ → List ℕ → ℕ → ℕ
count_run run [] count = count
count_run run (x ∷ xs) count =
    let more = count_run run xs (count + 1) in if x == run && ltb count 127 then more else count

-- The outer loop, at the bytes from `i` on, with `o` bytes written: what it writes from there, and
-- the bytes that it leaves unread. The fuel bounds the rounds, each of which reads a byte.
pub compress_from : ℕ → ℕ → List ℕ → ℕ → List ℕ × List ℕ
compress_from fuel len [] o = ([], [])
compress_from zero len (x ∷ xs) o = ([], x ∷ xs)
compress_from (suc fuel) len (x ∷ xs) o = elim (ltb (o + 2) len) [
  | false ↦ ([], x ∷ xs)
  | true ↦ elim (leb 3 (count_run x xs 1)) [
    | true ↦
        let (out, rest) = compress_from fuel len (drop (count_run x xs 1 - 1) xs) (o + 2) in
        (u8 (bit_or 0x80 (count_run x xs 1)) ∷ x ∷ out, rest)
    | false ↦ let (out, rest) = compress_from fuel len xs (o + 1) in (x ∷ out, rest)
  ]
]

-- The bytes of `dst`.
pub swap_compress : List ℕ → List ℕ
unfolding compress_from
swap_compress src = (compress_from (length src) (length src) src 0).0

-- `none` where the code reads a byte behind the end of `src`.
pub swap_decompress : List ℕ → Option (List ℕ)
swap_decompress [] = some []
swap_decompress (x ∷ []) = elim (bit_and x 0x80 == 0) [ true ↦ some (x ∷ []) | false ↦ none ]
swap_decompress (x ∷ v ∷ r) = elim (bit_and x 0x80 == 0) [
  | true ↦ Option.map (λ out. x ∷ out) (swap_decompress (v ∷ r))
  | false ↦ Option.map (λ out. replicate (bit_and x 0x7F) v ++ out) (swap_decompress r)
]
