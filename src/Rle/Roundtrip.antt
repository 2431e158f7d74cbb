-- ===== src/Rle/Roundtrip.antt =====
-- Decompressing what `swap_compress` wrote gives back the bytes that it read.
use asm_os.Prelude.{
  ℕ, zero, suc, ◌+◌, ◌-◌, ◌≤◌, ◌<◌, bit_or, ◌≡◌, refl, ap, ◌∙◌, ◌⊎◌, inl, inr, ◌&&◌, some, List, [],
  ◌∷◌, ◌++◌, append_assoc, arith, ltb, leb, ◌==◌, ltb→lt, ltb→ge, leb→le, Bool-cases, length, drop,
  replicate, All, length-drop, replicate_head,
}
use asm_os.Prelude.Words.{u8}
use asm_os.Rle.{count_run, compress_from, swap_compress, swap_decompress}
use asm_os.Rle.Bits.{literal_byte, run_byte_lem}

abbrev pub IsAscii : List ℕ → Type 0
IsAscii = All (λ x. x < 128)

-- The run is at most 127 long, and its bytes are the next ones of the source.
count_run_lem :
    (x c : ℕ) (xs : List ℕ)
    → c ≤ 127
    → (c ≤ count_run x xs c)
      × (count_run x xs c ≤ 127)
      × (replicate (count_run x xs c - c) x ++ drop (count_run x xs c - c) xs ≡ xs)
unfolding count_run
count_run_lem x c [] h = (omega arith, h, let z : c - c ≡ 0 = omega arith in rw z)
count_run_lem x c (y ∷ ys) h = elim (Bool-cases (y == x && ltb c 127)) [
  | inl more ↦
      let rest = count_run_lem x (c + 1) ys (ground arith) in
      let step : count_run x ys (c + 1) - c ≡ suc (count_run x ys (c + 1) - (c + 1)) =
        omega arith in
      let same : y ≡ x = ground arith in
      rw more (omega arith, rest.1, rw (step, same) (ap (λ l. x ∷ l) rest.2))
  | inr stop ↦ rw stop (omega arith, h, let z : c - c ≡ 0 = omega arith in rw z)
]

decompress_literal :
    (x : ℕ) (out d : List ℕ)
    → x < 128
    → swap_decompress out ≡ some d
    → swap_decompress (x ∷ out) ≡ some (x ∷ d)
unfolding swap_decompress
decompress_literal x [] d h e = rw (literal_byte x h, swap_decompress) (ground arith)
decompress_literal x (y ∷ out) d h e = rw (literal_byte x h, swap_decompress, e) refl

decompress_run :
    (c v : ℕ) (out d : List ℕ)
    → c < 128
    → swap_decompress out ≡ some d
    → swap_decompress (u8 (bit_or 0x80 c) ∷ v ∷ out) ≡ some (replicate c v ++ d)
unfolding swap_decompress
decompress_run c v out d h e = let b = run_byte_lem c h in rw (b.0, swap_decompress, e, b.1) refl

-- What the loop has read and written from one point on.
record Coded (len o : ℕ) (src : List ℕ) (r : List ℕ × List ℕ) : Type 0 where
  read : List ℕ
  split : read ++ r.1 ≡ src
  decoded : swap_decompress r.0 ≡ some read
  ended : (r.1 ≡ []) ⊎ (len ≤ o + length r.0 + 2)
  fits : (o + length r.0 ≤ o) ⊎ (o + length r.0 < len)

IsAscii-drop : (n : ℕ) (xs : List ℕ) → IsAscii xs → IsAscii (drop n xs)
IsAscii-drop zero xs a = a
IsAscii-drop (suc n) [] a = a
IsAscii-drop (suc n) (x ∷ xs) a = IsAscii-drop n xs a.1

compress_from-Coded :
    (fuel len o : ℕ) (src : List ℕ)
    → length src ≤ fuel
    → IsAscii src
    → Coded len o src (compress_from fuel len src o)
unfolding compress_from swap_decompress
compress_from-Coded fuel len o [] h a = record {
  read = [];
  split = refl;
  decoded = refl;
  ended = inl refl;
  fits = omega arith;
}
compress_from-Coded zero len o (x ∷ xs) h a = absurd (omega arith)
compress_from-Coded (suc fuel) len o (x ∷ xs) h a = elim (Bool-cases (ltb (o + 2) len)) [
  | inl room ↦
      let before = ltb→lt _ _ room in
      elim (Bool-cases (leb 3 (count_run x xs 1))) [
        | inl run ↦
            let n = count_run x xs 1 in
            let long = count_run_lem x 1 xs (omega arith) in
            let three = leb→le _ _ run in
            let tail = drop (n - 1) xs in
            let rest =
              compress_from-Coded fuel len (o + 2) tail (omega (arith, length-drop (n - 1) xs))
                (IsAscii-drop (n - 1) xs a.1) in
            let sum : replicate n x ++ (rest.read ++ (compress_from fuel len tail (o + 2)).1)
                ≡ x ∷ xs =
              rw (rest.split, replicate_head n x (omega arith)) (ap (λ l. x ∷ l) long.2) in
            rw (room, compress_from, run)
              (record {
                read = replicate n x ++ rest.read;
                split = append_assoc (replicate n x) rest.read _ ∙ sum;
                decoded =
                    decompress_run n x (compress_from fuel len tail (o + 2)).0 rest.read
                      (omega arith) rest.decoded;
                ended = grind (arith, rest.ended);
                fits = omega (arith, rest.fits);
              })
        | inr single ↦
            let rest = compress_from-Coded fuel len (o + 1) xs (omega arith) a.1 in
            rw (room, compress_from, single)
              (record {
                read = x ∷ rest.read;
                split = ap (λ l. x ∷ l) rest.split;
                decoded =
                    decompress_literal x (compress_from fuel len xs (o + 1)).0 rest.read a.0
                      rest.decoded;
                ended = grind (arith, rest.ended);
                fits = omega (arith, rest.fits);
              })
      ]
  | inr full ↦
      rw (full, compress_from)
        (record {
          read = [];
          split = refl;
          decoded = refl;
          ended = inr (omega (arith, ltb→ge _ _ full));
          fits = omega arith;
        })
]

-- Decompressing the output of `swap_compress` gives back a first part of a source of bytes below
-- 128: all of it, unless the output reached two bytes below the length of the source. The output is
-- never longer than the source.
pub swap_decompress-compress :
    (src : List ℕ)
    → IsAscii src
    → (read : List ℕ) × (rest : List ℕ) × (read ++ rest ≡ src)
      × (swap_decompress (swap_compress src) ≡ some read)
      × ((rest ≡ []) ⊎ (length src ≤ length (swap_compress src) + 2))
      × (length (swap_compress src) ≤ length src)
unfolding swap_compress
swap_decompress-compress src a =
    let c = compress_from-Coded (length src) (length src) 0 src (omega arith) a in
    (c.read, _, c.split, c.decoded, grind (arith, c.ended), omega (arith, c.fits))
