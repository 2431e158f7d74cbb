-- ===== src/Rle/Truncation.antt =====
-- `swap_compress` loses data: without a run of three it stops two bytes before the end.
use asm_os.Prelude.{
  ℕ, zero, suc, ◌+◌, ◌-◌, ◌≤◌, ◌<◌, ◌≡◌, refl, sym, ap, ◌≢◌, ◌⊎◌, inl, inr, false, List, [], ◌∷◌,
  arith, ltb, leb, ltb→lt, ltb→ge, Bool-cases, length, take, take-nil,
}
use asm_os.Rle.{count_run, compress_from, swap_compress}

-- `x` is not followed by two more of its kind.
abbrev pub NotTwice : ℕ → List ℕ → Type 0
NotTwice x [] = Unit
NotTwice x (y ∷ []) = Unit
NotTwice x (y ∷ z ∷ r) = (y ≢ x) ⊎ (z ≢ x)

-- No byte stands three times in a row.
abbrev pub NoRun : List ℕ → Type 0
NoRun [] = Unit
NoRun (x ∷ xs) = NotTwice x xs × NoRun xs

count_run_short : (x : ℕ) (xs : List ℕ) → NotTwice x xs → count_run x xs 1 < 3
unfolding count_run
count_run_short x [] n = omega arith
count_run_short x (y ∷ []) n = ground arith
count_run_short x (y ∷ z ∷ r) n = ground arith

compress_from_plain :
    (fuel len o : ℕ) (src : List ℕ)
    → length src ≤ fuel
    → NoRun src
    → (compress_from fuel len src o).0 ≡ take (len - (o + 2)) src
unfolding compress_from
compress_from_plain fuel len o [] h n = sym (take-nil ℕ (len - (o + 2)))
compress_from_plain zero len o (x ∷ xs) h n = absurd (omega arith)
compress_from_plain (suc fuel) len o (x ∷ xs) h n =
    let short = count_run_short x xs n.0 in
    elim (Bool-cases (ltb (o + 2) len)) [
      | inl room ↦
          let step : len - (o + 2) ≡ suc (len - (o + 1 + 2)) = omega (arith, ltb→lt _ _ room) in
          let one : leb 3 (count_run x xs 1) ≡ false = ground arith in
          rw (step, room, compress_from, one)
            (ap (λ l. x ∷ l) (compress_from_plain fuel len (o + 1) xs (omega arith) n.1))
      | inr full ↦
          let none_left : len - (o + 2) ≡ 0 = omega (arith, ltb→ge _ _ full) in
          rw (none_left, full, compress_from) refl
    ]

-- A source without three equal bytes in a row is copied but for its last two bytes, which are lost.
pub swap_compress_plain : (src : List ℕ) → NoRun src → swap_compress src ≡ take (length src - 2) src
unfolding swap_compress
swap_compress_plain src n = compress_from_plain (length src) (length src) 0 src (omega arith) n
