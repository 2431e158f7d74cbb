-- ===== src/Rle/Bits.antt =====
-- The bit masks of the run-length coding of src/memory_budget.c, over a byte.
use asm_os.Prelude.{
  ℕ_discrete, ℕ, zero, suc, ◌<◌, bit_and, bit_or, ◌≡◌, refl, Bool, true, false, not, ◌&&◌, arith,
  ◌==◌, ==→eq,
}
use asm_os.Prelude.Words.{u8}

-- The test holds of each number below a bound.
every : (ℕ → Bool) → ℕ → Bool
every test zero = true
every test (suc bound) = every test bound && test bound

at_each : (test : ℕ → Bool) (bound c : ℕ) → c < bound → every test bound ≡ true → test c ≡ true
unfolding every
at_each test zero c lt t = absurd (omega arith)
at_each test (suc bound) c lt t = elim (ℕ_discrete c bound) [
  | yes last ↦ rw last (ground arith)
  | no earlier ↦ at_each test bound c (omega arith) (ground arith)
]

literal_table : every (λ x. bit_and x 0x80 == 0) 128 ≡ true
unfolding every
literal_table = refl

abbrev run_byte : ℕ → Bool
run_byte c = not (bit_and (u8 (bit_or 0x80 c)) 0x80 == 0) && bit_and (u8 (bit_or 0x80 c)) 0x7F == c

run_table : every run_byte 128 ≡ true
unfolding every
run_table = refl

-- A byte below 128 is read as a literal.
pub literal_byte : (x : ℕ) → x < 128 → (bit_and x 0x80 == 0) ≡ true
literal_byte x h = at_each (λ y. bit_and y 0x80 == 0) 128 x h literal_table

-- The byte that starts a run of `c` is read as a run of `c`.
pub run_byte_lem :
    (c : ℕ)
    → c < 128
    → ((bit_and (u8 (bit_or 0x80 c)) 0x80 == 0) ≡ false) × (bit_and (u8 (bit_or 0x80 c)) 0x7F ≡ c)
run_byte_lem c h =
    let t = at_each run_byte 128 c h run_table in
    let both : (bit_and (u8 (bit_or 0x80 c)) 0x80 == 0) ≡ false = ground arith in
    (both, ==→eq _ _ (ground arith))
