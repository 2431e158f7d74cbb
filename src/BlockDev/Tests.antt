-- ===== src/BlockDev/Tests.antt =====
-- The retries of block_dev.c.
use asm_os.Prelude.{ℕ, zero, suc, ◌-◌, ◌≡◌, refl, Bool, true, false}
use asm_os.BlockDev.{lba_to_chs, tries, Request}
use asm_os.BlockDev.Geometry.{floppy}

-- The drive that fails until its counter is 0, and counts down at a reset.
failing : Request → ℕ → Bool × ℕ
failing r zero = (false, zero)
failing r (suc n) = (true, suc n)

-- A call that fails four times is done again until it succeeds, one that fails five times is not.
retries :
    (tries failing failing (λ d n. n - 1) failing 5 (floppy 0) 40 0x10000 4 ≡ (true, 0))
    × (tries failing failing (λ d n. n - 1) failing 5 (floppy 0) 40 0x10000 6 ≡ (false, 1))
unfolding tries lba_to_chs failing
retries = (refl, refl)
