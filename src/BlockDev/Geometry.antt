-- ===== src/BlockDev/Geometry.antt =====
-- The geometry and the addresses of block_dev.c.
use asm_os.Prelude.{
  ℕ, ◌+◌, ◌-◌, ◌*◌, ◌/◌, ◌%◌, ◌^◌, ◌≤◌, ◌<◌, ◌≡◌, refl, ◌↔◌, ◌⊎◌, inl, inr, true, none, some, arith,
  ltb, Bool-cases,
}
use asm_os.Prelude.Words.{u8, u32}
use asm_os.BlockDev.{BlockDev, Chs, lba_to_chs, segment_of, offset_of}

-- The drive that `block_dev_init` sets up.
abbrev pub floppy : ℕ → BlockDev
floppy drive = record { drive = drive; sectors_per_track = 18; heads = 2; ready = true }

-- The sector that a place on such a drive has.
pub lba_of : Chs → ℕ
lba_of c = (c.cyl * 2 + c.head) * 18 + (c.sec - 1)

-- On a drive that `block_dev_init` set up, `lba_to_chs` takes every sector below 9216 to a place
-- with a head of the two, a sector from 1 to 18 and the cylinder from which the number of the
-- sector is computed back, so no two sectors share a place; it refuses the other sectors.
pub lba_to_chs-inverse :
    (drive lba : ℕ)
    → ((c : Chs) × (lba_to_chs (floppy drive) lba ≡ some c)
        × (lba_of c ≡ lba)
        × (c.head < 2)
        × (0 < c.sec)
        × (c.sec < 19)
        × (lba < 9216))
      ⊎ ((lba_to_chs (floppy drive) lba ≡ none) × (9216 ≤ lba))
unfolding lba_to_chs lba_of
lba_to_chs-inverse drive lba = elim (Bool-cases (ltb 255 (lba / u32 (18 * 2)))) [
  | inl far ↦ inr (rw far refl, ground arith)
  | inr near ↦ inl (
    record { cyl = u8 (lba / u32 (18 * 2)); head = u8 (lba / 18 % 2); sec = u8 (lba % 18 + 1) },
    rw near refl,
    ground arith,
    omega arith,
    omega arith,
    omega arith,
    ground arith,
  )
]

-- The segment and the offset that the calls of the BIOS get are the address of the buffer exactly
-- when bits 4 to 15 of the address, which has 20 bits, are 0: for any other buffer the sector is
-- read to, or written from, another place.
pub segment_of-offset_of :
    (p : ℕ) → p < 2 ^ 20 → (segment_of p * 16 + offset_of p ≡ p) ↔ (p / 16 % 0x1000 ≡ 0)
unfolding segment_of offset_of
segment_of-offset_of p h = (λ e. omega arith, λ e. omega arith)
