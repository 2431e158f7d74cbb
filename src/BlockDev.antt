-- ===== src/BlockDev.antt =====
-- block_dev.c: sectors of a disk by the INT 13h service of the BIOS.
--
-- The service is a parameter: a call with a request changes the machine and says whether it failed.
-- An address is a 32-bit word.
pub mod Geometry
mod Tests
use asm_os.Prelude.{
  ℕ, zero, suc, ◌+◌, ◌*◌, ◌/◌, ◌%◌, Bool, true, false, not, ◌||◌, Option, none, some, ltb, ◌==◌,
  if◌then◌else◌,
}
use asm_os.Prelude.Words.{u8, u32}

pub record BlockDev : Type 0 where
  pub drive : ℕ
  pub sectors_per_track : ℕ
  pub heads : ℕ
  pub ready : Bool

pub block_dev_init : ℕ → Option BlockDev → Option BlockDev
block_dev_init drive none = none
block_dev_init drive (some dev) =
    some (record { drive = drive; sectors_per_track = 18; heads = 2; ready = true })

pub record Chs : Type 0 where
  pub cyl : ℕ
  pub head : ℕ
  pub sec : ℕ

-- `none` is the code -1.
pub lba_to_chs : BlockDev → ℕ → Option Chs
lba_to_chs dev lba =
    let spt = dev.sectors_per_track in
    let hpc = dev.heads in
    if (spt == 0) || (hpc == 0)
    then none
    else if ltb 255 (lba / u32 (spt * hpc))
    then none
    else some (record {
      cyl = u8 (lba / u32 (spt * hpc));
      head = u8 (lba / spt % hpc);
      sec = u8 (lba % spt + 1);
    })

-- `((uint32_t)p >> 4) & 0xF000`, which keeps the upper 4 bits of a word of 16 bits.
pub segment_of : ℕ → ℕ
segment_of p = p / 16 / 0x1000 % 16 * 0x1000

pub offset_of : ℕ → ℕ
offset_of p = p % 16

-- The registers of a call.
pub record Request : Type 0 where
  pub chs : Chs
  pub dl : ℕ
  pub es : ℕ
  pub bx : ℕ

module _ {M : Type 0} (int13_read int13_write : Request → M → Bool × M)
    (int13_reset : ℕ → M → M) where
  -- The loop of the tries of a call, which are followed by a reset when they fail.
  pub tries : (Request → M → Bool × M) → ℕ → BlockDev → ℕ → ℕ → M → Bool × M
  tries call zero dev lba p m = (false, m)
  tries call (suc n) dev lba p m = elim (lba_to_chs dev lba) [
    | none ↦ (false, m)
    | some c ↦
        let r = call (record { chs = c; dl = dev.drive; es = segment_of p; bx = offset_of p }) m in
        elim r.0 [ true ↦ tries call n dev lba p (int13_reset dev.drive r.1) | false ↦ (true, r.1) ]
  ]

  -- `true` is the code 0. A null pointer is `none` or the address 0.
  pub block_dev_read : Option BlockDev → ℕ → ℕ → M → Bool × M
  block_dev_read none lba p m = (false, m)
  block_dev_read (some dev) lba p m =
      if not dev.ready || (p == 0) then (false, m) else tries int13_read 5 dev lba p m

  pub block_dev_write : Option BlockDev → ℕ → ℕ → M → Bool × M
  block_dev_write none lba p m = (false, m)
  block_dev_write (some dev) lba p m =
      if not dev.ready || (p == 0) then (false, m) else tries int13_write 5 dev lba p m
