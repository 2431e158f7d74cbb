-- ===== src/Storage/Ram.antt =====
-- A disk in memory.
use asm_os.Prelude.{ℕ, ◌≡◌, sym, ap, ◌∙◌, ◌≢◌, some, List, arith, ◌==◌, if◌then◌else◌, length}
use asm_os.Storage.{Device}

unfoldable pub ram_write : ℕ → List ℕ → (ℕ → List ℕ) → ℕ → List ℕ
ram_write lba sector d k = if k == lba then sector else d k

ram_write_other :
    (lba other : ℕ) (sector : List ℕ) (d : ℕ → List ℕ)
    → lba ≢ other
    → ram_write lba sector d other ≡ d other
unfolding ram_write
ram_write_other lba other sector d h = ground arith

ram_write_same : (lba : ℕ) (sector : List ℕ) (d : ℕ → List ℕ) → ram_write lba sector d lba ≡ sector
unfolding ram_write
ram_write_same lba sector d = ground arith

pub ram_read_self :
    (lba : ℕ) (sector : List ℕ) (d d' : ℕ → List ℕ)
    → length sector ≡ 512
    → some (ram_write lba sector d) ≡ some d'
    → some (d' lba) ≡ some sector
ram_read_self lba sector d d' n e =
    let same : ram_write lba sector d ≡ d' = ground arith in
    ap (λ f. some (f lba)) (sym same) ∙ ap some (ram_write_same lba sector d)

pub ram_read_ne :
    (lba other : ℕ) (sector : List ℕ) (d d' : ℕ → List ℕ)
    → lba ≢ other
    → some (ram_write lba sector d) ≡ some d'
    → some (d' other) ≡ some (d other)
ram_read_ne lba other sector d d' n e =
    let same : ram_write lba sector d ≡ d' = ground arith in
    ap (λ f. some (f other)) (sym same) ∙ ap some (ram_write_other lba other sector d n)

abbrev pub ram : Device
ram = record {
  Disk = ℕ → List ℕ;
  read_sector = λ lba d. some (d lba);
  write_sector = λ lba sector d. some (ram_write lba sector d);
  read-write_self = ram_read_self;
  read-write_ne = ram_read_ne;
}
