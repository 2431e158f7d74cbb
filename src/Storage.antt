-- ===== src/Storage.antt =====
-- platform/x86/hal_storage.c: files on a FAT12 disk. The sector access of the platform is a
-- parameter. The root directory is a list of entries of 32 bytes, which is the layout of
-- `root_cache` in memory; a C string is the list of its bytes.
pub mod Names
pub mod Directory
pub mod Roundtrip
pub mod Ram
mod Tests
use asm_os.Prelude.{
  ℕ, zero, suc, ◌+◌, ◌-◌, ◌*◌, ◌/◌, ◌%◌, min, bit_and, ◌≡◌, ◌≢◌, Bool, true, false, not, ◌&&◌, ◌||◌,
  Option, none, some, List, [], ◌∷◌, ◌++◌, leb, ◌==◌, if◌then◌else◌, length, get_or, set, take,
  drop, replicate,
}
use asm_os.Prelude.CString.{str_eq}
use mathlib.Core.Option
use mathlib.Core.List.{flatten}

-- `fat12_read_sector` and `fat12_write_sector`: `none` is their failure. What was written to a
-- sector is what is read from it, until it is written again.
pub record Device : Type 1 where
  pub Disk : Type 0
  pub read_sector : ℕ → Disk → Option (List ℕ)
  pub write_sector : ℕ → List ℕ → Disk → Option Disk
  pub read-write_self :
      (lba : ℕ) (sector : List ℕ) (d d' : Disk)
      → length sector ≡ 512
      → write_sector lba sector d ≡ some d'
      → read_sector lba d' ≡ some sector
  pub read-write_ne :
      (lba other : ℕ) (sector : List ℕ) (d d' : Disk)
      → lba ≢ other
      → write_sector lba sector d ≡ some d'
      → read_sector other d' ≡ read_sector other d

abbrev pub root_lba : ℕ
root_lba = 51

abbrev pub root_sectors : ℕ
root_sectors = 14

abbrev pub data_start : ℕ
data_start = 65

abbrev pub fat_sectors : ℕ
fat_sectors = 9

abbrev pub fat_end : ℕ
fat_end = 0xFF8

pub upper : ℕ → ℕ
upper c = if leb b'a' c && leb c b'z' then c - 32 else c

-- The first loop of `fat_normalize`: what it copies with room for `room` characters, and the rest.
pub take_base : ℕ → List ℕ → List ℕ × List ℕ
take_base zero src = ([], src)
take_base (suc room) [] = ([], [])
take_base (suc room) (c ∷ cs) =
    let (base, rest) = take_base room cs in
    if c == b'.' then ([], c ∷ cs) else (upper c ∷ base, rest)

-- `if (src[i] == '.') i++;`
pub skip_dot : List ℕ → List ℕ
skip_dot [] = []
skip_dot (c ∷ cs) = if c == b'.' then cs else c ∷ cs

-- The second loop.
pub take_ext : ℕ → List ℕ → List ℕ
take_ext zero src = []
take_ext (suc room) [] = []
take_ext (suc room) (c ∷ cs) = upper c ∷ take_ext room cs

-- The field of `width` bytes, filled up with spaces.
pub pad : ℕ → List ℕ → List ℕ
pad width bytes = bytes ++ replicate (width - length bytes) 0x20

-- The loop that blanks the base leaves the counter `j` of the next loop at 8.
pub fat_normalize : List ℕ → List ℕ
unfolding take_base skip_dot take_ext pad
fat_normalize src =
    let j : ℕ = 8 in
    let (base, rest) = take_base (8 - j) src in pad 8 base ++ pad 3 (take_ext 3 (skip_dot rest))

-- A deleted or unused entry.
pub is_free : List ℕ → Bool
is_free e = get_or e 0 0 == 0x00 || get_or e 0 0 == 0xE5

pub has_name : List ℕ → List ℕ → Bool
has_name name83 e = str_eq (take 11 e) name83

-- The test of one entry in `fat_find_entry`.
pub matches : List ℕ → List ℕ → Bool
unfolding is_free has_name
matches name83 e = not (is_free e) && bit_and (get_or e 11 0) 0x10 == 0 && has_name name83 e

pub fat_find_entry : List ℕ → List (List ℕ) → Option ℕ
fat_find_entry name83 [] = none
fat_find_entry name83 (e ∷ es) =
    let rest = Option.map suc (fat_find_entry name83 es) in
    if matches name83 e then some 0 else rest

pub fat_find_free_entry : List (List ℕ) → Option ℕ
fat_find_free_entry [] = none
fat_find_free_entry (e ∷ es) =
    let rest = Option.map suc (fat_find_free_entry es) in if is_free e then some 0 else rest

abbrev pub le16 : List ℕ → ℕ → ℕ
le16 e i = get_or e i 0 + 256 * get_or e (i + 1) 0

abbrev pub le32 : List ℕ → ℕ → ℕ
le32 e i = le16 e i + 65536 * le16 e (i + 2)

-- `fat_next_cluster`, on the FAT in memory.
pub fat_next_cluster : List ℕ → ℕ → ℕ
fat_next_cluster fat cluster =
    let val = le16 fat (cluster + cluster / 2) in
    if bit_and cluster 1 == 0 then bit_and val 0x0FFF else val / 16

-- The entry with its name and attribute set, for a new file.
pub name_entry : List ℕ → List ℕ → List ℕ
name_entry name83 e = name83 ++ 0x20 ∷ drop 12 e

-- The entry with its first cluster and its size set.
pub place_entry : ℕ → ℕ → List ℕ → List ℕ
place_entry cluster size e =
    take 26 e
    ++ cluster % 256
      ∷ cluster / 256 % 256
      ∷ size % 256
      ∷ size / 256 % 256
      ∷ size / 65536 % 256
      ∷ size / 16777216 % 256
      ∷ []

-- A sector of the file data: the next bytes, filled up with zeros.
pub data_sector : List ℕ → List ℕ
data_sector src = take 512 src ++ replicate (512 - length (take 512 src)) 0

-- The sixteen entries of a directory sector.
pub root_sector : ℕ → List (List ℕ) → List ℕ
root_sector s root = flatten (take 16 (drop (s * 16) root))

-- The 512 bytes of a directory sector as entries.
pub split_entries : ℕ → List ℕ → List (List ℕ)
split_entries zero bytes = []
split_entries (suc n) bytes = take 32 bytes ∷ split_entries n (drop 32 bytes)

module _ (D : Device) where
  open D use {Disk, read_sector, write_sector}

  pub record Fs : Type 0 where
    pub ready : Bool
    pub fat : List ℕ
    pub root : List (List ℕ)
    pub disk : Disk

  -- `n` sectors from `lba` on.
  pub read_sectors : ℕ → ℕ → Disk → Option (List ℕ)
  read_sectors zero lba d = some []
  read_sectors (suc n) lba d = elim (read_sector lba d) [
    | none ↦ none
    | some s ↦ Option.map (λ r. s ++ r) (read_sectors n (lba + 1) d)
  ]

  -- `fat_load_tables`, and `plat_fs_init` around it; `init_fat12` only sets up the driver.
  pub plat_fs_init : Fs → Bool × Fs
  unfolding read_sectors split_entries
  plat_fs_init fs = elim (read_sectors fat_sectors 33 fs.disk) [
    | none ↦ (false, record fs { ready = false })
    | some fat ↦ elim (read_sectors root_sectors root_lba fs.disk) [
      | none ↦ (false, record fs { ready = false; fat = fat })
      | some root ↦ (true, record fs { ready = true; fat = fat; root = split_entries 224 root })
    ]
  ]

  -- `!fs_ready && plat_fs_init() != 0`.
  pub ensure_ready : Fs → Bool × Fs
  unfolding plat_fs_init
  ensure_ready fs = if fs.ready then (true, fs) else plat_fs_init fs

  -- `fat_flush_root`, from sector `s` on; the result tells if all writes succeeded.
  pub flush_from : ℕ → ℕ → List (List ℕ) → Disk → Bool × Disk
  unfolding root_sector
  flush_from zero s root d = (true, d)
  flush_from (suc n) s root d = elim (write_sector (root_lba + s) (root_sector s root) d) [
    | none ↦ (false, d)
    | some d' ↦ flush_from n (s + 1) root d'
  ]

  pub fat_flush_root : Fs → Bool × Fs
  unfolding flush_from
  fat_flush_root fs =
      let (ok, d) = flush_from root_sectors 0 fs.root fs.disk in (ok, record fs { disk = d })

  -- The loop of `plat_fs_read`: `left` bytes are wanted. The fuel bounds the sectors.
  pub read_chain : ℕ → List ℕ → ℕ → ℕ → Disk → Option (List ℕ)
  unfolding fat_next_cluster
  read_chain zero fat cluster left d = some []
  read_chain (suc fuel) fat cluster left d =
      if leb fat_end cluster || left == 0
      then some []
      else elim (read_sector (data_start + cluster - 2) d) [
        | none ↦ none
        | some s ↦
            Option.map (λ r. take (min 512 left) s ++ r)
              (read_chain fuel fat (fat_next_cluster fat cluster) (left - min 512 left) d)
      ]

  pub plat_fs_read : List ℕ → ℕ → Fs → Option (List ℕ) × Fs
  unfolding ensure_ready read_chain fat_find_entry
  plat_fs_read name buf_size fs =
      let (ok, fs') = ensure_ready fs in
      if ok
      then (elim (fat_find_entry (fat_normalize name) fs'.root) [
        | none ↦ (none, fs')
        | some slot ↦
            let e = get_or fs'.root slot [] in
            let wanted = min (le32 e 28) buf_size in
            (read_chain (wanted / 512 + 1) fs'.fat (le16 e 26) wanted fs'.disk, fs')
      ])
      else (none, fs')

  -- The loop of `plat_fs_write`.
  pub write_data : ℕ → ℕ → List ℕ → Disk → Bool × Disk
  unfolding data_sector
  write_data fuel cluster [] d = (true, d)
  write_data zero cluster (x ∷ src) d = (true, d)
  write_data (suc fuel) cluster (x ∷ src) d =
      if leb fat_end cluster
      then (true, d)
      else elim (write_sector (data_start + cluster - 2) (data_sector (x ∷ src)) d) [
        | none ↦ (false, d)
        | some d' ↦ write_data fuel (cluster + 1) (drop 512 (x ∷ src)) d'
      ]

  -- The slot of the file: its own, or a free one that then carries its name.
  pub choose_slot : List ℕ → List (List ℕ) → Option (ℕ × List (List ℕ))
  unfolding fat_find_entry fat_find_free_entry name_entry
  choose_slot name83 root = elim (fat_find_entry name83 root) [
    | some slot ↦ some (slot, root)
    | none ↦ elim (fat_find_free_entry root) [
      | none ↦ none
      | some slot ↦ some (slot, set root slot (name_entry name83 (get_or root slot [])))
    ]
  ]

  pub plat_fs_write : List ℕ → List ℕ → Fs → Bool × Fs
  unfolding ensure_ready choose_slot place_entry write_data fat_flush_root
  plat_fs_write name src fs =
      let (ok, fs') = ensure_ready fs in
      if ok
      then (elim (choose_slot (fat_normalize name) fs'.root) [
        | none ↦ (false, fs')
        | some (slot, root) ↦
            let root' = set root slot (place_entry 2 (length src) (get_or root slot [])) in
            let (wrote, d) = write_data (length src / 512 + 1) 2 src fs'.disk in
            let fs'' : Fs = record fs' { root = root'; disk = d } in
            if wrote then fat_flush_root fs'' else (false, fs'')
      ])
      else (false, fs')

  pub plat_fs_delete : List ℕ → Fs → Bool × Fs
  unfolding ensure_ready fat_flush_root
  plat_fs_delete name fs =
      let (ok, fs') = ensure_ready fs in
      if ok
      then (elim (fat_find_entry (fat_normalize name) fs'.root) [
        | none ↦ (false, fs')
        | some slot ↦
            fat_flush_root
              (record fs' { root = set fs'.root slot (set (get_or fs'.root slot []) 0 0xE5) })
      ])
      else (false, fs')

  pub plat_fs_validate : Fs → Bool
  plat_fs_validate fs = elim (read_sector 0 fs.disk) [
    | none ↦ false
    | some boot ↦ get_or boot 510 0 == 0x55 && get_or boot 511 0 == 0xAA
  ]
