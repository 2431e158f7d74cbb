-- ===== src/Fat12.antt =====
-- fat12.c: the FAT12 driver on the sectors of a disk.
--
-- The block device is a parameter: `block_read` gives the sector, or `none` when it fails, and
-- `block_write` the disk after the write. The arrays `fat` and `root` are the lists of their bytes.
-- The pointers to the file system and its device are not null.
pub mod Chains
mod Tests
use mathlib.Core.Option
use asm_os.Prelude.{
  ℕ, zero, suc, ◌+◌, ◌-◌, ◌*◌, ◌/◌, ◌%◌, ◌^◌, min, bit_and, Bool, true, false, not, ◌&&◌, ◌||◌,
  Option, none, some, List, [], ◌∷◌, ◌++◌, ltb, leb, ◌==◌, if◌then◌else◌, length, get_or, set, take,
  drop, replicate,
}
use asm_os.Prelude.CString.{str_eq}
use asm_os.Prelude.Words.{u32}

abbrev pub sector_size : ℕ
sector_size = 512

abbrev pub root_entries : ℕ
root_entries = 224

abbrev pub root_sectors : ℕ
root_sectors = 14

abbrev pub sectors_per_fat : ℕ
sectors_per_fat = 9

abbrev pub reserved_sectors : ℕ
reserved_sectors = 33

abbrev pub data_start : ℕ
data_start = reserved_sectors + sectors_per_fat * 2 + root_sectors

abbrev pub cluster_eof : ℕ
cluster_eof = 0xFF8

pub upper : ℕ → ℕ
upper c = if leb b'a' c && leb c b'z' then c - 32 else c

-- The two loops that copy characters into the name, from the place `j` up to `limit`; the first
-- one also stops at a point.
pub copy_chars : (ℕ → Bool) → ℕ → List ℕ → ℕ → List ℕ → List ℕ × List ℕ
copy_chars stop limit [] j dest = ([], dest)
copy_chars stop limit (c ∷ cs) j dest =
    let more = copy_chars stop limit cs (j + 1) (set dest j (upper c)) in
    if not (stop c) && ltb j limit then more else (c ∷ cs, dest)

pub skip_dot : List ℕ → List ℕ
skip_dot [] = []
skip_dot (c ∷ cs) = if c == b'.' then cs else c ∷ cs

-- The loop that blanks the base leaves the counter `j` at 8, where the first copying loop goes on.
pub fat12_normalize_name : List ℕ → List ℕ
fat12_normalize_name src =
    let j : ℕ = 8 in
    let base = copy_chars (λ c. c == b'.') 8 src j (replicate 11 b' ') in
    (copy_chars (λ c. false) 11 (skip_dot base.0) 8 base.1).1

pub record Fat12 : Type 0 where
  pub fat : List ℕ
  pub root : List ℕ
  pub ready : Bool

pub fat12_init : Fat12 → Fat12
fat12_init fs = record fs { ready = false }

-- The 16-bit and 32-bit words at a place of the bytes.
pub word16 : List ℕ → ℕ → ℕ
word16 bytes i = get_or bytes i 0 + get_or bytes (i + 1) 0 * 2 ^ 8

pub word32 : List ℕ → ℕ → ℕ
word32 bytes i = word16 bytes i + word16 bytes (i + 2) * 2 ^ 16

pub fat12_next_cluster : Fat12 → ℕ → ℕ
fat12_next_cluster fs cluster =
    let val = word16 fs.fat (cluster + cluster / 2) in
    if cluster % 2 == 1 then val / 2 ^ 4 else val % 2 ^ 12

-- The 32 bytes of an entry of the directory.
pub entry : Fat12 → ℕ → List ℕ
entry fs i = take 32 (drop (i * 32) fs.root)

pub entry_matches : List ℕ → List ℕ → Bool
entry_matches e name83 =
    not ((get_or e 0 0 == 0x00) || (get_or e 0 0 == 0xE5))
    && ((bit_and (get_or e 11 0) 0x10 == 0) && str_eq (take 11 e) (take 11 name83))

-- The loop of `fat12_find_entry`, with the number of entries left.
pub find_entry : ℕ → ℕ → Fat12 → List ℕ → Option ℕ
find_entry zero i fs name83 = none
find_entry (suc n) i fs name83 =
    let later = find_entry n (i + 1) fs name83 in
    if entry_matches (entry fs i) name83 then some i else later

pub fat12_find_entry : Fat12 → List ℕ → Option ℕ
fat12_find_entry fs name83 = find_entry root_entries 0 fs name83

-- A copy into an array, from its place `i` on.
pub overwrite : ℕ → List ℕ → List ℕ → List ℕ
overwrite i bytes array = take i array ++ bytes ++ drop (i + length bytes) array

-- What `fat12_read_file` ends with, and the bytes that it has then stored: those of the sectors that
-- were read. Bytes that the device leaves of a sector whose read fails are not among them.
pub data ReadResult : Type 0 where
  failed : List ℕ → ReadResult
  file : List ℕ → ℕ → ReadResult

module _ {D : Type 0} (block_write : D → ℕ → List ℕ → Option D) where
  -- `none` is the code -1.
  pub fat12_write_sector : D → ℕ → List ℕ → Option D
  fat12_write_sector d lba buf = elim (block_write d lba buf) [
    | none ↦ none
    | some d' ↦
        if leb reserved_sectors lba && ltb lba (reserved_sectors + sectors_per_fat)
        then elim (block_write d' (lba + sectors_per_fat) buf) [
          | none ↦ some d'
          | some d'' ↦ some d''
        ]
        else some d'
  ]

module _ {D : Type 0} (block_read : D → ℕ → Option (List ℕ)) where
  -- The loops of `fat12_mount`: `n` sectors from `lba` on, into an array from its place `i` on.
  pub read_sectors : ℕ → ℕ → ℕ → List ℕ → D → Bool × List ℕ
  read_sectors zero lba i array d = (true, array)
  read_sectors (suc n) lba i array d = elim (block_read d lba) [
    | none ↦ (false, array)
    | some bytes ↦ read_sectors n (lba + 1) (i + sector_size) (overwrite i bytes array) d
  ]

  pub fat12_mount : Fat12 → D → Bool × Fat12
  fat12_mount fs d =
      let fat = read_sectors sectors_per_fat reserved_sectors 0 fs.fat d in
      if not fat.0
      then (false, record fs { fat = fat.1 })
      else (let root =
            read_sectors root_sectors (reserved_sectors + sectors_per_fat * 2) 0 fs.root d in
          if not root.0
          then (false, record fs { fat = fat.1; root = root.1 })
          else (true, record { fat = fat.1; root = root.1; ready = true }))

  pub fat12_read_cluster : D → ℕ → Option (List ℕ)
  fat12_read_cluster d cluster =
      if ltb cluster 2 then none else block_read d (data_start + (cluster - 2))

  -- The loop of `fat12_read_file`: whether no read failed, the bytes that it stores, and their number
  -- in 32 bits; `none` is the end of the fuel.
  pub read_clusters : ℕ → Fat12 → ℕ → ℕ → ℕ → D → Option (Bool × List ℕ × ℕ)
  read_clusters zero fs cluster written limit d = none
  read_clusters (suc fuel) fs cluster written limit d =
      if ltb cluster cluster_eof && ltb written limit
      then elim (fat12_read_cluster d cluster) [
        | none ↦ some (false, [], written)
        | some bytes ↦
            Option.map (λ r. (r.0, bytes ++ r.1, r.2))
              (read_clusters fuel fs (fat12_next_cluster fs cluster) (u32 (written + sector_size))
                limit d)
      ]
      else some (true, [], written)

  -- The bytes stored in the buffer, and the size that is reported.
  pub fat12_read_file : ℕ → Fat12 → List ℕ → ℕ → D → Option ReadResult
  fat12_read_file fuel fs name83 limit d =
      if not fs.ready then some (failed []) else elim (fat12_find_entry fs name83) [
        | none ↦ some (failed [])
        | some slot ↦
            let e = entry fs slot in
            Option.map (λ r. if r.0 then file r.1 (min r.2 (word32 e 28)) else failed r.1)
              (read_clusters fuel fs (word16 e 26) 0 limit d)
      ]
