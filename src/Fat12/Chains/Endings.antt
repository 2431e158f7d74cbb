-- ===== src/Fat12/Chains/Endings.antt =====
-- The end of every read of the FAT12 driver.
use asm_os.Prelude.{
  ℕ, zero, suc, ◌+◌, ◌-◌, ◌*◌, ◌≤◌, ◌<◌, min, ◌≡◌, refl, inl, inr, Bool, true, false, ◌^◌, ◌&&◌,
  Option, none, some, List, [], ◌++◌, arith, ltb, Bool-cases, Option-cases, length, length-append,
}
use asm_os.Prelude.Words.{u32}
use asm_os.Fat12.{
  sector_size, data_start, cluster_eof, Fat12, word16, word32, fat12_next_cluster, entry,
  fat12_find_entry, ReadResult, failed, file, fat12_read_cluster, read_clusters, fat12_read_file,
}
use asm_os.Fat12.Chains.{sectors_of, clusters_end, clusters_step, file_lem}

-- What a call may leave in a buffer of `limit` bytes.
pub Stored : ℕ → ReadResult → Type 0
Stored limit (failed bytes) = length bytes ≤ sector_size * sectors_of limit
Stored limit (file bytes n) = (length bytes ≤ sector_size * sectors_of limit) × (n ≤ length bytes)

-- What the loop may end with, from a place in the buffer on.
Gathered : ℕ → ℕ → Bool × List ℕ × ℕ → Type 0
Gathered written limit (ok, bytes, n) =
    (length bytes ≤ sector_size * sectors_of (limit - written)) × (n ≤ written + length bytes)

module _ {D : Type 0} (block_read : D → ℕ → Option (List ℕ))
    (whole : (d : D) (lba : ℕ) (s : List ℕ) → block_read d lba ≡ some s → length s ≡ sector_size)
    (fs : Fat12) (d : D) where
  cluster_whole :
      (c : ℕ) (s : List ℕ) → fat12_read_cluster block_read d c ≡ some s → length s ≡ sector_size
  unfolding fat12_read_cluster
  cluster_whole c s e = elim (Bool-cases (ltb c 2)) [
    | inl low ↦ absurd (cc (e, low))
    | inr high ↦ whole d (data_start + (c - 2)) s (ground (arith, e, high))
  ]

  clusters_fail :
      (fuel c written limit : ℕ)
      → (ltb c cluster_eof && ltb written limit) ≡ true
      → fat12_read_cluster block_read d c ≡ none
      → read_clusters block_read (suc fuel) fs c written limit d ≡ some (false, [], written)
  unfolding read_clusters
  clusters_fail fuel c written limit e r = rw (e, r) refl

  Gathers : ℕ → ℕ → ℕ → ℕ → Type 0
  Gathers fuel c written limit =
      (r : Bool × List ℕ × ℕ) × (read_clusters block_read fuel fs c written limit d ≡ some r)
      × Gathered written limit r

  -- A round in which the sector was read.
  gather_more :
      (fuel c written limit : ℕ) (s : List ℕ)
      → (ltb c cluster_eof && ltb written limit) ≡ true
      → fat12_read_cluster block_read d c ≡ some s
      → limit ≤ 2 ^ 32 - 512
      → Gathers fuel (fat12_next_cluster fs c) (u32 (written + sector_size)) limit
      → Gathers (suc fuel) c written limit
  unfolding Gathers Gathered
  gather_more fuel c written limit s e r b ((ok, bytes, n), rest, g) =
      let size = cluster_whole c s r in
      let sum = length-append s bytes in
      let room : written < limit = ground (arith, e) in
      (
        (ok, s ++ bytes, n),
        clusters_step block_read fs d fuel c written limit s bytes n ok e r rest,
        (omega (arith, g.0, size, sum, room), omega (arith, g.1, size, sum, room)),
      )

  gathers :
      (fuel c written limit : ℕ)
      → limit ≤ 2 ^ 32 - 512
      → sectors_of (limit - written) < fuel
      → Gathers fuel c written limit
  unfolding Gathers Gathered
  gathers zero c written limit b h = absurd (omega arith)
  gathers (suc fuel) c written limit b h =
      elim (Bool-cases (ltb c cluster_eof && ltb written limit)) [
        | inl more ↦ elim (Option-cases (fat12_read_cluster block_read d c)) [
          | inl bad ↦ (_, clusters_fail fuel c written limit more bad, (omega arith, omega arith))
          | inr good ↦
              let room : written < limit = ground (arith, more) in
              gather_more fuel c written limit good.0 more good.1 b (
                gathers fuel (fat12_next_cluster fs c) (u32 (written + sector_size)) limit b
                  (omega (arith, h, room)))
        ]
        | inr over ↦ (
          (true, [], written),
          clusters_end block_read fs d fuel c written limit over,
          (omega arith, omega arith),
        )
      ]

  file-Stored :
      (fuel slot limit : ℕ) (name83 : List ℕ)
      → fs.ready ≡ true
      → fat12_find_entry fs name83 ≡ some slot
      → Gathers fuel (word16 (entry fs slot) 26) 0 limit
      → (r : ReadResult) × (fat12_read_file block_read fuel fs name83 limit d ≡ some r)
        × Stored limit r
  unfolding Gathers Gathered Stored fat12_read_file
  file-Stored fuel slot limit name83 on found ((false, bytes, n), read, g) =
      let start : limit - 0 ≡ limit = omega arith in
      (failed bytes, simp on (rw (found, read) refl), omega (arith, g.0, start))
  file-Stored fuel slot limit name83 on found ((true, bytes, n), read, g) =
      let start : limit - 0 ≡ limit = omega arith in
      (
        file bytes (min n (word32 (entry fs slot) 28)),
        file_lem block_read fs d fuel slot limit n name83 bytes on found read,
        (omega (arith, g.0, start), omega (arith, g.1)),
      )

  -- `fat12_read_file` always comes to its end, whatever is in the FAT, also where a chain is a
  -- circle, for a buffer of at most 2^32 - 512 bytes: it takes at most one round more than the buffer
  -- takes sectors. The sectors that it stores, also before a read that fails, go past the buffer by
  -- less than a sector, and it reports no more bytes than it stored. The block device gives sectors
  -- of 512 bytes; what it leaves of a sector whose read fails is not counted.
  pub fat12_read_file-Stored :
      (fuel limit : ℕ) (name83 : List ℕ)
      → limit ≤ 2 ^ 32 - 512
      → sectors_of limit < fuel
      → (r : ReadResult) × (fat12_read_file block_read fuel fs name83 limit d ≡ some r)
        × Stored limit r
  unfolding fat12_read_file Stored
  fat12_read_file-Stored fuel limit name83 b h = elim (Bool-cases fs.ready) [
    | inr off ↦ (failed [], simp off refl, omega arith)
    | inl on ↦ elim (Option-cases (fat12_find_entry fs name83)) [
      | inl missing ↦ (failed [], simp on (rw missing refl), omega arith)
      | inr found ↦
          file-Stored fuel found.0 limit name83 on found.1
            (gathers fuel (word16 (entry fs found.0) 26) 0 limit b (omega arith))
    ]
  ]
