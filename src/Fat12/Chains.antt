-- ===== src/Fat12/Chains.antt =====
-- The chain of clusters of a file of the FAT12 driver.
pub mod Sectors
pub mod Lengths
pub mod Endings
use asm_os.Prelude.{
  ℕ, zero, suc, ◌+◌, ◌-◌, ◌*◌, ◌/◌, ◌≤◌, ◌<◌, min, ◌≡◌, refl, ◌∙◌, inl, inr, true, false, ◌&&◌,
  Bool, ◌^◌, Option, some, List, [], ◌∷◌, ◌++◌, arith, ltb, Bool-cases, length, take, take-nil,
}
use asm_os.Prelude.Words.{u32}
use asm_os.Fat12.Chains.Sectors.{Chain}
use asm_os.Fat12.Chains.Lengths.{length_le_eof}
use asm_os.Fat12.{
  sector_size, cluster_eof, Fat12, word16, word32, fat12_next_cluster, entry, fat12_find_entry,
  file, fat12_read_cluster, read_clusters, fat12_read_file,
}

-- The sectors that a buffer of that size takes, the last one whole.
abbrev pub sectors_of : ℕ → ℕ
sectors_of n = (n + 511) / sector_size

pub join : List (List ℕ) → List ℕ
join [] = []
join (s ∷ ss) = s ++ join ss

module _ {D : Type 0} (block_read : D → ℕ → Option (List ℕ)) (fs : Fat12) (d : D) where
  -- The loop ends where the chain does, or the buffer.
  pub clusters_end :
      (fuel c written limit : ℕ)
      → (ltb c cluster_eof && ltb written limit) ≡ false
      → read_clusters block_read (suc fuel) fs c written limit d ≡ some (true, [], written)
  unfolding read_clusters
  clusters_end fuel c written limit e = rw e refl

  pub clusters_step :
      (fuel c written limit : ℕ) (s bytes : List ℕ) (n : ℕ) (ok : Bool)
      → (ltb c cluster_eof && ltb written limit) ≡ true
      → fat12_read_cluster block_read d c ≡ some s
      → read_clusters block_read fuel fs
          (fat12_next_cluster fs c)
          (u32 (written + sector_size))
          limit
          d
        ≡ some (ok, bytes, n)
      → read_clusters block_read (suc fuel) fs c written limit d ≡ some (ok, s ++ bytes, n)
  unfolding read_clusters
  clusters_step fuel c written limit s bytes n ok e r rest = rw (e, r, rest) refl

  read_clusters-Chain :
      (ss : List (List ℕ)) (fuel c written limit : ℕ)
      → Chain block_read fs d c ss
      → written + sector_size * length ss < 2 ^ 32
      → sectors_of (limit - written) < fuel
      → let part = take (sectors_of (limit - written)) ss in
        read_clusters block_read fuel fs c written limit d
        ≡ some (true, join part, written + sector_size * length part)
  unfolding Chain join
  read_clusters-Chain ss zero c written limit w b h = absurd (omega arith)
  read_clusters-Chain [] (suc fuel) c written limit w b h =
      let none_left = take-nil (List ℕ) (sectors_of (limit - written)) in
      let same : written + sector_size * 0 ≡ written = omega arith in
      clusters_end fuel c written limit (ground (arith, w)) ∙ rw (none_left, same) refl
  read_clusters-Chain (s ∷ ss) (suc fuel) c written limit w b h =
      elim (Bool-cases (ltb written limit)) [
        | inl room ↦
            let more : sectors_of (limit - written)
                ≡ suc (sectors_of (limit - (written + sector_size))) =
              ground (arith, room) in
            let rest =
              read_clusters-Chain ss fuel (fat12_next_cluster fs c) (written + sector_size) limit
                w.2 (omega (arith, b)) (omega (arith, h, more)) in
            let exact : u32 (written + sector_size) ≡ written + sector_size = omega (arith, b) in
            let part = take (sectors_of (limit - (written + sector_size))) ss in
            let sum : written + sector_size + sector_size * length part
                ≡ written + sector_size * suc (length part) =
              omega arith in
            let inside : ltb c cluster_eof ≡ true = ground (arith, w.0) in
            clusters_step fuel c written limit s (join part)
              (written + sector_size + sector_size * length part) true (rw (inside, room) refl) w.1
              (rw exact rest)
            ∙ rw (sum, more) refl
        | inr full ↦
            let nothing : sectors_of (limit - written) ≡ 0 = ground (arith, full) in
            let same : written + sector_size * 0 ≡ written = omega arith in
            clusters_end fuel c written limit (ground (arith, full)) ∙ rw (nothing, same) refl
      ]

  -- The result of reading a file is settled by the clusters.
  pub file_lem :
      (fuel slot limit n : ℕ) (name83 bytes : List ℕ)
      → fs.ready ≡ true
      → fat12_find_entry fs name83 ≡ some slot
      → read_clusters block_read fuel fs (word16 (entry fs slot) 26) 0 limit d
        ≡ some (true, bytes, n)
      → fat12_read_file block_read fuel fs name83 limit d
        ≡ some (file bytes (min n (word32 (entry fs slot) 28)))
  unfolding fat12_read_file
  file_lem fuel slot limit n name83 bytes on found read = simp on (rw (found, read) refl)

  -- `fat12_read_file` on a mounted file system stores the sectors of the file's chain in their
  -- order, as many as the buffer takes, and reports the bytes stored or the size of the entry,
  -- whichever is less: where the entry is found and each sector of its chain is read, with
  -- fuel for one round more than the buffer takes sectors. The last sector is stored whole, also
  -- where it goes past the end of the buffer.
  pub fat12_read_file_lem :
      (fuel slot limit : ℕ) (name83 : List ℕ) (ss : List (List ℕ))
      → fs.ready ≡ true
      → fat12_find_entry fs name83 ≡ some slot
      → Chain block_read fs d (word16 (entry fs slot) 26) ss
      → sectors_of limit < fuel
      → let part = take (sectors_of limit) ss in
        fat12_read_file block_read fuel fs name83 limit d
        ≡ some (file (join part) (min (sector_size * length part) (word32 (entry fs slot) 28)))
  fat12_read_file_lem fuel slot limit name83 ss on found w h =
      let part = take (sectors_of limit) ss in
      let whole : limit - 0 ≡ limit = omega arith in
      let zero_plus : 0 + sector_size * length part ≡ sector_size * length part = omega arith in
      let read =
        read_clusters-Chain ss fuel (word16 (entry fs slot) 26) 0 limit w
          (omega (arith, length_le_eof block_read fs d _ ss w)) (omega arith) in
      file_lem fuel slot limit (sector_size * length part) name83 (join part) on found
        (read ∙ rw (whole, zero_plus) refl)
