-- ===== src/Fat12/Tests.antt =====
-- The reading of a file of two sectors from a disk, and the theorems there.
use asm_os.Prelude.{
  ℕ, ◌*◌, ◌≡◌, refl, true, some, List, [], ◌∷◌, ◌++◌, arith, min, take, length, replicate, Option,
  length-replicate, ap, sym, ◌∙◌,
}
use asm_os.Prelude.CString.{codes}
use asm_os.Fat12.{
  Fat12, fat12_find_entry, fat12_read_file, fat12_read_cluster, fat12_next_cluster, entry, word16,
  word32, file, sector_size, ReadResult, find_entry, entry_matches,
}
use asm_os.Fat12.Chains.Sectors.{Chain}
use asm_os.Fat12.Chains.{sectors_of, join, fat12_read_file_lem}
use asm_os.Fat12.Chains.Endings.{Stored, fat12_read_file-Stored}

-- The clusters 2 and 3 are a chain. The entry at place 1 is a file of 600 bytes.
abbrev two_clusters : Fat12
two_clusters = record {
  fat = 0xF0 ∷ 0xFF ∷ 0xFF ∷ 0x03 ∷ 0xF0 ∷ 0xFF ∷ [];
  root =
      replicate 32 0 ++ codes "A       TXT" ++ replicate 15 0 ++ (2 ∷ 0 ∷ 0x58 ∷ 0x02 ∷ 0 ∷ 0 ∷ []);
  ready = true;
}

-- A disk with the number of each sector in its bytes.
numbered : ℕ → ℕ → Option (List ℕ)
numbered d lba = some (replicate 512 lba)

numbered_whole : (d lba : ℕ) (s : List ℕ) → numbered d lba ≡ some s → length s ≡ sector_size
unfolding numbered
numbered_whole d lba s e =
    let same : replicate 512 lba ≡ s = cc e in ap length (sym same) ∙ length-replicate 512 lba

abbrev sectors : List (List ℕ)
sectors = replicate 512 65 ∷ replicate 512 66 ∷ []

found : fat12_find_entry two_clusters (codes "A       TXT") ≡ some 1
unfolding fat12_find_entry find_entry entry_matches entry
found = refl

chained : Chain numbered two_clusters 0 (word16 (entry two_clusters 1) 26) sectors
unfolding Chain fat12_read_cluster fat12_next_cluster word16 entry numbered
chained = (omega arith, refl, (omega arith, refl, omega arith))

fat12_read_file_lem_example :
    let part = take (sectors_of 1024) sectors in
    fat12_read_file numbered 3 two_clusters (codes "A       TXT") 1024 0
    ≡ some (file (join part) (min (sector_size * length part) (word32 (entry two_clusters 1) 28)))
fat12_read_file_lem_example =
    fat12_read_file_lem numbered two_clusters 0 3 1 1024 (codes "A       TXT") sectors refl found
      chained (omega arith)

fat12_read_file-Stored_example :
    (r : ReadResult) × (fat12_read_file numbered 3 two_clusters (codes "A       TXT") 600 0
      ≡ some r)
    × Stored 600 r
fat12_read_file-Stored_example =
    fat12_read_file-Stored numbered numbered_whole two_clusters 0 3 600 (codes "A       TXT")
      (omega arith) (omega arith)
