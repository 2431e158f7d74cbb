-- ===== src/Fat12/Chains/Sectors.antt =====
-- The chain of clusters of a file of fat12.c.
use asm_os.Prelude.{ℕ, ◌≤◌, ◌<◌, ◌≡◌, Option, some, List, [], ◌∷◌}
use asm_os.Fat12.{cluster_eof, Fat12, fat12_next_cluster, fat12_read_cluster}

module _ {D : Type 0} (block_read : D → ℕ → Option (List ℕ)) (fs : Fat12) (d : D) where
  -- The chain that starts at a cluster holds these sectors and ends there.
  unfoldable pub Chain : ℕ → List (List ℕ) → Type 0
  Chain c [] = cluster_eof ≤ c
  Chain c (s ∷ ss) =
      (c < cluster_eof)
      × (fat12_read_cluster block_read d c ≡ some s)
      × Chain (fat12_next_cluster fs c) ss
