-- ===== src/Heap/InUse.antt =====
-- The blocks in use of src/memory_manager.c, before and after a block is freed.
use asm_os.Prelude.{
  ℕ, ◌+◌, ◌<◌, ◌≡◌, refl, ◌∙◌, inl, inr, true, ◌&&◌, List, [], ◌∷◌, arith, ◌==◌, if◌then◌else◌,
  Bool-cases,
}
use asm_os.Prelude.Words.{u32}
use asm_os.Heap.{Block, header_size, set_free, merge_from, merge_free_blocks}
use asm_os.Heap.Tiling.{Tiles}

-- The blocks in use, in the order of the list.
pub in_use : List Block → List Block
in_use [] = []
in_use (b ∷ bs) = if b.free then in_use bs else b ∷ in_use bs

-- The blocks but those whose payload begins at `p`.
pub without : ℕ → List Block → List Block
without p [] = []
without p (b ∷ bs) = if b.addr + header_size == p then without p bs else b ∷ without p bs

in_use-merge_from : (b : Block) (bs : List Block) → in_use (merge_from b bs) ≡ in_use (b ∷ bs)
unfolding in_use merge_from
in_use-merge_from b [] = refl
in_use-merge_from b (c ∷ bs) = elim (Bool-cases (b.free && c.free)) [
  | inl y ↦
      rw (y, merge_from)
        (in_use-merge_from (record b { size = u32 (b.size + (header_size + c.size)) }) bs
          ∙ ground arith)
  | inr n ↦ rw (n, merge_from) (ground (arith, in_use-merge_from c bs))
]

pub in_use-merge_free_blocks : (bs : List Block) → in_use (merge_free_blocks bs) ≡ in_use bs
unfolding merge_free_blocks
in_use-merge_free_blocks [] = refl
in_use-merge_free_blocks (b ∷ bs) = in_use-merge_from b bs

-- No block of a tiled range has its payload at or before the start.
without-before :
    (a e p : ℕ) (bs : List Block)
    → Tiles a e bs
    → p < a + header_size
    → without p (in_use bs) ≡ in_use bs
unfolding in_use without
without-before a e p [] t h = refl
without-before a e p (b ∷ bs) t h =
    ground (arith, without-before (a + header_size + b.size) e p bs t.2)

pub in_use-set_free :
    (a e at : ℕ) (bs : List Block)
    → Tiles a e bs
    → in_use (set_free at true bs) ≡ without (at + header_size) (in_use bs)
unfolding in_use set_free without
in_use-set_free a e at [] t = refl
in_use-set_free a e at (b ∷ bs) t = ground (
  arith,
  in_use-set_free (a + header_size + b.size) e at bs t.2,
  without-before (a + header_size + b.size) e (at + header_size) bs t.2,
)
