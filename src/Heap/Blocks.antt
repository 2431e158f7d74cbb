-- ===== src/Heap/Blocks.antt =====
-- Looking up the blocks of src/memory_manager.c by address, before and after a change of the list.
use asm_os.Prelude.{
  ℕ, ◌+◌, ◌-◌, ◌%◌, ◌≤◌, ◌≡◌, refl, ◌≢◌, ◌⊎◌, inl, inr, true, false, ◌&&◌, some, List, [], ◌∷◌,
  arith, leb, ◌==◌, ==→eq, Bool-cases,
}
use asm_os.Prelude.Words.{u32, sub32}
use asm_os.Heap.{
  Block, header_size, pool_size, alignment, find_free_block, split, split_block, set_free, block_of,
}
use asm_os.Heap.Tiling.{Tiles, Tiles-le, find_free_block-fits}

-- A block found in a tiled range lies inside it, on an aligned offset.
pub block_of_bounds :
    (a e p : ℕ) (bs : List Block) {b : Block}
    → Tiles a e bs
    → block_of p bs ≡ some b
    → (b.addr + header_size ≡ p) × (a ≤ b.addr) × (p + b.size ≤ e) × ((b.addr - a) % alignment ≡ 0)
unfolding block_of
block_of_bounds a e p [] t h = absurd (ground arith)
block_of_bounds a e p (x ∷ bs) {b} t h = elim (Bool-cases (x.addr + header_size == p)) [
  | inl y ↦ ground (arith, ==→eq _ _ y, Tiles-le (a + header_size + x.size) e bs t.2)
  | inr n ↦
      let inner = block_of_bounds (a + header_size + x.size) e p bs {b = b} t.2 (ground arith) in
      (inner.0, omega arith, inner.2, omega arith)
]

-- Two blocks of a tiled range do not overlap.
pub blocks_disjoint :
    (a e p q : ℕ) (bs : List Block) {b c : Block}
    → Tiles a e bs
    → block_of p bs ≡ some b
    → block_of q bs ≡ some c
    → p ≢ q
    → (p + b.size ≤ q) ⊎ (q + c.size ≤ p)
unfolding block_of
blocks_disjoint a e p q [] t h k d = absurd (ground arith)
blocks_disjoint a e p q (x ∷ bs) {b} {c} t h k d = ground (
  arith,
  blocks_disjoint (a + header_size + x.size) e p q bs {b = b} {c = c} t.2,
  block_of_bounds (a + header_size + x.size) e p bs {b = b} t.2,
  block_of_bounds (a + header_size + x.size) e q bs {b = c} t.2,
)

split_head :
    (x : Block) (size : ℕ) (bs : List Block)
    → size ≤ x.size
    → (y : Block) × (rest : List Block) × (split x size bs ≡ y ∷ rest)
      × (y.addr ≡ x.addr)
      × (size ≤ y.size)
unfolding split
split_head x size bs h = elim (Bool-cases (leb (u32 (size + header_size + alignment)) x.size)) [
  | inl y ↦ (
    record x { size = size },
    record {
      addr = x.addr + header_size + size;
      size = sub32 (sub32 x.size size) header_size;
      free = true;
    }
        ∷ bs,
    rw y,
    refl,
    omega arith,
  )
  | inr n ↦ (x, bs, rw n, refl, h)
]

-- The block that a successful search hands out, after the split.
pub block_of-taken :
    (a e at size : ℕ) (bs : List Block)
    → Tiles a e bs
    → size ≤ pool_size
    → find_free_block bs size ≡ some at
    → (b : Block) × (block_of (at + header_size) (set_free at false (split_block at size bs))
        ≡ some b)
      × (b.free ≡ false)
      × (size ≤ b.size)
unfolding block_of set_free split_block find_free_block
block_of-taken a e at size [] t s h = absurd (ground arith)
block_of-taken a e at size (x ∷ bs) t s h = elim (Bool-cases (x.free && leb size x.size)) [
  | inl y ↦
      let found : x.addr ≡ at = ground arith in
      let cut = split_head x size bs (ground arith) in
      (record (cut.0) { free = false }, ground (arith, cut.2, cut.3), refl, cut.4)
  | inr n ↦
      let later : find_free_block bs size ≡ some at = ground arith in
      let far = find_free_block-fits (a + header_size + x.size) e size at bs t.2 later in
      let rest = block_of-taken (a + header_size + x.size) e at size bs t.2 s later in
      (rest.0, ground (arith, rest.1), rest.2, rest.3)
]

-- Handing out a block leaves each used block where it is, and takes none of them.
pub block_of-kept :
    (a e at size q : ℕ) (bs : List Block) {c : Block}
    → Tiles a e bs
    → e ≤ a + pool_size
    → find_free_block bs size ≡ some at
    → block_of q bs ≡ some c
    → c.free ≡ false
    → (block_of q (set_free at false (split_block at size bs)) ≡ some c) × (at + header_size ≢ q)
unfolding block_of set_free split_block find_free_block split
block_of-kept a e at size q [] t k h f l = absurd (ground arith)
block_of-kept a e at size q (x ∷ bs) {c} t k h f l = elim (Bool-cases (x.free && leb size x.size)) [
  | inl y ↦
      let found : x.addr ≡ at = ground arith in
      let other : block_of q bs ≡ some c = ground arith in
      let far = block_of_bounds (a + header_size + x.size) e q bs {b = c} t.2 other in
      (ground (arith, Tiles-le (a + header_size + x.size) e bs t.2), omega arith)
  | inr n ↦
      let later : find_free_block bs size ≡ some at = ground arith in
      let far = find_free_block-fits (a + header_size + x.size) e size at bs t.2 later in
      elim (Bool-cases (x.addr + header_size == q)) [
        | inl here ↦ (ground arith, omega (arith, ==→eq _ _ here))
        | inr there ↦
            let rest =
              block_of-kept (a + header_size + x.size) e at size q bs {c = c} t.2 (omega arith)
                later (ground arith) l in
            (ground (arith, rest.0), rest.1)
      ]
]
