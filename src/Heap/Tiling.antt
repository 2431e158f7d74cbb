-- ===== src/Heap/Tiling.antt =====
-- The block list of src/memory_manager.c tiles the pool, and the list operations keep it so.
use asm_os.Prelude.{
  ℕ, ◌+◌, ◌-◌, ◌%◌, ◌^◌, ◌≤◌, ◌<◌, ◌≡◌, inl, inr, Bool, ◌&&◌, some, List, [], ◌∷◌, arith, leb, ◌==◌,
  leb→le, Bool-cases,
}
use asm_os.Prelude.Words.{u32}
use asm_os.Heap.{
  Block, header_size, pool_size, alignment, align, find_free_block, split, split_block, set_free,
  merge_from, merge_free_blocks,
}

-- The blocks lie one behind the other from `a` to `e`, their sizes multiples of the alignment.
abbrev pub Tiles : ℕ → ℕ → List Block → Type 0
Tiles a e [] = a ≡ e
Tiles a e (b ∷ bs) = (b.addr ≡ a) × (b.size % alignment ≡ 0) × Tiles (a + header_size + b.size) e bs

pub Tiles-le : (a e : ℕ) (bs : List Block) → Tiles a e bs → a ≤ e
Tiles-le a e [] t = omega arith
Tiles-le a e (b ∷ bs) t = omega (arith, Tiles-le (a + header_size + b.size) e bs t.2)

pub align_bounds :
    (n : ℕ) → n ≤ 2 ^ 32 - 4 → (n ≤ align n) × (align n < n + 4) × (align n % alignment ≡ 0)
unfolding align
align_bounds n h = (omega arith, omega arith, omega arith)

pub align_multiple : (n : ℕ) → align n % alignment ≡ 0
unfolding align
align_multiple n = omega arith

-- What `find_free_block` finds is a free block of the list that fits.
pub find_free_block-fits :
    (a e size at : ℕ) (bs : List Block)
    → Tiles a e bs
    → find_free_block bs size ≡ some at
    → (a ≤ at) × (at + header_size + size ≤ e)
unfolding find_free_block
find_free_block-fits a e size at [] t h = absurd (ground arith)
find_free_block-fits a e size at (b ∷ bs) t h = ground (
  arith,
  find_free_block-fits (a + header_size + b.size) e size at bs t.2,
  Tiles-le (a + header_size + b.size) e bs t.2,
)

Tiles-at : (a c e : ℕ) (bs : List Block) → a ≡ c → Tiles a e bs → Tiles c e bs
Tiles-at a c e bs p t = rw (← p) t

pub split-Tiles :
    (a e size : ℕ) (b : Block) (bs : List Block)
    → size % alignment ≡ 0
    → size ≤ pool_size
    → e ≤ a + pool_size
    → Tiles a e (b ∷ bs)
    → Tiles a e (split b size bs)
unfolding split
split-Tiles a e size b bs m s k t =
    let room = Tiles-le (a + header_size + b.size) e bs t.2 in
    elim (Bool-cases (leb (u32 (size + header_size + alignment)) b.size)) [
      | inl y ↦
          let fits = leb→le _ _ y in
          rw y (
            t.0,
            m,
            (
              omega arith,
              omega arith,
              Tiles-at (a + header_size + b.size) _ e bs (omega arith) t.2,
            ),
          )
      | inr n ↦ rw n t
    ]

pub split_block-Tiles :
    (a e at size : ℕ) (bs : List Block)
    → size % alignment ≡ 0
    → size ≤ pool_size
    → e ≤ a + pool_size
    → Tiles a e bs
    → Tiles a e (split_block at size bs)
unfolding split_block
split_block-Tiles a e at size [] m s k t = t
split_block-Tiles a e at size (b ∷ bs) m s k t = elim (Bool-cases (b.addr == at)) [
  | inl y ↦ rw y (split-Tiles a e size b bs m s k t)
  | inr n ↦
      rw n
        (t.0, t.1, split_block-Tiles (a + header_size + b.size) e at size bs m s (omega arith) t.2)
]

pub set_free-Tiles :
    (a e at : ℕ) (v : Bool) (bs : List Block) → Tiles a e bs → Tiles a e (set_free at v bs)
unfolding set_free
set_free-Tiles a e at v [] t = t
set_free-Tiles a e at v (b ∷ bs) t =
    ground (arith, set_free-Tiles (a + header_size + b.size) e at v bs t.2)

pub merge_from-Tiles :
    (a e : ℕ) (b : Block) (bs : List Block)
    → e ≤ a + pool_size
    → Tiles a e (b ∷ bs)
    → Tiles a e (merge_from b bs)
unfolding merge_from
merge_from-Tiles a e b [] k t = t
merge_from-Tiles a e b (c ∷ bs) k t =
    let room = Tiles-le _ e bs t.2.2 in
    elim (Bool-cases (b.free && c.free)) [
      | inl y ↦
          rw (y, merge_from)
            (merge_from-Tiles a e (record b { size = u32 (b.size + (header_size + c.size)) }) bs k
              (
                t.0,
                omega arith,
                Tiles-at (a + header_size + b.size + header_size + c.size) _ e bs (omega arith)
                    t.2.2,
              ))
      | inr n ↦
          rw (n, merge_from)
            (t.0, t.1, merge_from-Tiles (a + header_size + b.size) e c bs (omega arith) t.2)
    ]

pub merge_free_blocks-Tiles :
    (a e : ℕ) (bs : List Block)
    → e ≤ a + pool_size
    → Tiles a e bs
    → Tiles a e (merge_free_blocks bs)
unfolding merge_free_blocks
merge_free_blocks-Tiles a e [] k t = t
merge_free_blocks-Tiles a e (b ∷ bs) k t = merge_from-Tiles a e b bs k t
