-- ===== src/Heap/Malloc.antt =====
-- `init_memory_manager` and `malloc` of src/memory_manager.c.
use asm_os.Prelude.{
  ℕ, ◌+◌, ◌-◌, ◌*◌, ◌/◌, ◌%◌, ◌^◌, ◌≤◌, ◌<◌, ◌≡◌, refl, ◌↔◌, ◌⊎◌, inl, inr, true, false, none, some,
  List, [], ◌∷◌, arith, ◌==◌, Bool-cases, Option-cases, All,
}
use asm_os.Prelude.Words.{u32}
use asm_os.Heap.{
  Block, Heap, header_size, pool_size, alignment, align, init_memory_manager, find_free_block,
  split_block, set_free, block_of, malloc,
}
use asm_os.Heap.Tiling.{
  Tiles, align_bounds, align_multiple, find_free_block-fits, split_block-Tiles, set_free-Tiles,
}
use asm_os.Heap.Blocks.{block_of_bounds, blocks_disjoint, block_of-taken, block_of-kept}

-- The blocks tile the pool at `memory_pool`.
abbrev pub IsValid : ℕ → Heap → Type 0
IsValid memory_pool h = Tiles memory_pool (memory_pool + pool_size) h.blocks

pub init_memory_manager-IsValid :
    (memory_pool : ℕ) (bytes : ℕ → ℕ) → IsValid memory_pool (init_memory_manager memory_pool bytes)
unfolding init_memory_manager
init_memory_manager-IsValid memory_pool bytes = (refl, refl, omega arith)

-- `malloc` keeps the list of blocks a tiling of the pool, whatever size is asked for.
pub malloc-IsValid :
    (memory_pool size : ℕ) (h : Heap)
    → IsValid memory_pool h
    → IsValid memory_pool (malloc size h).1
unfolding malloc
malloc-IsValid memory_pool size h v = elim (Bool-cases (size == 0)) [
  | inl z ↦ rw z v
  | inr n ↦ rw n (elim (Option-cases (find_free_block h.blocks (align size))) [
    | inl e ↦ rw e v
    | inr (at, e) ↦
        let fits = find_free_block-fits memory_pool _ (align size) at h.blocks v e in
        rw e (
          set_free-Tiles memory_pool _ at false _ (
            split_block-Tiles memory_pool _ at (align size) h.blocks (align_multiple size)
              (omega arith) (omega arith) v))
  ])
]

-- What a successful `malloc` has done, in terms of the search.
pub malloc-some :
    (size p : ℕ) (h : Heap)
    → (malloc size h).0 ≡ some p
    → (at : ℕ) × (find_free_block h.blocks (align size) ≡ some at)
      × (p ≡ at + header_size)
      × ((malloc size h).1.blocks ≡ set_free at false (split_block at (align size) h.blocks))
      × ((malloc size h).1.bytes ≡ h.bytes)
      × (0 < size)
unfolding malloc
malloc-some size p h r = elim (Option-cases (find_free_block h.blocks (align size))) [
  | inl e ↦ absurd (ground arith)
  | inr (at, e) ↦ (at, e, ground arith, ground arith, ground arith, ground arith)
]

-- A pointer that `malloc` returns for at most 2^32 - 4 bytes is the payload of a block in use that
-- holds the request, lies in the pool, and is aligned from the start of the pool.
pub malloc-returns_block :
    (memory_pool size p : ℕ) (h : Heap)
    → IsValid memory_pool h
    → size ≤ 2 ^ 32 - 4
    → (malloc size h).0 ≡ some p
    → (b : Block) × (block_of p (malloc size h).1.blocks ≡ some b)
      × (b.free ≡ false)
      × (size ≤ b.size)
      × (memory_pool + header_size ≤ p)
      × (p + size ≤ memory_pool + pool_size)
      × ((p - memory_pool) % alignment ≡ 0)
malloc-returns_block memory_pool size p h v s r =
    let did = malloc-some size p h r in
    let fits = find_free_block-fits memory_pool _ (align size) did.0 h.blocks v did.1 in
    let taken = block_of-taken memory_pool _ did.0 (align size) h.blocks v (omega arith) did.1 in
    let found : block_of p (malloc size h).1.blocks ≡ some taken.0 = cc (did.2, did.3, taken.1) in
    let inside =
      block_of_bounds memory_pool _ p _ {b = taken.0} (malloc-IsValid memory_pool size h v) found in
    (
      taken.0,
      found,
      taken.2,
      omega (arith, align_bounds size s),
      omega arith,
      omega (arith, align_bounds size s),
      omega arith,
    )

-- `malloc` of at most 2^32 - 4 bytes moves or takes no block that is in use, and its payload
-- overlaps none of them.
pub malloc-keeps_live :
    (memory_pool size p q : ℕ) (h : Heap) (c : Block)
    → IsValid memory_pool h
    → size ≤ 2 ^ 32 - 4
    → (malloc size h).0 ≡ some p
    → block_of q h.blocks ≡ some c
    → c.free ≡ false
    → (block_of q (malloc size h).1.blocks ≡ some c) × ((p + size ≤ q) ⊎ (q + c.size ≤ p))
malloc-keeps_live memory_pool size p q h c v s r f l =
    let did = malloc-some size p h r in
    let new = malloc-returns_block memory_pool size p h v s r in
    let kept =
      block_of-kept memory_pool _ did.0 (align size) q h.blocks {c = c} v (omega arith) did.1 f l in
    let still : block_of q (malloc size h).1.blocks ≡ some c = cc (did.3, kept.0) in
    let apart =
      blocks_disjoint memory_pool _ p q _ {b = new.0} {c = c} (malloc-IsValid memory_pool size h v)
        new.1 still (λ e. kept.1 (omega arith)) in
    (still, omega arith)

-- No free block of the list holds `size` bytes.
abbrev pub NoRoom : ℕ → List Block → Type 0
NoRoom size = All (λ b. b.free ≡ true → b.size < size)

find_free_block-none :
    (size : ℕ) (bs : List Block) → (find_free_block bs size ≡ none) ↔ NoRoom size bs
unfolding find_free_block
find_free_block-none size [] = (λ e. tt, λ e. refl)
find_free_block-none size (b ∷ bs) =
    let rest = find_free_block-none size bs in
    (
      λ e. (λ f. ground arith, rest.0 (ground arith)),
      λ r. let tail = rest.1 r.1 in ground (arith, r.0),
    )

-- `malloc` of a size above 0 fails exactly when no free block holds the aligned size; it has then
-- changed nothing.
pub malloc_fails_iff :
    (size : ℕ) (h : Heap)
    → 0 < size
    → ((malloc size h).0 ≡ none) ↔ (NoRoom (align size) h.blocks × ((malloc size h).1 ≡ h))
unfolding malloc
malloc_fails_iff size h z =
    let room = find_free_block-none (align size) h.blocks in
    elim (Option-cases (find_free_block h.blocks (align size))) [
      | inl e ↦ (λ _. (room.0 e, ground arith), λ _. ground arith)
      | inr (at, e) ↦ (λ n. absurd (ground arith), λ r. absurd (ground (arith, room.1 r.0)))
    ]

-- The three largest sizes wrap to 0 in `ALIGN`: where any free block is left, `malloc` returns it
-- for such a request, and the request reaches past the end of the pool.
pub malloc_wraps :
    (memory_pool size at : ℕ) (h : Heap)
    → IsValid memory_pool h
    → 2 ^ 32 - 3 ≤ size
    → size < 2 ^ 32
    → find_free_block h.blocks 0 ≡ some at
    → ((malloc size h).0 ≡ some (at + header_size))
      × (memory_pool + pool_size < at + header_size + size)
unfolding malloc align
malloc_wraps memory_pool size at h v lo hi e =
    let fits = find_free_block-fits memory_pool _ 0 at h.blocks v e in
    let zeroed : u32 (size + (alignment - 1)) / 4 * 4 ≡ 0 = omega arith in
    (rw (zeroed, e) (ground arith), omega arith)
