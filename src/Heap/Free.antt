-- ===== src/Heap/Free.antt =====
-- `free` and `merge_free_blocks` of src/memory_manager.c.
use asm_os.Prelude.{
  ℕ, ◌+◌, ◌-◌, ◌^◌, ◌≤◌, ◌<◌, ◌≡◌, refl, ap, ◌≢◌, ◌∙◌, inl, inr, Bool, true, false, ◌&&◌, ◌||◌,
  Option, none, some, List, [], ◌∷◌, arith, ltb, leb, Bool-cases, Option-cases,
}
use asm_os.Prelude.Words.{u32}
use mathlib.Core.Path.{subst}
use asm_os.Heap.{
  Block, Heap, header_size, pool_size, align, find_free_block, split, split_block, set_free,
  merge_from, merge_free_blocks, block_of, malloc, release, free,
}
use asm_os.Heap.InUse.{in_use, without, in_use-merge_free_blocks, in_use-set_free}
use asm_os.Heap.Tiling.{
  Tiles, Tiles-le, find_free_block-fits, set_free-Tiles, merge_free_blocks-Tiles,
}
use asm_os.Heap.Blocks.{block_of_bounds}
use asm_os.Heap.Malloc.{IsValid, malloc-IsValid, malloc-some, malloc-returns_block}

-- No free block directly behind a free one; `f` tells if the block before the list is free.
abbrev pub Behind : Bool → List Block → Type 0
Behind f [] = Unit
Behind f (b ∷ bs) = ((f && b.free) ≡ false) × Behind b.free bs

-- No two adjacent blocks are both free.
abbrev pub Coalesced : List Block → Type 0
Coalesced = Behind false

merge_from-Behind :
    (f : Bool) (b : Block) (bs : List Block) → (f && b.free) ≡ false → Behind f (merge_from b bs)
unfolding merge_from
merge_from-Behind f b [] h = (h, tt)
merge_from-Behind f b (c ∷ bs) h = elim (Bool-cases (b.free && c.free)) [
  | inl y ↦
      rw (y, merge_from)
        (merge_from-Behind f (record b { size = u32 (b.size + (header_size + c.size)) }) bs h)
  | inr n ↦ rw (n, merge_from) (h, merge_from-Behind b.free c bs n)
]

merge_free_blocks-Coalesced : (bs : List Block) → Coalesced (merge_free_blocks bs)
unfolding merge_free_blocks
merge_free_blocks-Coalesced [] = tt
merge_free_blocks-Coalesced (b ∷ bs) = merge_from-Behind false b bs refl

block_of-set_free :
    (at q : ℕ) (v : Bool) (bs : List Block) {c : Block}
    → block_of q bs ≡ some c
    → at + header_size ≢ q
    → block_of q (set_free at v bs) ≡ some c
unfolding block_of set_free
block_of-set_free at q v [] f d = f
block_of-set_free at q v (b ∷ bs) {c} f d = ground (arith, block_of-set_free at q v bs {c = c})

block_of-merge_from :
    (q : ℕ) (b : Block) (bs : List Block) {c : Block}
    → block_of q (b ∷ bs) ≡ some c
    → c.free ≡ false
    → block_of q (merge_from b bs) ≡ some c
unfolding block_of merge_from
block_of-merge_from q b [] f l = f
block_of-merge_from q b (x ∷ bs) {c} f l = elim (Bool-cases (b.free && x.free)) [
  | inl y ↦
      rw (y, merge_from)
        (block_of-merge_from q (record b { size = u32 (b.size + (header_size + x.size)) }) bs
          {c = c} (ground arith) l)
  | inr n ↦ rw (n, merge_from) (ground (arith, block_of-merge_from q x bs {c = c}))
]

block_of-merge_free_blocks :
    (q : ℕ) (bs : List Block) {c : Block}
    → block_of q bs ≡ some c
    → c.free ≡ false
    → block_of q (merge_free_blocks bs) ≡ some c
unfolding merge_free_blocks
block_of-merge_free_blocks q [] f l = f
block_of-merge_free_blocks q (b ∷ bs) {c} f l = block_of-merge_from q b bs {c = c} f l

-- `free` of a pointer to a block of the list, with what it makes of the list.
pub free_block :
    (memory_pool p : ℕ) (h : Heap) {b : Block}
    → IsValid memory_pool h
    → block_of p h.blocks ≡ some b
    → 0 < b.size
    → free memory_pool (some p) h
      ≡ some (record h { blocks = merge_free_blocks (set_free b.addr true h.blocks) })
unfolding free release
free_block memory_pool p h {b} v f z =
    ground (arith, block_of_bounds memory_pool (memory_pool + pool_size) p h.blocks {b = b} v f)

-- `free` keeps the blocks a tiling of the pool, for every pointer that it does not fault on.
pub free-IsValid :
    (memory_pool : ℕ) (ptr : Option ℕ) (h h' : Heap)
    → IsValid memory_pool h
    → free memory_pool ptr h ≡ some h'
    → IsValid memory_pool h'
unfolding free release
free-IsValid memory_pool none h h' v e =
    let same : h ≡ h' = ground arith in subst (λ x. IsValid memory_pool x) same v
free-IsValid memory_pool (some p) h h' v e =
    elim (Bool-cases (ltb p memory_pool || leb (memory_pool + pool_size) p)) [
      | inl out ↦ let same : h ≡ h' = ground arith in subst (λ x. IsValid memory_pool x) same v
      | inr within ↦ elim (Option-cases (block_of p h.blocks)) [
        | inl missing ↦ absurd (ground arith)
        | inr (b, found) ↦
            let same : record h { blocks = merge_free_blocks (set_free b.addr true h.blocks) }
                ≡ h' =
              ground arith in
            subst (λ x. IsValid memory_pool x) same
              (merge_free_blocks-Tiles memory_pool _ _ (omega arith)
                (set_free-Tiles memory_pool _ b.addr true h.blocks v))
      ]
    ]

-- `free` of the pointer to a block of at least one byte succeeds and leaves no two adjacent free
-- blocks. The blocks in use are those from before, in their order, without the freed one, and no
-- byte of the memory has changed.
pub free-keeps_live :
    (memory_pool p : ℕ) (h : Heap) (b : Block)
    → IsValid memory_pool h
    → block_of p h.blocks ≡ some b
    → 0 < b.size
    → (h' : Heap) × (free memory_pool (some p) h ≡ some h')
      × Coalesced h'.blocks
      × (in_use h'.blocks ≡ without p (in_use h.blocks))
      × (h'.bytes ≡ h.bytes)
free-keeps_live memory_pool p h b v f z =
    let found = block_of_bounds memory_pool (memory_pool + pool_size) p h.blocks {b = b} v f in
    (
      record h { blocks = merge_free_blocks (set_free b.addr true h.blocks) },
      free_block memory_pool p h {b = b} v f z,
      merge_free_blocks-Coalesced _,
      in_use-merge_free_blocks (set_free b.addr true h.blocks)
          ∙ in_use-set_free memory_pool _ b.addr h.blocks v
          ∙ ap (λ x. without x (in_use h.blocks)) found.0,
      refl,
    )

-- What `free` leaves of any other block that is in use.
pub free-keeps_block :
    (memory_pool p q : ℕ) (h : Heap) (b c : Block)
    → IsValid memory_pool h
    → block_of p h.blocks ≡ some b
    → block_of q h.blocks ≡ some c
    → c.free ≡ false
    → p ≢ q
    → block_of q (merge_free_blocks (set_free b.addr true h.blocks)) ≡ some c
free-keeps_block memory_pool p q h b c v f g l d =
    let found = block_of_bounds memory_pool (memory_pool + pool_size) p h.blocks {b = b} v f in
    block_of-merge_free_blocks q _ {c = c}
      (block_of-set_free b.addr q true h.blocks {c = c} g (omega arith)) l

merge_free_blocks_id : (f : Bool) (bs : List Block) → Behind f bs → merge_free_blocks bs ≡ bs
unfolding merge_free_blocks merge_from
merge_free_blocks_id f [] h = refl
merge_free_blocks_id f (b ∷ []) h = refl
merge_free_blocks_id f (b ∷ c ∷ bs) h =
    rw (h.1.0, merge_from) (ap (λ l. b ∷ l) (merge_free_blocks_id b.free (c ∷ bs) h.1))

-- The first block, if any, is not free behind a free one.
abbrev Apart : Bool → List Block → Type 0
Apart f [] = Unit
Apart f (b ∷ bs) = (f && b.free) ≡ false

Behind-Apart : (f : Bool) (bs : List Block) → Behind f bs → Apart f bs
Behind-Apart f [] h = tt
Behind-Apart f (b ∷ bs) h = h.0

merge_from-Apart :
    (b : Block) (bs : List Block) → Apart b.free bs → merge_from b bs ≡ b ∷ merge_free_blocks bs
unfolding merge_free_blocks merge_from
merge_from-Apart b [] h = refl
merge_from-Apart b (c ∷ bs) h = rw (h, merge_from)

-- A block taken by a search, and marked free again.
abbrev retake : ℕ → ℕ → List Block → List Block
retake at size bs = set_free at true (set_free at false (split_block at size bs))

retake-Apart :
    (f : Bool) (a e at size : ℕ) (bs : List Block)
    → Tiles a e bs
    → Apart f bs
    → find_free_block bs size ≡ some at
    → Apart f (retake at size bs)
unfolding set_free split_block split find_free_block
retake-Apart f a e at size [] t h s = tt
retake-Apart f a e at size (b ∷ bs) t h s = elim (Bool-cases (b.free && leb size b.size)) [
  | inl y ↦ ground arith
  | inr n ↦
      let later : find_free_block bs size ≡ some at = ground arith in
      ground (arith, find_free_block-fits (a + header_size + b.size) e size at bs t.2 later)
]

-- Taking a block by a search and giving it back restores a list without adjacent free blocks.
undo :
    (f : Bool) (a e at size : ℕ) (bs : List Block)
    → Tiles a e bs
    → e ≤ a + pool_size
    → Behind f bs
    → find_free_block bs size ≡ some at
    → merge_free_blocks (retake at size bs) ≡ bs
unfolding merge_free_blocks merge_from set_free split_block split find_free_block
undo f a e at size [] t k h s = refl
undo f a e at size (b ∷ bs) t k h s =
    let same = merge_free_blocks_id f (b ∷ bs) h in
    elim (Bool-cases (b.free && leb size b.size)) [
      | inl y ↦ ground (arith, same, Tiles-le (a + header_size + b.size) e bs t.2)
      | inr n ↦
          let later : find_free_block bs size ≡ some at = ground arith in
          let far = find_free_block-fits (a + header_size + b.size) e size at bs t.2 later in
          let rest =
            undo b.free (a + header_size + b.size) e at size bs t.2 (omega arith) h.1 later in
          ground (
            arith,
            rest,
            merge_from-Apart b (retake at size bs) (
                retake-Apart b.free (a + header_size + b.size) e at size bs t.2
                  (Behind-Apart b.free bs h.1) later),
          )
    ]

-- On a heap without adjacent free blocks, `free` right after a successful `malloc` of at most
-- 2^32 - 4 bytes succeeds and restores the heap exactly: no fragmentation is left behind.
pub free-malloc :
    (memory_pool size p : ℕ) (h : Heap)
    → IsValid memory_pool h
    → Coalesced h.blocks
    → size ≤ 2 ^ 32 - 4
    → (malloc size h).0 ≡ some p
    → free memory_pool (some p) (malloc size h).1 ≡ some h
free-malloc memory_pool size p h v u s r =
    let did = malloc-some size p h r in
    let new = malloc-returns_block memory_pool size p h v s r in
    let valid = malloc-IsValid memory_pool size h v in
    let place = block_of_bounds memory_pool _ p _ {b = new.0} valid new.1 in
    let here : new.0.addr ≡ did.0 = omega arith in
    let restored = undo false memory_pool _ did.0 (align size) h.blocks v (omega arith) u did.1 in
    ground (
      arith,
      free_block memory_pool p (malloc size h).1 {b = new.0} valid new.1 (omega arith),
      did,
      restored,
    )
