-- ===== src/Heap/Contents.antt =====
-- `realloc`, `calloc` and the usage figure of src/memory_manager.c.
use asm_os.Prelude.{
  ℕ, ◌+◌, ◌-◌, ◌*◌, ◌/◌, ◌^◌, ◌≤◌, ◌<◌, ◌≡◌, ap, sym, ◌≢◌, inl, inr, false, Option, none, some,
  List, [], ◌∷◌, arith, ltb, leb, ◌==◌, if◌then◌else◌, leb→le, leb→gt, Bool-cases, Option-cases,
}
use asm_os.Prelude.Words.{u32}
use asm_os.Heap.{
  Block, Heap, header_size, pool_size, align, split_block, block_of, malloc, release, free, memcpy,
  copy_to, memset, clear, move_to, realloc, calloc, used_bytes, get_memory_usage_percent,
}
use asm_os.Heap.Memory.{memcpy_lem}
use asm_os.Heap.Tiling.{Tiles, align_bounds, split_block-Tiles}
use asm_os.Heap.Blocks.{block_of_bounds}
use asm_os.Heap.Malloc.{
  IsValid, malloc-IsValid, malloc-some, malloc-keeps_live, malloc-returns_block,
}
use asm_os.Heap.Free.{free_block, free-IsValid}
use mathlib.Core.Path.{subst}

copy_to-fits :
    (n q ptr : ℕ) (h : Heap) (c : Block)
    → block_of q h.blocks ≡ some c
    → n ≤ c.size
    → copy_to n q ptr h ≡ some (record h { bytes = memcpy n q ptr h.bytes })
unfolding copy_to
copy_to-fits n q ptr h c f s = ground arith

copy_to-blocks : (n q ptr : ℕ) (h h' : Heap) → copy_to n q ptr h ≡ some h' → h'.blocks ≡ h.blocks
unfolding copy_to
copy_to-blocks n q ptr h h' e = elim (Option-cases (block_of q h.blocks)) [
  | inl missing ↦ absurd (ground arith)
  | inr (c, found) ↦ elim (Bool-cases (leb n c.size)) [
    | inl fits ↦
        let same : record h { bytes = memcpy n q ptr h.bytes } ≡ h' = ground arith in
        sym (ap (λ x. x.blocks) same)
    | inr small ↦ absurd (ground arith)
  ]
]

free-bytes :
    (memory_pool : ℕ) (ptr : Option ℕ) (h h' : Heap)
    → free memory_pool ptr h ≡ some h'
    → h'.bytes ≡ h.bytes
unfolding free release
free-bytes memory_pool none h h' e = ground arith
free-bytes memory_pool (some p) h h' e = ground arith

-- `realloc` of a block in use keeps the first bytes, as many as the old and the new size share, at
-- the pointer that it returns, for a new size from 1 to 2^32 - 4.
pub realloc-keeps_contents :
    (memory_pool p q new_size i : ℕ) (h h' : Heap) (b : Block)
    → IsValid memory_pool h
    → 0 < new_size
    → new_size ≤ 2 ^ 32 - 4
    → block_of p h.blocks ≡ some b
    → b.free ≡ false
    → realloc memory_pool (some p) new_size h ≡ some (some q, h')
    → i < b.size
    → i < new_size
    → h'.bytes (q + i) ≡ h.bytes (p + i)
unfolding realloc move_to
realloc-keeps_contents memory_pool p q new_size i h h' b v z s f l r ib in' =
    elim (Bool-cases (leb new_size b.size)) [
      | inl fits ↦ ground arith
      | inr grows ↦ elim (Option-cases (malloc new_size h).0) [
        | inl full ↦ absurd (ground arith)
        | inr (q', got) ↦
            let kept = malloc-keeps_live memory_pool new_size q' p h b v s got f l in
            let did = malloc-some new_size q' h got in
            let new = malloc-returns_block memory_pool new_size q' h v s got in
            let moved = record (malloc new_size h).1 {
              bytes = memcpy b.size q' p (malloc new_size h).1.bytes;
            } in
            let copied =
              memcpy_lem b.size q' p i (malloc new_size h).1.bytes (omega (arith, leb→gt _ _ grows))
                ib in
            let copies : copy_to b.size q' p (malloc new_size h).1 ≡ some moved =
              copy_to-fits b.size q' p (malloc new_size h).1 new.0 new.1
                (omega (arith, new.3, leb→gt _ _ grows)) in
            elim (Option-cases (free memory_pool (some p) moved)) [
              | inl e ↦ absurd (ground arith)
              | inr (h3, e) ↦ ground (arith, free-bytes memory_pool (some p) moved h3 e)
            ]
      ]
    ]

-- `realloc` of a pointer, where the new size is not 0: in place, refused, or moved.
realloc-some-IsValid :
    (memory_pool p new_size : ℕ) (r : Option ℕ) (h h' : Heap) (b : Block)
    → IsValid memory_pool h
    → (new_size == 0) ≡ false
    → block_of p h.blocks ≡ some b
    → realloc memory_pool (some p) new_size h ≡ some (r, h')
    → IsValid memory_pool h'
unfolding realloc move_to
realloc-some-IsValid memory_pool p new_size r h h' b v z f e =
    elim (Bool-cases (leb new_size b.size)) [
      | inl fits ↦
          let inside = block_of_bounds memory_pool _ p h.blocks {b = b} v f in
          let small = leb→le _ _ fits in
          let bounds = align_bounds new_size (omega arith) in
          let same : record h { blocks = split_block b.addr (align new_size) h.blocks } ≡ h' =
            ground arith in
          subst (λ x. IsValid memory_pool x) same
            (split_block-Tiles memory_pool _ b.addr (align new_size) h.blocks bounds.2 (omega arith)
              (omega arith) v)
      | inr grows ↦
          let valid = malloc-IsValid memory_pool new_size h v in
          elim (Option-cases (malloc new_size h).0) [
            | inl full ↦
                let same : (malloc new_size h).1 ≡ h' = ground arith in
                subst (λ x. IsValid memory_pool x) same valid
            | inr (q, got) ↦ elim (Option-cases (block_of p (malloc new_size h).1.blocks)) [
              | inl missing ↦ absurd (ground arith)
              | inr (c, found) ↦
                  let n = if ltb c.size new_size then c.size else new_size in
                  elim (Option-cases (copy_to n q p (malloc new_size h).1)) [
                    | inl past ↦ absurd (ground arith)
                    | inr (moved, copied) ↦
                        let blocks = copy_to-blocks n q p (malloc new_size h).1 moved copied in
                        free-IsValid memory_pool (some p) moved h'
                          (subst (Tiles memory_pool (memory_pool + pool_size)) (sym blocks) valid)
                          (ground arith)
                  ]
            ]
          ]
    ]

-- `realloc` keeps the blocks a tiling of the pool, wherever it does not fault.
pub realloc-IsValid :
    (memory_pool new_size : ℕ) (ptr r : Option ℕ) (h h' : Heap)
    → IsValid memory_pool h
    → realloc memory_pool ptr new_size h ≡ some (r, h')
    → IsValid memory_pool h'
unfolding realloc move_to
realloc-IsValid memory_pool new_size none r h h' v e =
    let same : (malloc new_size h).1 ≡ h' = ground arith in
    subst (λ x. IsValid memory_pool x) same (malloc-IsValid memory_pool new_size h v)
realloc-IsValid memory_pool new_size (some p) r h h' v e = elim (Bool-cases (new_size == 0)) [
  | inl z ↦ free-IsValid memory_pool (some p) h h' v (ground arith)
  | inr n ↦ elim (Option-cases (block_of p h.blocks)) [
    | inl missing ↦ absurd (ground arith)
    | inr (b, f) ↦ realloc-some-IsValid memory_pool p new_size r h h' b v n f e
  ]
]

-- `calloc` of at most 2^32 - 4 bytes has a result, and keeps the blocks a tiling of the pool.
pub calloc-IsValid :
    (memory_pool nmemb size : ℕ) (h : Heap)
    → IsValid memory_pool h
    → u32 (nmemb * size) ≤ 2 ^ 32 - 4
    → (r : Option ℕ × Heap) × (calloc nmemb size h ≡ some r) × IsValid memory_pool r.1
unfolding calloc clear
calloc-IsValid memory_pool nmemb size h v s =
    let valid = malloc-IsValid memory_pool (u32 (nmemb * size)) h v in
    elim (Option-cases (malloc (u32 (nmemb * size)) h).0) [
      | inl full ↦ ((none, (malloc (u32 (nmemb * size)) h).1), ground arith, valid)
      | inr (p, got) ↦
          let new = malloc-returns_block memory_pool (u32 (nmemb * size)) p h v s got in
          (
            (
              some p,
              record (malloc (u32 (nmemb * size)) h).1 {
                bytes = memset (u32 (nmemb * size)) p 0 (malloc (u32 (nmemb * size)) h).1.bytes;
              },
            ),
            ground (arith, new.1, new.3),
            valid,
          )
    ]

used_bytes-le : (a e : ℕ) (bs : List Block) → Tiles a e bs → used_bytes bs + a ≤ e
unfolding used_bytes
used_bytes-le a e [] t = omega arith
used_bytes-le a e (b ∷ bs) t = ground (arith, used_bytes-le (a + header_size + b.size) e bs t.2)

-- The usage figure of a valid heap is a percentage, and its 32-bit product does not wrap.
pub get_memory_usage_percent-le :
    (memory_pool : ℕ) (h : Heap)
    → IsValid memory_pool h
    → (get_memory_usage_percent h ≤ 100)
      × (get_memory_usage_percent h ≡ used_bytes h.blocks * 100 / pool_size)
unfolding get_memory_usage_percent
get_memory_usage_percent-le memory_pool h v =
    let most = used_bytes-le memory_pool _ h.blocks v in (omega arith, omega arith)

-- `realloc` of a block in use of at least one byte never faults: it returns a result for every new
-- size up to 2^32 - 4.
pub realloc-defined :
    (memory_pool p new_size : ℕ) (h : Heap) (b : Block)
    → IsValid memory_pool h
    → new_size ≤ 2 ^ 32 - 4
    → block_of p h.blocks ≡ some b
    → b.free ≡ false
    → 0 < b.size
    → realloc memory_pool (some p) new_size h ≢ none
unfolding realloc move_to
realloc-defined memory_pool p new_size h b v s f l z e = elim (Bool-cases (new_size == 0)) [
  | inl none_left ↦ ground (arith, free_block memory_pool p h {b = b} v f z)
  | inr n ↦ elim (Bool-cases (leb new_size b.size)) [
    | inl fits ↦ ground arith
    | inr grows ↦ elim (Option-cases (malloc new_size h).0) [
      | inl full ↦ ground arith
      | inr (q, got) ↦
          let kept = malloc-keeps_live memory_pool new_size q p h b v s got f l in
          let moved = record (malloc new_size h).1 {
            bytes = memcpy b.size q p (malloc new_size h).1.bytes;
          } in
          let new = malloc-returns_block memory_pool new_size q h v s got in
          let copies : copy_to b.size q p (malloc new_size h).1 ≡ some moved =
            copy_to-fits b.size q p (malloc new_size h).1 new.0 new.1
              (omega (arith, new.3, leb→gt _ _ grows)) in
          ground (
            arith,
            free_block memory_pool p moved {b = b} (malloc-IsValid memory_pool new_size h v) kept.0
                z,
          )
    ]
  ]
]
