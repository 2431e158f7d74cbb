-- ===== src/Heap/Interface.antt =====
-- The heap of src/memory_manager.c as the allocator that its clients use.
use asm_os.Prelude.{ℕ, ◌≤◌, ◌<◌, ◌≡◌, ◌≢◌, true, false, none, some, arith}
use mathlib.Core.Path.{subst}
use asm_os.Heap.{Block, Heap, set_free, merge_free_blocks, block_of, malloc, free}
use asm_os.Heap.Malloc.{
  IsValid, malloc-IsValid, malloc-some, malloc-returns_block, malloc-keeps_live,
}
use asm_os.Heap.Free.{free_block, free-IsValid, free-keeps_block}
use asm_os.Allocator.{Allocator, max_request}

-- `p` is the payload of a block in use that holds at least one byte.
abbrev pub Owned : Heap → ℕ → Type 0
Owned h p = (b : Block) × (block_of p h.blocks ≡ some b) × (b.free ≡ false) × (0 < b.size)

module _ (memory_pool : ℕ) where
  pub malloc-Owned :
      (n p : ℕ) (h : Heap)
      → IsValid memory_pool h
      → n ≤ max_request
      → (malloc n h).0 ≡ some p
      → Owned (malloc n h).1 p
  malloc-Owned n p h v s r =
      let new = malloc-returns_block memory_pool n p h v s r in
      let did = malloc-some n p h r in (new.0, new.1, new.2, omega arith)

  pub malloc-keeps_Owned :
      (n p q : ℕ) (h : Heap)
      → IsValid memory_pool h
      → n ≤ max_request
      → (malloc n h).0 ≡ some p
      → Owned h q
      → Owned (malloc n h).1 q × (p ≢ q)
  malloc-keeps_Owned n p q h v s r (c, f, l, z) =
      let kept = malloc-keeps_live memory_pool n p q h c v s r f l in
      let did = malloc-some n p h r in ((c, kept.0, l, z), omega arith)

  pub malloc-none : (n : ℕ) (h : Heap) → (malloc n h).0 ≡ none → (malloc n h).1 ≡ h
  unfolding malloc
  malloc-none n h e = ground arith

  pub free-Owned :
      (p : ℕ) (h : Heap)
      → IsValid memory_pool h
      → Owned h p
      → (h' : Heap) × (free memory_pool (some p) h ≡ some h') × IsValid memory_pool h'
  free-Owned p h v (b, f, l, z) =
      let done = free_block memory_pool p h {b = b} v f z in
      (_, done, free-IsValid memory_pool (some p) h _ v done)

  pub free-keeps_Owned :
      (p q : ℕ) (h h' : Heap)
      → IsValid memory_pool h
      → Owned h p
      → free memory_pool (some p) h ≡ some h'
      → Owned h q
      → p ≢ q
      → Owned h' q
  free-keeps_Owned p q h h' v (b, f, l, z) e (c, g, k, y) d =
      let done = free_block memory_pool p h {b = b} v f z in
      let same : record h { blocks = merge_free_blocks (set_free b.addr true h.blocks) } ≡ h' =
        ground arith in
      (
        c,
        subst (λ x. block_of q x.blocks ≡ some c) same
            (free-keeps_block memory_pool p q h b c v f g k d),
        k,
        y,
      )

  -- `malloc` and `free` keep every promise of the interface.
  abbrev pub kernel_heap : Allocator
  kernel_heap = record {
    State = Heap;
    IsValid = IsValid memory_pool;
    Owned = Owned;
    alloc = malloc;
    dealloc = λ p. free memory_pool (some p);
    alloc-IsValid = λ n h. malloc-IsValid memory_pool n h;
    alloc-Owned = malloc-Owned;
    alloc-keeps = malloc-keeps_Owned;
    alloc_none = malloc-none;
    dealloc_some = free-Owned;
    dealloc-keeps = free-keeps_Owned;
  }
