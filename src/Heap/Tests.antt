-- ===== src/Heap/Tests.antt =====
-- Runs of the heap, and the theorems at concrete heaps.
use asm_os.Prelude.{
  ℕ, ◌+◌, ◌-◌, ◌*◌, ◌%◌, ◌≤◌, ◌<◌, ◌≡◌, refl, ◌⊎◌, true, false, Option, none, some, [], ◌∷◌, arith,
}
use asm_os.Heap.{
  Block, Heap, header_size, pool_size, alignment, align, find_free_block, split, split_block,
  set_free, merge_from, merge_free_blocks, block_of, malloc, release, free, copy_to, move_to,
  realloc,
}
use asm_os.Heap.Malloc.{IsValid, malloc-returns_block, malloc-keeps_live}
use asm_os.Heap.InUse
use asm_os.Heap.InUse.{without}
use asm_os.Heap.Free.{Coalesced, free-keeps_live, free-malloc}
use asm_os.Heap.Malloc.{malloc_wraps}
use asm_os.Heap.Contents.{realloc-keeps_contents}
use asm_os.Prelude.{List, [], ◌∷◌}
use mathlib.Core.Path.{subst}
use mathlib.Core.Option.{some-injective}
use asm_os.Heap.{init_memory_manager}
use asm_os.Heap.Interface.{Owned}
use asm_os.Heap.Runs.{Call, malloc_call, free_call, run, Proper, run-IsValid}

abbrev pool : ℕ
pool = 0x200000

abbrev fresh : Heap
fresh = record {
  blocks = record { addr = pool; size = pool_size - header_size; free = true } ∷ [];
  bytes = λ a. a % 251;
}

-- A block of 100 bytes in use, and the rest.
abbrev in_use : Block
in_use = record { addr = pool; size = 100; free = false }

abbrev one : Heap
one = record {
  blocks = in_use ∷ record { addr = pool + 112; size = pool_size - 124; free = true } ∷ [];
  bytes = λ a. a % 251;
}

one-IsValid : IsValid pool one
one-IsValid = omega arith

malloc_runs : (malloc 98 fresh).1.blocks ≡ one.blocks
unfolding malloc align find_free_block split_block split set_free
malloc_runs = refl

free_runs : free pool (some (pool + 12)) one ≡ some fresh
unfolding free release block_of set_free merge_free_blocks merge_from
free_runs = refl

malloc-returns_block_example :
    (b : Block) × (block_of (pool + 124) (malloc 98 one).1.blocks ≡ some b)
    × (b.free ≡ false)
    × (98 ≤ b.size)
    × (pool + header_size ≤ pool + 124)
    × (pool + 124 + 98 ≤ pool + pool_size)
    × ((pool + 124 - pool) % alignment ≡ 0)
unfolding malloc align find_free_block
malloc-returns_block_example =
    malloc-returns_block pool 98 (pool + 124) one one-IsValid (omega arith) refl

malloc-keeps_live_example :
    (block_of (pool + 12) (malloc 98 one).1.blocks ≡ some in_use)
    × ((pool + 124 + 98 ≤ pool + 12) ⊎ (pool + 12 + 100 ≤ pool + 124))
unfolding malloc align find_free_block block_of
malloc-keeps_live_example =
    malloc-keeps_live pool 98 (pool + 124) (pool + 12) one in_use one-IsValid (omega arith) refl
      refl refl

malloc_wraps_example :
    ((malloc 0xffff_ffff one).0 ≡ some (pool + 112 + header_size))
    × (pool + pool_size < pool + 112 + header_size + 0xffff_ffff)
unfolding find_free_block
malloc_wraps_example =
    malloc_wraps pool 0xffff_ffff (pool + 112) one one-IsValid (omega arith) (omega arith) refl

abbrev second : Block
second = record { addr = pool + 112; size = 40; free = false }

abbrev two : Heap
two = record one {
  blocks = in_use ∷ second ∷ record { addr = pool + 164; size = pool_size - 176; free = true } ∷ [];
}

free-keeps_live_example :
    (h' : Heap) × (free pool (some (pool + 12)) two ≡ some h')
    × Coalesced h'.blocks
    × (InUse.in_use h'.blocks ≡ without (pool + 12) (InUse.in_use two.blocks))
    × (h'.bytes ≡ two.bytes)
unfolding block_of
free-keeps_live_example =
    free-keeps_live pool (pool + 12) two in_use (omega arith) refl (omega arith)

free-malloc_example : free pool (some (pool + 124)) (malloc 98 one).1 ≡ some one
unfolding malloc align find_free_block
free-malloc_example =
    free-malloc pool 98 (pool + 124) one one-IsValid (refl, (refl, tt)) (omega arith) refl

calloc_result : (malloc (3 * 8) one).0 ≡ some (pool + 124)
unfolding malloc align find_free_block
calloc_result = refl

abbrev moved : Option ℕ × Heap
moved = elim (realloc pool (some (pool + 12)) 200 one) [ none ↦ (none, one) | some r ↦ r ]

realloc-keeps_contents_example : moved.1.bytes (pool + 124 + 7) ≡ (pool + 12 + 7) % 251
unfolding realloc move_to copy_to malloc align find_free_block block_of free release split_block
    split set_free merge_free_blocks merge_from
realloc-keeps_contents_example =
    realloc-keeps_contents pool (pool + 12) (pool + 124) 200 7 one moved.1 in_use one-IsValid
      (omega arith) (omega arith) refl refl refl (omega arith) (omega arith)

abbrev calls : List Call
calls = malloc_call 98 ∷ free_call (some (pool + 12)) ∷ []

first_block : Owned (malloc 98 (init_memory_manager pool (λ a. 0))).1 (pool + 12)
unfolding init_memory_manager malloc align find_free_block split_block split set_free block_of
first_block = (record { addr = pool; size = 100; free = false }, refl, refl, omega arith)

calls-Proper : Proper pool calls (init_memory_manager pool (λ a. 0))
calls-Proper =
    (tt, λ h e. (subst (λ x. Owned x (pool + 12)) (some-injective _ _ e) first_block, λ h' e'. tt))

run-IsValid_example :
    (h : Heap) × (run pool calls (init_memory_manager pool (λ a. 0)) ≡ some h) × IsValid pool h
run-IsValid_example = run-IsValid pool (λ a. 0) calls calls-Proper
