-- ===== src/Heap/Runs.antt =====
-- Runs of calls of the kernel heap, src/memory_manager.c.
use asm_os.Prelude.{
  ℕ, ◌*◌, ◌-◌, ◌^◌, ◌≤◌, ◌≡◌, refl, Option, none, some, inl, inr, List, [], ◌∷◌, Option-cases, ap,
}
use asm_os.Prelude.Words.{u32}
use mathlib.Core.Option
use asm_os.Heap.{Heap, init_memory_manager, malloc, free, realloc, calloc}
use asm_os.Heap.Malloc.{IsValid, malloc-IsValid, init_memory_manager-IsValid}
use asm_os.Heap.Free.{free-IsValid, free_block}
use asm_os.Heap.Contents.{realloc-IsValid, realloc-defined, calloc-IsValid}
use asm_os.Heap.Interface.{Owned}

pub data Call : Type 0 where
  malloc_call : ℕ → Call
  free_call : Option ℕ → Call
  realloc_call : Option ℕ → ℕ → Call
  calloc_call : ℕ → ℕ → Call

-- The heap after a call, and `none` for a fault.
abbrev pub step : ℕ → Call → Heap → Option Heap
step memory_pool (malloc_call n) h = some (malloc n h).1
step memory_pool (free_call p) h = free memory_pool p h
step memory_pool (realloc_call p n) h = Option.map (λ r. r.1) (realloc memory_pool p n h)
step memory_pool (calloc_call m n) h = Option.map (λ r. r.1) (calloc m n h)

-- A null pointer, or one to a block in use of at least one byte.
abbrev pub MayPass : Heap → Option ℕ → Type 0
MayPass h none = Unit {0}
MayPass h (some p) = Owned h p

-- What a caller keeps to.
abbrev pub Allowed : Heap → Call → Type 0
Allowed h (malloc_call n) = Unit {0}
Allowed h (free_call p) = MayPass h p
Allowed h (realloc_call p n) = MayPass h p × (n ≤ 2 ^ 32 - 4)
Allowed h (calloc_call m n) = u32 (m * n) ≤ 2 ^ 32 - 4

abbrev pub run : ℕ → List Call → Heap → Option Heap
run memory_pool [] h = some h
run memory_pool (c ∷ cs) h = elim (step memory_pool c h) [
  | none ↦ none
  | some h' ↦ run memory_pool cs h'
]

-- Every call of the run keeps to that.
abbrev pub Proper : ℕ → List Call → Heap → Type 0
Proper memory_pool [] h = Unit {0}
Proper memory_pool (c ∷ cs) h =
    Allowed h c × ((h' : Heap) → step memory_pool c h ≡ some h' → Proper memory_pool cs h')

module _ (memory_pool : ℕ) where
  step-IsValid :
      (c : Call) (h : Heap)
      → IsValid memory_pool h
      → Allowed h c
      → (h' : Heap) × (step memory_pool c h ≡ some h') × IsValid memory_pool h'
  unfolding free realloc
  step-IsValid (malloc_call n) h v a = (_, refl, malloc-IsValid memory_pool n h v)
  step-IsValid (free_call none) h v a = (h, refl, v)
  step-IsValid (free_call (some p)) h v (b, f, l, z) =
      let done = free_block memory_pool p h {b = b} v f z in
      (_, done, free-IsValid memory_pool (some p) h _ v done)
  step-IsValid (realloc_call none n) h v a = (_, refl, malloc-IsValid memory_pool n h v)
  step-IsValid (realloc_call (some p) n) h v ((b, f, l, z), s) =
      elim (Option-cases (realloc memory_pool (some p) n h)) [
        | inl fault ↦ absurd (realloc-defined memory_pool p n h b v s f l z fault)
        | inr (r, done) ↦ (
          r.1,
          ap (Option.map (λ x. x.1)) done,
          realloc-IsValid memory_pool n (some p) r.0 h r.1 v done,
        )
      ]
  step-IsValid (calloc_call m n) h v s =
      let done = calloc-IsValid memory_pool m n h v s in
      (done.0.1, ap (Option.map (λ x. x.1)) done.1, done.2)

  runs-IsValid :
      (cs : List Call) (h : Heap)
      → IsValid memory_pool h
      → Proper memory_pool cs h
      → (h' : Heap) × (run memory_pool cs h ≡ some h') × IsValid memory_pool h'
  runs-IsValid [] h v p = (h, refl, v)
  runs-IsValid (c ∷ cs) h v p =
      let one = step-IsValid c h v p.0 in
      let all = runs-IsValid cs one.0 one.2 (p.1 one.0 one.1) in
      (all.0, rw (one.1, run) all.1, all.2)

-- The heap in every run: from `init_memory_manager`, no sequence of calls faults, and the blocks
-- stay a tiling of the pool, as long as the pointers passed to `free` and `realloc` are null or
-- point to a block in use of at least one byte, and `realloc` and `calloc` are asked for at most
-- 2^32 - 4 bytes, for `calloc` the product in 32 bits.
pub run-IsValid :
    (memory_pool : ℕ) (bytes : ℕ → ℕ) (cs : List Call)
    → Proper memory_pool cs (init_memory_manager memory_pool bytes)
    → (h : Heap) × (run memory_pool cs (init_memory_manager memory_pool bytes) ≡ some h)
      × IsValid memory_pool h
run-IsValid memory_pool bytes cs p =
    runs-IsValid memory_pool cs (init_memory_manager memory_pool bytes)
      (init_memory_manager-IsValid memory_pool bytes) p
