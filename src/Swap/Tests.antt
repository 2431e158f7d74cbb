-- ===== src/Swap/Tests.antt =====
-- The swap slots over the heap of the kernel, and the theorems at concrete states.
use asm_os.Prelude.{
  ℕ, zero, suc, ◌+◌, ◌≡◌, refl, true, false, none, some, List, [], ◌∷◌, arith, get_or, set,
  replicate, All,
}
use asm_os.Budget.{Entry}
use asm_os.Allocator.{Allocator}
use asm_os.Swap.{Slot, slot_max, no_slot, done, System, swap_evict, swap_slot_free}
use asm_os.Swap.Ownership.{IsSafe, fill-IsSafe, Distinct}
use asm_os.Swap.Safety.{swap_slot_free-evicted}
use asm_os.Heap.{Heap, malloc, align, find_free_block}
use asm_os.Heap.Interface.{kernel_heap, Owned}
use asm_os.Swap.Runs.{Call, alloc_call, evict_call, free_call, run, run-IsSafe}

abbrev kernel : Allocator
kernel = kernel_heap 0x200000

abbrev pool : ℕ
pool = 0x200000

abbrev heap : Heap
heap = record { blocks = record { addr = pool; size = 1048564; free = true } ∷ []; bytes = λ a. 0 }

abbrev entries : List Entry
entries = replicate 8 (record { limit_kb = 4096; used_kb = 0 })

abbrev empty : System kernel
empty = record {
  budget = record { regions = entries; inited = true };
  slots = replicate slot_max no_slot;
  heap = heap;
}

All-replicate {κ} : (P : Slot → Type κ) (n : ℕ) → P no_slot → All P (replicate n no_slot)
All-replicate P zero p = tt
All-replicate P (suc n) p = (p, All-replicate P n p)

Distinct-replicate : (n : ℕ) → Distinct (replicate n no_slot)
Distinct-replicate zero = tt
Distinct-replicate (suc n) = (λ p h. absurd (cc), Distinct-replicate n)

empty-IsSafe : IsSafe kernel empty
empty-IsSafe = record {
  valid = omega arith;
  owned =
      All-replicate (λ t. (p : ℕ) → t.local_ptr ≡ some p → Owned heap p) slot_max
        (λ p h. absurd (cc));
  distinct = Distinct-replicate slot_max;
  idle = All-replicate (λ t. t.in_use ≡ false → t.local_ptr ≡ none) slot_max (λ _. refl);
}

abbrev held_slot : Slot
held_slot = record {
  in_use = true;
  offset = 0;
  local_ptr = some (pool + 12);
  size = 5000;
  region = 4;
}

-- The first slot holds 5000 bytes.
abbrev held : System kernel
held = record {
  budget = record { regions = entries; inited = true };
  slots = set (replicate slot_max no_slot) 0 held_slot;
  heap = (kernel.alloc 5000 heap).1;
}

held-IsSafe : IsSafe kernel held
unfolding malloc align find_free_block
held-IsSafe =
    fill-IsSafe kernel empty 0 5000 (pool + 12) held_slot _ empty-IsSafe (omega arith) refl refl
      refl

swap_slot_free-evicted_example :
    (s1 : System kernel) × (s2 : System kernel) × (swap_evict kernel (some held_slot) held
      ≡ some (done, s1))
    × (swap_slot_free kernel (some held_slot) s1 ≡ some (done, s2))
    × (s2.budget ≡ held.budget)
    × ((get_or s2.slots 0 no_slot).in_use ≡ false)
swap_slot_free-evicted_example =
    swap_slot_free-evicted kernel held_slot held held-IsSafe (omega arith) (omega arith) (λ e. cc)

abbrev calls : List Call
calls = alloc_call 5000 4 true ∷ evict_call (some held_slot) ∷ free_call (some held_slot) ∷ []

run-IsSafe_example : (s : System kernel) × (run kernel calls held ≡ some s) × IsSafe kernel s
run-IsSafe_example =
    run-IsSafe kernel calls held held-IsSafe
      (omega arith, λ s e. (tt, λ s' e'. (tt, λ s'' e''. tt)))
