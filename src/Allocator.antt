-- ===== src/Allocator.antt =====
-- What src/memory_budget.c asks of `malloc` and `free`: the heap as its clients see it.
use asm_os.Prelude.{ℕ, ◌^◌, ◌-◌, ◌≤◌, ◌≡◌, ◌≢◌, Option, none, some}

abbrev pub max_request : ℕ
max_request = 2 ^ 32 - 4

-- `Owned s p`: in the valid state `s`, `p` was handed out and not yet given back.
pub record Allocator : Type 1 where
  pub State : Type 0
  pub IsValid : State → Type 0
  pub Owned : State → ℕ → Type 0
  pub alloc : ℕ → State → Option ℕ × State
  pub dealloc : ℕ → State → Option State
  pub alloc-IsValid : (n : ℕ) (s : State) → IsValid s → IsValid (alloc n s).1
  -- A new pointer is owned, is none of the owned ones, and leaves these owned.
  pub alloc-Owned :
      (n p : ℕ) (s : State)
      → IsValid s
      → n ≤ max_request
      → (alloc n s).0 ≡ some p
      → Owned (alloc n s).1 p
  pub alloc-keeps :
      (n p q : ℕ) (s : State)
      → IsValid s
      → n ≤ max_request
      → (alloc n s).0 ≡ some p
      → Owned s q
      → Owned (alloc n s).1 q × (p ≢ q)
  pub alloc_none : (n : ℕ) (s : State) → (alloc n s).0 ≡ none → (alloc n s).1 ≡ s
  -- Giving back an owned pointer succeeds, and the other owned pointers stay owned.
  pub dealloc_some :
      (p : ℕ) (s : State)
      → IsValid s
      → Owned s p
      → (s' : State) × (dealloc p s ≡ some s') × IsValid s'
  pub dealloc-keeps :
      (p q : ℕ) (s s' : State)
      → IsValid s
      → Owned s p
      → dealloc p s ≡ some s'
      → Owned s q
      → p ≢ q
      → Owned s' q
