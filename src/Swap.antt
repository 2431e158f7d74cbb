-- ===== src/Swap.antt =====
-- src/memory_budget.c, the swap slots, over the allocator of the kernel.
-- The caller's copy of a slot is a `Slot`; a null pointer is `none`. `swap_path` is not used by the
-- code. A call that gives `free` a pointer which the allocator faults on has the result `none`.
pub mod Ownership
pub mod Safety
pub mod Runs
mod Tests
use asm_os.Prelude.{
  ℕ, suc, Bool, true, false, Option, none, some, List, [], ◌∷◌, leb, if◌then◌else◌, get_or, set,
}
use asm_os.Prelude.Words.{u32}
use asm_os.Budget.{
  Budget, swap_cache, Grant, granted, over_budget, bad_region, memory_budget_alloc,
  memory_budget_free,
}
use asm_os.Allocator.{Allocator}
use mathlib.Core.Option

-- `swap_slot_t`.
pub record Slot : Type 0 where
  pub in_use : Bool
  pub offset : ℕ
  pub local_ptr : Option ℕ
  pub size : ℕ
  pub region : ℕ

abbrev pub slot_max : ℕ
slot_max = 32

abbrev pub no_slot : Slot
no_slot = record { in_use = false; offset = 0; local_ptr = none; size = 0; region = 0 }

-- The return codes 0, -1, -2, -3 and -4.
pub data Code : Type 0 where
  done bad_argument no_memory no_budget no_free_slot : Code

-- The first slot that is not in use.
pub find_slot : List Slot → Option ℕ
find_slot [] = none
find_slot (s ∷ ss) = let rest = Option.map suc (find_slot ss) in if s.in_use then rest else some 0

module _ (A : Allocator) where
  open A use {State, alloc, dealloc}

  pub record System : Type 0 where
    pub budget : Budget
    pub slots : List Slot
    pub heap : State

  -- `free(p)`, after the other changes.
  pub give_back : ℕ → System → Code → Option (Code × System)
  give_back p s code = elim (dealloc p s.heap) [
    | none ↦ none
    | some h ↦ some (code, record s { heap = h })
  ]

  pub take_slot : ℕ → ℕ → ℕ → System → Option (Code × Option Slot × System)
  unfolding give_back
  take_slot p size region s = elim (find_slot s.slots) [
    | none ↦
        Option.map (λ r. (r.0, none, r.1))
          (give_back p (record s { budget = memory_budget_free swap_cache (u32 size) s.budget })
            no_free_slot)
    | some i ↦
        let slot : Slot = record {
          in_use = true;
          offset = i;
          local_ptr = some p;
          size = u32 size;
          region = region;
        } in
        some (done, some slot, record s { slots = set s.slots i slot })
  ]

  -- What follows the charge: any result but 0 counts as granted.
  pub charged : ℕ → ℕ → ℕ → System → Grant → Option (Code × Option Slot × System)
  unfolding take_slot give_back
  charged p size region s over_budget = Option.map (λ r. (r.0, none, r.1)) (give_back p s no_budget)
  charged p size region s granted = take_slot p size region s
  charged p size region s bad_region = take_slot p size region s

  -- `with_out` tells if the pointer `out` is not null.
  pub swap_slot_alloc : ℕ → ℕ → Bool → System → Option (Code × Option Slot × System)
  unfolding charged
  swap_slot_alloc size region with_out s =
      if with_out
      then (let (r, h) = alloc size s.heap in
          elim r [
            | none ↦ some (no_memory, none, record s { heap = h })
            | some p ↦
                let (g, b) = memory_budget_alloc swap_cache (u32 size) s.budget in
                charged p size region (record s { budget = b; heap = h }) g
          ])
      else some (bad_argument, none, s)

  -- `real->local_ptr = NULL` after `free(real->local_ptr)`.
  pub drop_pointer : ℕ → ℕ → System → Option (Code × System)
  unfolding give_back
  drop_pointer i p s =
      give_back p
        (record s {
          slots = set s.slots i (record (get_or s.slots i no_slot) { local_ptr = none });
        })
        done

  pub swap_evict : Option Slot → System → Option (Code × System)
  unfolding drop_pointer
  swap_evict none s = some (bad_argument, s)
  swap_evict (some slot) s =
      if leb slot_max slot.offset
      then some (bad_argument, s)
      else elim (get_or s.slots slot.offset no_slot).local_ptr [
        | none ↦ some (done, s)
        | some p ↦ drop_pointer slot.offset p s
      ]

  -- The caller's slot is changed too.
  pub swap_restore : Option Slot → System → Code × Option Slot × System
  swap_restore none s = (bad_argument, none, s)
  swap_restore (some slot) s =
      if leb slot_max slot.offset
      then (bad_argument, some slot, s)
      else (let real = get_or s.slots slot.offset no_slot in
          elim real.local_ptr [
            | some p ↦ (done, some slot, s)
            | none ↦
                let (r, h) = alloc real.size s.heap in
                elim r [
                  | none ↦ (no_memory, some slot, record s { heap = h })
                  | some p ↦ (
                    done,
                    some (record slot { local_ptr = some p }),
                    record s {
                      slots = set s.slots slot.offset (record real { local_ptr = some p });
                      heap = h;
                    },
                  )
                ]
          ])

  -- The slot is free again, and holds no pointer.
  pub clear_slot : ℕ → System → System
  clear_slot i s = record s {
    slots = set s.slots i (record (get_or s.slots i no_slot) { local_ptr = none; in_use = false });
  }

  pub swap_slot_free : Option Slot → System → Option (Code × System)
  unfolding give_back clear_slot
  swap_slot_free none s = some (done, s)
  swap_slot_free (some slot) s =
      if leb slot_max slot.offset
      then some (done, s)
      else (let real = get_or s.slots slot.offset no_slot in
          elim real.local_ptr [
            | none ↦ some (done, clear_slot slot.offset s)
            | some p ↦
                give_back p
                  (clear_slot slot.offset
                    (record s { budget = memory_budget_free swap_cache real.size s.budget }))
                  done
          ])
