-- ===== src/Swap/Safety.antt =====
-- Every operation on the swap slots of src/memory_budget.c is safe: it never gives the allocator a
-- pointer that it does not own, and keeps the slots in order.
use asm_os.Prelude.{
  ℕ, ◌≤◌, ◌<◌, ◌≡◌, refl, ap, ◌≢◌, inl, inr, Bool, true, false, Option, none, some, arith, leb,
  Bool-cases, Option-cases, length, get_or, length-set, get_or-set_self,
}
use asm_os.Prelude.Words.{u32}
use asm_os.Budget.{
  Budget, swap_cache, Grant, granted, over_budget, bad_region, memory_budget_alloc,
  memory_budget_free,
}
use asm_os.Allocator.{Allocator, max_request}
use asm_os.Swap.{
  Slot, slot_max, no_slot, Code, done, bad_argument, no_memory, no_budget, no_free_slot, find_slot,
  System, take_slot, charged, swap_slot_alloc, drop_pointer, swap_evict, swap_restore, clear_slot,
  swap_slot_free,
}
use asm_os.Swap.Ownership.{IsSafe, clear-IsSafe, return-IsSafe, give_back-IsSafe, fill-IsSafe}

module _ (A : Allocator) where
  open A use {State, alloc}

  -- `swap_evict` of any slot never faults and keeps the slots safe.
  pub swap_evict-IsSafe :
      (slot : Option Slot) (s : System A)
      → IsSafe A s
      → (code : Code) × (s' : System A) × (swap_evict A slot s ≡ some (code, s')) × IsSafe A s'
  unfolding swap_evict drop_pointer
  swap_evict-IsSafe none s w = (bad_argument, s, refl, w)
  swap_evict-IsSafe (some c) s w = elim (Bool-cases (leb slot_max c.offset)) [
    | inl out ↦ (bad_argument, s, rw out, w)
    | inr within ↦
        let i = c.offset in
        elim (Option-cases (get_or s.slots i no_slot).local_ptr) [
          | inl empty ↦ (done, s, ground arith, w)
          | inr (p, held) ↦
              let v : Slot = record (get_or s.slots i no_slot) { local_ptr = none } in
              let r = give_back-IsSafe A s i p v s.budget done w held refl in
              (done, r.0, ground (arith, r.1), r.2)
        ]
  ]

  -- `swap_slot_free` of any slot never faults and keeps the slots safe.
  pub swap_slot_free-IsSafe :
      (slot : Option Slot) (s : System A)
      → IsSafe A s
      → (code : Code) × (s' : System A) × (swap_slot_free A slot s ≡ some (code, s')) × IsSafe A s'
  unfolding swap_slot_free clear_slot
  swap_slot_free-IsSafe none s w = (done, s, refl, w)
  swap_slot_free-IsSafe (some c) s w = elim (Bool-cases (leb slot_max c.offset)) [
    | inl out ↦ (done, s, rw out, w)
    | inr within ↦
        let i = c.offset in
        let v : Slot = record (get_or s.slots i no_slot) { local_ptr = none; in_use = false } in
        elim (Option-cases (get_or s.slots i no_slot).local_ptr) [
          | inl empty ↦ (done, clear_slot A i s, ground arith, clear-IsSafe A s i v w refl)
          | inr (p, held) ↦
              let b = memory_budget_free swap_cache (get_or s.slots i no_slot).size s.budget in
              let r = give_back-IsSafe A s i p v b done w held refl in
              (done, r.0, ground (arith, r.1), r.2)
        ]
  ]

  -- `swap_restore` of a slot that is in use keeps the slots safe, for a size of at most 2^32 - 4.
  pub swap_restore-IsSafe :
      (c : Slot) (s : System A)
      → IsSafe A s
      → (get_or s.slots c.offset no_slot).in_use ≡ true
      → (get_or s.slots c.offset no_slot).size ≤ max_request
      → IsSafe A (swap_restore A (some c) s).2
  unfolding swap_restore
  swap_restore-IsSafe c s w u k = elim (Bool-cases (leb slot_max c.offset)) [
    | inl out ↦ rw out w
    | inr within ↦
        let real = get_or s.slots c.offset no_slot in
        elim (Option-cases real.local_ptr) [
          | inr (p, held) ↦ rw (within, held) w
          | inl empty ↦ elim (Option-cases (alloc real.size s.heap).0) [
            | inl full ↦ rw (within, empty, full, A.alloc_none real.size s.heap full) w
            | inr (p, got) ↦
                rw (within, empty, got)
                  (fill-IsSafe A s c.offset real.size p (record real { local_ptr = some p })
                    s.budget w k got refl u)
          ]
        ]
  ]

  -- The outcome of a call that reserves a slot.
  abbrev Reserved : Option (Code × Option Slot × System A) → Type 0
  Reserved r =
      (code : Code) × (out : Option Slot) × (s : System A) × (r ≡ some (code, out, s)) × IsSafe A s

  module _ (s : System A) (w : IsSafe A s) (size p : ℕ) (k : size ≤ max_request)
      (r : (alloc size s.heap).0 ≡ some p) where
    take_slot-Reserved :
        (region : ℕ) (b : Budget)
        → Reserved
            (take_slot A p size region (record s { budget = b; heap = (alloc size s.heap).1 }))
    unfolding take_slot
    take_slot-Reserved region b = elim (Option-cases (find_slot s.slots)) [
      | inl full ↦
          let back =
            return-IsSafe A s size p (memory_budget_free swap_cache (u32 size) b) no_free_slot w k
              r in
          (no_free_slot, none, back.0, rw (full, take_slot, back.1), back.2)
      | inr (i, found) ↦
          let v : Slot = record {
            in_use = true;
            offset = i;
            local_ptr = some p;
            size = u32 size;
            region = region;
          } in
          (
            done,
            some v,
            _,
            rw (found, take_slot) refl,
            fill-IsSafe A s i size p v b w k r refl refl,
          )
    ]

    charged-Reserved :
        (region : ℕ) (b : Budget) (g : Grant)
        → Reserved
            (charged A p size region (record s { budget = b; heap = (alloc size s.heap).1 }) g)
    unfolding charged
    charged-Reserved region b granted = take_slot-Reserved region b
    charged-Reserved region b bad_region = take_slot-Reserved region b
    charged-Reserved region b over_budget =
        let back = return-IsSafe A s size p b no_budget w k r in
        (no_budget, none, back.0, rw back.1, back.2)

  -- `swap_slot_alloc` never faults and keeps the slots safe, also where it runs out of memory, of
  -- budget or of slots, for a size of at most 2^32 - 4.
  pub swap_slot_alloc-IsSafe :
      (size region : ℕ) (with_out : Bool) (s : System A)
      → IsSafe A s
      → size ≤ max_request
      → (code : Code) × (out : Option Slot) × (s' : System A) × (swap_slot_alloc A size region
            with_out s
          ≡ some (code, out, s'))
        × IsSafe A s'
  unfolding swap_slot_alloc
  swap_slot_alloc-IsSafe size region false s w k = (bad_argument, none, s, refl, w)
  swap_slot_alloc-IsSafe size region true s w k = elim (Option-cases (alloc size s.heap).0) [
    | inl full ↦ (no_memory, none, s, rw (full, A.alloc_none size s.heap full), w)
    | inr (p, got) ↦
        let call = memory_budget_alloc swap_cache (u32 size) s.budget in
        let out = charged-Reserved s w size p k got region call.1 call.0 in
        (out.0, out.1, out.2, rw (got) out.3, out.4)
  ]

  -- A slot that was evicted before it is freed keeps its budget: after both calls the slot is free
  -- and the account of the swap region is what it was while the slot was in use.
  pub swap_slot_free-evicted :
      (c : Slot) (s : System A)
      → IsSafe A s
      → c.offset < slot_max
      → c.offset < length s.slots
      → (get_or s.slots c.offset no_slot).local_ptr ≢ none
      → (s1 : System A) × (s2 : System A) × (swap_evict A (some c) s ≡ some (done, s1))
        × (swap_slot_free A (some c) s1 ≡ some (done, s2))
        × (s2.budget ≡ s.budget)
        × ((get_or s2.slots c.offset no_slot).in_use ≡ false)
  unfolding swap_evict drop_pointer swap_slot_free clear_slot
  swap_slot_free-evicted c s w k l n =
      elim (Option-cases (get_or s.slots c.offset no_slot).local_ptr) [
        | inl empty ↦ absurd (n empty)
        | inr (p, held) ↦
            let i = c.offset in
            let v : Slot = record (get_or s.slots i no_slot) { local_ptr = none } in
            let r = give_back-IsSafe A s i p v s.budget done w held refl in
            let now = get_or-set_self s.slots i v no_slot l in
            let cleared : get_or r.0.slots i no_slot ≡ v = rw r.4 now in
            let long : i < length r.0.slots = rw (r.4, length-set s.slots i v) l in
            (
              r.0,
              clear_slot A i r.0,
              ground (arith, r.1),
              ground (arith, cleared),
              r.3,
              ap (λ t. t.in_use) (get_or-set_self r.0.slots i _ no_slot long),
            )
      ]
