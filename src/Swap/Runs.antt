-- ===== src/Swap/Runs.antt =====
-- Runs of calls of the swap slots, src/memory_budget.c.
use asm_os.Prelude.{
  ℕ, ◌≤◌, ◌<◌, ◌≡◌, refl, true, Bool, Bool-cases, Option, none, some, List, [], ◌∷◌, arith, get_or,
  ap, leb, inl, inr,
}
use mathlib.Core.Option
use asm_os.Allocator.{Allocator, max_request}
use asm_os.Swap.{
  Slot, slot_max, no_slot, System, swap_slot_alloc, swap_evict, swap_restore, swap_slot_free,
}
use asm_os.Swap.Ownership.{IsSafe}
use asm_os.Swap.Safety.{
  swap_evict-IsSafe, swap_restore-IsSafe, swap_slot_alloc-IsSafe, swap_slot_free-IsSafe,
}

-- The slot of a call is null or the caller's copy.
pub data Call : Type 0 where
  alloc_call : ℕ → ℕ → Bool → Call
  evict_call : Option Slot → Call
  restore_call : Option Slot → Call
  free_call : Option Slot → Call

module _ (A : Allocator) where
  -- The state after a call, and `none` for a fault of the allocator.
  abbrev pub step : Call → System A → Option (System A)
  step (alloc_call size region with_out) s =
      Option.map (λ r. r.2) (swap_slot_alloc A size region with_out s)
  step (evict_call slot) s = Option.map (λ r. r.1) (swap_evict A slot s)
  step (restore_call slot) s = some (swap_restore A slot s).2
  step (free_call slot) s = Option.map (λ r. r.1) (swap_slot_free A slot s)

  -- The slot that is restored, if there is one of that number, is in use, and no larger than a
  -- request may be.
  abbrev pub MayRestore : Option Slot → System A → Type 0
  MayRestore none s = Unit {0}
  MayRestore (some c) s =
      c.offset < slot_max
      → ((get_or s.slots c.offset no_slot).in_use ≡ true)
        × ((get_or s.slots c.offset no_slot).size ≤ max_request)

  abbrev pub Allowed : Call → System A → Type 0
  Allowed (alloc_call size region with_out) s = size ≤ max_request
  Allowed (evict_call slot) s = Unit {0}
  Allowed (restore_call slot) s = MayRestore slot s
  Allowed (free_call slot) s = Unit {0}

  abbrev pub run : List Call → System A → Option (System A)
  run [] s = some s
  run (c ∷ cs) s = elim (step c s) [ none ↦ none | some s' ↦ run cs s' ]

  abbrev pub Proper : List Call → System A → Type 0
  Proper [] s = Unit {0}
  Proper (c ∷ cs) s = Allowed c s × ((s' : System A) → step c s ≡ some s' → Proper cs s')

  restore-IsSafe :
      (slot : Option Slot) (s : System A)
      → IsSafe A s
      → MayRestore slot s
      → IsSafe A (swap_restore A slot s).2
  unfolding swap_restore
  restore-IsSafe none s w a = w
  restore-IsSafe (some c) s w a = elim (Bool-cases (leb slot_max c.offset)) [
    | inl out ↦ rw out w
    | inr within ↦ (let ok = a (ground arith) in swap_restore-IsSafe A c s w ok.0 ok.1)
  ]

  step-IsSafe :
      (c : Call) (s : System A)
      → IsSafe A s
      → Allowed c s
      → (s' : System A) × (step c s ≡ some s') × IsSafe A s'
  step-IsSafe (alloc_call size region with_out) s w a =
      let r = swap_slot_alloc-IsSafe A size region with_out s w a in
      (r.2, ap (Option.map (λ x. x.2)) r.3, r.4)
  step-IsSafe (evict_call slot) s w a =
      let r = swap_evict-IsSafe A slot s w in (r.1, ap (Option.map (λ x. x.1)) r.2, r.3)
  step-IsSafe (restore_call slot) s w a = (_, refl, restore-IsSafe slot s w a)
  step-IsSafe (free_call slot) s w a =
      let r = swap_slot_free-IsSafe A slot s w in (r.1, ap (Option.map (λ x. x.1)) r.2, r.3)

  -- The swap slots in every run: from a safe state, no sequence of calls gives the allocator a
  -- pointer that it does not own, and the state stays safe, also where memory, budget or slots run
  -- out, as long as at most 2^32 - 4 bytes are asked for, and only slots in use are restored.
  pub run-IsSafe :
      (cs : List Call) (s : System A)
      → IsSafe A s
      → Proper cs s
      → (s' : System A) × (run cs s ≡ some s') × IsSafe A s'
  run-IsSafe [] s w p = (s, refl, w)
  run-IsSafe (c ∷ cs) s w p =
      let one = step-IsSafe c s w p.0 in
      let all = run-IsSafe cs one.0 one.2 (p.1 one.0 one.1) in (all.0, rw (one.1, run) all.1, all.2)
