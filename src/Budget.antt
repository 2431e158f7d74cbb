-- ===== src/Budget.antt =====
-- src/memory_budget.c, the budgets: how much of the RAM each region may use, in kilobytes.
-- A region is the value of `budget_region_t` read as an unsigned number. The name of an entry is
-- not modelled.
pub mod Accounting
mod Tests
use asm_os.Prelude.{
  ℕ, ◌+◌, ◌-◌, ◌/◌, Bool, true, false, not, ◌&&◌, List, [], ◌∷◌, ltb, leb, ◌==◌, if◌then◌else◌,
  get_or, set, replicate,
}
use asm_os.Prelude.Words.{u32}

-- `budget_entry_t`.
pub record Entry : Type 0 where
  pub limit_kb : ℕ
  pub used_kb : ℕ

pub record Budget : Type 0 where
  pub regions : List Entry
  pub inited : Bool

abbrev pub region_max : ℕ
region_max = 8

abbrev pub swap_cache : ℕ
swap_cache = 6

abbrev pub no_entry : Entry
no_entry = record { limit_kb = 0; used_kb = 0 }

-- The results of `memory_budget_alloc`: 1, 0 and -1.
pub data Grant : Type 0 where
  granted over_budget bad_region : Grant

pub memory_budget_set_limit : ℕ → ℕ → Budget → Budget
memory_budget_set_limit region limit b = if leb region_max region then b else record b {
  regions = set b.regions region (record (get_or b.regions region no_entry) { limit_kb = limit });
}

-- The calls of `memory_budget_set_limit` in `memory_budget_init`, one for each region in order.
pub set_limits : ℕ → List ℕ → Budget → Budget
set_limits region [] b = b
set_limits region (limit ∷ limits) b =
    set_limits (region + 1) limits (memory_budget_set_limit region limit b)

abbrev pub default_limits : List ℕ
default_limits = 4096 ∷ 2048 ∷ 1024 ∷ 2048 ∷ 16384 ∷ 2048 ∷ 4096 ∷ 1024 ∷ []

-- The loop that clears the swap slots is left out: the slots are not part of this state, and no slot
-- is taken before the first call.
pub memory_budget_init : Budget → Budget
unfolding set_limits memory_budget_set_limit
memory_budget_init b =
    if b.inited
    then b
    else record (set_limits 0 default_limits
        (record b { regions = replicate region_max no_entry })) { inited = true }

-- `(size_bytes + 1023) / 1024`, on 32 bits.
abbrev pub to_kb : ℕ → ℕ
to_kb size_bytes = u32 (size_bytes + 1023) / 1024

-- The test of `memory_budget_alloc` and its effect, on the entry of the region.
pub charge : ℕ → Entry → Grant × Entry
charge size_bytes e =
    if ltb e.limit_kb (u32 (e.used_kb + to_kb size_bytes)) && not (e.limit_kb == 0)
    then (over_budget, e)
    else (granted, record e { used_kb = u32 (e.used_kb + to_kb size_bytes) })

pub memory_budget_alloc : ℕ → ℕ → Budget → Grant × Budget
unfolding charge
memory_budget_alloc region size_bytes b =
    let b' = memory_budget_init b in
    if leb region_max region
    then (bad_region, b')
    else (let (g, e) = charge size_bytes (get_or b'.regions region no_entry) in
        (g, record b' { regions = set b'.regions region e }))

pub refund : ℕ → Entry → Entry
refund size_bytes e =
    if ltb e.used_kb (to_kb size_bytes)
    then record e { used_kb = 0 }
    else record e { used_kb = e.used_kb - to_kb size_bytes }

pub memory_budget_free : ℕ → ℕ → Budget → Budget
unfolding refund
memory_budget_free region size_bytes b = if leb region_max region then b else record b {
  regions = set b.regions region (refund size_bytes (get_or b.regions region no_entry));
}

pub memory_budget_can_alloc : ℕ → ℕ → Budget → Bool
memory_budget_can_alloc region size_bytes b =
    if leb region_max region
    then false
    else (let e = get_or b.regions region no_entry in
        if e.limit_kb == 0 then true else leb (u32 (e.used_kb + to_kb size_bytes)) e.limit_kb)

pub memory_budget_used_kb : ℕ → Budget → ℕ
memory_budget_used_kb region b =
    if leb region_max region then 0 else (get_or b.regions region no_entry).used_kb

pub sum_used : List Entry → ℕ
sum_used [] = 0
sum_used (e ∷ es) = e.used_kb + sum_used es

pub memory_budget_total_used_kb : Budget → ℕ
unfolding sum_used
memory_budget_total_used_kb b = u32 (sum_used b.regions)
