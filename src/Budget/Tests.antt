-- ===== src/Budget/Tests.antt =====
-- A budget of memory_budget.c that is in good order.
use asm_os.Prelude.{refl, true, false, [], arith, replicate}
use asm_os.Budget.{Budget}
use asm_os.Budget.Accounting.{IsSound}

abbrev start : Budget
start = record { regions = []; inited = false }

abbrev ready : Budget
ready = record { regions = replicate 8 (record { limit_kb = 4096; used_kb = 4000 }); inited = true }

ready-IsSound : IsSound ready
ready-IsSound = record { entries = refl; ready = refl; within = omega arith; small = omega arith }
