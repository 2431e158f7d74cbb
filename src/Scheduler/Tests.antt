-- ===== src/Scheduler/Tests.antt =====
-- Runs of scheduler.c at concrete tasks.
use asm_os.Prelude.{◌≡◌, refl, some, [], ◌∷◌, ◌++◌}
use asm_os.Scheduler.{Scheduler, add_task, current_or_first, task_yield, yields}

abbrev two_tasks : Scheduler
two_tasks = record {
  task_list = record { func = 100; esp = 1000 } ∷ record { func = 200; esp = 2000 } ∷ [];
  current_task = some 1;
}

-- The second yield continues the first task at the stack pointer that it saved.
resumed : (task_yield 9 (yields (7 ∷ 8 ∷ []) two_tasks)).0 ≡ some 8
unfolding task_yield yields current_or_first
resumed = refl

added :
    (add_task 300 (some 4096) two_tasks).task_list
    ≡ two_tasks.task_list ++ (record { func = 300; esp = 5084 } ∷ [])
unfolding add_task
added = refl
