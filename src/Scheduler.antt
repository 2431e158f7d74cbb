-- ===== src/Scheduler.antt =====
-- scheduler.c: the table of tasks and whose turn it is, on x86. The context switch is assembly: the
-- stack pointers that it saves and loads are numbers.
pub mod Turns
mod Tests
use asm_os.Prelude.{
  ℕ, ◌+◌, ◌-◌, ◌%◌, Option, none, some, List, [], ◌∷◌, ◌++◌, ltb, ◌==◌, if◌then◌else◌, length,
  get_or, set,
}

abbrev pub max_tasks : ℕ
max_tasks = 8

-- A task: its function, and the stack pointer to continue at.
pub record Task : Type 0 where
  pub func : ℕ
  pub esp : ℕ

-- `task_list` holds the first `task_count` tasks; no current task stands for -1.
pub record Scheduler : Type 0 where
  pub task_list : List Task
  pub current_task : Option ℕ

-- `stack` is what `malloc(1024)` returns.
pub add_task : ℕ → Option ℕ → Scheduler → Scheduler
add_task func none s = s
add_task func (some stack) s =
    if ltb (length s.task_list) max_tasks
    then record s {
      task_list = s.task_list ++ (record { func = func; esp = stack + 1024 - 36 } ∷ []);
    }
    else s

-- The current task, where none counts as the first one.
pub current_or_first : Option ℕ → ℕ
current_or_first none = 0
current_or_first (some i) = i

-- `task_yield` on x86. `esp` is the stack pointer that `task_yield_asm` saves; the result is the one
-- that it loads.
pub task_yield : ℕ → Scheduler → Option ℕ × Scheduler
unfolding current_or_first
task_yield esp s =
    let count = length s.task_list in
    let this = current_or_first s.current_task in
    let next = (this + 1) % count in
    let idle : Task = record { func = 0; esp = 0 } in
    if count == 0 then (none, s) else (
      some (get_or s.task_list next idle).esp,
      record s {
        task_list = set s.task_list this (record (get_or s.task_list this idle) { esp = esp });
        current_task = some next;
      },
    )

-- The tasks that run after the current one, in `n` yields that save `esps`.
pub yields : List ℕ → Scheduler → Scheduler
unfolding task_yield
yields [] s = s
yields (esp ∷ esps) s = yields esps (task_yield esp s).1
