-- ===== src/Scheduler/Turns.antt =====
-- The order in which the tasks of scheduler.c run.
use asm_os.Prelude.{
  ℕ, suc, ◌+◌, ◌%◌, ◌<◌, ◌≡◌, refl, sym, ap, ◌∙◌, inl, inr, false, some, List, [], ◌∷◌, arith, ◌==◌,
  Bool-cases, length, length-set,
}
use native.Mathlib.Nat.{mod-lt, mod-eq_of_lt, mod-add-mod}
use asm_os.Scheduler.{Scheduler, current_or_first, task_yield, yields}

length-yield :
    (esp : ℕ) (s : Scheduler) → length (task_yield esp s).1.task_list ≡ length s.task_list
unfolding task_yield
length-yield esp s = elim (Bool-cases (length s.task_list == 0)) [
  | inl y ↦ rw y refl
  | inr n ↦ rw n (length-set s.task_list (current_or_first s.current_task) _)
]

yielded_lem :
    (esp i : ℕ) (s : Scheduler)
    → 0 < length s.task_list
    → s.current_task ≡ some i
    → (task_yield esp s).1.current_task ≡ some ((i + 1) % length s.task_list)
unfolding task_yield current_or_first
yielded_lem esp i s h c =
    let some_task : length s.task_list == 0 ≡ false = ground arith in rw (some_task, c) refl

-- The tasks run in turn: after as many yields as there are entries of `esps`, the current task is
-- that many places further in the list, from its start again behind its end.
pub yields-round_robin :
    (esps : List ℕ) (i : ℕ) (s : Scheduler)
    → i < length s.task_list
    → s.current_task ≡ some i
    → (yields esps s).current_task ≡ some ((i + length esps) % length s.task_list)
unfolding yields
yields-round_robin [] i s h c =
    let here : i + 0 ≡ i = omega arith in
    c ∙ ap some (sym (ap (λ n. n % length s.task_list) here ∙ mod-eq_of_lt h))
yields-round_robin (esp ∷ esps) i s h c =
    let count = length s.task_list in
    let next = (i + 1) % count in
    let same = length-yield esp s in
    let further : i + 1 + length esps ≡ i + suc (length esps) = omega arith in
    let bound : next < count = mod-lt (i + 1) (omega (arith, h)) in
    yields-round_robin esps next (task_yield esp s).1 (rw same bound)
      (yielded_lem esp i s (omega (arith, h)) c)
    ∙ ap (λ n. some ((next + length esps) % n)) same
    ∙ ap some (mod-add-mod (i + 1) count (length esps) ∙ ap (λ n. n % count) further)
