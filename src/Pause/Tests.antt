-- ===== src/Pause/Tests.antt =====
-- Runs of pause_engine.c, and its theorem at a concrete title.
use asm_os.Prelude.{◌≡◌, refl, true, false, ◌&&◌, ◌||◌, some, [], arith, leb, length, take}
use asm_os.Prelude.CString.{codes, str_eq}
use asm_os.Pause.{
  PauseEngine, trigger_addr, ok, str_copy, is_in, pause_is_whitelisted, pause_whitelist_add,
  find_compat, pause_compat_get, pause_compat_add, pause_soft_trigger, is_trigger,
}
use asm_os.Pause.Titles.{pause_is_whitelisted-add}

abbrev empty : PauseEngine
empty = record { whitelist = []; inited = true; compat_db = [] }

pause_is_whitelisted-add_example :
    pause_is_whitelisted
      (some (codes "SLUS_20002"))
      (pause_whitelist_add (some (codes "SLUS_20002")) empty).1
    ≡ pause_is_whitelisted (some (codes "SLUS_20002")) empty
      || (leb (length (codes "SLUS_20002")) 15
          && str_eq (take 15 (codes "SLUS_20002")) (codes "SLUS_20002"))
pause_is_whitelisted-add_example =
    pause_is_whitelisted-add (codes "SLUS_20002") (codes "SLUS_20002") empty (omega arith)

-- A title of sixteen characters is added, but not found.
too_long :
    pause_is_whitelisted
      (some (codes "SLUS_20002.DISK1"))
      (pause_whitelist_add (some (codes "SLUS_20002.DISK1")) empty).1
    ≡ false
unfolding pause_is_whitelisted is_in pause_whitelist_add str_copy
too_long = refl

triggered :
    pause_soft_trigger
      (some (codes "SLUS_20002"))
      (pause_compat_add (some (codes "SLUS_20002")) trigger_addr 4096 1 empty).1
    ≡ ok
unfolding pause_soft_trigger is_trigger pause_compat_get pause_compat_add find_compat str_copy
triggered = refl
