-- ===== src/SaveManager/Tests.antt =====
-- A clone of a save on a disk in memory, and the theorem there.
use asm_os.Prelude.{◌≡◌, refl, true, false, [], ◌∷◌, ◌++◌, replicate}
use asm_os.Prelude.CString.{codes}
use asm_os.Storage.{Fs}
use asm_os.Storage.Ram.{ram}
use asm_os.SaveManager.{Saves, save_manager_clone, save_manager_rollback}
use asm_os.SaveManager.Clones.{save_manager_clone-slots}

-- A disk with a file of three bytes.
abbrev one_save : Fs ram
one_save = record {
  ready = true;
  fat = replicate 3 0 ++ (0xFF ∷ 0x0F ∷ []);
  root =
      (codes "        SLO" ++ replicate 15 0 ++ (2 ∷ 0 ∷ 3 ∷ 0 ∷ 0 ∷ 0 ∷ [])) ∷ replicate 32 0 ∷ [];
  disk = λ k. replicate 512 7;
}

abbrev no_backup : Saves
no_backup = record { backup_name = []; backup_size = 0; backup_version = 0 }

nothing_to_roll_back : save_manager_rollback ram 1 no_backup one_save ≡ (false, no_backup, one_save)
unfolding save_manager_rollback
nothing_to_roll_back = refl

save_manager_clone-slots_example :
    save_manager_clone ram 2 1 no_backup one_save ≡ save_manager_clone ram 9 3 no_backup one_save
save_manager_clone-slots_example = save_manager_clone-slots ram 2 1 9 3 no_backup one_save refl
