-- ===== src/Storage/Tests.antt =====
-- Runs of platform/x86/hal_storage.c on a disk in memory, and its theorems at concrete files.
use asm_os.Prelude.{ℕ, ◌≡◌, refl, true, some, List, [], ◌∷◌, arith, replicate}
use asm_os.Prelude.CString.{codes}
use asm_os.Storage.{
  upper, take_base, skip_dot, take_ext, pad, fat_normalize, is_free, has_name, matches,
  fat_find_entry, fat_find_free_entry, name_entry, place_entry, Fs, ensure_ready, flush_from,
  fat_flush_root, plat_fs_read, write_data, choose_slot, plat_fs_write,
}
use asm_os.Storage.Ram.{ram}
use asm_os.Storage.Directory.{IsName}
use asm_os.Storage.Roundtrip.{plat_fs_read-write}

abbrev blank : Fs ram
blank = record {
  ready = true;
  fat = [];
  root = replicate 32 0 ∷ replicate 32 0 ∷ [];
  disk = λ k. [];
}

abbrev notes : List ℕ
notes = b'a' ∷ b'.' ∷ b't' ∷ []

notes-IsName : IsName (fat_normalize notes)
unfolding fat_normalize take_base skip_dot take_ext pad upper
notes-IsName = record {
  size = refl;
  used = ((λ e. absurd (omega arith)), (λ e. absurd (omega arith)));
}

written :
    plat_fs_write ram notes (1 ∷ 2 ∷ 3 ∷ []) blank
    ≡ (true, (plat_fs_write ram notes (1 ∷ 2 ∷ 3 ∷ []) blank).1)
unfolding plat_fs_write ensure_ready choose_slot place_entry write_data fat_flush_root fat_normalize
    take_base skip_dot take_ext pad upper fat_find_entry fat_find_free_entry flush_from matches
    is_free has_name name_entry
written = refl

plat_fs_read-write_example :
    (plat_fs_read ram notes 16 (plat_fs_write ram notes (1 ∷ 2 ∷ 3 ∷ []) blank).1).0
    ≡ some (1 ∷ 2 ∷ 3 ∷ [])
plat_fs_read-write_example =
    plat_fs_read-write ram notes (1 ∷ 2 ∷ 3 ∷ []) 16 blank
      (plat_fs_write ram notes (1 ∷ 2 ∷ 3 ∷ []) blank).1 refl (refl, (refl, tt)) notes-IsName
      (omega arith) (omega arith) (omega arith) written

normalised : fat_normalize notes ≡ codes "        A.T"
unfolding fat_normalize take_base skip_dot take_ext pad upper
normalised = refl

chosen :
    choose_slot ram (fat_normalize notes) blank.root
    ≡ some (0, name_entry (fat_normalize notes) (replicate 32 0) ∷ replicate 32 0 ∷ [])
unfolding choose_slot fat_find_entry fat_find_free_entry matches is_free has_name
chosen = refl
