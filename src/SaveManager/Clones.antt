-- ===== src/SaveManager/Clones.antt =====
-- Which files a clone of a save touches.
use asm_os.Prelude.{
  ℕ, ◌≡◌, refl, sym, ap, ◌∙◌, arith, List, [], ◌∷◌, ◌+◌, Option-cases, inl, inr, none, some, true,
  false, Option,
}
use asm_os.Prelude.Words.{u8}
use asm_os.Storage.{Device, Fs, fat_normalize, plat_fs_read, plat_fs_write}
use asm_os.Storage.Names.{
  fat_normalize-base_lost, plat_fs_read-fat_normalize, plat_fs_write-fat_normalize,
  plat_fs_read_keeps,
}
use asm_os.SaveManager.{Saves, backup_bytes, slot_name, save_manager_clone}

abbrev tail : List ℕ
tail = b'.' ∷ b'S' ∷ b'A' ∷ b'V' ∷ []

same_file : (a b : ℕ) → fat_normalize (slot_name a) ≡ fat_normalize (slot_name b)
unfolding slot_name
same_file a b =
    let base = fat_normalize-base_lost b'S' b'L' b'O' in
    base (b'T' ∷ u8 (b'0' + a) ∷ tail) (omega arith)
    ∙ sym (base (b'T' ∷ u8 (b'0' + b) ∷ tail) (omega arith))

module _ (D : Device) (dest src : ℕ) (s : Saves) (fs : Fs D) where
  source : Option (List ℕ) × Fs D
  source = plat_fs_read D (slot_name src) backup_bytes fs

  clone_missing : source.0 ≡ none → save_manager_clone D dest src s fs ≡ (false, s, source.1)
  unfolding save_manager_clone source
  clone_missing e = rw (save_manager_clone, e) refl

  clone_found :
      (bytes : List ℕ)
      → source.0 ≡ some bytes
      → let w = plat_fs_write D (slot_name dest) bytes source.1 in
        save_manager_clone D dest src s fs ≡ (w.0, s, w.1)
  unfolding save_manager_clone source
  clone_found bytes e = rw (save_manager_clone, e) refl

-- All slots are one file: on a loaded file system a clone does the same, and leaves the same disk,
-- whichever slots it is asked to copy from and to.
pub save_manager_clone-slots :
    (D : Device) (dest src dest' src' : ℕ) (s : Saves) (fs : Fs D)
    → fs.ready ≡ true
    → save_manager_clone D dest src s fs ≡ save_manager_clone D dest' src' s fs
unfolding source
save_manager_clone-slots D dest src dest' src' s fs ready =
    let read =
      plat_fs_read-fat_normalize D (slot_name src) (slot_name src') (same_file src src') fs ready
        backup_bytes in
    let r = plat_fs_read D (slot_name src') backup_bytes fs in
    let kept = plat_fs_read_keeps D (slot_name src') backup_bytes fs ready in
    elim (Option-cases r.0) [
      | inl missing ↦
          clone_missing D dest src s fs (ap (λ p. p.0) read ∙ missing)
          ∙ ap (λ p. (false, s, p.1)) read
          ∙ sym (clone_missing D dest' src' s fs missing)
      | inr found ↦
          let write =
            plat_fs_write-fat_normalize D (slot_name dest) (slot_name dest') (same_file dest dest')
              fs ready found.0 in
          clone_found D dest src s fs found.0 (ap (λ p. p.0) read ∙ found.1)
          ∙ rw (read, kept, write) refl
          ∙ sym (clone_found D dest' src' s fs found.0 found.1)
    ]
