-- ===== src/SaveManager.antt =====
-- save_manager.c: backups of saves, as files of the storage.
--
-- A name is its characters before the terminating zero. What is printed is left out, and so are the
-- bytes of `backup_buf` between calls, since each call writes the buffer before it uses it, and the
-- table `slots`, which only `save_manager_init` touches.
mod Clones
mod Tests
use asm_os.Prelude.{
  ℕ, zero, suc, ◌+◌, ◌%◌, Bool, true, false, not, Option, none, some, List, [], ◌∷◌, take, ◌-◌, ◌*◌,
  length, ◌==◌, if◌then◌else◌,
}
use asm_os.Prelude.Words.{u8, u32}
use asm_os.Storage.{Device, Fs, plat_fs_read, plat_fs_write}

abbrev pub save_name_len : ℕ
save_name_len = 32

abbrev pub backup_bytes : ℕ
backup_bytes = 4 * 1024

pub record Saves : Type 0 where
  pub backup_name : List ℕ
  pub backup_size : ℕ
  pub backup_version : ℕ

pub save_manager_init : Saves → Saves
save_manager_init s = record s { backup_name = []; backup_size = 0; backup_version = 0 }

pub copy_str : List ℕ → ℕ → List ℕ
copy_str src max_len = take (max_len - 1) src

-- The loop that fills the buffer from its place `i` on, for the next `n` bytes.
pub pattern : ℕ → ℕ → List ℕ
pattern zero i = []
pattern (suc n) i = i % 256 ∷ pattern n (i + 1)

-- The file of a slot.
pub slot_name : ℕ → List ℕ
slot_name slot = b'S' ∷ b'L' ∷ b'O' ∷ b'T' ∷ u8 (b'0' + slot) ∷ b'.' ∷ b'S' ∷ b'A' ∷ b'V' ∷ []

-- The name that `save_manager_restore` reads.
pub source_of : Option (List ℕ) → Saves → List ℕ
source_of none s = s.backup_name
source_of (some []) s = s.backup_name
source_of (some (c ∷ cs)) s = c ∷ cs

module _ (D : Device) where
  -- The results of these functions are true for 0.
  pub save_manager_backup : Option (List ℕ) → Saves → Fs D → Bool × Saves × Fs D
  save_manager_backup none s fs = (false, s, fs)
  save_manager_backup (some []) s fs = (false, s, fs)
  save_manager_backup (some (c ∷ cs)) s fs =
      let s' : Saves = record {
        backup_name = copy_str (c ∷ cs) save_name_len;
        backup_size = backup_bytes;
        backup_version = u32 (s.backup_version + 1);
      } in
      let r = plat_fs_write D s'.backup_name (pattern backup_bytes 0) fs in (r.0, s', r.1)

  pub save_manager_restore : Option (List ℕ) → Saves → Fs D → Bool × Saves × Fs D
  save_manager_restore from s fs = elim (source_of from s) [
    | [] ↦ (false, s, fs)
    | c ∷ cs ↦
        let r = plat_fs_read D (c ∷ cs) backup_bytes fs in
        elim r.0 [
          | none ↦ (false, s, r.1)
          | some bytes ↦ (
            true,
            record s { backup_size = length bytes; backup_name = copy_str (c ∷ cs) save_name_len },
            r.1,
          )
        ]
  ]

  pub save_manager_clone : ℕ → ℕ → Saves → Fs D → Bool × Saves × Fs D
  save_manager_clone dest src s fs =
      let r = plat_fs_read D (slot_name src) backup_bytes fs in
      elim r.0 [
        | none ↦ (false, s, r.1)
        | some bytes ↦ let w = plat_fs_write D (slot_name dest) bytes r.1 in (w.0, s, w.1)
      ]

  pub save_manager_rollback : ℕ → Saves → Fs D → Bool × Saves × Fs D
  save_manager_rollback version_index s fs =
      if not (version_index == 1) then (false, s, fs) else (elim s.backup_name [
        | [] ↦ (false, s, fs)
        | c ∷ cs ↦ save_manager_restore (some s.backup_name) s fs
      ])
