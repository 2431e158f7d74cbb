-- ===== src/Storage/Names.antt =====
-- The 8.3 names of platform/x86/hal_storage.c.
use asm_os.Prelude.{
  ℕ, zero, suc, ◌≢◌, ◌++◌, false, ◌-◌, ◌≤◌, ◌≡◌, refl, inl, inr, List, [], ◌∷◌, map, arith, ◌==◌,
  Bool-cases, length, replicate, length-append, length-replicate, true, ap, Option-cases,
}
use asm_os.Storage.{
  Device, Fs, ensure_ready, fat_find_entry, choose_slot, plat_fs_read, plat_fs_write, upper,
  take_base, skip_dot, take_ext, pad, fat_normalize,
}

upper-upper : (c : ℕ) → upper (upper c) ≡ upper c
unfolding upper
upper-upper c = ground arith

upper-dot : (c : ℕ) → (upper c == b'.') ≡ (c == b'.')
unfolding upper
upper-dot c = ground arith

take_ext-upper : (room : ℕ) (s : List ℕ) → take_ext room (map upper s) ≡ take_ext room s
unfolding take_ext
take_ext-upper zero s = refl
take_ext-upper (suc room) [] = refl
take_ext-upper (suc room) (c ∷ s) = rw (upper-upper c, take_ext-upper room s)

skip_dot-upper : (s : List ℕ) → skip_dot (map upper s) ≡ map upper (skip_dot s)
unfolding skip_dot
skip_dot-upper [] = refl
skip_dot-upper (c ∷ s) = elim (Bool-cases (c == b'.')) [
  | inl dot ↦ rw (upper-dot c, dot)
  | inr other ↦ rw (upper-dot c, other)
]

length-take_base : (room : ℕ) (s : List ℕ) → length (take_base room s).0 ≤ room
unfolding take_base
length-take_base zero s = omega arith
length-take_base (suc room) [] = omega arith
length-take_base (suc room) (c ∷ s) = ground (arith, length-take_base room s)

length-take_ext : (room : ℕ) (s : List ℕ) → length (take_ext room s) ≤ room
unfolding take_ext
length-take_ext zero s = omega arith
length-take_ext (suc room) [] = omega arith
length-take_ext (suc room) (c ∷ s) = omega (arith, length-take_ext room s)

length-pad : (width : ℕ) (s : List ℕ) → length s ≤ width → length (pad width s) ≡ width
unfolding pad
length-pad width s h = omega (
  arith,
  length-append s (replicate (width - length s) 0x20),
  length-replicate {A = ℕ} (width - length s) 0x20,
)

-- A normalised name has eleven characters, and does not depend on the case of the file's name.
pub fat_normalize_lem :
    (s : List ℕ) → (length (fat_normalize s) ≡ 11) × (fat_normalize (map upper s) ≡ fat_normalize s)
unfolding fat_normalize take_base
fat_normalize_lem s =
    let base = (take_base 0 s).0 in
    let ext = take_ext 3 (skip_dot (take_base 0 s).1) in
    let size = length-append (pad 8 base) (pad 3 ext) in
    (
      omega (
        arith,
        size,
        length-pad 8 base (omega (arith, length-take_base 0 s)),
        length-pad 3 ext (length-take_ext 3 (skip_dot (take_base 0 s).1)),
      ),
      rw (skip_dot-upper s, take_ext-upper 3 (skip_dot s)) refl,
    )

-- The base of a name is lost: for a name of three characters or more that does not start with a
-- point, the normalised name is eight spaces and the first three characters in upper case, so all
-- names that agree in these characters are the same file.
pub fat_normalize-base_lost :
    (a b c : ℕ) (s : List ℕ)
    → a ≢ b'.'
    → fat_normalize (a ∷ b ∷ c ∷ s) ≡ replicate 8 b' ' ++ (upper a ∷ upper b ∷ upper c ∷ [])
unfolding fat_normalize take_base skip_dot take_ext pad
fat_normalize-base_lost a b c s h =
    let other : (a == b'.') ≡ false = ground (arith, h) in rw other refl

module _ (D : Device) (name name' : List ℕ) (same : fat_normalize name ≡ fat_normalize name')
    (fs : Fs D) (ready : fs.ready ≡ true) where
  -- A loaded file system takes a name only in its normal form, for reading and for writing.
  pub plat_fs_read-fat_normalize :
      (buf_size : ℕ) → plat_fs_read D name buf_size fs ≡ plat_fs_read D name' buf_size fs
  unfolding plat_fs_read
  plat_fs_read-fat_normalize buf_size =
      let find = ap (λ n. fat_find_entry n fs.root) same in simp ready (rw find refl)

  pub plat_fs_write-fat_normalize :
      (src : List ℕ) → plat_fs_write D name src fs ≡ plat_fs_write D name' src fs
  unfolding plat_fs_write
  plat_fs_write-fat_normalize src =
      let choose = ap (λ n. choose_slot D n fs.root) same in simp ready (rw choose refl)

-- Reading changes nothing in a loaded file system.
pub plat_fs_read_keeps :
    (D : Device) (name : List ℕ) (buf_size : ℕ) (fs : Fs D)
    → fs.ready ≡ true
    → (plat_fs_read D name buf_size fs).1 ≡ fs
unfolding plat_fs_read
plat_fs_read_keeps D name buf_size fs ready =
    let opened : (ensure_ready D fs).1 ≡ fs = simp ready refl in
    elim (Option-cases (fat_find_entry (fat_normalize name) fs.root)) [
      | inl missing ↦ simp ready (rw missing opened)
      | inr found ↦ simp ready (rw (found.1) opened)
    ]
