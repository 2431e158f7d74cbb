-- ===== src/Storage/Roundtrip.antt =====
-- Writing a file with platform/x86/hal_storage.c and reading it back.
use asm_os.Prelude.{
  ℕ, zero, suc, ◌+◌, ◌-◌, ◌/◌, ◌≤◌, ◌<◌, min, ◌≡◌, refl, sym, ap, ◌∙◌, ◌≢◌, inl, inr, Bool, true,
  false, ◌||◌, none, some, List, [], ◌∷◌, append-nil, arith, leb, ◌==◌, Bool-cases, Option-cases,
  length, get_or, set, take, drop, replicate, All, length-append, length-replicate, length-take,
  take-append, take_all,
}
use asm_os.Storage.{
  Device, root_lba, root_sectors, data_start, fat_end, fat_normalize, fat_find_entry, le16, le32,
  fat_next_cluster, place_entry, data_sector, root_sector, Fs, ensure_ready, flush_from,
  fat_flush_root, read_chain, plat_fs_read, write_data, choose_slot, plat_fs_write,
}
use asm_os.Prelude.{◌≢◌}
use mathlib.Core.Path.{subst}
use asm_os.Storage.Directory.{IsName, choose_slot-places}

drop_all : (n : ℕ) (xs : List ℕ) → length xs ≤ n → drop n xs ≡ []
drop_all zero [] h = refl
drop_all zero (x ∷ xs) h = absurd (omega arith)
drop_all (suc n) [] h = refl
drop_all (suc n) (x ∷ xs) h = drop_all n xs (omega arith)

module _ (D : Device) where
  open D use {Disk, read_sector, write_sector, read-write_self, read-write_ne}

  flush_from-keeps :
      (n s : ℕ) (root : List (List ℕ)) (d d' : Disk)
      → s + n ≤ root_sectors
      → flush_from D n s root d ≡ (true, d')
      → read_sector data_start d' ≡ read_sector data_start d
  unfolding flush_from
  flush_from-keeps zero s root d d' h e = let same : d ≡ d' = ground arith in rw same refl
  flush_from-keeps (suc n) s root d d' h e =
      elim (Option-cases (write_sector (root_lba + s) (root_sector s root) d)) [
        | inl failed ↦ absurd (ground arith)
        | inr (d1, wrote) ↦
            let later : flush_from D n (s + 1) root d1 ≡ (true, d') = ground arith in
            flush_from-keeps n (s + 1) root d1 d' (omega arith) later
            ∙ read-write_ne (root_lba + s) data_start (root_sector s root) d d1
                (λ same. absurd (omega arith)) wrote
      ]

  length-data_sector : (src : List ℕ) → length src ≤ 512 → length (data_sector src) ≡ 512
  unfolding data_sector
  length-data_sector src h = omega (
    arith,
    length-append (take 512 src) (replicate (512 - length (take 512 src)) 0),
    length-replicate {A = ℕ} (512 - length (take 512 src)) 0,
    length-take 512 src,
  )

  take-data_sector : (src : List ℕ) → length src ≤ 512 → take (length src) (data_sector src) ≡ src
  unfolding data_sector
  take-data_sector src h =
      rw (take_all 512 src h) (take-append src (replicate (512 - length src) 0) (length src) refl)

  write_data-nil : (n cluster : ℕ) (d : Disk) → write_data D n cluster [] d ≡ (true, d)
  unfolding write_data
  write_data-nil zero cluster d = refl
  write_data-nil (suc n) cluster d = refl

  read_chain-zero :
      (n : ℕ) (fat : List ℕ) (cluster : ℕ) (d : Disk) → read_chain D n fat cluster 0 d ≡ some []
  unfolding read_chain
  read_chain-zero zero fat cluster d = refl
  read_chain-zero (suc n) fat cluster d = ground arith

  -- One sector of data is written to the first data sector.
  write_data-sector :
      (n : ℕ) (src : List ℕ) (d d' : Disk)
      → 0 < length src
      → length src ≤ 512
      → write_data D (suc n) 2 src d ≡ (true, d')
      → read_sector data_start d' ≡ some (data_sector src)
  unfolding write_data
  write_data-sector n [] d d' p h e = absurd (omega arith)
  write_data-sector n (x ∷ src) d d' p h e =
      let whole = data_sector (x ∷ src) in
      elim (Option-cases (write_sector data_start whole d)) [
        | inl failed ↦ absurd (ground arith)
        | inr (d1, wrote) ↦
            let later : write_data D n 3 (drop 512 (x ∷ src)) d1 ≡ (true, d') = ground arith in
            let same : d1 ≡ d' = ground (
              arith,
              sym (write_data-nil n 3 d1)
                  ∙ subst (λ l. write_data D n 3 l d1 ≡ (true, d')) (drop_all 512 (x ∷ src) h)
                      later,
            ) in
            rw (← same)
              (read-write_self data_start whole d d1 (length-data_sector (x ∷ src) h) wrote)
      ]

  read_chain-sector :
      (n : ℕ) (fat src : List ℕ) (d : Disk)
      → 0 < length src
      → length src ≤ 512
      → read_sector data_start d ≡ some (data_sector src)
      → read_chain D (suc n) fat 2 (length src) d ≡ some src
  unfolding read_chain
  read_chain-sector n fat src d p h e =
      let whole : min 512 (length src) ≡ length src = omega arith in
      let empty : leb fat_end 2 || length src == 0 ≡ false = ground arith in
      let nothing : length src - length src ≡ 0 = omega arith in
      rw
        (
          empty,
          e,
          whole,
          nothing,
          read_chain-zero n fat (fat_next_cluster fat 2) d,
          take-data_sector src h,
          append-nil src,
        )
        refl

  ensure_ready_when : (fs : Fs D) → fs.ready ≡ true → ensure_ready D fs ≡ (true, fs)
  unfolding ensure_ready
  ensure_ready_when fs h = rw h refl

  -- What a successful write leaves: the entry in its slot, and a disk to which the data and then
  -- the directory were written.
  plat_fs_write-true :
      (name src : List ℕ) (fs fs' : Fs D) (slot : ℕ) (root : List (List ℕ))
      → fs.ready ≡ true
      → choose_slot D (fat_normalize name) fs.root ≡ some (slot, root)
      → plat_fs_write D name src fs ≡ (true, fs')
      → (fs'.ready ≡ true)
        × (fs'.root ≡ set root slot (place_entry 2 (length src) (get_or root slot [])))
        × (d : Disk) × (write_data D (length src / 512 + 1) 2 src fs.disk ≡ (true, d))
        × (flush_from D root_sectors 0 fs'.root d ≡ (true, fs'.disk))
  unfolding plat_fs_write fat_flush_root
  plat_fs_write-true name src fs fs' slot root ready chosen e =
      let wrote = write_data D (length src / 512 + 1) 2 src fs.disk in
      let opened = ensure_ready_when fs ready in
      elim (Bool-cases wrote.0) [
        | inl worked ↦
            let after = set root slot (place_entry 2 (length src) (get_or root slot [])) in
            let flushed = flush_from D root_sectors 0 after wrote.1 in
            let made : wrote ≡ (true, wrote.1) = ground arith in
            let done : Bool × Fs D = (flushed.0, record fs { root = after; disk = flushed.1 }) in
            let result : done ≡ (true, fs') = ground arith in
            let same : fs' ≡ done.1 = ground arith in
            let fine : flushed.0 ≡ true = ground arith in
            let at_root : fs'.root ≡ after = ap (λ f. f.root) same in
            let at_disk : fs'.disk ≡ flushed.1 = ap (λ f. f.disk) same in
            let all_done : flushed ≡ (true, fs'.disk) =
              ap (λ b. (b, flushed.1)) fine ∙ ap (λ d. (true, d)) (sym at_disk) in
            (
              ap (λ f. f.ready) same ∙ ready,
              at_root,
              wrote.1,
              made,
              subst (λ r. flush_from D root_sectors 0 r wrote.1 ≡ (true, fs'.disk)) (sym at_root)
                  all_done,
            )
        | inr failed ↦ absurd (ground arith)
      ]

  plat_fs_write-none :
      (name src : List ℕ) (fs fs' : Fs D)
      → fs.ready ≡ true
      → choose_slot D (fat_normalize name) fs.root ≡ none
      → plat_fs_write D name src fs ≢ (true, fs')
  unfolding plat_fs_write ensure_ready
  plat_fs_write-none name src fs fs' ready full e = ground arith

  plat_fs_read-some :
      (name src : List ℕ) (buf_size : ℕ) (fs : Fs D) (slot : ℕ)
      → fs.ready ≡ true
      → fat_find_entry (fat_normalize name) fs.root ≡ some slot
      → le16 (get_or fs.root slot []) 26 ≡ 2
      → le32 (get_or fs.root slot []) 28 ≡ length src
      → 0 < length src
      → length src ≤ 512
      → length src ≤ buf_size
      → read_sector data_start fs.disk ≡ some (data_sector src)
      → (plat_fs_read D name buf_size fs).0 ≡ some src
  unfolding plat_fs_read
  plat_fs_read-some name src buf_size fs slot ready found cluster size p h b e =
      let whole : min (length src) buf_size ≡ length src = omega arith in
      let opened = ensure_ready_when fs ready in
      let entry = get_or fs.root slot [] in
      let wanted = min (le32 entry 28) buf_size in
      let chain : (plat_fs_read D name buf_size fs).0
          ≡ read_chain D (wanted / 512 + 1) fs.fat (le16 entry 26) wanted fs.disk =
        ground arith in
      let one : length src / 512 + 1 ≡ suc (length src / 512) = omega arith in
      chain
      ∙ rw (cluster, size, whole, one)
          (read_chain-sector (length src / 512) fs.fat src fs.disk p h e)

  -- A file of 1 to 512 bytes that was written successfully to a loaded file system is read back as
  -- it was written into a buffer that holds it, under a name that FAT can hold. The entries of the
  -- root directory have 32 bytes.
  pub plat_fs_read-write :
      (name src : List ℕ) (buf_size : ℕ) (fs fs' : Fs D)
      → fs.ready ≡ true
      → All (λ e. length e ≡ 32) fs.root
      → IsName (fat_normalize name)
      → 0 < length src
      → length src ≤ 512
      → length src ≤ buf_size
      → plat_fs_write D name src fs ≡ (true, fs')
      → (plat_fs_read D name buf_size fs').0 ≡ some src
  plat_fs_read-write name src buf_size fs fs' ready a n p h b e =
      elim (Option-cases (choose_slot D (fat_normalize name) fs.root)) [
        | inl full ↦ absurd (plat_fs_write-none name src fs fs' ready full e)
        | inr ((slot, root), chosen) ↦
            let found =
              choose_slot-places D (fat_normalize name) fs.root root slot 2 (length src) n a
                (omega arith) (omega arith) chosen in
            let (ready', same, d, wrote, flushed) =
              plat_fs_write-true name src fs fs' slot root ready chosen e in
            let kept = flush_from-keeps root_sectors 0 fs'.root d fs'.disk (omega arith) flushed in
            let there =
              write_data-sector (length src / 512) src fs.disk d p h
                (subst (λ k. write_data D k 2 src fs.disk ≡ (true, d)) (omega arith) wrote) in
            plat_fs_read-some name src buf_size fs' slot ready' (rw same found.0) (rw same found.1)
              (rw same found.2) p h b (kept ∙ there)
      ]
