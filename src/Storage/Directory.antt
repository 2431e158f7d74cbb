-- ===== src/Storage/Directory.antt =====
-- Searching the root directory of platform/x86/hal_storage.c before and after an entry is written.
use asm_os.Prelude.{
  ℕ, zero, suc, ◌+◌, ◌/◌, ◌%◌, ◌^◌, ◌≤◌, ◌<◌, ◌≡◌, refl, sym, ap, ◌∙◌, ◌≢◌, inl, inr, true, none,
  some, List, [], ◌∷◌, ◌++◌, arith, Option-cases, length, get_or, set, take, drop, All,
  length-append, length-take, length-drop, take-append, get_or-set_self,
}
use asm_os.Prelude.CString.{str_eq_refl}
use asm_os.Storage.{
  Device, is_free, has_name, matches, fat_find_entry, fat_find_free_entry, le16, le32, name_entry,
  place_entry, choose_slot,
}

get_or-append_left :
    (xs ys : List ℕ) (i d : ℕ) → i < length xs → get_or (xs ++ ys) i d ≡ get_or xs i d
get_or-append_left [] ys i d h = absurd (omega arith)
get_or-append_left (x ∷ xs) ys zero d h = refl
get_or-append_left (x ∷ xs) ys (suc i) d h = get_or-append_left xs ys i d (omega arith)

get_or-append_right :
    (xs ys : List ℕ) (i k d : ℕ) → i ≡ length xs + k → get_or (xs ++ ys) i d ≡ get_or ys k d
get_or-append_right [] ys i k d e = let same : i ≡ k = omega arith in rw same
get_or-append_right (x ∷ xs) ys zero k d e = absurd (omega arith)
get_or-append_right (x ∷ xs) ys (suc i) k d e = get_or-append_right xs ys i k d (omega arith)

get_or-take : (xs : List ℕ) (n i d : ℕ) → i < n → get_or (take n xs) i d ≡ get_or xs i d
get_or-take xs zero i d h = absurd (omega arith)
get_or-take [] (suc n) i d h = refl
get_or-take (x ∷ xs) (suc n) zero d h = refl
get_or-take (x ∷ xs) (suc n) (suc i) d h = get_or-take xs n i d (omega arith)

take-append-take :
    (xs ys : List ℕ) (m n : ℕ) → m ≤ n → n ≤ length xs → take m (take n xs ++ ys) ≡ take m xs
take-append-take xs ys zero n h k = refl
take-append-take xs ys (suc m) zero h k = absurd (omega arith)
take-append-take [] ys (suc m) (suc n) h k = absurd (omega arith)
take-append-take (x ∷ xs) ys (suc m) (suc n) h k =
    ap (λ l. x ∷ l) (take-append-take xs ys m n (omega arith) (omega arith))

-- The size and the first cluster that `place_entry` writes are read back.
pub place_entry_fields :
    (cluster size : ℕ) (e : List ℕ)
    → length e ≡ 32
    → cluster < 2 ^ 16
    → size < 2 ^ 32
    → (le16 (place_entry cluster size e) 26 ≡ cluster)
      × (le32 (place_entry cluster size e) 28 ≡ size)
unfolding place_entry
place_entry_fields cluster size e l c s =
    let n : length (take 26 e) ≡ 26 = omega (arith, length-take 26 e) in
    let tail =
      cluster % 256
      ∷ cluster / 256 % 256
      ∷ size % 256
      ∷ size / 256 % 256
      ∷ size / 65536 % 256
      ∷ size / 16777216 % 256
      ∷ [] in
    let at = λ (i : ℕ) (k : ℕ) (h : i ≡ length (take 26 e) + k).
      get_or-append_right (take 26 e) tail i k 0 h in
    (
      rw (at 26 0 (omega arith), at 27 1 (omega arith)) (omega arith),
      rw
          (
            at 28 2 (omega arith),
            at 29 3 (omega arith),
            at 30 4 (omega arith),
            at 31 5 (omega arith),
          )
          (omega arith),
    )

matches-place_entry :
    (name83 e : List ℕ) (cluster size : ℕ)
    → length e ≡ 32
    → matches name83 (place_entry cluster size e) ≡ matches name83 e
unfolding matches place_entry
matches-place_entry name83 e cluster size l =
    let n : length (take 26 e) ≡ 26 = omega (arith, length-take 26 e) in
    let tail =
      cluster % 256
      ∷ cluster / 256 % 256
      ∷ size % 256
      ∷ size / 256 % 256
      ∷ size / 65536 % 256
      ∷ size / 16777216 % 256
      ∷ [] in
    let at = λ (i : ℕ) (h : i < 26).
      get_or-append_left (take 26 e) tail i 0 (omega (arith, n, h)) ∙ get_or-take e 26 i 0 h in
    rw
      (
        at 0 (omega arith),
        at 11 (omega arith),
        take-append-take e tail 11 26 (omega arith) (omega arith),
      )
      refl

-- A name that `fat_find_entry` can find: eleven characters, the first of them no mark of a free
-- entry.
pub record IsName (name83 : List ℕ) : Type 0 where
  pub size : length name83 ≡ 11
  pub used : (get_or name83 0 0 ≢ 0x00) × (get_or name83 0 0 ≢ 0xE5)

matches-name_entry :
    (name83 e : List ℕ) → IsName name83 → matches name83 (name_entry name83 e) ≡ true
unfolding matches name_entry is_free has_name
matches-name_entry name83 e n =
    rw
      (
        get_or-append_left name83 (0x20 ∷ drop 12 e) 0 0 (omega (arith, n.size)),
        get_or-append_right name83 (0x20 ∷ drop 12 e) 11 0 0 (omega (arith, n.size)),
        take-append name83 (0x20 ∷ drop 12 e) 11 (sym n.size),
        str_eq_refl name83,
      )
      (ground arith)

find-set_found :
    (name83 e : List ℕ) (root : List (List ℕ)) (i : ℕ)
    → fat_find_entry name83 root ≡ some i
    → matches name83 e ≡ true
    → (fat_find_entry name83 (set root i e) ≡ some i)
      × (i < length root)
      × (matches name83 (get_or root i []) ≡ true)
unfolding fat_find_entry
find-set_found name83 e [] i h m = absurd (ground arith)
find-set_found name83 e (x ∷ root) zero h m = ground arith
find-set_found name83 e (x ∷ root) (suc i) h m =
    let later : fat_find_entry name83 root ≡ some i = ground arith in
    ground (arith, find-set_found name83 e root i later m)

find-set_free :
    (name83 e : List ℕ) (root : List (List ℕ)) (i : ℕ)
    → fat_find_entry name83 root ≡ none
    → fat_find_free_entry root ≡ some i
    → matches name83 e ≡ true
    → (fat_find_entry name83 (set root i e) ≡ some i) × (i < length root)
unfolding fat_find_entry fat_find_free_entry
find-set_free name83 e [] i h f m = absurd (ground arith)
find-set_free name83 e (x ∷ root) zero h f m = ground arith
find-set_free name83 e (x ∷ root) (suc i) h f m =
    let missing : fat_find_entry name83 root ≡ none = ground arith in
    let later : fat_find_free_entry root ≡ some i = ground arith in
    ground (arith, find-set_free name83 e root i missing later m)

All-at :
    (root : List (List ℕ)) (i : ℕ)
    → All (λ e. length e ≡ 32) root
    → i < length root
    → length (get_or root i []) ≡ 32
All-at [] i a h = absurd (omega arith)
All-at (x ∷ root) zero a h = a.0
All-at (x ∷ root) (suc i) a h = All-at root i a.1 (omega arith)

set-set : (root : List (List ℕ)) (i : ℕ) (v w : List ℕ) → set (set root i v) i w ≡ set root i w
set-set [] i v w = refl
set-set (x ∷ root) zero v w = refl
set-set (x ∷ root) (suc i) v w = ap (λ l. x ∷ l) (set-set root i v w)

length-name_entry :
    (name83 e : List ℕ) → length name83 ≡ 11 → length e ≡ 32 → length (name_entry name83 e) ≡ 32
unfolding name_entry
length-name_entry name83 e n l =
    omega (arith, length-append name83 (0x20 ∷ drop 12 e), length-drop 12 e)

-- What the choice of a slot and the writing of its entry do to the directory: the name is found in
-- that slot, and the slot holds the cluster and the size.
pub choose_slot-places :
    (D : Device) (name83 : List ℕ) (root root' : List (List ℕ)) (slot cluster size : ℕ)
    → IsName name83
    → All (λ e. length e ≡ 32) root
    → cluster < 2 ^ 16
    → size < 2 ^ 32
    → choose_slot D name83 root ≡ some (slot, root')
    → let after = set root' slot (place_entry cluster size (get_or root' slot [])) in
      (fat_find_entry name83 after ≡ some slot)
      × (le16 (get_or after slot []) 26 ≡ cluster)
      × (le32 (get_or after slot []) 28 ≡ size)
unfolding choose_slot
choose_slot-places D name83 root root' slot cluster size n a c s h =
    elim (Option-cases (fat_find_entry name83 root)) [
      | inr (i, found) ↦
          let same_slot : i ≡ slot = ground arith in
          let same_root : root ≡ root' = ground arith in
          let at =
            find-set_found name83 (name_entry name83 []) root i found
              (matches-name_entry name83 [] n) in
          let e = get_or root i [] in
          let l = All-at root i a at.1 in
          let v = place_entry cluster size e in
          let hit : matches name83 v ≡ true = matches-place_entry name83 e cluster size l ∙ at.2 in
          let put = find-set_found name83 v root i found hit in
          let back = get_or-set_self root i v [] at.1 in
          let fields = place_entry_fields cluster size e l c s in
          rw (← same_root, ← same_slot) (put.0, rw back fields.0, rw back fields.1)
      | inl missing ↦ elim (Option-cases (fat_find_free_entry root)) [
        | inl full ↦ absurd (ground arith)
        | inr (i, free) ↦
            let e = name_entry name83 (get_or root i []) in
            let same_slot : i ≡ slot = ground arith in
            let same_root : set root i e ≡ root' = ground arith in
            let put =
              find-set_free name83 e root i missing free
                (matches-name_entry name83 (get_or root i []) n) in
            let l = length-name_entry name83 _ n.size (All-at root i a put.1) in
            let v = place_entry cluster size e in
            let hit : matches name83 v ≡ true =
              matches-place_entry name83 e cluster size l
              ∙ matches-name_entry name83 (get_or root i []) n in
            let there = find-set_free name83 v root i missing free hit in
            let old = get_or-set_self root i e [] put.1 in
            let back = get_or-set_self root i v [] put.1 in
            let fields = place_entry_fields cluster size e l c s in
            rw (← same_root, ← same_slot, old, set-set root i e v)
              (there.0, rw back fields.0, rw back fields.1)
      ]
    ]
