-- ===== src/Profiles/Names.antt =====
-- Saving and loading the profiles of controller_remap.c by name.
use asm_os.Prelude.{
  ℕ, ◌<◌, ◌≡◌, refl, ap, ◌∙◌, inl, inr, false, none, some, List, [], ◌∷◌, ◌++◌, arith, leb,
  if◌then◌else◌, Bool-cases, Option-cases, length, take, take_all,
}
use asm_os.Prelude.CString.{str_eq, str_eq_refl}
use asm_os.Profiles.{
  profile_name_len, max_profiles, Profile, Profiles, copy_name, done, is_empty, text_of,
  controller_profile_save, find_profile, controller_profile_load,
}

find_profile-append :
    (name : List ℕ) (ps : List Profile) (p : Profile)
    → find_profile name (ps ++ (p ∷ [])) ≡ elim (find_profile name ps) [
      | none ↦ if str_eq p.name name then some p else none
      | some q ↦ some q
    ]
unfolding find_profile
find_profile-append name [] p = refl
find_profile-append name (x ∷ ps) p = elim (Bool-cases (str_eq x.name name)) [
  | inl y ↦ rw y refl
  | inr n ↦ rw n (find_profile-append name ps p)
]

is_empty_lem : (name : List ℕ) → 0 < length name → is_empty (some name) ≡ false
unfolding is_empty
is_empty_lem [] h = absurd (omega arith)
is_empty_lem (c ∷ cs) h = refl

saved_lem :
    (name : List ℕ) (s : Profiles)
    → 0 < length name
    → length name < profile_name_len
    → length s.profiles < max_profiles
    → controller_profile_save (some name) s
      ≡ (done, record s { profiles = s.profiles ++ (record (s.current) { name = name } ∷ []) })
unfolding controller_profile_save copy_name text_of
saved_lem name s p h f =
    let place : leb max_profiles (length s.profiles) ≡ false = ground arith in
    let whole : take 23 name ≡ name = take_all 23 name (omega arith) in
    rw (is_empty_lem name p, place, whole) refl

loaded_lem :
    (name : List ℕ) (s : Profiles) (p : Profile)
    → 0 < length name
    → find_profile name s.profiles ≡ some p
    → controller_profile_load (some name) s
      ≡ (done, record s { current = record p { name = copy_name p.name } })
unfolding controller_profile_load text_of
loaded_lem name s p h found = rw (is_empty_lem name h, found) refl

copy_name_whole : (name : List ℕ) → length name < profile_name_len → copy_name name ≡ name
unfolding copy_name
copy_name_whole name h = take_all 23 name (omega arith)

-- Loading a profile by the name under which it was just saved, of 1 to 23 bytes and with a place
-- left, gives the settings that were saved under it first: an older profile of that name is not
-- replaced.
pub controller_profile_load-save :
    (name : List ℕ) (s : Profiles)
    → 0 < length name
    → length name < profile_name_len
    → length s.profiles < max_profiles
    → controller_profile_load (some name) (controller_profile_save (some name) s).1
      ≡ let saved : Profile = record (s.current) { name = name } in
        (
          done,
          record s {
            profiles = s.profiles ++ (saved ∷ []);
            current = elim (find_profile name s.profiles) [
              | none ↦ saved
              | some p ↦ record p { name = copy_name p.name }
            ];
          },
        )
controller_profile_load-save name s p h f =
    let saved : Profile = record (s.current) { name = name } in
    let s' : Profiles = record s { profiles = s.profiles ++ (saved ∷ []) } in
    let step = ap (λ r. controller_profile_load (some name) r.1) (saved_lem name s p h f) in
    elim (Option-cases (find_profile name s.profiles)) [
      | inl new ↦
          let found : find_profile name s'.profiles ≡ some saved =
            find_profile-append name s.profiles saved ∙ rw (new, str_eq_refl name) refl in
          step ∙ loaded_lem name s' saved p found ∙ rw (new, copy_name_whole name h) refl
      | inr (q, old) ↦
          let found : find_profile name s'.profiles ≡ some q =
            find_profile-append name s.profiles saved ∙ rw old refl in
          step ∙ loaded_lem name s' q p found ∙ rw old refl
    ]
