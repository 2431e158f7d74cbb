-- ===== src/Profiles.antt =====
-- controller_remap.c: the profiles of the controller. `profiles` holds the first `profile_count`
-- profiles. The printing is left out.
pub mod Names
mod Tests
use asm_os.Prelude.{
  ℕ, zero, suc, ◌+◌, ◌-◌, bit_and, Bool, true, false, Option, none, some, List, [], ◌∷◌, ◌++◌, ltb,
  leb, if◌then◌else◌, length, take,
}
use asm_os.Prelude.CString.{str_eq}

abbrev pub profile_name_len : ℕ
profile_name_len = 24

abbrev pub max_profiles : ℕ
max_profiles = 8

pub record Profile : Type 0 where
  pub name : List ℕ
  pub button_remap : List ℕ
  pub sensitivity : ℕ
  pub deadzone : ℕ
  pub turbo_mask : ℕ
  pub macro_len : ℕ
  pub macro_keys : List ℕ

pub record Profiles : Type 0 where
  pub profiles : List Profile
  pub current : Profile

-- The numbers from `i` on.
pub buttons_from : ℕ → ℕ → List ℕ
buttons_from zero i = []
buttons_from (suc n) i = i ∷ buttons_from n (i + 1)

-- `macro_keys` is left as it was; it is zero when the program starts.
pub controller_remap_init : Profiles → Profiles
unfolding buttons_from
controller_remap_init s = record {
  profiles = [];
  current = record {
    name = [];
    button_remap = buttons_from 16 0;
    sensitivity = 128;
    deadzone = 32;
    turbo_mask = 0;
    macro_len = 0;
    macro_keys = s.current.macro_keys;
  };
}

pub copy_name : List ℕ → List ℕ
copy_name src = take (profile_name_len - 1) src

pub data Code : Type 0 where
  done : Code
  no_name : Code
  refused : Code

-- `!name || !name[0]`.
pub is_empty : Option (List ℕ) → Bool
is_empty none = true
is_empty (some []) = true
is_empty (some (c ∷ cs)) = false

-- The bytes of a name that is given.
pub text_of : Option (List ℕ) → List ℕ
text_of none = []
text_of (some name) = name

pub controller_profile_save : Option (List ℕ) → Profiles → Code × Profiles
unfolding is_empty copy_name text_of
controller_profile_save name s =
    if is_empty name
    then (no_name, s)
    else if leb max_profiles (length s.profiles)
    then (refused, s)
    else (
      done,
      record s {
        profiles = s.profiles ++ (record (s.current) { name = copy_name (text_of name) } ∷ []);
      },
    )

-- The search of `controller_profile_load`.
pub find_profile : List ℕ → List Profile → Option Profile
find_profile name [] = none
find_profile name (p ∷ ps) =
    let rest = find_profile name ps in if str_eq p.name name then some p else rest

pub controller_profile_load : Option (List ℕ) → Profiles → Code × Profiles
unfolding is_empty copy_name find_profile text_of
controller_profile_load name s =
    if is_empty name then (no_name, s) else elim (find_profile (text_of name) s.profiles) [
      | none ↦ (refused, s)
      | some p ↦ (done, record s { current = record p { name = copy_name p.name } })
    ]

-- The value is an `int`: a sign and a magnitude.
pub clamp : Bool → ℕ → ℕ
clamp negative value = if negative then 0 else if ltb 255 value then 255 else value

pub controller_set_sensitivity : Bool → ℕ → Profiles → Profiles
unfolding clamp
controller_set_sensitivity negative value s = record s {
  current = record (s.current) { sensitivity = clamp negative value };
}

pub controller_set_deadzone : Bool → ℕ → Profiles → Profiles
unfolding clamp
controller_set_deadzone negative value s = record s {
  current = record (s.current) { deadzone = clamp negative value };
}

-- The mask as the 32 bits of an `int`.
pub controller_set_turbo : ℕ → Profiles → Profiles
controller_set_turbo mask s = record s {
  current = record (s.current) { turbo_mask = bit_and mask 0xFFFF };
}
