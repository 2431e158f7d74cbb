-- ===== src/Profiles/Tests.antt =====
-- Runs of controller_remap.c, and its theorem at a concrete profile.
use asm_os.Prelude.{◌≡◌, refl, false, none, some, [], ◌∷◌, arith}
use asm_os.Prelude.CString.{codes}
use asm_os.Profiles.{
  Profile, Profiles, controller_remap_init, copy_name, done, controller_profile_save, find_profile,
  controller_profile_load, controller_set_sensitivity, clamp,
}
use asm_os.Profiles.Names.{controller_profile_load-save}

abbrev fresh : Profiles
fresh = record {
  profiles = [];
  current = record {
    name = [];
    button_remap = [];
    sensitivity = 128;
    deadzone = 32;
    turbo_mask = 0;
    macro_len = 0;
    macro_keys = [];
  };
}

abbrev racing : Profile
racing = record (fresh.current) { name = codes "race" }

controller_profile_load-save_example :
    controller_profile_load
      (some (codes "race"))
      (controller_profile_save (some (codes "race")) fresh).1
    ≡ (
      done,
      record {
        profiles = racing ∷ [];
        current = elim (find_profile (codes "race") []) [
          | none ↦ racing
          | some p ↦ record p { name = copy_name p.name }
        ];
      },
    )
controller_profile_load-save_example =
    controller_profile_load-save (codes "race") fresh (omega arith) (omega arith) (omega arith)

clamped :
    (controller_set_sensitivity false 300 (controller_remap_init fresh)).current.sensitivity ≡ 255
unfolding controller_set_sensitivity clamp controller_remap_init
clamped = refl
