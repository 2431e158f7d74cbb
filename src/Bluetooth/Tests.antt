-- ===== src/Bluetooth/Tests.antt =====
-- Runs of bluetooth.c.
use asm_os.Prelude.{◌≡◌, refl, true, none, some, [], ◌∷◌}
use asm_os.Prelude.CString.{codes}
use asm_os.Bluetooth.{
  Bluetooth, remove_device, bt_controller_profile_create, bt_controller_profile_load, find_map,
  controller_map_set,
}

abbrev idle : Bluetooth
idle = record {
  bt_initialized = true;
  controller_map = 0 ∷ 1 ∷ [];
  profiles = [];
  paired_devices = record { addr = codes "00:11"; paired = true; connected = true } ∷ [];
}

new_address : remove_device (codes "00:22") idle.paired_devices ≡ none
unfolding remove_device
new_address = refl

map_kept :
    (bt_controller_profile_load
      (some (codes "fps"))
      (controller_map_set 0 7
        (bt_controller_profile_create (some (codes "fps")) idle).1).1).1.controller_map
    ≡ 0 ∷ 1 ∷ []
unfolding bt_controller_profile_load controller_map_set bt_controller_profile_create find_map
map_kept = refl
