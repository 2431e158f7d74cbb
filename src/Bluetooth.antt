-- ===== src/Bluetooth.antt =====
-- bluetooth.c: paired devices and the map of the controller. `paired_devices` and `profiles` hold
-- as many entries as their counts. Scanning and printing are left out.
pub mod Pairing
mod Tests
use asm_os.Prelude.{
  ℕ, zero, suc, ◌+◌, ◌-◌, Bool, true, false, not, ◌||◌, Option, none, some, List, [], ◌∷◌, ◌++◌,
  map, leb, ◌==◌, if◌then◌else◌, length, set, take,
}
use asm_os.Prelude.CString.{str_eq}
use mathlib.Core.Option

abbrev pub addr_str_max : ℕ
addr_str_max = 18

abbrev pub device_max : ℕ
device_max = 6

abbrev pub profile_name_max : ℕ
profile_name_max = 24

abbrev pub logical_buttons : ℕ
logical_buttons = 16

abbrev pub profile_slots : ℕ
profile_slots = 4

pub record Device : Type 0 where
  pub addr : List ℕ
  pub paired : Bool
  pub connected : Bool

pub record MapProfile : Type 0 where
  pub name : List ℕ
  pub map : List ℕ

pub record Bluetooth : Type 0 where
  pub bt_initialized : Bool
  pub controller_map : List ℕ
  pub profiles : List MapProfile
  pub paired_devices : List Device

-- The buttons from `i` on, each mapped to itself.
pub identity_from : ℕ → ℕ → List ℕ
identity_from zero i = []
identity_from (suc n) i = i ∷ identity_from n (i + 1)

pub bt_init : Bluetooth → Bluetooth
unfolding identity_from
bt_init s = if s.bt_initialized then s else record {
  bt_initialized = true;
  controller_map = identity_from logical_buttons 0;
  profiles = [];
  paired_devices = [];
}

pub new_device : List ℕ → Device
new_device addr = record { addr = take (addr_str_max - 1) addr; paired = true; connected = true }

pub bt_pair : Option (List ℕ) → Bluetooth → Bool × Bluetooth
unfolding new_device
bt_pair none s = (false, s)
bt_pair (some addr) s =
    if not s.bt_initialized || leb device_max (length s.paired_devices)
    then (false, s)
    else (true, record s { paired_devices = s.paired_devices ++ (new_device addr ∷ []) })

-- The list without the first device of that address, if there is one.
pub remove_device : List ℕ → List Device → Option (List Device)
remove_device addr [] = none
remove_device addr (d ∷ ds) =
    let rest = Option.map (λ r. d ∷ r) (remove_device addr ds) in
    if str_eq d.addr addr then some ds else rest

pub bt_unpair : Option (List ℕ) → Bluetooth → Bool × Bluetooth
unfolding remove_device
bt_unpair none s = (false, s)
bt_unpair (some addr) s =
    if s.bt_initialized
    then (elim (remove_device addr s.paired_devices) [
      | none ↦ (false, s)
      | some ds ↦ (true, record s { paired_devices = ds })
    ])
    else (false, s)

-- The devices that `out` gets, which is not null, and the number of all paired ones.
pub bt_list : ℕ → Bluetooth → Option (List Device × ℕ)
bt_list max_count s =
    if not s.bt_initialized || max_count == 0
    then none
    else some (take max_count s.paired_devices, length s.paired_devices)

-- A negative button is refused like one that is too large.
pub controller_map_set : ℕ → ℕ → Bluetooth → Bool × Bluetooth
controller_map_set logical_button physical_source s =
    if not s.bt_initialized || leb logical_buttons logical_button
    then (false, s)
    else (true, record s { controller_map = set s.controller_map logical_button physical_source })

pub bt_controller_profile_create : Option (List ℕ) → Bluetooth → Bool × Bluetooth
bt_controller_profile_create none s = (false, s)
bt_controller_profile_create (some name) s =
    let profile : MapProfile = record {
      name = take (profile_name_max - 1) name;
      map = s.controller_map;
    } in
    if not s.bt_initialized || leb profile_slots (length s.profiles)
    then (false, s)
    else (true, record s { profiles = s.profiles ++ (profile ∷ []) })

pub find_map : List ℕ → List MapProfile → Option (List ℕ)
find_map name [] = none
find_map name (p ∷ ps) =
    let rest = find_map name ps in if str_eq p.name name then some p.map else rest

pub bt_controller_profile_load : Option (List ℕ) → Bluetooth → Bool × Bluetooth
unfolding find_map
bt_controller_profile_load none s = (false, s)
bt_controller_profile_load (some name) s =
    if s.bt_initialized
    then (elim (find_map name s.profiles) [
      | none ↦ (false, s)
      | some m ↦ (true, record s { controller_map = m })
    ])
    else (false, s)
