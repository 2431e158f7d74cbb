-- ===== src/Bluetooth/Pairing.antt =====
-- Pairing and unpairing of devices in bluetooth.c.
use asm_os.Prelude.{
  ℕ, ◌+◌, ◌<◌, ◌≡◌, refl, ap, ◌∙◌, true, false, none, some, List, [], ◌∷◌, ◌++◌, arith, leb, length,
  take, length-append, take_all,
}
use asm_os.Prelude.CString.{str_eq, str_eq_refl}
use asm_os.Bluetooth.{
  addr_str_max, device_max, Device, Bluetooth, new_device, bt_pair, remove_device, bt_unpair,
  bt_list,
}

remove_device-append :
    (addr : List ℕ) (ds : List Device) (d : Device)
    → remove_device addr ds ≡ none
    → str_eq d.addr addr ≡ true
    → remove_device addr (ds ++ (d ∷ [])) ≡ some ds
unfolding remove_device
remove_device-append addr [] d h m = rw m refl
remove_device-append addr (x ∷ ds) d h m =
    let missing : remove_device addr ds ≡ none = ground arith in
    let other : str_eq x.addr addr ≡ false = ground arith in
    rw (other, remove_device-append addr ds d missing m) refl

paired_lem :
    (addr : List ℕ) (s : Bluetooth)
    → s.bt_initialized ≡ true
    → length s.paired_devices < device_max
    → length addr < addr_str_max
    → bt_pair (some addr) s ≡ (
      true,
      record s {
        paired_devices =
            s.paired_devices ++ (record { addr = addr; paired = true; connected = true } ∷ []);
      },
    )
unfolding bt_pair new_device
paired_lem addr s i f h =
    let place : leb device_max (length s.paired_devices) ≡ false = ground arith in
    rw (i, place, take_all 17 addr (omega arith)) refl

unpaired_lem :
    (addr : List ℕ) (s : Bluetooth) (ds : List Device)
    → s.bt_initialized ≡ true
    → remove_device addr s.paired_devices ≡ some ds
    → bt_unpair (some addr) s ≡ (true, record s { paired_devices = ds })
unfolding bt_unpair
unpaired_lem addr s ds i h = ground (arith, i, h)

listed_lem :
    (s : Bluetooth)
    → s.bt_initialized ≡ true
    → bt_list device_max s ≡ some (take device_max s.paired_devices, length s.paired_devices)
unfolding bt_list
listed_lem s i = rw i refl

-- Pairing a device and unpairing it again restores the list, for an address of at most 17 bytes
-- that was not paired before, with a place left; in between the device is the last of the list.
pub bt_unpair-pair :
    (addr : List ℕ) (s : Bluetooth)
    → s.bt_initialized ≡ true
    → length s.paired_devices < device_max
    → length addr < addr_str_max
    → remove_device addr s.paired_devices ≡ none
    → (bt_list device_max (bt_pair (some addr) s).1
        ≡ some (
          s.paired_devices ++ (record { addr = addr; paired = true; connected = true } ∷ []),
          length s.paired_devices + 1,
        ))
      × (bt_unpair (some addr) (bt_pair (some addr) s).1 ≡ (true, s))
bt_unpair-pair addr s i f h n =
    let d : Device = record { addr = addr; paired = true; connected = true } in
    let s' : Bluetooth = record s { paired_devices = s.paired_devices ++ (d ∷ []) } in
    let step = ap (λ r. r.1) (paired_lem addr s i f h) in
    let size : length (s.paired_devices ++ (d ∷ [])) ≡ length s.paired_devices + 1 =
      length-append s.paired_devices (d ∷ []) in
    let gone = remove_device-append addr s.paired_devices d n (str_eq_refl addr) in
    (
      ap (bt_list device_max) step
          ∙ listed_lem s' i
          ∙ rw (take_all device_max (s.paired_devices ++ (d ∷ [])) (omega arith), size) refl,
      ap (bt_unpair (some addr)) step ∙ unpaired_lem addr s' s.paired_devices i gone,
    )
