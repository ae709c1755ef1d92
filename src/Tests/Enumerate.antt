-- ===== src/Tests/Enumerate.antt =====
-- Runs and instances for the enumerations of adapters and ports.
use mathlib.Core.WellFounded.{Acc}
use mathlib.Core.Option.{some-injective}
use lxmax.Common.{
  ℕ, ◌≡◌, ◌↔◌, ◌⊎◌, ◌++◌, refl, sym, ap, ◌==◌, ltb, if◌then◌else◌, true, false, List, [], ◌∷◌,
  Option, none, some, Option-cases, ℤ, pos, arith,
}
use lxmax.Max.{Text, Symbol, codes, sym_eq, IpAddress, Hashtab}
use lxmax.Net.Adapter.{NetworkAdapter}
use lxmax.Serial.{SerialPort}
use lxmax.Enumerate.{Filling, NeverFull}
use lxmax.Enumerate.Filled.{IsLast}
use lxmax.Enumerate.Adapters.{
  inet, other_family, IfAddrs, IpAdapterAddresses, AdaptersResult, error_buffer_overflow, no_error,
  enumerate_macos, enumerate_win,
}
use lxmax.Enumerate.Adapters.Grouped.{adapter_of, enumerate_macos-adapter_of}
use lxmax.Enumerate.Adapters.Listed.{Succeeds, listed, has_name, enumerate_win_iff}
use lxmax.Enumerate.Registry.{
  Registry, cf_string, rtrim, is_usb_device, get_device_path, get_parent_iousb_device,
}
use lxmax.Enumerate.Registry.Parents.{Found, get_parent_iousb_device_lem}
use lxmax.Enumerate.Registry.Trim.{IsSpaces, NoTrailing, rtrim_lem}
use lxmax.Enumerate.Registry.Ports.{has_path, port_info, enumerate_ports, enumerate_ports_iff}
use lxmax.Enumerate.Devices.{
  Device, is_named, port_entry, name_of, enumerate_devices, enumerate_devices_iff,
}

module _ (V : Type 0) where
  abbrev put : Hashtab V → Symbol → V → Hashtab V
  put t key v = record {
    getkeys = t.getkeys;
    lookup = λ k. if sym_eq key k then some v else t.lookup k;
  }

  put-lookup :
      (t u : Hashtab V) (key : Symbol) (v : V)
      → some (put t key v) ≡ some u
      → (k : Symbol) → u.lookup k ≡ (if sym_eq key k then some v else t.lookup k)
  put-lookup t u key v e k =
      ap (λ (h : Hashtab V). h.lookup k) (sym (some-injective (put t key v) u e))

  abbrev filling : Filling V
  filling = record {
    hashtab_new = record { getkeys = some []; lookup = λ (k : Symbol). none };
    hashtab_new_lem = λ k. refl;
    hashtab_store = λ t key v. some (put t key v);
    hashtab_store_lem = put-lookup;
  }

  filling-NeverFull : NeverFull filling
  filling-NeverFull t key v = (put t key v, refl)

abbrev home : IpAddress
home = record { a = 127; b = 0; c = 0; d = 1 }

abbrev lan : IpAddress
lan = record { a = 10; b = 0; c = 0; d = 4 }

abbrev byte_mask : IpAddress
byte_mask = record { a = 255; b = 0; c = 0; d = 0 }

abbrev if_index : Text → ℤ
if_index s = pos 3

-- Two addresses of one name, an entry of another family and one without an address.
abbrev entries : List IfAddrs
entries =
    record { ifa_name = codes "en0"; ifa_addr = some (inet lan); ifa_netmask = some byte_mask }
    ∷ record { ifa_name = codes "en0"; ifa_addr = some other_family; ifa_netmask = none }
    ∷ record { ifa_name = codes "lo0"; ifa_addr = none; ifa_netmask = none }
    ∷ record { ifa_name = codes "en0"; ifa_addr = some (inet home); ifa_netmask = some byte_mask }
    ∷ []

enumerate_macos_example :
    (u : Hashtab NetworkAdapter) × (enumerate_macos (filling NetworkAdapter) if_index (some entries)
      ≡ some u)
    × ((k : Symbol) → u.lookup k ≡ adapter_of if_index k entries)
enumerate_macos_example =
    enumerate_macos-adapter_of if_index (filling NetworkAdapter) (filling-NeverFull NetworkAdapter)
      entries (tt, (tt, (tt, (tt, tt))))

abbrev ethernet : IpAdapterAddresses
ethernet = record {
  friendly_name = codes "Ethernet";
  if_index = pos 7;
  unicast_addresses = (inet lan, 8) ∷ (other_family, 64) ∷ [];
}

-- The first buffer is too short.
abbrev get_adapters : ℕ → AdaptersResult × ℕ
get_adapters n = if ltb n 100 then (error_buffer_overflow, 200) else (no_error (ethernet ∷ []), n)

enumerate_win_example :
    let mask_of_length = λ (n : ℕ). byte_mask in
    ((enumerate_win mask_of_length (filling NetworkAdapter) get_adapters 50).lookup
        (codes "Ethernet")
      ≡ some (listed mask_of_length ethernet))
    ↔ (xs : List IpAdapterAddresses) × Succeeds get_adapters 2 50 xs
      × (x : IpAdapterAddresses) × IsLast (λ z. has_name mask_of_length z (codes "Ethernet")) xs x
      × (listed mask_of_length x ≡ listed mask_of_length ethernet)
enumerate_win_example =
    enumerate_win_iff (λ (n : ℕ). byte_mask) (filling NetworkAdapter)
      (filling-NeverFull NetworkAdapter) get_adapters 50 (codes "Ethernet")
      (listed (λ (n : ℕ). byte_mask) ethernet)

-- A port 1 below a driver 2 below the USB device 3.
abbrev parent : ℕ → Option ℕ
parent n = if n == 1 then some 2 else if n == 2 then some 3 else none

parent_tree : (d : ℕ) → Acc (λ (p : ℕ) (e : ℕ). parent e ≡ some p) d
parent_tree d =
    Acc.intro d (λ p e. Acc.intro p (λ q f. Acc.intro q (λ r g. absurd (ground (arith, e, f, g)))))

abbrev registry : Registry
registry = record {
  object_get_class =
      λ (d : ℕ). if d == 3 then some (codes "IOUSBDevice") else some (codes "IOEntry");
  get_parent_entry = parent;
  create_property = λ (d : ℕ) (name : Text). some (cf_string (some (codes "/dev/cu.usb ")));
  callout_device_key = codes "path";
  is_tree = parent_tree;
}

parents_example :
    ((is_usb_device registry 1 ≡ true) × (get_parent_iousb_device registry 1 ≡ 0))
    ⊎ ((is_usb_device registry 1 ≡ false) × Found registry 1 (get_parent_iousb_device registry 1))
parents_example = get_parent_iousb_device_lem registry 1

parent_found : get_parent_iousb_device registry 1 ≡ 3
unfolding get_parent_iousb_device parent_tree sym_eq Option-cases
parent_found = refl

rtrim_example :
    NoTrailing (rtrim (codes " a b \n"))
    × (spaces : Text) × IsSpaces spaces
    × (codes " a b \n" ≡ rtrim (codes " a b \n") ++ spaces)
rtrim_example = rtrim_lem (codes " a b \n")

abbrev usb_port : SerialPort
usb_port = port_info registry (get_device_path registry 1) (get_parent_iousb_device registry 1)

enumerate_ports_example :
    ((enumerate_ports registry (filling SerialPort) (some (1 ∷ 2 ∷ []))).lookup
        (codes "/dev/cu.usb ")
      ≡ some usb_port)
    ↔ (port : ℕ) × IsLast (λ y. has_path registry y (codes "/dev/cu.usb ")) (1 ∷ 2 ∷ []) port
      × (port_info registry (get_device_path registry port) (get_parent_iousb_device registry port)
          ≡ usb_port)
enumerate_ports_example =
    enumerate_ports_iff registry (filling SerialPort) (filling-NeverFull SerialPort) (1 ∷ 2 ∷ [])
      (codes "/dev/cu.usb ") usb_port

abbrev com4 : Device
com4 = record {
  port_name = some (codes "COM4\0");
  friendly_name = some (codes "USB Serial Port (COM4)\0");
  hardware_id = none;
}

enumerate_devices_example :
    ((enumerate_devices (filling SerialPort) (com4 ∷ [])).lookup (codes "COM4")
      ≡ some (port_entry com4 (codes "COM4")))
    ↔ (x : Device) × IsLast (λ y. is_named y (codes "COM4")) (com4 ∷ []) x
      × (port_entry x (name_of x.port_name) ≡ port_entry com4 (codes "COM4"))
enumerate_devices_example =
    enumerate_devices_iff (filling SerialPort) (filling-NeverFull SerialPort) (com4 ∷ [])
      (codes "COM4") (port_entry com4 (codes "COM4"))
