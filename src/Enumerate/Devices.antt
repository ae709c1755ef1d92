-- ===== src/Enumerate/Devices.antt =====
-- lx_serial_win.c: the table of serial ports, from the devices of the system.
use lxmax.Common.{
  ℕ, ◌-◌, ◌≡◌, ◌↔◌, ◌==◌, refl, leb, if◌then◌else◌, Bool, true, false, Bool-cases, inl, inr, not,
  ◌&&◌, ◌||◌, List, [], ◌∷◌, take, length, Option, none, some,
}
use lxmax.Max.{Text, Symbol, codes, sym_eq, Hashtab}
use lxmax.Text.{literal}
use lxmax.Serial.{SerialPort}
use lxmax.Enumerate.{Filling, NeverFull, stored, lookup-stored}
use lxmax.Enumerate.Filled.{for_each, IsLast, Stores, for_each_iff}

-- A device that `SetupDiEnumDeviceInfo` gives: the bytes that `RegQueryValueEx` and
-- `SetupDiGetDeviceRegistryProperty` write and count, or `none` where they fail.
pub record Device : Type 0 where
  pub port_name : Option (List ℕ)
  pub friendly_name : Option (List ℕ)
  pub hardware_id : Option (List ℕ)

-- A buffer up to its first zero byte.
unfoldable pub c_string : List ℕ → Text
c_string [] = []
c_string (c ∷ s) = let rest = c_string s in if c == 0 then [] else c ∷ rest

-- The bytes, after the last one is set to zero.
unfoldable pub terminated : List ℕ → Text
unfolding c_string
terminated bytes = c_string (take (length bytes - 1) bytes)

-- The name of a port: the buffer has 256 bytes.
unfoldable pub name_text : List ℕ → Text
unfolding terminated
name_text bytes = if leb 1 (length bytes) && leb (length bytes) 256 then terminated bytes else []

-- A friendly name or a hardware id.
unfoldable pub property_text : Option (List ℕ) → Text
unfolding terminated
property_text none = []
property_text (some bytes) = terminated bytes

is_some : Option Text → Bool
is_some none = false
is_some (some s) = true

-- `_tcsstr(s, part) != NULL`
unfoldable pub contains : Text → Text → Bool
unfolding is_some literal
contains part [] = is_some (literal part [])
contains part (c ∷ s) = is_some (literal part (c ∷ s)) || contains part s

abbrev lpt : Text
lpt = codes "LPT"

unfoldable pub port_entry : Device → Text → SerialPort
unfolding property_text
port_entry x name = record {
  port = name;
  description = property_text x.friendly_name;
  hardware_id = property_text x.hardware_id;
}

-- A device has a name, and it is `k`; parallel ports are passed over.
abbrev pub named : Option (List ℕ) → Symbol → Bool
named none k = false
named (some bytes) k = not (contains lpt (name_text bytes)) && sym_eq (name_text bytes) k

abbrev pub is_named : Device → Symbol → Bool
is_named x k = named x.port_name k

abbrev pub name_of : Option (List ℕ) → Text
name_of none = []
name_of (some bytes) = name_text bytes

module _ (filling : Filling SerialPort) where
  -- The round of a device whose name could be read.
  unfoldable pub add_named : Device → Option (List ℕ) → Hashtab SerialPort → Hashtab SerialPort
  unfolding contains port_entry
  add_named x none t = t
  add_named x (some bytes) t =
      let name = name_text bytes in
      if contains lpt name then t else stored filling t name (port_entry x name)

  unfoldable pub add_device : Device → Hashtab SerialPort → Hashtab SerialPort
  unfolding add_named
  add_device x t = add_named x x.port_name t

  -- `lx_serial_port_enumerate` in lx_serial_win.c
  unfoldable pub enumerate_devices : List Device → Hashtab SerialPort
  unfolding add_device
  enumerate_devices devices = for_each add_device devices filling.hashtab_new

  module _ (total : NeverFull filling) where
    lookup-add_named :
        (x : Device) (name : Option (List ℕ)) (t : Hashtab SerialPort) (k : Symbol)
        → (add_named x name t).lookup k
          ≡ (if named name k then some (port_entry x (name_of name)) else t.lookup k)
    unfolding add_named
    lookup-add_named x none t k = refl
    lookup-add_named x (some bytes) t k = elim (Bool-cases (contains lpt (name_text bytes))) [
      | inl parallel ↦ rw (parallel, add_named) refl
      | inr serial ↦
          rw (serial, add_named)
            (lookup-stored filling t (name_text bytes) (port_entry x (name_text bytes)) total k)
    ]

    add_device-Stores : Stores is_named (λ x. port_entry x (name_of x.port_name)) add_device
    unfolding add_device
    add_device-Stores x t k = lookup-add_named x x.port_name t k

    -- If no store fails, a port is found on Windows under a key exactly when the key is the name of a
    -- device, does not contain LPT, and the port is made from the last such device.
    pub enumerate_devices_iff :
        (devices : List Device) (k : Symbol) (p : SerialPort)
        → ((enumerate_devices devices).lookup k ≡ some p)
          ↔ (x : Device) × IsLast (λ y. is_named y k) devices x
            × (port_entry x (name_of x.port_name) ≡ p)
    unfolding enumerate_devices
    enumerate_devices_iff devices k p =
        for_each_iff is_named (λ x. port_entry x (name_of x.port_name)) add_device devices
          filling.hashtab_new k p add_device-Stores (filling.hashtab_new_lem k)
