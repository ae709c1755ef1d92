-- ===== src/Enumerate/Registry/Ports.antt =====
-- lx_serial_macos.cpp: the table of serial ports.
use lxmax.Common.{
  ℕ, ◌+◌, ◌-◌, ◌^◌, ◌/◌, ◌%◌, ◌≡◌, ◌↔◌, ◌==◌, refl, ltb, if◌then◌else◌, Bool, Bool-cases, inl, inr,
  not, ◌&&◌, List, [], ◌∷◌, ◌++◌, length, Option, none, some,
}
use lxmax.Max.{Text, Symbol, codes, sym_eq, Hashtab}
use lxmax.Symbols.{not_applicable}
use lxmax.Text.{is_cons}
use lxmax.Serial.{SerialPort}
use lxmax.Enumerate.{Filling, NeverFull, stored, lookup-stored}
use lxmax.Enumerate.Filled.{for_each, IsLast, Stores, for_each_iff}
use lxmax.Enumerate.Registry.{
  Registry, rtrim, get_parent_iousb_device, get_device_path, get_string_property, get_int_property,
}

hex_digit : ℕ → ℕ
hex_digit n = if ltb n 10 then b'0' + n else b'a' + (n - 10)

-- `%04x` of a `uint16_t`
hex4 : ℕ → Text
unfolding hex_digit
hex4 n =
    hex_digit (n / 2 ^ 12 % 16)
    ∷ hex_digit (n / 2 ^ 8 % 16)
    ∷ hex_digit (n / 2 ^ 4 % 16)
    ∷ hex_digit (n % 16)
    ∷ []

-- `USB VID:PID=%04x:%04x SNR=%s`
id_text : ℕ → ℕ → Text → Text
unfolding hex4
id_text vendor_id product_id serial =
    codes "USB VID:PID="
    ++ (hex4 vendor_id ++ (codes ":" ++ (hex4 product_id ++ (codes " SNR=" ++ serial))))

-- The hardware id, where both numbers are there and the text fits into the buffer.
unfoldable pub hardware_id : ℕ → ℕ → Text → Symbol
unfolding id_text
hardware_id vendor_id product_id serial_number =
    let text =
      id_text vendor_id product_id
        (if is_cons serial_number then serial_number else codes "None") in
    if not (vendor_id == 0) && not (product_id == 0) && ltb (length text) 128
    then text
    else not_applicable

-- The description, from the names of the vendor and the product.
unfoldable pub port_description : Text → Text → Symbol
port_description vendor_name device_name =
    let description = rtrim (vendor_name ++ (codes " " ++ device_name)) in
    if is_cons description then description else not_applicable

module _ (reg : Registry) where
  -- The `t_lx_serial_port` of an entry with a path, and its USB device.
  unfoldable pub port_info : Text → ℕ → SerialPort
  unfolding hardware_id port_description
  port_info device_path parent =
      let device_name = rtrim (get_string_property reg parent (codes "USB Product Name")) in
      let vendor_name = rtrim (get_string_property reg parent (codes "USB Vendor Name")) in
      let serial_number = rtrim (get_string_property reg parent (codes "USB Serial Number")) in
      record {
        port = device_path;
        description = port_description vendor_name device_name;
        hardware_id =
            hardware_id (get_int_property reg parent (codes "idVendor"))
              (get_int_property reg parent (codes "idProduct")) serial_number;
      }

  -- An entry has a path, and it is `k`.
  abbrev pub has_path : ℕ → Symbol → Bool
  has_path port k = is_cons (get_device_path reg port) && sym_eq (get_device_path reg port) k

  module _ (filling : Filling SerialPort) where
    -- One round of the loop; an entry without a path is passed over.
    unfoldable pub add_port : ℕ → Hashtab SerialPort → Hashtab SerialPort
    unfolding port_info
    add_port port t =
        let device_path = get_device_path reg port in
        let parent = get_parent_iousb_device reg port in
        if is_cons device_path
        then stored filling t device_path (port_info device_path parent)
        else t

    -- `lx_serial_port_enumerate` in lx_serial_macos.cpp, on what `IOIteratorNext` gives; `none` where
    -- the registry cannot be searched.
    unfoldable pub enumerate_ports : Option (List ℕ) → Hashtab SerialPort
    unfolding add_port
    enumerate_ports none = filling.hashtab_new
    enumerate_ports (some ports) = for_each add_port ports filling.hashtab_new

    module _ (total : NeverFull filling) where
      add_port-Stores :
          Stores has_path
            (λ port. port_info (get_device_path reg port) (get_parent_iousb_device reg port))
            add_port
      unfolding add_port
      add_port-Stores port t k =
          let path = get_device_path reg port in
          let info = port_info path (get_parent_iousb_device reg port) in
          elim (Bool-cases (is_cons path)) [
            | inl full ↦ rw (full, add_port) (lookup-stored filling t path info total k)
            | inr empty ↦ rw (empty, add_port) refl
          ]

      -- If no store fails, a port is found on macOS under a key exactly when the key is the path of
      -- an entry and not empty, and the port is made from the last such entry and its USB device.
      pub enumerate_ports_iff :
          (ports : List ℕ) (k : Symbol) (p : SerialPort)
          → ((enumerate_ports (some ports)).lookup k ≡ some p)
            ↔ (port : ℕ) × IsLast (λ y. has_path y k) ports port
              × (port_info (get_device_path reg port) (get_parent_iousb_device reg port) ≡ p)
      unfolding enumerate_ports
      enumerate_ports_iff ports k p =
          for_each_iff has_path
            (λ port. port_info (get_device_path reg port) (get_parent_iousb_device reg port))
            add_port ports filling.hashtab_new k p add_port-Stores (filling.hashtab_new_lem k)
