-- ===== src/Universe/Laws/Interface.antt =====
-- lx_universe_config.c: the interface, the adapter and the port after a search.
use lxmax.Common.{
  ◌==◌, ◌≡◌, refl, ◌⊎◌, inl, inr, false, ◌||◌, Bool-cases, [], ◌∷◌, Option, none, some, All, arith,
}
use lxmax.Max.{
  System, win, Text, codes, sym_eq, sym_eq_iff, MaxErr, err_none, err_generic, a_sym, Hashtab,
}
use lxmax.Symbols.{interface_none, interface_ip_adapter_global, interface_ip_adapter_all}
use lxmax.Text.{literal}
use lxmax.Net.Adapter.{NetworkAdapter, network_adapter_to_sym, network_adapter_find}
use lxmax.Serial.{SerialPort, serial_port_to_sym, serial_port_find, port_matches}
use lxmax.Universe.Kinds.{
  Protocol, protocol_none, artnet, sacn, enttec_dmxusbpro, enttec_opendmxusb,
}
use lxmax.Universe.Config.{
  UniverseConfig, Interfaces, global_adapter, found_adapter, find_ip_interface,
  find_serial_interface, dispatch_interface, universe_config_find_interface,
}
use lxmax.Universe.Attributes.{protocol_interface_set}

module _ (sys : System) (service : Interfaces) where
  -- The three ways an Art-Net or sACN universe is bound: to all adapters, to the global adapter of
  -- its protocol, or to an adapter whose symbol is the interface. None has a serial port.
  pub record IpBound (x : UniverseConfig) : Type 0 where
    pub no_port : x.serial_port ≡ none
    pub bound :
        ((x.adapter ≡ none) × (x.protocol_interface ≡ interface_ip_adapter_all))
        ⊎ ((x.adapter ≡ global_adapter sys service x.protocol)
            × (x.protocol_interface ≡ interface_ip_adapter_global))
        ⊎ ((a : NetworkAdapter) × (x.adapter ≡ some a)
            × (x.protocol_interface ≡ network_adapter_to_sym sys.inet a))

  -- A serial universe is bound to no port, or to one whose symbol is the interface, and to no
  -- adapter.
  pub record SerialBound (x : UniverseConfig) : Type 0 where
    pub no_adapter : x.adapter ≡ none
    pub bound :
        ((x.serial_port ≡ none) × (x.protocol_interface ≡ interface_none))
        ⊎ ((p : SerialPort) × (x.serial_port ≡ some p)
            × (x.protocol_interface ≡ serial_port_to_sym sys.platform p))

  abbrev pub Bound : Protocol → UniverseConfig → Type 0
  Bound artnet x = IpBound x
  Bound sacn x = IpBound x
  Bound enttec_dmxusbpro x = SerialBound x
  Bound enttec_opendmxusb x = SerialBound x
  Bound protocol_none x = Unit {0}

  found_adapter-IpBound :
      (x : UniverseConfig) (r : MaxErr × Option NetworkAdapter)
      → IpBound (found_adapter sys service x r)
  unfolding found_adapter
  found_adapter-IpBound x (err_none, some a) = record {
    no_port = refl;
    bound = inr (inr (a, refl, refl));
  }
  found_adapter-IpBound x (err_none, none) = record { no_port = refl; bound = inl (refl, refl) }
  found_adapter-IpBound x (err_generic, a) = record {
    no_port = refl;
    bound = inr (inl (refl, refl));
  }

  find_ip_interface-IpBound : (x : UniverseConfig) → IpBound (find_ip_interface sys service x)
  unfolding find_ip_interface
  find_ip_interface-IpBound x =
      elim (Bool-cases (sym_eq x.protocol_interface interface_ip_adapter_all)) [
        | inl all ↦ rw all (record { no_port = refl; bound = inl (refl, (sym_eq_iff _ _).0 all) })
        | inr other ↦
            elim (Bool-cases (
              sym_eq x.protocol_interface interface_ip_adapter_global
              || sym_eq x.protocol_interface interface_none)) [
                | inl global ↦
                    rw (other, global) (record { no_port = refl; bound = inr (inl (refl, refl)) })
                | inr named ↦
                    rw (other, named)
                      (found_adapter-IpBound x (
                        network_adapter_find sys.inet service.network_adapters x.protocol_interface
                          none))
              ]
      ]

  port-SerialBound :
      (x : UniverseConfig) (port : Option SerialPort)
      → SerialBound (record x {
        adapter = none;
        serial_port = port;
        protocol_interface = elim port [
          | some p ↦ serial_port_to_sym sys.platform p
          | none ↦ interface_none
        ];
      })
  port-SerialBound x none = record { no_adapter = refl; bound = inl (refl, refl) }
  port-SerialBound x (some p) = record { no_adapter = refl; bound = inr (p, refl, refl) }

  dispatch_interface-Bound :
      (p : Protocol) (x : UniverseConfig) → Bound p (dispatch_interface sys service p x)
  unfolding dispatch_interface find_serial_interface
  dispatch_interface-Bound artnet x = find_ip_interface-IpBound x
  dispatch_interface-Bound sacn x = find_ip_interface-IpBound x
  dispatch_interface-Bound enttec_dmxusbpro x = port-SerialBound x _
  dispatch_interface-Bound enttec_opendmxusb x = port-SerialBound x _
  dispatch_interface-Bound protocol_none x = tt

  -- After the search for an interface its symbol, the adapter and the serial port agree, whatever
  -- they were before.
  pub universe_config_find_interface-Bound :
      (x : UniverseConfig) → Bound x.protocol (universe_config_find_interface sys service x)
  unfolding universe_config_find_interface
  universe_config_find_interface-Bound x = dispatch_interface-Bound x.protocol x

  -- A serial universe that has a port cannot be set to `[none]`: the port stays, and the interface
  -- becomes the symbol of that port again.
  pub serial_interface_not_cleared :
      (x : UniverseConfig) (p : SerialPort)
      → x.protocol ≡ enttec_dmxusbpro
      → x.serial_port ≡ some p
      → let y = protocol_interface_set sys service x (a_sym interface_none) in
        (y.serial_port ≡ some p) × (y.protocol_interface ≡ serial_port_to_sym sys.platform p)
  unfolding protocol_interface_set universe_config_find_interface dispatch_interface
      find_serial_interface serial_port_find port_matches literal
  serial_interface_not_cleared x p e h = rw (e, h) (refl, refl)

abbrev NoParen : Text → Type 0
NoParen = All (λ c. (c == b'(') ≡ false)

literal-NoParen : (s : Text) → NoParen s → literal (codes " (") s ≡ none
unfolding literal
literal-NoParen [] h = refl
literal-NoParen (c ∷ []) h = ground arith
literal-NoParen (c ∷ d ∷ s) h = ground arith

port_matches-NoParen : (s : Text) → NoParen s → port_matches s ≡ none
unfolding port_matches
port_matches-NoParen [] h = refl
port_matches-NoParen (c ∷ s) h =
    ground (arith, literal-NoParen (c ∷ s) h, port_matches-NoParen s h.1)

-- On Windows the menu shows the bare port name, and no port is found by a name without a
-- parenthesis, such as `COM3`.
pub serial_port_find_windows :
    (ports : Hashtab SerialPort) (p : SerialPort) (old : Option SerialPort)
    → NoParen p.port
    → serial_port_find ports (serial_port_to_sym win p) old ≡ (err_generic, old)
unfolding serial_port_find serial_port_to_sym
serial_port_find_windows ports p old h = rw (port_matches-NoParen p.port h, serial_port_find)
