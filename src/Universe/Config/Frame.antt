-- ===== src/Universe/Config/Frame.antt =====
-- lx_universe_config.c: the members that the search for an interface leaves alone.
use lxmax.Common.{◌≡◌, refl, Option, none, some, ◌||◌, Bool-cases, inl, inr}
use lxmax.Max.{System, MaxErr, err_none, err_generic, sym_eq}
use lxmax.Symbols.{interface_none, interface_ip_adapter_global, interface_ip_adapter_all}
use lxmax.Net.Adapter.{NetworkAdapter, network_adapter_find}
use lxmax.Universe.Kinds.{
  Protocol, protocol_none, artnet, sacn, enttec_dmxusbpro, enttec_opendmxusb,
}
use lxmax.Universe.Config.{
  UniverseConfig, Interfaces, found_adapter, find_ip_interface, find_serial_interface,
  dispatch_interface, universe_config_find_interface,
}

-- `y` is `x` but for its interface and the two pointers.
abbrev pub SameButInterface : UniverseConfig → UniverseConfig → Type 0
SameButInterface x y = y ≡ record x {
  adapter = y.adapter;
  serial_port = y.serial_port;
  protocol_interface = y.protocol_interface;
}

module _ (sys : System) (service : Interfaces) where
  found_adapter-Same :
      (x : UniverseConfig) (r : MaxErr × Option NetworkAdapter)
      → SameButInterface x (found_adapter sys service x r)
  unfolding found_adapter
  found_adapter-Same x (err_none, some a) = refl
  found_adapter-Same x (err_none, none) = refl
  found_adapter-Same x (err_generic, a) = refl

  find_ip_interface-Same :
      (x : UniverseConfig) → SameButInterface x (find_ip_interface sys service x)
  unfolding find_ip_interface
  find_ip_interface-Same x =
      elim (Bool-cases (sym_eq x.protocol_interface interface_ip_adapter_all)) [
        | inl all ↦ rw all refl
        | inr other ↦
            elim (Bool-cases (
              sym_eq x.protocol_interface interface_ip_adapter_global
              || sym_eq x.protocol_interface interface_none)) [
                | inl global ↦ rw (other, global) refl
                | inr named ↦
                    rw (other, named)
                      (found_adapter-Same x (
                        network_adapter_find sys.inet service.network_adapters x.protocol_interface
                          none))
              ]
      ]

  dispatch_interface-Same :
      (p : Protocol) (x : UniverseConfig) → SameButInterface x (dispatch_interface sys service p x)
  unfolding dispatch_interface find_serial_interface
  dispatch_interface-Same artnet x = find_ip_interface-Same x
  dispatch_interface-Same sacn x = find_ip_interface-Same x
  dispatch_interface-Same enttec_dmxusbpro x = refl
  dispatch_interface-Same enttec_opendmxusb x = refl
  dispatch_interface-Same protocol_none x = refl

  -- `lx_universe_config_find_interface` writes the interface symbol and the pointers to the adapter
  -- and the port only.
  pub universe_config_find_interface-Same :
      (x : UniverseConfig) → SameButInterface x (universe_config_find_interface sys service x)
  unfolding universe_config_find_interface
  universe_config_find_interface-Same x = dispatch_interface-Same x.protocol x
