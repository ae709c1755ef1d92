-- ===== src/Universe/Config.antt =====
-- lx_universe_config.c: a configuration, its defaults, and the search for its interface.
pub mod Frame
use lxmax.Common.{
  ℕ, zero, suc, if◌then◌else◌, ◌||◌, List, [], ◌∷◌, replicate, Option, none, some, ℤ, pos,
}
use lxmax.Max.{System, Symbol, codes, sym_eq, MaxErr, err_none, err_generic, IpAddress, Hashtab}
use lxmax.Symbols.{
  sym_nothing, artnet_mode_broadcast, interface_none, interface_ip_adapter_global,
  interface_ip_adapter_all,
}
use lxmax.Net.Adapter.{NetworkAdapter, network_adapter_find, network_adapter_to_sym}
use lxmax.Serial.{SerialPort, serial_port_find, serial_port_to_sym}
use lxmax.Universe.Kinds.{
  UniverseType, type_none, input, output, Protocol, protocol_none, artnet, sacn, enttec_dmxusbpro,
  enttec_opendmxusb,
}

-- What a configuration reads of its `service`.
pub record Interfaces : Type 0 where
  pub network_adapters : Hashtab NetworkAdapter
  pub serial_ports : Hashtab SerialPort
  pub global_artnet_adapter : Option NetworkAdapter
  pub global_sacn_adapter : Option NetworkAdapter

-- `t_lx_universe_config`. The service is an argument of the operations that read it.
-- `unicast_addresses` is the whole array, of which the first `unicast_addresses_count` are in use.
pub record UniverseConfig : Type 0 where
  pub name : Symbol
  pub adapter : Option NetworkAdapter
  pub serial_port : Option SerialPort
  pub label : Symbol
  pub type : UniverseType
  pub enable : ℤ
  pub protocol : Protocol
  pub protocol_mode : Symbol
  pub protocol_interface : Symbol
  pub internal_universe : ℤ
  pub protocol_universe : ℤ
  pub priority : ℤ
  pub unicast_addresses : List IpAddress
  pub unicast_addresses_count : ℕ
  pub status : Symbol

-- `LX_UNICAST_ADDRESSES_MAX`
abbrev pub unicast_addresses_max : ℕ
unicast_addresses_max = 32

abbrev pub ip_zero : IpAddress
ip_zero = record { a = 0; b = 0; c = 0; d = 0 }

-- `lx_universe_config_new` with no dictionary. `name` is what `symbol_unique` returns. The array is
-- taken to be all zeros: `object_alloc` clears the object.
unfoldable pub universe_config_new : Symbol → UniverseConfig
universe_config_new name = record {
  name = name;
  adapter = none;
  serial_port = none;
  label = codes "Universe 001";
  type = output;
  enable = pos 1;
  protocol = artnet;
  protocol_mode = artnet_mode_broadcast;
  protocol_interface = interface_ip_adapter_global;
  internal_universe = pos 1;
  protocol_universe = pos 1;
  priority = pos 100;
  unicast_addresses = replicate unicast_addresses_max ip_zero;
  unicast_addresses_count = 0;
  status = sym_nothing;
}

module _ (sys : System) (service : Interfaces) where
  -- The inner `switch` of `lx_universe_config_find_interface`.
  unfoldable pub global_adapter : Protocol → Option NetworkAdapter
  global_adapter artnet = service.global_artnet_adapter
  global_adapter sacn = service.global_sacn_adapter
  global_adapter _ = none

  -- After `lx_network_adapter_find`, which starts with no adapter.
  unfoldable pub found_adapter : UniverseConfig → MaxErr × Option NetworkAdapter → UniverseConfig
  unfolding global_adapter
  found_adapter x (err_none, some a) = record x {
    serial_port = none;
    adapter = some a;
    protocol_interface = network_adapter_to_sym sys.inet a;
  }
  found_adapter x (err_none, none) = record x {
    serial_port = none;
    adapter = none;
    protocol_interface = interface_ip_adapter_all;
  }
  found_adapter x (err_generic, a) = record x {
    serial_port = none;
    adapter = global_adapter x.protocol;
    protocol_interface = interface_ip_adapter_global;
  }

  -- The branch of Art-Net and sACN.
  unfoldable pub find_ip_interface : UniverseConfig → UniverseConfig
  unfolding found_adapter
  find_ip_interface x =
      if sym_eq x.protocol_interface interface_ip_adapter_all
      then record x { adapter = none; serial_port = none }
      else if sym_eq x.protocol_interface interface_ip_adapter_global
          || sym_eq x.protocol_interface interface_none
      then record x {
        serial_port = none;
        protocol_interface = interface_ip_adapter_global;
        adapter = global_adapter x.protocol;
      }
      else found_adapter x
          (network_adapter_find sys.inet service.network_adapters x.protocol_interface none)

  -- The branch of the serial protocols: `serial_port` keeps its value where no port is found.
  unfoldable pub find_serial_interface : UniverseConfig → UniverseConfig
  find_serial_interface x =
      let port = (serial_port_find service.serial_ports x.protocol_interface x.serial_port).1 in
      record x {
        adapter = none;
        serial_port = port;
        protocol_interface = elim port [
          | some p ↦ serial_port_to_sym sys.platform p
          | none ↦ interface_none
        ];
      }

  unfoldable pub dispatch_interface : Protocol → UniverseConfig → UniverseConfig
  unfolding find_ip_interface find_serial_interface
  dispatch_interface artnet x = find_ip_interface x
  dispatch_interface sacn x = find_ip_interface x
  dispatch_interface enttec_dmxusbpro x = find_serial_interface x
  dispatch_interface enttec_opendmxusb x = find_serial_interface x
  dispatch_interface protocol_none x = x

  -- `lx_universe_config_find_interface`
  unfoldable pub universe_config_find_interface : UniverseConfig → UniverseConfig
  unfolding dispatch_interface
  universe_config_find_interface x = dispatch_interface x.protocol x

  -- `lx_universe_config_clone`; `none` is a null `source`. The interface pointers are not copied.
  unfoldable pub universe_config_clone : Symbol → Option UniverseConfig → UniverseConfig
  unfolding universe_config_new universe_config_find_interface
  universe_config_clone name source =
      let x = universe_config_new name in
      universe_config_find_interface (elim source [
        | none ↦ x
        | some s ↦ record x {
          label = s.label;
          type = s.type;
          enable = s.enable;
          protocol = s.protocol;
          protocol_mode = s.protocol_mode;
          protocol_interface = s.protocol_interface;
          internal_universe = s.internal_universe;
          protocol_universe = s.protocol_universe;
          priority = s.priority;
          unicast_addresses = s.unicast_addresses;
          unicast_addresses_count = s.unicast_addresses_count;
        }
      ])
