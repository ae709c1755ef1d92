-- ===== src/Settings.antt =====
-- lxmax/lx.service.cpp: the service object, its settings and its preferences. Its threads and its
-- clock are not modelled.
pub mod Dictionary
pub mod Interface
pub mod Loading
pub mod Addresses
pub mod Steps
pub mod Covered
pub mod Saving
pub mod Writes
pub mod Stored
pub mod Kept
pub mod Reordered
pub mod Restored
pub mod Values
pub mod Frame
pub mod Startup
use lxmax.Common.{
  ℕ, suc, ◌==◌, ◌++◌, if◌then◌else◌, Bool, true, false, List, [], ◌∷◌, map, take, drop, replicate,
  Option, none, some, ℤ, pos, ◌≡◌,
}
use lxmax.Max.{
  System, MaxErr, err_none, err_generic, Symbol, sym_eq, Atom, a_long, a_float, a_sym, IpAddress,
  Hashtab,
}
use lxmax.Symbols.{
  interface_ip_adapter_all, universe_config_label, universe_config_type, universe_config_enable,
  universe_config_protocol, universe_config_protocol_mode, universe_config_protocol_interface,
  universe_config_internal_universe, universe_config_protocol_universe, universe_config_priority,
  universe_config_unicast_addresses, global_config_global_artnet_interface,
  global_config_global_artnet_unicast_addresses, global_config_artnet_sync_packets_enable,
  global_config_global_sacn_interface, global_config_global_sacn_unicast_addresses,
  global_config_sacn_sync_packets_enable, global_config_sacn_sync_address,
  global_config_max_framerate, global_config_allow_non_dmx_framerate, global_config_force_framerate,
  global_config_output_empty_universes, lxmax_version_major, lxmax_version_minor,
  lxmax_version_bugfix,
}
use lxmax.Net.Adapter.{NetworkAdapter, network_adapter_find, network_adapter_to_sym}
use lxmax.Universe.Kinds.{universe_type_to_sym, universe_protocol_to_sym}
use lxmax.Universe.Config.{
  UniverseConfig, Interfaces, universe_config_new, unicast_addresses_max, ip_zero,
}
use lxmax.Universe.Attributes.{store_addresses}
use lxmax.Universe.Getters.{address_atom}
use lxmax.Service.{Tables, Service, universes_add, universes_clear}

-- An entry of a dictionary, where a symbol may be null, and the dictionary of the preferences: its own entries, and those of the
-- universes.
pub data Entry : Type 0 where
  append_long : Symbol → ℤ → Entry
  append_float : Symbol → ℕ → Entry
  append_sym : Symbol → Option Symbol → Entry
  append_atoms : Symbol → List Atom → Entry

pub record Preferences : Type 0 where
  pub entries : List Entry
  pub universes : List (List Entry)

-- `t_lx_service` with its settings; the adapters are in `service.interfaces`. `save_pending` is whether
-- `qelem_save` is set, and `file` what was written last. A float is its bit pattern.
pub record ServiceObject : Type 0 where
  pub service : Service
  pub is_initial_load_complete : Bool
  pub save_pending : Bool
  pub file : Option Preferences
  pub global_artnet_interface : Symbol
  pub global_artnet_unicast_addresses : List IpAddress
  pub global_artnet_unicast_addresses_count : ℕ
  pub artnet_sync_packets_enable : ℤ
  pub global_sacn_interface : Symbol
  pub global_sacn_unicast_addresses : List IpAddress
  pub global_sacn_unicast_addresses_count : ℕ
  pub sacn_sync_packets_enable : ℤ
  pub sacn_sync_address : ℤ
  pub max_framerate : ℕ
  pub allow_nondmx_framerate : ℤ
  pub force_framerate : ℤ
  pub output_empty_universes : ℤ

module _ (sys : System) where
  -- The search of `lx_service_find_global_artnet_interface` and of that for sACN: the new interface
  -- and adapter.
  unfoldable pub find_global : Hashtab NetworkAdapter → Symbol → Symbol × Option NetworkAdapter
  find_global adapters s =
      if sym_eq s interface_ip_adapter_all
      then (s, none)
      else elim ((network_adapter_find sys.inet adapters s none).1) [
        | some a ↦ (network_adapter_to_sym sys.inet a, some a)
        | none ↦ (interface_ip_adapter_all, none)
      ]

  -- `lx_service_find_global_artnet_interface`
  unfoldable pub find_global_artnet_interface : ServiceObject → ServiceObject
  find_global_artnet_interface x =
      let found = find_global x.service.interfaces.network_adapters x.global_artnet_interface in
      record x {
        global_artnet_interface = found.0;
        service = record x.service {
          interfaces = record x.service.interfaces { global_artnet_adapter = found.1 };
        };
      }

  -- `lx_service_find_global_sacn_interface`
  unfoldable pub find_global_sacn_interface : ServiceObject → ServiceObject
  find_global_sacn_interface x =
      let found = find_global x.service.interfaces.network_adapters x.global_sacn_interface in
      record x {
        global_sacn_interface = found.0;
        service = record x.service {
          interfaces = record x.service.interfaces { global_sacn_adapter = found.1 };
        };
      }

  -- `lx_service_global_artnet_interface_set` and `lx_service_global_sacn_interface_set`, on the first
  -- atom.
  unfoldable pub global_artnet_interface_set : ServiceObject → Atom → ServiceObject
  global_artnet_interface_set x (a_sym s) =
      find_global_artnet_interface (record x { global_artnet_interface = s })
  global_artnet_interface_set x _ = x

  unfoldable pub global_sacn_interface_set : ServiceObject → Atom → ServiceObject
  global_sacn_interface_set x (a_sym s) =
      find_global_sacn_interface (record x { global_sacn_interface = s })
  global_sacn_interface_set x _ = x

  -- `lx_service_global_artnet_unicast_addresses_get` and `..._set`. The loop is that of the
  -- configurations.
  unfoldable pub global_artnet_unicast_addresses_get : ServiceObject → List Atom
  global_artnet_unicast_addresses_get x =
      map (address_atom sys)
        (take x.global_artnet_unicast_addresses_count x.global_artnet_unicast_addresses)

  unfoldable pub global_artnet_unicast_addresses_set : ServiceObject → List Atom → ServiceObject
  global_artnet_unicast_addresses_set x argv =
      let stored =
        store_addresses sys (take unicast_addresses_max argv)
          (x.global_artnet_unicast_addresses, 0) in
      record x {
        global_artnet_unicast_addresses = stored.0;
        global_artnet_unicast_addresses_count =
            if stored.1 == 0 then x.global_artnet_unicast_addresses_count else stored.1;
      }

  -- `lx_service_global_sacn_unicast_addresses_get` and `..._set`
  unfoldable pub global_sacn_unicast_addresses_get : ServiceObject → List Atom
  global_sacn_unicast_addresses_get x =
      map (address_atom sys)
        (take x.global_sacn_unicast_addresses_count x.global_sacn_unicast_addresses)

  unfoldable pub global_sacn_unicast_addresses_set : ServiceObject → List Atom → ServiceObject
  global_sacn_unicast_addresses_set x argv =
      let stored =
        store_addresses sys (take unicast_addresses_max argv)
          (x.global_sacn_unicast_addresses, 0) in
      record x {
        global_sacn_unicast_addresses = stored.0;
        global_sacn_unicast_addresses_count =
            if stored.1 == 0 then x.global_sacn_unicast_addresses_count else stored.1;
      }

-- Who sends a notification, and which.
pub data Sender : Type 0 where
  from_service from_universe_config from_other : Sender

pub data Notice : Type 0 where
  universes_updated attr_modified other_notice : Notice

-- `qelem_set`, once the preferences have been read.
unfoldable pub request_save : ServiceObject → ServiceObject
request_save x = if x.is_initial_load_complete then record x { save_pending = true } else x

-- `lx_service_notify`
unfoldable pub notify : Sender → Notice → ServiceObject → ServiceObject
notify from_service universes_updated x = request_save x
notify from_service attr_modified x = request_save x
notify from_service other_notice x = x
notify from_universe_config attr_modified x = request_save x
notify from_universe_config _ x = x
notify from_other _ x = x

-- `memset(addresses, 0, LX_UNICAST_ADDRESSES_MAX)`: 32 bytes are the first eight addresses.
unfoldable pub cleared_addresses : List IpAddress → List IpAddress
cleared_addresses addresses = replicate 8 ip_zero ++ drop 8 addresses

module _ (tables : Tables) where
  -- `lx_service_preferences_clear`; the frame rate is the double 44.
  unfoldable pub preferences_clear : ServiceObject → ServiceObject
  preferences_clear x =
      let service = universes_clear tables x.service in
      record x {
        global_artnet_interface = interface_ip_adapter_all;
        global_artnet_unicast_addresses = cleared_addresses x.global_artnet_unicast_addresses;
        global_artnet_unicast_addresses_count = 0;
        artnet_sync_packets_enable = pos 1;
        global_sacn_interface = interface_ip_adapter_all;
        global_sacn_unicast_addresses = cleared_addresses x.global_sacn_unicast_addresses;
        global_sacn_unicast_addresses_count = 0;
        sacn_sync_packets_enable = pos 1;
        sacn_sync_address = pos 1;
        max_framerate = 0x4046000000000000;
        allow_nondmx_framerate = pos 0;
        force_framerate = pos 0;
        output_empty_universes = pos 0;
        service =
            universes_add tables (record service { names_used = suc service.names_used })
              (universe_config_new (tables.unique service.names_used));
      }
