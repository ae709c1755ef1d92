-- ===== src/Universe/Kinds.antt =====
-- The types and protocols of a universe: their symbols, and the lists that the menus show.
pub mod Laws
use lxmax.Common.{zero, suc, if◌then◌else◌, List, [], ◌∷◌, map, Option, none, some, ℤ, pos}
use lxmax.Max.{System, Platform, Symbol, sym_eq, Atom, a_sym, Max, Inet, Hashtab}
use lxmax.Symbols.{
  sym_nothing, type_input, type_output, protocol_artnet, protocol_sacn, protocol_enttec_dmxusbpro,
  protocol_enttec_opendmxusb, artnet_mode_input, artnet_mode_broadcast, artnet_mode_unicast,
  sacn_mode_multicast, sacn_mode_unicast, dmxusbpro_mode_input, dmxusbpro_mode_output,
  opendmxusb_mode_output,
}
use lxmax.Net.Adapter.{NetworkAdapter, network_adapter_get_menu_items}
use lxmax.Serial.{SerialPort, serial_port_get_menu_items}

-- `e_lx_universe_type`, without the sentinel `LX_UNIVERSE_TYPE_COUNT`, which no member ever holds.
pub data UniverseType : Type 0 where
  type_none input output : UniverseType

-- `e_lx_universe_protocol`, without the sentinel.
pub data Protocol : Type 0 where
  protocol_none artnet sacn enttec_dmxusbpro enttec_opendmxusb : Protocol

-- `(e_lx_universe_type)value` where `value` passed the range test of `lx_universe_type_set`.
unfoldable pub universe_type_of_long : ℤ → Option UniverseType
universe_type_of_long (pos (suc zero)) = some input
universe_type_of_long (pos (suc (suc zero))) = some output
universe_type_of_long _ = none

-- `(e_lx_universe_protocol)value` where `value` passed the range test of `lx_universe_protocol_set`.
unfoldable pub protocol_of_long : ℤ → Option Protocol
protocol_of_long (pos (suc zero)) = some artnet
protocol_of_long (pos (suc (suc zero))) = some sacn
protocol_of_long (pos (suc (suc (suc zero)))) = some enttec_dmxusbpro
protocol_of_long (pos (suc (suc (suc (suc zero))))) = some enttec_opendmxusb
protocol_of_long _ = none

-- The numbers of the enumerators.
unfoldable pub long_of_universe_type : UniverseType → ℤ
long_of_universe_type type_none = pos 0
long_of_universe_type input = pos 1
long_of_universe_type output = pos 2

unfoldable pub long_of_protocol : Protocol → ℤ
long_of_protocol protocol_none = pos 0
long_of_protocol artnet = pos 1
long_of_protocol sacn = pos 2
long_of_protocol enttec_dmxusbpro = pos 3
long_of_protocol enttec_opendmxusb = pos 4

-- `lx_universe_type_to_sym`; `none` is the null pointer.
unfoldable pub universe_type_to_sym : UniverseType → Option Symbol
universe_type_to_sym input = some type_input
universe_type_to_sym output = some type_output
universe_type_to_sym type_none = none

-- `lx_universe_type_from_sym`: the new `*type`, or `none` for `MAX_ERR_GENERIC`.
unfoldable pub universe_type_from_sym : Symbol → Option UniverseType
universe_type_from_sym s =
    if sym_eq s type_input then some input else if sym_eq s type_output then some output else none

-- `lx_universe_type_get_list`: the atoms, or `none` where `argc` and `argv` stay.
unfoldable pub universe_type_get_list : Protocol → Option (List Symbol)
universe_type_get_list artnet = some (type_output ∷ type_input ∷ [])
universe_type_get_list sacn = some (type_output ∷ type_input ∷ [])
universe_type_get_list enttec_dmxusbpro = some (type_output ∷ type_input ∷ [])
universe_type_get_list enttec_opendmxusb = some (type_output ∷ [])
universe_type_get_list protocol_none = none

-- `lx_universe_protocol_to_sym`
unfoldable pub universe_protocol_to_sym : Protocol → Symbol
universe_protocol_to_sym artnet = protocol_artnet
universe_protocol_to_sym sacn = protocol_sacn
universe_protocol_to_sym enttec_dmxusbpro = protocol_enttec_dmxusbpro
universe_protocol_to_sym enttec_opendmxusb = protocol_enttec_opendmxusb
universe_protocol_to_sym protocol_none = sym_nothing

-- `lx_universe_protocol_from_sym`
unfoldable pub universe_protocol_from_sym : Symbol → Option Protocol
universe_protocol_from_sym s =
    if sym_eq s protocol_artnet
    then some artnet
    else if sym_eq s protocol_sacn
    then some sacn
    else if sym_eq s protocol_enttec_dmxusbpro
    then some enttec_dmxusbpro
    else if sym_eq s protocol_enttec_opendmxusb
    then some enttec_opendmxusb
    else none

-- `lx_universe_protocol_get_list`
unfoldable pub universe_protocol_get_list : List Symbol
universe_protocol_get_list =
    protocol_artnet ∷ protocol_sacn ∷ protocol_enttec_dmxusbpro ∷ protocol_enttec_opendmxusb ∷ []

-- `lx_universe_protocol_mode_get_list`
unfoldable pub universe_protocol_mode_get_list : UniverseType → Protocol → Option (List Symbol)
universe_protocol_mode_get_list input artnet = some (artnet_mode_input ∷ [])
universe_protocol_mode_get_list output artnet =
    some (artnet_mode_broadcast ∷ artnet_mode_unicast ∷ [])
universe_protocol_mode_get_list type_none artnet = none
universe_protocol_mode_get_list type sacn = some (sacn_mode_multicast ∷ sacn_mode_unicast ∷ [])
universe_protocol_mode_get_list input enttec_dmxusbpro = some (dmxusbpro_mode_input ∷ [])
universe_protocol_mode_get_list output enttec_dmxusbpro = some (dmxusbpro_mode_output ∷ [])
universe_protocol_mode_get_list type_none enttec_dmxusbpro = none
universe_protocol_mode_get_list type enttec_opendmxusb = some (opendmxusb_mode_output ∷ [])
universe_protocol_mode_get_list type protocol_none = none

-- `lx_universe_protocol_interface_get_list`
module _ (sys : System) where
  unfoldable pub universe_protocol_interface_get_list :
      Hashtab NetworkAdapter → Hashtab SerialPort → Protocol → Option (List Atom)
  universe_protocol_interface_get_list adapters ports artnet =
      network_adapter_get_menu_items sys.inet sys.max adapters
  universe_protocol_interface_get_list adapters ports sacn =
      network_adapter_get_menu_items sys.inet sys.max adapters
  universe_protocol_interface_get_list adapters ports enttec_dmxusbpro =
      serial_port_get_menu_items sys.platform sys.max ports
  universe_protocol_interface_get_list adapters ports enttec_opendmxusb =
      serial_port_get_menu_items sys.platform sys.max ports
  universe_protocol_interface_get_list adapters ports protocol_none = none
