-- ===== src/Symbols.antt =====
-- lx_common.c and lx_common_syms.h: the symbols that `lx_common_symbols_gettable` makes, and the
-- class attribute names. `input` and `unicast` each are one symbol behind several names.
use lxmax.Max.{Symbol, codes}

abbrev pub sym_nothing : Symbol
sym_nothing = codes ""

abbrev pub not_applicable : Symbol
not_applicable = codes "n/a"

abbrev pub unknown : Symbol
unknown = codes "[unknown]"

abbrev pub type_input : Symbol
type_input = codes "input"

abbrev pub type_output : Symbol
type_output = codes "output"

abbrev pub protocol_artnet : Symbol
protocol_artnet = codes "Art-Net"

abbrev pub protocol_sacn : Symbol
protocol_sacn = codes "sACN"

abbrev pub protocol_enttec_dmxusbpro : Symbol
protocol_enttec_dmxusbpro = codes "Enttec DMX USB Pro"

abbrev pub protocol_enttec_opendmxusb : Symbol
protocol_enttec_opendmxusb = codes "Enttec Open DMX USB"

abbrev pub artnet_mode_input : Symbol
artnet_mode_input = codes "input"

abbrev pub artnet_mode_broadcast : Symbol
artnet_mode_broadcast = codes "broadcast"

abbrev pub artnet_mode_unicast : Symbol
artnet_mode_unicast = codes "unicast"

abbrev pub sacn_mode_multicast : Symbol
sacn_mode_multicast = codes "multicast"

abbrev pub sacn_mode_unicast : Symbol
sacn_mode_unicast = codes "unicast"

abbrev pub dmxusbpro_mode_input : Symbol
dmxusbpro_mode_input = codes "input"

abbrev pub dmxusbpro_mode_output : Symbol
dmxusbpro_mode_output = codes "output"

abbrev pub opendmxusb_mode_output : Symbol
opendmxusb_mode_output = codes "output"

abbrev pub interface_none : Symbol
interface_none = codes "[none]"

abbrev pub interface_ip_adapter_global : Symbol
interface_ip_adapter_global = codes "[global]"

abbrev pub interface_ip_adapter_all : Symbol
interface_ip_adapter_all = codes "All (0.0.0.0)"

abbrev pub ip_address_broadcast : Symbol
ip_address_broadcast = codes "255.255.255.255"

-- The keys of a configuration.
abbrev pub universe_config_label : Symbol
universe_config_label = codes "label"

abbrev pub universe_config_type : Symbol
universe_config_type = codes "type"

abbrev pub universe_config_enable : Symbol
universe_config_enable = codes "enable"

abbrev pub universe_config_status : Symbol
universe_config_status = codes "status"

abbrev pub universe_config_protocol : Symbol
universe_config_protocol = codes "protocol"

abbrev pub universe_config_protocol_mode : Symbol
universe_config_protocol_mode = codes "protocol_mode"

abbrev pub universe_config_protocol_interface : Symbol
universe_config_protocol_interface = codes "protocol_interface"

abbrev pub universe_config_internal_universe : Symbol
universe_config_internal_universe = codes "internal_universe"

abbrev pub universe_config_protocol_universe : Symbol
universe_config_protocol_universe = codes "protocol_universe"

abbrev pub universe_config_priority : Symbol
universe_config_priority = codes "priority"

abbrev pub universe_config_unicast_addresses : Symbol
universe_config_unicast_addresses = codes "unicast_addresses"

-- The keys of the settings of the service. The name of the sACN sync address says Art-Net.
abbrev pub global_config_global_artnet_interface : Symbol
global_config_global_artnet_interface = codes "global_artnet_interface"

abbrev pub global_config_global_artnet_unicast_addresses : Symbol
global_config_global_artnet_unicast_addresses = codes "global_artnet_unicast_addresses"

abbrev pub global_config_artnet_sync_packets_enable : Symbol
global_config_artnet_sync_packets_enable = codes "artnet_sync_packets_enable"

abbrev pub global_config_global_sacn_interface : Symbol
global_config_global_sacn_interface = codes "global_sacn_interface"

abbrev pub global_config_global_sacn_unicast_addresses : Symbol
global_config_global_sacn_unicast_addresses = codes "global_sacn_unicast_addresses"

abbrev pub global_config_sacn_sync_packets_enable : Symbol
global_config_sacn_sync_packets_enable = codes "sacn_sync_packets_enable"

abbrev pub global_config_sacn_sync_address : Symbol
global_config_sacn_sync_address = codes "artnet_sync_address"

abbrev pub global_config_max_framerate : Symbol
global_config_max_framerate = codes "max_framerate"

abbrev pub global_config_allow_non_dmx_framerate : Symbol
global_config_allow_non_dmx_framerate = codes "allow_non_dmx_framerate"

abbrev pub global_config_force_framerate : Symbol
global_config_force_framerate = codes "force_framerate"

abbrev pub global_config_output_empty_universes : Symbol
global_config_output_empty_universes = codes "output_empty_universes"

abbrev pub lxmax_version_major : Symbol
lxmax_version_major = codes "lxmax_version_major"

abbrev pub lxmax_version_minor : Symbol
lxmax_version_minor = codes "lxmax_version_minor"

abbrev pub lxmax_version_bugfix : Symbol
lxmax_version_bugfix = codes "lxmax_version_bugfix"
