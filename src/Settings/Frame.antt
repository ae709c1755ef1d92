-- ===== src/Settings/Frame.antt =====
-- lxmax/lx.service.cpp: a write to one attribute of the service object leaves the others.
use lxmax.Common.{◌≡◌, refl, false}
use lxmax.Max.{System, Symbol, sym_eq, a_long, a_float, a_sym, a_other}
use lxmax.Symbols.{
  global_config_global_artnet_interface, global_config_global_artnet_unicast_addresses,
  global_config_artnet_sync_packets_enable, global_config_global_sacn_interface,
  global_config_global_sacn_unicast_addresses, global_config_sacn_sync_packets_enable,
  global_config_sacn_sync_address, global_config_max_framerate,
  global_config_allow_non_dmx_framerate, global_config_force_framerate,
  global_config_output_empty_universes,
}
use lxmax.Settings.{
  ServiceObject, find_global_artnet_interface, find_global_sacn_interface,
  global_artnet_interface_set, global_sacn_interface_set, global_artnet_unicast_addresses_get,
  global_artnet_unicast_addresses_set, global_sacn_unicast_addresses_get,
  global_sacn_unicast_addresses_set,
}
use lxmax.Settings.Loading.{
  ServiceSetting, set_artnet_interface, set_sacn_interface, set_artnet_addresses,
  set_sacn_addresses, set_artnet_sync, set_sacn_sync, set_sync_address, set_allow_nondmx,
  set_force_framerate, set_output_empty, set_max_framerate, service_attr_set,
}
use lxmax.Settings.Values.{service_getvalueof}

-- The attribute that a write is to.
abbrev pub name_set : ServiceSetting → Symbol
name_set (set_artnet_interface first) = global_config_global_artnet_interface
name_set (set_sacn_interface first) = global_config_global_sacn_interface
name_set (set_artnet_addresses argv) = global_config_global_artnet_unicast_addresses
name_set (set_sacn_addresses argv) = global_config_global_sacn_unicast_addresses
name_set (set_artnet_sync argv) = global_config_artnet_sync_packets_enable
name_set (set_sacn_sync argv) = global_config_sacn_sync_packets_enable
name_set (set_sync_address argv) = global_config_sacn_sync_address
name_set (set_allow_nondmx argv) = global_config_allow_non_dmx_framerate
name_set (set_force_framerate argv) = global_config_force_framerate
name_set (set_output_empty argv) = global_config_output_empty_universes
name_set (set_max_framerate d) = global_config_max_framerate

module _ (sys : System) where
  -- A write to an attribute of the service object leaves what is read of every other attribute.
  pub service_attr_set-others :
      (x : ServiceObject) (s : ServiceSetting) (name : Symbol)
      → sym_eq name (name_set s) ≡ false
      → service_getvalueof sys (service_attr_set sys x s) name ≡ service_getvalueof sys x name
  unfolding service_getvalueof service_attr_set global_artnet_interface_set
      global_sacn_interface_set find_global_artnet_interface find_global_sacn_interface
      global_artnet_unicast_addresses_get global_artnet_unicast_addresses_set
      global_sacn_unicast_addresses_get global_sacn_unicast_addresses_set
  service_attr_set-others x (set_artnet_interface (a_sym s)) name h = rw h refl
  service_attr_set-others x (set_artnet_interface (a_long n)) name h = refl
  service_attr_set-others x (set_artnet_interface (a_float n)) name h = refl
  service_attr_set-others x (set_artnet_interface (a_other n)) name h = refl
  service_attr_set-others x (set_sacn_interface (a_sym s)) name h = rw h refl
  service_attr_set-others x (set_sacn_interface (a_long n)) name h = refl
  service_attr_set-others x (set_sacn_interface (a_float n)) name h = refl
  service_attr_set-others x (set_sacn_interface (a_other n)) name h = refl
  service_attr_set-others x (set_artnet_addresses argv) name h = rw h refl
  service_attr_set-others x (set_sacn_addresses argv) name h = rw h refl
  service_attr_set-others x (set_artnet_sync argv) name h = rw h refl
  service_attr_set-others x (set_sacn_sync argv) name h = rw h refl
  service_attr_set-others x (set_sync_address argv) name h = rw h refl
  service_attr_set-others x (set_allow_nondmx argv) name h = rw h refl
  service_attr_set-others x (set_force_framerate argv) name h = rw h refl
  service_attr_set-others x (set_output_empty argv) name h = rw h refl
  service_attr_set-others x (set_max_framerate d) name h = rw h refl
