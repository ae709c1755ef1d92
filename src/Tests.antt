-- ===== src/Tests.antt =====
-- Runs of the definitions at concrete inputs, and instances of the theorems.
pub mod Fixture
pub mod Increment
pub mod Remote
pub mod Dmx
pub mod Enumerate
pub mod Clients
pub mod Restored
pub mod Wire
pub mod Buffer
pub mod Io
pub mod Settings
pub mod Sorted
pub mod Ui
use lxmax.Common.{
  ℕ, zero, suc, ◌+◌, ◌*◌, ◌%◌, ◌^◌, ◌<◌, ◌≤◌, ◌≡◌, ◌≢◌, refl, ◌↔◌, true, false, inl, inr,
  if◌then◌else◌, ◌||◌, ltb, List, [], ◌∷◌, ◌++◌, map, Option, none, some, ℤ, pos, negsuc, ◌≤ℤ◌,
  add_long, signed64, bits64, signed32, All, arith,
}
use lxmax.Max.{win, Text, Symbol, codes, sym_eq, Atom, a_long, a_sym, err_generic, IpAddress, IsIp}
use lxmax.Text.{is_cons, not_digit, IsDigits}
use lxmax.Dmx.Digits.{padded, strtol}
use lxmax.Dmx.Artnet.{to_artnet_format, from_artnet_format, artnet_matches}
use lxmax.Dmx.Artnet.Parse.{Groups, artnet_matches_iff, from_artnet_format_sound}
use lxmax.Dmx.Artnet.Refused.{from_artnet_format_short}
use lxmax.Dmx.Artnet.RoundTrip.{from_artnet_format-to_artnet_format}
use lxmax.Dmx.Multicast.{
  to_sacn_multicast_ip, from_sacn_multicast_ip, from_sacn_iff, from_sacn-to_sacn,
}
use lxmax.Net.Broadcast.{to_directed_broadcast, subnet_mask, to_directed_broadcast_lem}
use lxmax.Serial.{serial_port_find, serial_port_to_sym}
use lxmax.Universe.Kinds.{
  input, output, artnet, sacn, enttec_dmxusbpro, universe_type_from_sym, universe_type_to_sym,
  universe_protocol_from_sym, universe_protocol_to_sym, protocol_none, universe_type_get_list,
  universe_protocol_mode_get_list,
}
use lxmax.Universe.Kinds.Laws.{universe_type_from_sym_iff, universe_protocol_from_sym_iff}
use lxmax.Universe.Config.{
  UniverseConfig, universe_config_new, universe_config_find_interface, universe_config_clone,
}
use lxmax.Universe.Config.Frame.{SameButInterface, universe_config_find_interface-Same}
use lxmax.Universe.Attributes.{
  Setting, attr_set, protocol_universe_set, priority_set, unicast_refused, unicast_addresses_set,
  protocol_mode_set, protocol_interface_set,
}
use lxmax.Universe.Getters.{
  protocol_universe_get, priority_get, unicast_addresses_get, address_atom,
}
use lxmax.Universe.Invariant.{IsValid, universe_config_new-IsValid}
use lxmax.Universe.Invariant.History.{
  attr_set-IsValid, universe_config_clone-IsValid, attr_set_all, history-IsValid,
}
use lxmax.Universe.Laws.ReadBack.{
  first, protocol_universe_set-get, priority_set-get, serial_universe_unchecked,
}
use lxmax.Universe.Laws.Unicast.{unicast_refused_iff, unicast_addresses_get-set}
use lxmax.Universe.Laws.Interface.{
  Bound, universe_config_find_interface-Bound, serial_interface_not_cleared,
  serial_port_find_windows,
}
use lxmax.Service.{
  universes_add, universes_remove, universes_clear, universes_quick_patch, patched, Patch,
}
use lxmax.Service.Names.{name-attr_set_all}
use lxmax.Service.Invariant.{HoldsValid, universes-HoldsValid, universes_quick_patch-HoldsValid}
use lxmax.Service.QuickPatch.{IsOffered, patched_fields}
use lxmax.Service.Table.{Stores, universes_quick_patch_lem, universes_quick_patch-others}
use lxmax.Tests.Fixture.{sys, tables, no_configs, interfaces, com3, service, patch, store}
use lxmax.Tests.Dmx.{group, group-IsIp}

abbrev x0 : UniverseConfig
x0 = universe_config_new (codes "u1")

abbrev x0-IsValid : IsValid x0
x0-IsValid = universe_config_new-IsValid (codes "u1")

abbrev settings : List Setting
settings =
    Setting.protocol (a_sym (codes "sACN"))
    ∷ Setting.protocol_universe (pos 0) (a_long (pos 70000))
    ∷ Setting.priority (a_long (pos 250))
    ∷ []

attr_set-IsValid_example :
    IsValid (attr_set sys interfaces x0 (Setting.protocol (a_sym (codes "sACN"))))
attr_set-IsValid_example =
    attr_set-IsValid sys interfaces x0 (Setting.protocol (a_sym (codes "sACN"))) x0-IsValid

history-IsValid_example :
    IsValid (attr_set_all sys interfaces (universe_config_new (codes "u1")) settings)
history-IsValid_example = history-IsValid sys interfaces (codes "u1") settings

abbrev serial : UniverseConfig
serial = record x0 { protocol = enttec_dmxusbpro; serial_port = some com3 }

abbrev unicast : UniverseConfig
unicast = record x0 { protocol_mode = codes "unicast" }

unicast-IsValid : IsValid unicast
unfolding universe_config_new universe_type_to_sym universe_type_get_list
    universe_protocol_mode_get_list
unicast-IsValid = record {
  type_offered = x0-IsValid.type_offered;
  mode_offered = inr (inl refl);
  universe_range = x0-IsValid.universe_range;
  enable_range = x0-IsValid.enable_range;
  internal_range = x0-IsValid.internal_range;
  priority_range = x0-IsValid.priority_range;
  slots = x0-IsValid.slots;
  count_fits = x0-IsValid.count_fits;
}

unicast_get-set_example :
    unicast_addresses_get sys
      (unicast_addresses_set sys unicast (map (address_atom sys) (group ∷ group ∷ [])))
    ≡ some (map (address_atom sys) (group ∷ group ∷ []))
unfolding universe_config_new
unicast_get-set_example =
    unicast_addresses_get-set sys unicast group (group ∷ []) unicast-IsValid refl refl
      (group-IsIp, (group-IsIp, tt)) (omega arith)

find_interface-Bound_example :
    Bound sys interfaces serial.protocol (universe_config_find_interface sys interfaces serial)
find_interface-Bound_example = universe_config_find_interface-Bound sys interfaces serial

patch-IsOffered : IsOffered patch
unfolding universe_type_to_sym universe_type_get_list universe_protocol_mode_get_list
patch-IsOffered = record { type_offered = inl refl; mode_offered = inl refl }

patched_fields_example :
    let c = patched sys tables interfaces patch (codes "u7") 2 in
    (c.name ≡ codes "u7")
    × (c.type ≡ output)
    × (c.protocol ≡ sacn)
    × (c.protocol_mode ≡ codes "multicast")
    × (c.internal_universe ≡ add_long (pos 10) (pos 2))
    × (c.protocol_universe ≡ add_long (pos 20) (pos 2))
unfolding add_long signed64 bits64
patched_fields_example =
    patched_fields sys tables interfaces patch (codes "u7") 2 patch-IsOffered
      (omega arith, omega arith) (omega arith, omega arith)

abbrev tables-Stores : Stores tables
tables-Stores t key c = (store t key c, refl)

quick_patch_example :
    (universes_quick_patch sys tables service (pos 3) patch).universes.lookup (6 ∷ [])
    ≡ some (patched sys tables interfaces patch (6 ∷ []) 1)
quick_patch_example =
    universes_quick_patch_lem sys tables tables-Stores service 3 patch 1 (omega arith)
