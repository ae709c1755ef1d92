-- ===== src/Universe/Attributes.antt =====
-- lx_universe_config.c: the setters of the class attributes, and the table of
-- `lx_universe_config_register_class` that says which attribute has which.
use lxmax.Common.{
  ℕ, suc, if◌then◌else◌, ◌==◌, not, ◌&&◌, ◌||◌, Bool, true, false, List, [], ◌∷◌, length, take, set,
  Option, none, some, ℤ, pos,
}
use lxmax.Max.{System, Symbol, sym_eq, Atom, a_long, a_float, a_sym, a_other, IpAddress}
use lxmax.Symbols.{
  artnet_mode_input, artnet_mode_broadcast, artnet_mode_unicast, sacn_mode_multicast,
  sacn_mode_unicast, dmxusbpro_mode_input, dmxusbpro_mode_output,
}
use lxmax.Dmx.Artnet.{from_artnet_format}
use lxmax.Universe.Kinds.{
  UniverseType, type_none, input, output, Protocol, protocol_none, artnet, sacn, enttec_dmxusbpro,
  enttec_opendmxusb, universe_type_of_long, protocol_of_long, universe_type_from_sym,
  universe_protocol_from_sym,
}
use lxmax.Universe.Config.{
  UniverseConfig, Interfaces, unicast_addresses_max, universe_config_find_interface,
}

-- A value that the test or the reader refuses leaves the member.
abbrev pub keep_or {ℓ} : {A : Type ℓ} → Option A → A → A
keep_or none old = old
keep_or (some new) old = new

module _ (sys : System) where
  abbrev clamp : ℤ → ℤ → ℤ → ℤ
  clamp = sys.max.clamp

  -- The outer `switch` of `lx_universe_protocol_mode_set`, by protocol and type, on the mode given.
  unfoldable pub checked_mode : Protocol → UniverseType → Symbol → Symbol
  checked_mode artnet input mode =
      if not (sym_eq mode artnet_mode_input) then artnet_mode_input else mode
  checked_mode artnet output mode =
      if not (sym_eq mode artnet_mode_broadcast) && not (sym_eq mode artnet_mode_unicast)
      then artnet_mode_broadcast
      else mode
  checked_mode artnet type_none mode = mode
  checked_mode sacn type mode =
      if not (sym_eq mode sacn_mode_multicast) && not (sym_eq mode sacn_mode_unicast)
      then sacn_mode_multicast
      else mode
  checked_mode enttec_dmxusbpro input mode = dmxusbpro_mode_input
  checked_mode enttec_dmxusbpro output mode = dmxusbpro_mode_output
  checked_mode enttec_dmxusbpro type_none mode = mode
  checked_mode enttec_opendmxusb type mode = dmxusbpro_mode_output
  checked_mode protocol_none type mode = mode

  -- The `type` that `lx_universe_protocol_mode_set` leaves.
  unfoldable pub checked_type : Protocol → UniverseType → UniverseType
  checked_type enttec_opendmxusb type = output
  checked_type _ type = type

  -- The `protocol_universe` that it leaves: the range of each protocol.
  unfoldable pub checked_universe : Protocol → ℤ → ℤ
  checked_universe artnet n = clamp n (pos 0) (pos 32767)
  checked_universe sacn n = clamp n (pos 1) (pos 63999)
  checked_universe enttec_dmxusbpro n = clamp n (pos 1) (pos 2)
  checked_universe enttec_opendmxusb n = clamp n (pos 1) (pos 1)
  checked_universe protocol_none n = n

  -- `lx_universe_protocol_mode_set`, on the first atom.
  unfoldable pub protocol_mode_set : UniverseConfig → Atom → UniverseConfig
  unfolding checked_mode checked_type checked_universe
  protocol_mode_set x (a_sym mode) = record x {
    type = checked_type x.protocol x.type;
    protocol_mode = checked_mode x.protocol x.type mode;
    protocol_universe = checked_universe x.protocol x.protocol_universe;
  }
  protocol_mode_set x _ = x

  -- The type that the first atom of `lx_universe_type_set` names.
  unfoldable pub type_of_atom : Atom → Option UniverseType
  type_of_atom (a_sym s) = universe_type_from_sym s
  type_of_atom (a_long n) = universe_type_of_long (sys.max.atom_getlong (a_long n))
  type_of_atom (a_float n) = universe_type_of_long (sys.max.atom_getlong (a_float n))
  type_of_atom (a_other n) = none

  unfoldable pub protocol_of_atom : Atom → Option Protocol
  protocol_of_atom (a_sym s) = universe_protocol_from_sym s
  protocol_of_atom (a_long n) = protocol_of_long (sys.max.atom_getlong (a_long n))
  protocol_of_atom (a_float n) = protocol_of_long (sys.max.atom_getlong (a_float n))
  protocol_of_atom (a_other n) = none

  -- `lx_universe_type_set`: `object_attr_setsym` calls the setter of the mode.
  unfoldable pub type_set : UniverseConfig → Atom → UniverseConfig
  unfolding type_of_atom protocol_mode_set
  type_set x atom =
      let y = record x { type = keep_or (type_of_atom atom) x.type } in
      protocol_mode_set y (a_sym y.protocol_mode)

  -- `lx_universe_protocol_set`
  unfoldable pub protocol_set : Interfaces → UniverseConfig → Atom → UniverseConfig
  unfolding protocol_of_atom protocol_mode_set
  protocol_set service x atom =
      let y = record x { protocol = keep_or (protocol_of_atom atom) x.protocol } in
      universe_config_find_interface sys service (protocol_mode_set y (a_sym y.protocol_mode))

  -- `lx_universe_protocol_interface_set`
  unfoldable pub protocol_interface_set : Interfaces → UniverseConfig → Atom → UniverseConfig
  protocol_interface_set service x (a_sym s) =
      universe_config_find_interface sys service (record x { protocol_interface = s })
  protocol_interface_set service x _ = x

  -- The number that the first atom of `lx_universe_protocol_universe_set` names.
  unfoldable pub universe_of_atom : Atom → ℤ → Option ℤ
  universe_of_atom (a_sym s) value = from_artnet_format s value
  universe_of_atom (a_long n) value = some (sys.max.atom_getlong (a_long n))
  universe_of_atom (a_float n) value = some (sys.max.atom_getlong (a_float n))
  universe_of_atom (a_other n) value = none

  unfoldable pub clamped_universe : Protocol → ℤ → ℤ
  clamped_universe artnet n = clamp n (pos 0) (pos 32767)
  clamped_universe sacn n = clamp n (pos 1) (pos 63999)
  clamped_universe _ n = n

  -- `lx_universe_protocol_universe_set`. `value` starts uninitialised: it is an argument here.
  unfoldable pub protocol_universe_set : ℤ → UniverseConfig → Atom → UniverseConfig
  unfolding universe_of_atom clamped_universe
  protocol_universe_set value x atom = elim (universe_of_atom atom value) [
    | none ↦ x
    | some n ↦ record x { protocol_universe = clamped_universe x.protocol n }
  ]

  -- `lx_universe_priority_set`: the new `priority`.
  unfoldable pub set_priority : Protocol → Atom → ℤ → ℤ
  set_priority sacn atom priority = clamp (sys.max.atom_getlong atom) (pos 1) (pos 200)
  set_priority _ atom priority = priority

  unfoldable pub priority_set : UniverseConfig → Atom → UniverseConfig
  unfolding set_priority
  priority_set x atom = record x { priority = set_priority x.protocol atom x.priority }

  -- What `lx_ip_address_from_sym` leaves of the array and of `addresses_count`, which is also the
  -- index of `ip_address`: an address that is not read leaves its slot.
  unfoldable pub store_read : Option IpAddress → List IpAddress × ℕ → List IpAddress × ℕ
  store_read none (array, count) = (array, count)
  store_read (some ip) (array, count) = (set array count ip, suc count)

  -- One round of the loop of `lx_universe_unicast_addresses_set`.
  unfoldable pub store_address : Atom → List IpAddress × ℕ → List IpAddress × ℕ
  unfolding store_read
  store_address (a_sym s) stored = store_read (sys.inet.inet_pton s) stored
  store_address _ stored = stored

  unfoldable pub store_addresses : List Atom → List IpAddress × ℕ → List IpAddress × ℕ
  store_addresses [] stored = stored
  store_addresses (atom ∷ argv) stored = store_addresses argv (store_address atom stored)

  unfoldable pub is_input : UniverseType → Bool
  is_input input = true
  is_input _ = false

  -- The test that ends `lx_universe_unicast_addresses_set` early.
  unfoldable pub unicast_refused : UniverseConfig → Bool
  unfolding is_input
  unicast_refused x =
      is_input x.type
      || (not (sym_eq x.protocol_mode artnet_mode_unicast)
          && sym_eq x.protocol_mode sacn_mode_unicast)

  -- `lx_universe_unicast_addresses_set`
  unfoldable pub unicast_addresses_set : UniverseConfig → List Atom → UniverseConfig
  unfolding unicast_refused store_addresses store_address
  unicast_addresses_set x argv =
      if unicast_refused x
      then x
      else if length argv == 0
      then record x { unicast_addresses_count = 0 }
      else let stored =
          store_addresses (take unicast_addresses_max argv) (x.unicast_addresses, 0) in
        record x {
          unicast_addresses = stored.0;
          unicast_addresses_count = if stored.1 == 0 then x.unicast_addresses_count else stored.1;
        }

-- A write to one class attribute: the setters that read their first atom are given that atom, and
-- the SDK's own setters, for the members without an accessor, the whole list.
pub data Setting : Type 0 where
  label enable internal_universe status : List Atom → Setting
  type protocol protocol_mode protocol_interface priority : Atom → Setting
  protocol_universe : ℤ → Atom → Setting
  unicast_addresses : List Atom → Setting

-- `object_attr_setvalueof` on a configuration, by the table of `lx_universe_config_register_class`.
module _ (sys : System) (service : Interfaces) where
  unfoldable pub attr_set : UniverseConfig → Setting → UniverseConfig
  attr_set x (label argv) = record x { label = sys.max.store_sym x.label argv }
  attr_set x (enable argv) = record x { enable = sys.max.store_clip (pos 0) (pos 1) x.enable argv }
  attr_set x (internal_universe argv) = record x {
    internal_universe = sys.max.store_clip (pos 0) (pos 63999) x.internal_universe argv;
  }
  attr_set x (status argv) = record x { status = sys.max.store_sym x.status argv }
  attr_set x (type atom) = type_set sys x atom
  attr_set x (protocol atom) = protocol_set sys service x atom
  attr_set x (protocol_mode atom) = protocol_mode_set sys x atom
  attr_set x (protocol_interface atom) = protocol_interface_set sys service x atom
  attr_set x (priority atom) = priority_set sys x atom
  attr_set x (protocol_universe value atom) = protocol_universe_set sys value x atom
  attr_set x (unicast_addresses argv) = unicast_addresses_set sys x argv
