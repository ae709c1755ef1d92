-- ===== src/Universe/Invariant.antt =====
-- The values that a configuration can have: those that the menus offer, in the ranges to which the
-- setters clamp.
pub mod Mode
pub mod Setters
pub mod Unicast
pub mod History
use lxmax.Common.{
  ℕ, zero, suc, ◌+◌, ◌≤◌, ◌<◌, ◌≡◌, refl, ◌≢◌, ◌==◌, if◌then◌else◌, Bool-cases, Option-cases, inl,
  inr, List, [], ◌∷◌, Option, none, some, In, ℤ, pos, ◌≤ℤ◌, length, length-set, take, length-take,
  arith, ap,
}
use lxmax.Max.{
  System, Symbol, sym_eq, sym_eq_iff, Atom, a_long, a_float, a_sym, a_other, IpAddress, clamp_range,
  MaxErr, err_none, err_generic,
}
use lxmax.Symbols.{
  artnet_mode_input, artnet_mode_broadcast, artnet_mode_unicast, sacn_mode_multicast,
  sacn_mode_unicast,
}
use lxmax.Universe.Kinds.{
  UniverseType, type_none, input, output, Protocol, protocol_none, artnet, sacn, enttec_dmxusbpro,
  enttec_opendmxusb, universe_type_to_sym, universe_type_get_list, universe_protocol_mode_get_list,
  universe_type_of_long, protocol_of_long, universe_type_from_sym, universe_protocol_from_sym,
}
use lxmax.Universe.Config.{
  UniverseConfig, Interfaces, universe_config_new, universe_config_find_interface,
  universe_config_clone,
}
use lxmax.Universe.Config.Frame.{SameButInterface, universe_config_find_interface-Same}
use lxmax.Universe.Attributes.{
  checked_type, checked_mode, checked_universe, clamped_universe, type_of_atom, protocol_of_atom,
  universe_of_atom, set_priority, store_addresses, unicast_refused, keep_or, Setting, attr_set,
  type_set, protocol_set, protocol_mode_set, protocol_interface_set, protocol_universe_set,
  priority_set, unicast_addresses_set, label, enable, internal_universe, status, type, protocol,
  protocol_mode, protocol_interface, priority, protocol_universe, unicast_addresses,
}

-- An entry of a list that a menu function returned, if it returned one.
abbrev pub Offered : Option Symbol → Option (List Symbol) → Type 0
Offered none items = ⊥
Offered (some s) none = ⊥
Offered (some s) (some items) = In s items

-- The range to which the setter of the protocol universe clamps, for Art-Net and sACN. For the
-- serial protocols it clamps to none, also not to those of lx_dmx.h, so that no range holds there.
abbrev pub InClampedRange : Protocol → ℤ → Type 0
InClampedRange artnet n = (pos 0 ≤ℤ n) × (n ≤ℤ pos 32767)
InClampedRange sacn n = (pos 1 ≤ℤ n) × (n ≤ℤ pos 63999)
InClampedRange _ n = Unit {0}

-- The type and the mode that belong to a protocol.
abbrev pub TypeOffered : Protocol → UniverseType → Type 0
TypeOffered p t = Offered (universe_type_to_sym t) (universe_type_get_list p)

abbrev pub ModeOffered : Protocol → UniverseType → Symbol → Type 0
ModeOffered p t mode = Offered (some mode) (universe_protocol_mode_get_list t p)

pub record IsValid (x : UniverseConfig) : Type 0 where
  pub type_offered : TypeOffered x.protocol x.type
  pub mode_offered : ModeOffered x.protocol x.type x.protocol_mode
  pub universe_range : InClampedRange x.protocol x.protocol_universe
  pub enable_range : (pos 0 ≤ℤ x.enable) × (x.enable ≤ℤ pos 1)
  pub internal_range : (pos 0 ≤ℤ x.internal_universe) × (x.internal_universe ≤ℤ pos 63999)
  pub priority_range : (pos 1 ≤ℤ x.priority) × (x.priority ≤ℤ pos 200)
  pub slots : length x.unicast_addresses ≡ 32
  pub count_fits : x.unicast_addresses_count ≤ 32

-- The defaults are such values.
pub universe_config_new-IsValid : (name : Symbol) → IsValid (universe_config_new name)
unfolding universe_config_new universe_type_to_sym universe_type_get_list
    universe_protocol_mode_get_list
universe_config_new-IsValid name = record {
  type_offered = inl refl;
  mode_offered = inl refl;
  universe_range = omega arith;
  enable_range = omega arith;
  internal_range = omega arith;
  priority_range = omega arith;
  slots = refl;
  count_fits = omega arith;
}

module _ (sys : System) where
  -- A number in the range is not clamped.
  pub clamped_universe-eq :
      (p : Protocol) (n : ℤ) → InClampedRange p n → clamped_universe sys p n ≡ n
  unfolding clamped_universe
  clamped_universe-eq artnet n h = sys.max.clamp_within n (pos 0) (pos 32767) h.0 h.1
  clamped_universe-eq sacn n h = sys.max.clamp_within n (pos 1) (pos 63999) h.0 h.1
  clamped_universe-eq _ n h = refl
