-- ===== src/Universe/Invariant/Mode.antt =====
-- The invariant of a configuration under the setter of the mode.
use lxmax.Common.{◌≤◌, ◌≡◌, refl, ◌≢◌, inl, inr, ℤ, pos, ◌≤ℤ◌, length, arith}
use lxmax.Max.{System, Symbol, sym_eq_iff, Atom, a_sym, clamp_range}
use lxmax.Symbols.{
  artnet_mode_input, artnet_mode_broadcast, artnet_mode_unicast, sacn_mode_multicast,
  sacn_mode_unicast,
}
use lxmax.Universe.Kinds.{
  UniverseType, type_none, input, output, Protocol, protocol_none, artnet, sacn, enttec_dmxusbpro,
  enttec_opendmxusb, universe_type_to_sym, universe_type_get_list, universe_protocol_mode_get_list,
}
use lxmax.Universe.Config.{UniverseConfig}
use lxmax.Universe.Attributes.{checked_type, checked_mode, checked_universe, protocol_mode_set}
use lxmax.Universe.Invariant.{InClampedRange, TypeOffered, ModeOffered, IsValid}

-- What holds before the mode is set again: all but the three facts that depend on the protocol.
pub record IsKept (x : UniverseConfig) : Type 0 where
  pub type_known : x.type ≢ type_none
  pub protocol_known : x.protocol ≢ protocol_none
  pub enable_range : (pos 0 ≤ℤ x.enable) × (x.enable ≤ℤ pos 1)
  pub internal_range : (pos 0 ≤ℤ x.internal_universe) × (x.internal_universe ≤ℤ pos 63999)
  pub priority_range : (pos 1 ≤ℤ x.priority) × (x.priority ≤ℤ pos 200)
  pub slots : length x.unicast_addresses ≡ 32
  pub count_fits : x.unicast_addresses_count ≤ 32

pub type_of_offered : (p : Protocol) (t : UniverseType) → TypeOffered p t → t ≢ type_none
unfolding universe_type_to_sym
type_of_offered p type_none h e = h
type_of_offered p input h e = cc
type_of_offered p output h e = cc

pub protocol_of_offered : (p : Protocol) (t : UniverseType) → TypeOffered p t → p ≢ protocol_none
unfolding universe_type_to_sym universe_type_get_list
protocol_of_offered protocol_none type_none h e = h
protocol_of_offered protocol_none input h e = h
protocol_of_offered protocol_none output h e = h
protocol_of_offered artnet t h e = cc
protocol_of_offered sacn t h e = cc
protocol_of_offered enttec_dmxusbpro t h e = cc
protocol_of_offered enttec_opendmxusb t h e = cc

pub IsValid-IsKept : {x : UniverseConfig} → IsValid x → IsKept x
IsValid-IsKept {x} v = record {
  type_known = type_of_offered x.protocol x.type v.type_offered;
  protocol_known = protocol_of_offered x.protocol x.type v.type_offered;
  enable_range = v.enable_range;
  internal_range = v.internal_range;
  priority_range = v.priority_range;
  slots = v.slots;
  count_fits = v.count_fits;
}

module _ (sys : System) where
  checked_type-TypeOffered :
      (p : Protocol) (t : UniverseType)
      → t ≢ type_none
      → p ≢ protocol_none
      → TypeOffered p (checked_type sys p t)
  unfolding checked_type universe_type_to_sym universe_type_get_list
  checked_type-TypeOffered protocol_none t ht hp = absurd (hp refl)
  checked_type-TypeOffered artnet type_none ht hp = absurd (ht refl)
  checked_type-TypeOffered artnet input ht hp = inr (inl refl)
  checked_type-TypeOffered artnet output ht hp = inl refl
  checked_type-TypeOffered sacn type_none ht hp = absurd (ht refl)
  checked_type-TypeOffered sacn input ht hp = inr (inl refl)
  checked_type-TypeOffered sacn output ht hp = inl refl
  checked_type-TypeOffered enttec_dmxusbpro type_none ht hp = absurd (ht refl)
  checked_type-TypeOffered enttec_dmxusbpro input ht hp = inr (inl refl)
  checked_type-TypeOffered enttec_dmxusbpro output ht hp = inl refl
  checked_type-TypeOffered enttec_opendmxusb t ht hp = inl refl

  checked_mode-ModeOffered :
      (p : Protocol) (t : UniverseType) (mode : Symbol)
      → t ≢ type_none
      → p ≢ protocol_none
      → ModeOffered p (checked_type sys p t) (checked_mode sys p t mode)
  unfolding checked_type checked_mode universe_protocol_mode_get_list
  checked_mode-ModeOffered protocol_none t mode ht hp = absurd (hp refl)
  checked_mode-ModeOffered artnet type_none mode ht hp = absurd (ht refl)
  checked_mode-ModeOffered artnet input mode ht hp =
      ground (arith, sym_eq_iff mode artnet_mode_input)
  checked_mode-ModeOffered artnet output mode ht hp =
      ground (arith, sym_eq_iff mode artnet_mode_broadcast, sym_eq_iff mode artnet_mode_unicast)
  checked_mode-ModeOffered sacn type_none mode ht hp = absurd (ht refl)
  checked_mode-ModeOffered sacn input mode ht hp =
      ground (arith, sym_eq_iff mode sacn_mode_multicast, sym_eq_iff mode sacn_mode_unicast)
  checked_mode-ModeOffered sacn output mode ht hp =
      ground (arith, sym_eq_iff mode sacn_mode_multicast, sym_eq_iff mode sacn_mode_unicast)
  checked_mode-ModeOffered enttec_dmxusbpro type_none mode ht hp = absurd (ht refl)
  checked_mode-ModeOffered enttec_dmxusbpro input mode ht hp = inl refl
  checked_mode-ModeOffered enttec_dmxusbpro output mode ht hp = inl refl
  checked_mode-ModeOffered enttec_opendmxusb t mode ht hp = inl refl

  checked_universe-InClampedRange :
      (p : Protocol) (n : ℤ) → InClampedRange p (checked_universe sys p n)
  unfolding checked_universe
  checked_universe-InClampedRange artnet n = clamp_range sys.max n (pos 0) (pos 32767) (omega arith)
  checked_universe-InClampedRange sacn n = clamp_range sys.max n (pos 1) (pos 63999) (omega arith)
  checked_universe-InClampedRange _ n = tt

  -- Setting the mode, to whatever symbol, makes the type, the mode and the universe fit the
  -- protocol.
  pub protocol_mode_set-restores :
      (x : UniverseConfig) (mode : Symbol)
      → IsKept x
      → IsValid (protocol_mode_set sys x (a_sym mode))
  unfolding protocol_mode_set
  protocol_mode_set-restores x mode k = record {
    type_offered = checked_type-TypeOffered x.protocol x.type k.type_known k.protocol_known;
    mode_offered = checked_mode-ModeOffered x.protocol x.type mode k.type_known k.protocol_known;
    universe_range = checked_universe-InClampedRange x.protocol x.protocol_universe;
    enable_range = k.enable_range;
    internal_range = k.internal_range;
    priority_range = k.priority_range;
    slots = k.slots;
    count_fits = k.count_fits;
  }

  pub protocol_mode_set-IsValid :
      (x : UniverseConfig) (atom : Atom) → IsValid x → IsValid (protocol_mode_set sys x atom)
  unfolding protocol_mode_set
  protocol_mode_set-IsValid x (a_sym mode) v = protocol_mode_set-restores x mode (IsValid-IsKept v)
  protocol_mode_set-IsValid x _ v = v
