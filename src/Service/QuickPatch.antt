-- ===== src/Service/QuickPatch.antt =====
-- lx_service.c: the configuration that a round of the quick patch makes.
use lxmax.Common.{ℕ, ◌≡◌, ◌≢◌, refl, ap₂, ◌∙◌, [], ◌∷◌, some, pos, ◌≤ℤ◌, add_long}
use lxmax.Max.{System, Symbol, a_long, a_sym}
use lxmax.Universe.Kinds.{
  UniverseType, type_none, input, output, Protocol, protocol_none, artnet, sacn, enttec_dmxusbpro,
  enttec_opendmxusb, universe_type_of_long, protocol_of_long, long_of_universe_type,
  long_of_protocol,
}
use lxmax.Universe.Config.{Interfaces, universe_config_new}
use lxmax.Universe.Attributes.{
  attr_set, type_set, protocol_set, protocol_mode_set, protocol_universe_set, checked_type,
  clamped_universe, universe_of_atom, type_of_atom, protocol_of_atom,
}
use lxmax.Universe.Invariant.{clamped_universe-eq, TypeOffered, ModeOffered, InClampedRange}
use lxmax.Universe.Invariant.History.{attr_set_all}
use lxmax.Universe.Invariant.Mode.{type_of_offered, protocol_of_offered}
use lxmax.Universe.Laws.Kind.{
  type_set-Kind, protocol_set-Kind, protocol_mode_set-Kind, interface_set-same,
}
use lxmax.Service.Names.{name-attr_set_all}
use lxmax.Service.{Tables, Patch, patched, patch_label, patch_settings}

module _ (sys : System) where
  type_of_long-eq :
      (t : UniverseType)
      → t ≢ type_none
      → type_of_atom sys (a_long (long_of_universe_type t)) ≡ some t
  unfolding type_of_atom long_of_universe_type universe_type_of_long
  type_of_long-eq type_none h = absurd (h refl)
  type_of_long-eq input h = rw (sys.max.atom_getlong_lem (pos 1)) refl
  type_of_long-eq output h = rw (sys.max.atom_getlong_lem (pos 2)) refl

  protocol_of_long-eq :
      (p : Protocol)
      → p ≢ protocol_none
      → protocol_of_atom sys (a_long (long_of_protocol p)) ≡ some p
  unfolding protocol_of_atom long_of_protocol protocol_of_long
  protocol_of_long-eq protocol_none h = absurd (h refl)
  protocol_of_long-eq artnet h = rw (sys.max.atom_getlong_lem (pos 1)) refl
  protocol_of_long-eq sacn h = rw (sys.max.atom_getlong_lem (pos 2)) refl
  protocol_of_long-eq enttec_dmxusbpro h = rw (sys.max.atom_getlong_lem (pos 3)) refl
  protocol_of_long-eq enttec_opendmxusb h = rw (sys.max.atom_getlong_lem (pos 4)) refl

-- A patch whose type and mode are ones that the menus offer for its protocol.
pub record IsOffered (p : Patch) : Type 0 where
  pub type_offered : TypeOffered p.protocol p.type
  pub mode_offered : ModeOffered p.protocol p.type p.protocol_mode

module _ (sys : System) (tables : Tables) where
  -- If the menus offer the type and the mode for the protocol, and the internal and the protocol
  -- universe counted up by `i` are in their ranges, round `i` of a quick patch makes a configuration
  -- of the given name with this type, this protocol, this mode and these two numbers.
  pub patched_fields :
      (service : Interfaces) (p : Patch) (name : Symbol) (i : ℕ)
      → IsOffered p
      → (pos 0 ≤ℤ add_long p.start_internal_universe (pos i))
        × (add_long p.start_internal_universe (pos i) ≤ℤ pos 63999)
      → InClampedRange p.protocol (add_long p.start_protocol_universe (pos i))
      → let c = patched sys tables service p name i in
        (c.name ≡ name)
        × (c.type ≡ p.type)
        × (c.protocol ≡ p.protocol)
        × (c.protocol_mode ≡ p.protocol_mode)
        × (c.internal_universe ≡ add_long p.start_internal_universe (pos i))
        × (c.protocol_universe ≡ add_long p.start_protocol_universe (pos i))
  unfolding patched patch_settings attr_set_all attr_set protocol_universe_set universe_of_atom
      checked_type universe_config_new
  patched_fields service p name i o internal universe =
      let text = a_sym (patch_label (add_long p.start_internal_universe (pos i))) ∷ [] in
      let x1 = record (universe_config_new name) {
        label = sys.max.store_sym (universe_config_new name).label text;
      } in
      let x2 = type_set sys x1 (a_long (long_of_universe_type p.type)) in
      let x3 = protocol_set sys service x2 (a_long (long_of_protocol p.protocol)) in
      let x4 = protocol_mode_set sys x3 (a_sym p.protocol_mode) in
      let k2 =
        type_set-Kind sys x1 artnet p.type (a_long (long_of_universe_type p.type)) refl
          (type_of_long-eq sys p.type (type_of_offered p.protocol p.type o.type_offered)) in
      let k3 =
        protocol_set-Kind sys service x2 p.protocol p.type (a_long (long_of_protocol p.protocol))
          k2.1
          (protocol_of_long-eq sys p.protocol
            (protocol_of_offered p.protocol p.type o.type_offered))
          o.type_offered in
      let k4 =
        protocol_mode_set-Kind sys x3 p.protocol p.type p.protocol_mode k3 o.type_offered
          o.mode_offered in
      let k5 = interface_set-same sys service x4 p.protocol_interface in
      (
        name-attr_set_all sys service (universe_config_new name) (patch_settings p i),
        k5.1 ∙ k4.0.1,
        k5.0 ∙ k4.0.0,
        k5.2 ∙ k4.1,
        sys.max.store_clip_lem (pos 0) (pos 63999) _ _
            ∙ sys.max.clamp_within _ (pos 0) (pos 63999) internal.0 internal.1,
        ap₂ (clamped_universe sys) (k5.0 ∙ k4.0.0) (sys.max.atom_getlong_lem _)
            ∙ clamped_universe-eq sys p.protocol _ universe,
      )
