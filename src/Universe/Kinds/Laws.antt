-- ===== src/Universe/Kinds/Laws.antt =====
-- lx_universe_config.c: types and protocols to symbols and back.
use lxmax.Common.{◌≡◌, ◌≢◌, ◌↔◌, some, arith}
use lxmax.Max.{Symbol, sym_eq, sym_eq_iff}
use lxmax.Symbols.{
  type_input, type_output, protocol_artnet, protocol_sacn, protocol_enttec_dmxusbpro,
  protocol_enttec_opendmxusb,
}
use lxmax.Universe.Kinds.{
  UniverseType, Protocol, protocol_none, universe_type_to_sym, universe_type_from_sym,
  universe_protocol_to_sym, universe_protocol_from_sym,
}

-- A symbol is read as a type exactly when it is the symbol of that type.
pub universe_type_from_sym_iff :
    (s : Symbol) (t : UniverseType)
    → (universe_type_from_sym s ≡ some t) ↔ (universe_type_to_sym t ≡ some s)
unfolding universe_type_from_sym universe_type_to_sym sym_eq
universe_type_from_sym_iff s t = ground (arith, sym_eq_iff s type_input, sym_eq_iff s type_output)

-- A symbol is read as a protocol exactly when it is the symbol of that protocol, and the protocol is
-- not `LX_UNIVERSE_PROTOCOL_NONE`.
pub universe_protocol_from_sym_iff :
    (s : Symbol) (p : Protocol)
    → (universe_protocol_from_sym s ≡ some p)
      ↔ ((universe_protocol_to_sym p ≡ s) × (p ≢ protocol_none))
unfolding universe_protocol_from_sym universe_protocol_to_sym
universe_protocol_from_sym_iff s p = ground (
  arith,
  sym_eq_iff s protocol_artnet,
  sym_eq_iff s protocol_sacn,
  sym_eq_iff s protocol_enttec_dmxusbpro,
  sym_eq_iff s protocol_enttec_opendmxusb,
)
