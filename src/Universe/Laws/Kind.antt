-- ===== src/Universe/Laws/Kind.antt =====
-- lx_universe_config.c: the type, the protocol and the mode that the setters leave.
use lxmax.Common.{◌≡◌, refl, ap, ap₂, ◌∙◌, Option, some, arith}
use lxmax.Max.{System, Symbol, Atom, sym_eq_iff, a_sym}
use lxmax.Symbols.{
  artnet_mode_input, artnet_mode_broadcast, artnet_mode_unicast, sacn_mode_multicast,
  sacn_mode_unicast,
}
use lxmax.Universe.Kinds.{
  UniverseType, type_none, input, output, Protocol, protocol_none, artnet, sacn, enttec_dmxusbpro,
  enttec_opendmxusb, universe_type_to_sym, universe_type_get_list, universe_protocol_mode_get_list,
}
use lxmax.Universe.Config.{UniverseConfig, Interfaces}
use lxmax.Universe.Config.Frame.{universe_config_find_interface-Same}
use lxmax.Universe.Attributes.{
  type_set, protocol_set, protocol_mode_set, protocol_interface_set, checked_type, checked_mode,
  type_of_atom, protocol_of_atom, keep_or,
}
use lxmax.Universe.Invariant.{TypeOffered, ModeOffered}

-- The protocol and the type of a configuration.
abbrev pub Kind : Protocol → UniverseType → UniverseConfig → Type 0
Kind p t x = (x.protocol ≡ p) × (x.type ≡ t)

module _ (sys : System) where
  pub checked_type-eq :
      (p : Protocol) (t : UniverseType) → TypeOffered p t → checked_type sys p t ≡ t
  unfolding checked_type universe_type_to_sym universe_type_get_list
  checked_type-eq enttec_opendmxusb type_none h = absurd h
  checked_type-eq enttec_opendmxusb input h = absurd (ground arith)
  checked_type-eq enttec_opendmxusb output h = refl
  checked_type-eq _ t h = refl

  checked_mode-eq :
      (p : Protocol) (t : UniverseType) (mode : Symbol)
      → ModeOffered p t mode
      → checked_mode sys p t mode ≡ mode
  unfolding checked_mode universe_protocol_mode_get_list
  checked_mode-eq artnet type_none mode h = refl
  checked_mode-eq artnet input mode h = ground (arith, sym_eq_iff mode artnet_mode_input)
  checked_mode-eq artnet output mode h =
      ground (arith, sym_eq_iff mode artnet_mode_broadcast, sym_eq_iff mode artnet_mode_unicast)
  checked_mode-eq sacn t mode h =
      ground (arith, sym_eq_iff mode sacn_mode_multicast, sym_eq_iff mode sacn_mode_unicast)
  checked_mode-eq enttec_dmxusbpro type_none mode h = refl
  checked_mode-eq enttec_dmxusbpro input mode h = ground arith
  checked_mode-eq enttec_dmxusbpro output mode h = ground arith
  checked_mode-eq enttec_opendmxusb t mode h = ground arith
  checked_mode-eq protocol_none t mode h = refl

  pub type_set-Kind :
      (x : UniverseConfig) (p : Protocol) (t : UniverseType) (atom : Atom)
      → x.protocol ≡ p
      → type_of_atom sys atom ≡ some t
      → Kind p (checked_type sys p t) (type_set sys x atom)
  unfolding type_set protocol_mode_set
  type_set-Kind x p t atom e h = rw h (e, ap (λ (q : Protocol). checked_type sys q t) e)

  pub protocol_mode_set-Kind :
      (x : UniverseConfig) (p : Protocol) (t : UniverseType) (mode : Symbol)
      → Kind p t x
      → TypeOffered p t
      → ModeOffered p t mode
      → Kind p t (protocol_mode_set sys x (a_sym mode))
        × ((protocol_mode_set sys x (a_sym mode)).protocol_mode ≡ mode)
  unfolding protocol_mode_set
  protocol_mode_set-Kind x p t mode k to mo =
      rw (k.0, k.1) ((refl, checked_type-eq p t to), checked_mode-eq p t mode mo)

  pub protocol_set-Kind :
      (service : Interfaces) (x : UniverseConfig) (p : Protocol) (t : UniverseType) (atom : Atom)
      → x.type ≡ t
      → protocol_of_atom sys atom ≡ some p
      → TypeOffered p t
      → Kind p t (protocol_set sys service x atom)
  unfolding protocol_set protocol_mode_set
  protocol_set-Kind service x p t atom e h to =
      let y = record x { protocol = keep_or (protocol_of_atom sys atom) x.protocol } in
      let z = protocol_mode_set sys y (a_sym y.protocol_mode) in
      let same = universe_config_find_interface-Same sys service z in
      let kept_type : z.type ≡ checked_type sys p t =
        ap₂ (checked_type sys) (ap (λ (o : Option Protocol). keep_or o x.protocol) h) e in
      (
        ap (λ (u : UniverseConfig). u.protocol) same
            ∙ ap (λ (o : Option Protocol). keep_or o x.protocol) h,
        ap (λ (u : UniverseConfig). u.type) same ∙ kept_type ∙ checked_type-eq p t to,
      )

  pub interface_set-same :
      (service : Interfaces) (x : UniverseConfig) (s : Symbol)
      → let y = protocol_interface_set sys service x (a_sym s) in
        (y.protocol ≡ x.protocol) × (y.type ≡ x.type) × (y.protocol_mode ≡ x.protocol_mode)
  unfolding protocol_interface_set
  interface_set-same service x s =
      let same =
        universe_config_find_interface-Same sys service (record x { protocol_interface = s }) in
      (
        ap (λ (u : UniverseConfig). u.protocol) same,
        ap (λ (u : UniverseConfig). u.type) same,
        ap (λ (u : UniverseConfig). u.protocol_mode) same,
      )
