-- ===== src/Remote/Replies.antt =====
-- lx.config.c: the messages that send a menu out of the outlet.
use lxmax.Common.{◌≡◌, refl, sym, ◌↔◌, List, [], map, In, Option, none, some, inl, inr, arith}
use lxmax.Max.{System, Symbol, codes, Atom, a_sym}
use lxmax.Universe.Kinds.{
  Protocol, artnet, sacn, enttec_dmxusbpro, enttec_opendmxusb, protocol_none,
  universe_type_from_sym, universe_protocol_from_sym, universe_protocol_to_sym,
  universe_type_get_list, universe_protocol_get_list, universe_protocol_interface_get_list,
}
use lxmax.Universe.Kinds.Laws.{universe_protocol_from_sym_iff}
use lxmax.Universe.Config.{Interfaces}
use lxmax.Remote.{modes, atoms_of}

-- A message from the outlet, or `object_error`.
pub data Reply : Type 0 where
  sent : Symbol → List Atom → Reply
  failed : Reply

abbrev pub atoms_of_symbols : Option (List Symbol) → List Atom
atoms_of_symbols none = []
atoms_of_symbols (some items) = map a_sym items

-- `lx_config_get_universe_types`
unfoldable pub get_universe_types : Symbol → Reply
get_universe_types protocol = elim (universe_protocol_from_sym protocol) [
  | none ↦ failed
  | some p ↦ sent (codes "universe_types") (atoms_of_symbols (universe_type_get_list p))
]

-- `lx_config_get_universe_protocols`
unfoldable pub get_universe_protocols : Reply
get_universe_protocols = sent (codes "universe_protocols") (map a_sym universe_protocol_get_list)

module _ (sys : System) where
  -- `lx_config_get_universe_protocol_modes`
  unfoldable pub get_universe_protocol_modes : Symbol → Symbol → Reply
  get_universe_protocol_modes type protocol = elim (universe_type_from_sym type) [
    | none ↦ failed
    | some t ↦ elim (universe_protocol_from_sym protocol) [
      | none ↦ failed
      | some p ↦ sent (codes "universe_protocol_modes") (modes sys t p)
    ]
  ]

  -- `lx_config_get_universe_protocol_interfaces`
  unfoldable pub get_universe_protocol_interfaces : Interfaces → Symbol → Reply
  get_universe_protocol_interfaces service protocol = elim (universe_protocol_from_sym protocol) [
    | none ↦ failed
    | some p ↦ sent (codes "universe_protocol_interfaces") (
        atoms_of sys (
          universe_protocol_interface_get_list sys service.network_adapters service.serial_ports p))
  ]

-- The menu of protocols lists a symbol exactly when the symbol is read as a protocol.
pub universe_protocol_get_list_iff :
    (s : Symbol)
    → In s universe_protocol_get_list ↔ ((p : Protocol) × (universe_protocol_from_sym s ≡ some p))
unfolding universe_protocol_get_list universe_protocol_to_sym
universe_protocol_get_list_iff s = (listed, read)
  where
    shown :
        (p : Protocol)
        → s ≡ universe_protocol_to_sym p
        → ¬ (p ≡ protocol_none)
        → (q : Protocol) × (universe_protocol_from_sym s ≡ some q)
    shown p e n = (p, (universe_protocol_from_sym_iff s p).1 (sym e, n))

    listed :
        In s universe_protocol_get_list → (p : Protocol) × (universe_protocol_from_sym s ≡ some p)
    listed (inl e) = shown artnet e (λ f. absurd (ground (arith, f)))
    listed (inr (inl e)) = shown sacn e (λ f. absurd (ground (arith, f)))
    listed (inr (inr (inl e))) = shown enttec_dmxusbpro e (λ f. absurd (ground (arith, f)))
    listed (inr (inr (inr (inl e)))) = shown enttec_opendmxusb e (λ f. absurd (ground (arith, f)))
    listed (inr (inr (inr (inr x)))) = elim x [ ]

    read :
        ((p : Protocol) × (universe_protocol_from_sym s ≡ some p)) → In s universe_protocol_get_list
    read (protocol_none, e) = absurd (((universe_protocol_from_sym_iff s protocol_none).0 e).1 refl)
    read (artnet, e) = inl (sym ((universe_protocol_from_sym_iff s artnet).0 e).0)
    read (sacn, e) = inr (inl (sym ((universe_protocol_from_sym_iff s sacn).0 e).0))
    read (enttec_dmxusbpro, e) =
        inr (inr (inl (sym ((universe_protocol_from_sym_iff s enttec_dmxusbpro).0 e).0)))
    read (enttec_opendmxusb, e) =
        inr (inr (inr (inl (sym ((universe_protocol_from_sym_iff s enttec_opendmxusb).0 e).0))))
