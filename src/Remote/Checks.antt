-- ===== src/Remote/Checks.antt =====
-- What the tests of `lx_config_quick_patch` let through.
use lxmax.Common.{
  ◌≡◌, ◌≢◌, refl, ap, sym, subst, true, Bool-cases, inl, inr, List, [], ◌∷◌, ◌&&◌, map, Option,
  none, some, ℤ, In, arith,
}
use lxmax.Max.{System, Symbol, sym_eq, sym_eq_iff, Atom, a_sym}
use lxmax.Universe.Kinds.{
  UniverseType, type_none, input, output, Protocol, protocol_none, artnet, sacn, enttec_dmxusbpro,
  enttec_opendmxusb, universe_type_from_sym, universe_type_to_sym, universe_type_get_list,
  universe_protocol_mode_get_list, universe_protocol_interface_get_list,
}
use lxmax.Universe.Kinds.Laws.{universe_type_from_sym_iff, universe_protocol_from_sym_iff}
use lxmax.Universe.Config.{Interfaces}
use lxmax.Universe.Invariant.{TypeOffered, ModeOffered, Offered}
use lxmax.Service.{Patch}
use lxmax.Service.QuickPatch.{IsOffered}
use lxmax.Remote.{
  Checked, rejected, accepted, is_number, is_sym, is_listed, modes, atoms_of, check_patch,
  check_protocol, check_type, check_arguments,
}

abbrev patch_of : Checked → Patch → Patch
patch_of (rejected r) p = p
patch_of (accepted is_clear count q) p = q

-- All but one protocol offer both types.
both_types :
    (p : Protocol) (t : UniverseType)
    → t ≢ type_none
    → p ≢ protocol_none
    → p ≢ enttec_opendmxusb
    → TypeOffered p t
unfolding universe_type_to_sym universe_type_get_list
both_types p type_none g f e = absurd (g refl)
both_types artnet input g f e = inr (inl refl)
both_types artnet output g f e = inl refl
both_types sacn input g f e = inr (inl refl)
both_types sacn output g f e = inl refl
both_types enttec_dmxusbpro input g f e = inr (inl refl)
both_types enttec_dmxusbpro output g f e = inl refl
both_types enttec_opendmxusb t g f e = absurd (e refl)
both_types protocol_none t g f e = absurd (f refl)

module _ (sys : System) where
  is_listed-In :
      (s : Symbol) (items : List Symbol) → is_listed sys s (map a_sym items) ≡ true → In s items
  unfolding is_listed
  is_listed-In s [] h = absurd (ground (arith, h))
  is_listed-In s (t ∷ items) h = elim (Bool-cases (sym_eq (sys.max.atom_getsym (a_sym t)) s)) [
    | inl same ↦ inl (sym ((sym_eq_iff _ _).0 (rw (sys.max.atom_getsym_lem t) at same)))
    | inr other ↦ inr (is_listed-In s items (rw other at h))
  ]

  listed-Offered :
      (mode : Symbol) (o : Option (List Symbol))
      → is_listed sys mode (elim o [ none ↦ [] | some items ↦ map a_sym items ]) ≡ true
      → Offered (some mode) o
  unfolding is_listed
  listed-Offered mode none h = absurd (ground (arith, h))
  listed-Offered mode (some items) h = is_listed-In mode items h

  -- What every accepted patch has.
  record Sound (service : Interfaces) (q : Patch) : Type 0 where
    type_given : q.type ≢ type_none
    protocol_given : q.protocol ≢ protocol_none
    mode_offered : ModeOffered q.protocol q.type q.protocol_mode
    interface_offered :
        is_listed sys q.protocol_interface (
          atoms_of sys (
            universe_protocol_interface_get_list sys service.network_adapters service.serial_ports
              q.protocol))
        ≡ true

  check_patch-Sound :
      (service : Interfaces) (clear count c n : ℤ) (p q : Patch)
      → p.type ≢ type_none
      → p.protocol ≢ protocol_none
      → check_patch sys service clear count p ≡ accepted c n q
      → Sound service q
  unfolding check_patch modes
  check_patch-Sound service clear count c n p q t r h =
      elim (Bool-cases (is_listed sys p.protocol_mode (modes sys p.type p.protocol))) [
        | inl mode ↦
            elim (Bool-cases (
              is_listed sys p.protocol_interface (
                atoms_of sys (
                  universe_protocol_interface_get_list sys service.network_adapters
                    service.serial_ports p.protocol)))) [
                      | inl interface ↦
                          subst (Sound service)
                            (ap (λ (o : Checked). patch_of o p) (rw (mode, interface) at h))
                            (record {
                              type_given = t;
                              protocol_given = r;
                              mode_offered =
                                  listed-Offered p.protocol_mode
                                    (universe_protocol_mode_get_list p.type p.protocol) mode;
                              interface_offered = interface;
                            })
                      | inr other ↦ absurd (ground (arith, rw (mode, other) at h))
                    ]
        | inr other ↦ absurd (ground (arith, rw other at h))
      ]

  check_protocol-Sound :
      (service : Interfaces) (type : UniverseType) (o : Option Protocol) (mode interface : Symbol)
      (clear count internal universe c n : ℤ) (q : Patch)
      → type ≢ type_none
      → ((r : Protocol) → o ≡ some r → r ≢ protocol_none)
      → check_protocol sys service type o mode interface clear count internal universe
        ≡ accepted c n q
      → Sound service q
  unfolding check_protocol
  check_protocol-Sound service type none mode interface clear count internal universe c n q t r h =
      absurd (ground (arith, h))
  check_protocol-Sound service type (some protocol) mode interface clear count internal universe c n
        q t r h =
      check_patch-Sound service clear count c n _ q t (r protocol refl) h

  check_type-Sound :
      (service : Interfaces) (o : Option UniverseType) (protocol mode interface : Symbol)
      (clear count internal universe c n : ℤ) (q : Patch)
      → ((t : UniverseType) → o ≡ some t → t ≢ type_none)
      → check_type sys service o protocol mode interface clear count internal universe
        ≡ accepted c n q
      → Sound service q
  unfolding check_type
  check_type-Sound service none protocol mode interface clear count internal universe c n q t h =
      absurd (ground (arith, h))
  check_type-Sound service (some type) protocol mode interface clear count internal universe c n q t
        h =
      check_protocol-Sound service type _ mode interface clear count internal universe c n q
        (t type refl) (λ r e. ((universe_protocol_from_sym_iff protocol r).0 e).1) h

  type_read : (s : Symbol) (t : UniverseType) → universe_type_from_sym s ≡ some t → t ≢ type_none
  unfolding universe_type_to_sym
  type_read s type_none e f = absurd (ground (arith, (universe_type_from_sym_iff s type_none).0 e))
  type_read s input e f = absurd (ground (arith, f))
  type_read s output e f = absurd (ground (arith, f))

  check_arguments-Sound :
      (service : Interfaces) (argv : List Atom) (c n : ℤ) (q : Patch)
      → check_arguments sys service argv ≡ accepted c n q
      → Sound service q
  unfolding check_arguments
  check_arguments-Sound service
        (clear ∷ count ∷ type ∷ protocol ∷ mode ∷ interface ∷ internal ∷ universe ∷ rest) c n q h =
      elim (Bool-cases (
        is_number clear
        && is_number count
        && is_sym type
        && is_sym protocol
        && is_sym mode
        && is_sym interface
        && is_number internal
        && is_number universe)) [
          | inl typed ↦
              check_type-Sound service _ _ _ _ _ _ _ _ c n q (type_read (sys.max.atom_getsym type))
                (rw typed at h)
          | inr wrong ↦ absurd (ground (arith, rw wrong at h))
        ]
  check_arguments-Sound service _ c n q h = absurd (ground (arith, h))

  Sound-IsOffered :
      (service : Interfaces) (q : Patch)
      → Sound service q
      → q.protocol ≢ enttec_opendmxusb
      → IsOffered q
  Sound-IsOffered service q s d = record {
    type_offered = both_types q.protocol q.type s.type_given s.protocol_given d;
    mode_offered = s.mode_offered;
  }

  -- If `lx_config_quick_patch` accepts its arguments and the protocol is not the Enttec Open DMX
  -- USB, the menus offer the type and the mode for the protocol, and the interface is an item of the
  -- menu of interfaces.
  pub check_arguments-IsOffered :
      (service : Interfaces) (argv : List Atom) (is_clear count : ℤ) (q : Patch)
      → check_arguments sys service argv ≡ accepted is_clear count q
      → q.protocol ≢ enttec_opendmxusb
      → IsOffered q
        × (is_listed sys q.protocol_interface (
              atoms_of sys (
                universe_protocol_interface_get_list sys service.network_adapters
                  service.serial_ports q.protocol))
            ≡ true)
  check_arguments-IsOffered service argv is_clear count q h d =
      let s = check_arguments-Sound service argv is_clear count q h in
      (Sound-IsOffered service q s d, s.interface_offered)
