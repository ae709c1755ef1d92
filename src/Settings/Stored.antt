-- ===== src/Settings/Stored.antt =====
-- lxmax/lx.service.cpp: the writes of the entries of a configuration, one after the other.
use lxmax.Common.{
  ◌≡◌, refl, ap, ap₂, ◌∙◌, Bool-cases, inl, inr, ◌==◌, List, [], ◌∷◌, map, take, length, ℕ, some,
  pos, ℤ, ◌≤ℤ◌,
}
use lxmax.Max.{System, Symbol, Atom, a_long, a_sym, IpAddress}
use lxmax.Universe.Kinds.{Protocol, sacn, artnet, universe_type_to_sym, universe_protocol_to_sym}
use lxmax.Universe.Kinds.Laws.{universe_type_from_sym_iff, universe_protocol_from_sym_iff}
use lxmax.Universe.Config.{UniverseConfig, Interfaces, universe_config_new}
use lxmax.Universe.Config.Frame.{universe_config_find_interface-Same}
use lxmax.Universe.Attributes.{
  Setting, attr_set, label, type, enable, protocol, protocol_mode, protocol_interface,
  internal_universe, protocol_universe, priority, unicast_addresses, type_set, protocol_set,
  protocol_mode_set, protocol_interface_set, protocol_universe_set, priority_set,
  unicast_addresses_set, unicast_refused, universe_of_atom, set_priority, clamped_universe,
  type_of_atom, protocol_of_atom,
}
use lxmax.Universe.Getters.{address_atom}
use lxmax.Universe.Invariant.{IsValid, clamped_universe-eq}
use lxmax.Universe.Invariant.History.{attr_set_all}
use lxmax.Universe.Invariant.Mode.{protocol_of_offered}
use lxmax.Universe.Laws.Kind.{
  type_set-Kind, protocol_set-Kind, protocol_mode_set-Kind, interface_set-same,
}
use lxmax.Service.Names.{name-attr_set_all}

-- The priority that a stored one gives a new configuration: the setter takes it for sACN only.
abbrev pub restored_priority : Protocol → ℤ → ℤ
restored_priority sacn n = n
restored_priority _ n = pos 100

module _ (sys : System) where
  -- The writes of the entries of a configuration's dictionary, in their order; `type_sym` is the
  -- symbol of its type.
  abbrev pub stored_settings : UniverseConfig → Symbol → List Setting
  stored_settings c type_sym =
      label (a_sym c.label ∷ [])
      ∷ type (a_sym type_sym)
      ∷ enable (a_long c.enable ∷ [])
      ∷ protocol (a_sym (universe_protocol_to_sym c.protocol))
      ∷ protocol_mode (a_sym c.protocol_mode)
      ∷ protocol_interface (a_sym c.protocol_interface)
      ∷ internal_universe (a_long c.internal_universe ∷ [])
      ∷ protocol_universe (pos 0) (a_long c.protocol_universe)
      ∷ priority (a_long c.priority)
      ∷ unicast_addresses
          (map (address_atom sys) (take c.unicast_addresses_count c.unicast_addresses))
      ∷ []

  -- What the setter of the addresses leaves.
  pub kept-unicast :
      {A : Type 0} (f : UniverseConfig → A) (x : UniverseConfig) (argv : List Atom)
      → ((array : List IpAddress) (count : ℕ)
          → f (record x { unicast_addresses = array; unicast_addresses_count = count }) ≡ f x)
      → f (unicast_addresses_set sys x argv) ≡ f x
  unfolding unicast_addresses_set
  kept-unicast f x argv keeps = elim (Bool-cases (unicast_refused sys x)) [
    | inl refused ↦ rw (refused, unicast_addresses_set) refl
    | inr accepted ↦ elim (Bool-cases (length argv == 0)) [
      | inl empty ↦ rw (accepted, unicast_addresses_set, empty) (keeps _ _)
      | inr full ↦ rw (accepted, unicast_addresses_set, full) (keeps _ _)
    ]
  ]

  -- The setter of the protocol and that of the interface leave the label, the
  -- switch and the priority.
  protocol_set-same :
      (service : Interfaces) (x : UniverseConfig) (atom : Atom)
      → ((protocol_set sys service x atom).label ≡ x.label)
        × ((protocol_set sys service x atom).enable ≡ x.enable)
        × ((protocol_set sys service x atom).priority ≡ x.priority)
  unfolding protocol_set protocol_mode_set
  protocol_set-same service x atom =
      let same = universe_config_find_interface-Same sys service _ in
      (
        ap (λ (u : UniverseConfig). u.label) same,
        ap (λ (u : UniverseConfig). u.enable) same,
        ap (λ (u : UniverseConfig). u.priority) same,
      )

  interface_set-kept :
      (service : Interfaces) (x : UniverseConfig) (s : Symbol)
      → ((protocol_interface_set sys service x (a_sym s)).label ≡ x.label)
        × ((protocol_interface_set sys service x (a_sym s)).enable ≡ x.enable)
        × ((protocol_interface_set sys service x (a_sym s)).priority ≡ x.priority)
  unfolding protocol_interface_set
  interface_set-kept service x s =
      let same =
        universe_config_find_interface-Same sys service (record x { protocol_interface = s }) in
      (
        ap (λ (u : UniverseConfig). u.label) same,
        ap (λ (u : UniverseConfig). u.enable) same,
        ap (λ (u : UniverseConfig). u.priority) same,
      )

  set_priority-stored :
      (p : Protocol) (n m : ℤ)
      → (pos 1 ≤ℤ n) × (n ≤ℤ pos 200)
      → m ≡ pos 100
      → set_priority sys p (a_long n) m ≡ restored_priority p n
  unfolding set_priority
  set_priority-stored sacn n m h e =
      ap (λ k. sys.max.clamp k (pos 1) (pos 200)) (sys.max.atom_getlong_lem n)
      ∙ sys.max.clamp_within n (pos 1) (pos 200) h.0 h.1
  set_priority-stored _ n m h e = e

  module _ (service : Interfaces) (c : UniverseConfig) (name type_sym : Symbol) where
    -- The new configuration after the writes up to its label, its type, its switch, its protocol, its mode and
    -- its interface, and after all but the last.
    abbrev labelled : UniverseConfig
    labelled = record (universe_config_new name) {
      label = sys.max.store_sym (universe_config_new name).label (a_sym c.label ∷ []);
    }

    abbrev typed : UniverseConfig
    typed = type_set sys labelled (a_sym type_sym)

    abbrev switched : UniverseConfig
    switched = record typed {
      enable = sys.max.store_clip (pos 0) (pos 1) typed.enable (a_long c.enable ∷ []);
    }

    abbrev with_protocol : UniverseConfig
    with_protocol = protocol_set sys service switched (a_sym (universe_protocol_to_sym c.protocol))

    abbrev with_mode : UniverseConfig
    with_mode = protocol_mode_set sys with_protocol (a_sym c.protocol_mode)

    abbrev with_interface : UniverseConfig
    with_interface = protocol_interface_set sys service with_mode (a_sym c.protocol_interface)

    abbrev unaddressed : UniverseConfig
    unaddressed =
        attr_set sys service
          (attr_set sys service
            (attr_set sys service with_interface
              (internal_universe (a_long c.internal_universe ∷ [])))
            (protocol_universe (pos 0) (a_long c.protocol_universe)))
          (priority (a_long c.priority))

    abbrev addresses : List Atom
    addresses = map (address_atom sys) (take c.unicast_addresses_count c.unicast_addresses)

    with_interface-Kind :
        IsValid c
        → universe_type_to_sym c.type ≡ some type_sym
        → (with_interface.protocol ≡ c.protocol)
          × (with_interface.type ≡ c.type)
          × (with_interface.protocol_mode ≡ c.protocol_mode)
    unfolding type_of_atom protocol_of_atom universe_config_new type_set
    with_interface-Kind v t =
        let p_sym = universe_protocol_to_sym c.protocol in
        let k2 =
          type_set-Kind sys labelled artnet c.type (a_sym type_sym) refl
            ((universe_type_from_sym_iff type_sym c.type).1 t) in
        let k4 =
          protocol_set-Kind sys service switched c.protocol c.type (a_sym p_sym) k2.1
            ((universe_protocol_from_sym_iff p_sym c.protocol).1
              (refl, protocol_of_offered c.protocol c.type v.type_offered))
            v.type_offered in
        let k5 =
          protocol_mode_set-Kind sys with_protocol c.protocol c.type c.protocol_mode k4
            v.type_offered v.mode_offered in
        let k6 = interface_set-same sys service with_mode c.protocol_interface in
        (k6.0 ∙ k5.0.0, k6.1 ∙ k5.0.1, k6.2 ∙ k5.1)

    with_interface-label : with_interface.label ≡ c.label
    unfolding type_set
    with_interface-label =
        (interface_set-kept service with_mode c.protocol_interface).0
        ∙ ((protocol_set-same service switched (a_sym (universe_protocol_to_sym c.protocol))).0
            ∙ sys.max.store_sym_lem (universe_config_new name).label c.label)

    with_interface-enable : IsValid c → with_interface.enable ≡ c.enable
    unfolding type_set
    with_interface-enable v =
        (interface_set-kept service with_mode c.protocol_interface).1
        ∙ ((protocol_set-same service switched (a_sym (universe_protocol_to_sym c.protocol))).1
            ∙ (sys.max.store_clip_lem (pos 0) (pos 1) typed.enable c.enable
                ∙ sys.max.clamp_within c.enable (pos 0) (pos 1) v.enable_range.0 v.enable_range.1))

    with_interface-priority : with_interface.priority ≡ pos 100
    unfolding type_set universe_config_new protocol_mode_set
    with_interface-priority =
        (interface_set-kept service with_mode c.protocol_interface).2
        ∙ (protocol_set-same service switched (a_sym (universe_protocol_to_sym c.protocol))).2

    -- The writes of the entries of a valid configuration give its fields.
    pub stored_fields :
        IsValid c
        → universe_type_to_sym c.type ≡ some type_sym
        → let y =
            attr_set_all sys service (universe_config_new name) (stored_settings c type_sym) in
          (y.name ≡ name)
          × (y.label ≡ c.label)
          × (y.type ≡ c.type)
          × (y.enable ≡ c.enable)
          × (y.protocol ≡ c.protocol)
          × (y.protocol_mode ≡ c.protocol_mode)
          × (y.internal_universe ≡ c.internal_universe)
          × (y.protocol_universe ≡ c.protocol_universe)
          × (y.priority ≡ restored_priority c.protocol c.priority)
    unfolding attr_set_all attr_set protocol_universe_set priority_set universe_of_atom
        universe_config_new
    stored_fields v t =
        let k = with_interface-Kind v t in
        (
          name-attr_set_all sys service (universe_config_new name) (stored_settings c type_sym),
          kept-unicast (λ u. u.label) unaddressed addresses (λ a n. refl) ∙ with_interface-label,
          kept-unicast (λ u. u.type) unaddressed addresses (λ a n. refl) ∙ k.1,
          kept-unicast (λ u. u.enable) unaddressed addresses (λ a n. refl)
              ∙ with_interface-enable v,
          kept-unicast (λ u. u.protocol) unaddressed addresses (λ a n. refl) ∙ k.0,
          kept-unicast (λ u. u.protocol_mode) unaddressed addresses (λ a n. refl) ∙ k.2,
          kept-unicast (λ u. u.internal_universe) unaddressed addresses (λ a n. refl)
              ∙ (sys.max.store_clip_lem (pos 0) (pos 63999) _ c.internal_universe
                  ∙ sys.max.clamp_within c.internal_universe (pos 0) (pos 63999) v.internal_range.0
                      v.internal_range.1),
          kept-unicast (λ u. u.protocol_universe) unaddressed addresses (λ a n. refl)
              ∙ (ap₂ (clamped_universe sys) k.0 (sys.max.atom_getlong_lem c.protocol_universe)
                  ∙ clamped_universe-eq sys c.protocol c.protocol_universe v.universe_range),
          kept-unicast (λ u. u.priority) unaddressed addresses (λ a n. refl)
              ∙ (ap (λ p. set_priority sys p (a_long c.priority) with_interface.priority) k.0
                  ∙ set_priority-stored c.protocol c.priority with_interface.priority
                      v.priority_range with_interface-priority),
        )
