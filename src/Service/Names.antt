-- ===== src/Service/Names.antt =====
-- The name of a configuration under writes to its attributes (lx_universe_config.c).
use lxmax.Common.{
  ◌≡◌, refl, ap, ◌∙◌, List, [], ◌∷◌, ℤ, Bool-cases, Option-cases, inl, inr, length, ◌==◌,
}
use lxmax.Max.{System, Atom, a_sym}
use lxmax.Universe.Config.{UniverseConfig, Interfaces, universe_config_find_interface}
use lxmax.Universe.Config.Frame.{universe_config_find_interface-Same}
use lxmax.Universe.Attributes.{
  Setting, attr_set, label, enable, internal_universe, status, type, protocol, protocol_mode,
  protocol_interface, priority, protocol_universe, unicast_addresses, type_set, protocol_set,
  protocol_mode_set, protocol_interface_set, protocol_universe_set, universe_of_atom, priority_set,
  unicast_addresses_set, unicast_refused, keep_or, type_of_atom, protocol_of_atom,
}
use lxmax.Universe.Invariant.History.{attr_set_all}

module _ (sys : System) (service : Interfaces) where
  name-mode : (x : UniverseConfig) (atom : Atom) → (protocol_mode_set sys x atom).name ≡ x.name
  unfolding protocol_mode_set
  name-mode x (a_sym s) = refl
  name-mode x _ = refl

  name-find : (x : UniverseConfig) → (universe_config_find_interface sys service x).name ≡ x.name
  name-find x =
      ap (λ (y : UniverseConfig). y.name) (universe_config_find_interface-Same sys service x)

  name-interface :
      (x : UniverseConfig) (atom : Atom) → (protocol_interface_set sys service x atom).name ≡ x.name
  unfolding protocol_interface_set
  name-interface x (a_sym s) = name-find _
  name-interface x _ = refl

  name-universe :
      (value : ℤ) (x : UniverseConfig) (atom : Atom)
      → (protocol_universe_set sys value x atom).name ≡ x.name
  unfolding protocol_universe_set
  name-universe value x atom = elim (Option-cases (universe_of_atom sys atom value)) [
    | inl e ↦ rw (e, protocol_universe_set) refl
    | inr (n, e) ↦ rw (e, protocol_universe_set) refl
  ]

  name-unicast :
      (x : UniverseConfig) (argv : List Atom) → (unicast_addresses_set sys x argv).name ≡ x.name
  unfolding unicast_addresses_set
  name-unicast x argv = elim (Bool-cases (unicast_refused sys x)) [
    | inl refused ↦ rw refused refl
    | inr allowed ↦ elim (Bool-cases (length argv == 0)) [
      | inl empty ↦ rw (allowed, empty) refl
      | inr given ↦ rw (allowed, given) refl
    ]
  ]

  name-type : (x : UniverseConfig) (atom : Atom) → (type_set sys x atom).name ≡ x.name
  unfolding type_set
  name-type x atom =
      let y = record x { type = keep_or (type_of_atom sys atom) x.type } in
      name-mode y (a_sym y.protocol_mode)

  name-protocol :
      (x : UniverseConfig) (atom : Atom) → (protocol_set sys service x atom).name ≡ x.name
  unfolding protocol_set
  name-protocol x atom =
      let y = record x { protocol = keep_or (protocol_of_atom sys atom) x.protocol } in
      name-find (protocol_mode_set sys y (a_sym y.protocol_mode))
      ∙ name-mode y (a_sym y.protocol_mode)

  pub name-attr_set : (x : UniverseConfig) (s : Setting) → (attr_set sys service x s).name ≡ x.name
  unfolding attr_set priority_set
  name-attr_set x (label argv) = refl
  name-attr_set x (enable argv) = refl
  name-attr_set x (internal_universe argv) = refl
  name-attr_set x (status argv) = refl
  name-attr_set x (type atom) = name-type x atom
  name-attr_set x (protocol atom) = name-protocol x atom
  name-attr_set x (protocol_mode atom) = name-mode x atom
  name-attr_set x (protocol_interface atom) = name-interface x atom
  name-attr_set x (priority atom) = refl
  name-attr_set x (protocol_universe value atom) = name-universe value x atom
  name-attr_set x (unicast_addresses argv) = name-unicast x argv

  -- No sequence of writes to attributes changes the name under which a configuration is stored.
  pub name-attr_set_all :
      (x : UniverseConfig) (settings : List Setting)
      → (attr_set_all sys service x settings).name ≡ x.name
  unfolding attr_set_all
  name-attr_set_all x [] = refl
  name-attr_set_all x (s ∷ settings) =
      name-attr_set_all (attr_set sys service x s) settings ∙ name-attr_set x s
