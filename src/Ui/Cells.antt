-- ===== src/Ui/Cells.antt =====
-- lx.config.ui.c: what the cells show.
use mathlib.Core.Option.{some-injective}
use lxmax.Common.{
  ℕ, ◌-◌, ◌≡◌, ◌⊎◌, ◌↔◌, refl, ap, Bool-cases, Option-cases, inl, inr, if◌then◌else◌, List, [], ◌∷◌,
  take, Option, none, some, ◌>>=◌, arith,
}
use lxmax.Max.{System, Text, Symbol, sym_eq, sym_eq_iff, Atom, a_long, a_sym, Hashtab}
use lxmax.Symbols.{
  universe_config_label, universe_config_type, universe_config_enable, universe_config_status,
  universe_config_protocol, universe_config_protocol_mode, universe_config_protocol_interface,
  universe_config_internal_universe, universe_config_protocol_universe, universe_config_priority,
  universe_config_unicast_addresses,
}
use lxmax.Universe.Config.{UniverseConfig}
use lxmax.Universe.Getters.{
  type_get, protocol_get, protocol_universe_get, priority_get, unicast_addresses_get,
}
use lxmax.Ui.{ConfigUi}

-- What `lx_config_ui_get_cell_value` does with `argc` and `argv`: it leaves them, it sets them, or it
-- reads an atom that is not there.
pub data CellValue : Type 0 where
  cell_left cell_undefined : CellValue
  cell_value : Atom → CellValue

-- The symbol of a type; the SDK's atom of a null pointer is a parameter.
type_atom : Atom → Option Symbol → Atom
type_atom null_atom none = null_atom
type_atom null_atom (some s) = a_sym s

-- A getter that leaves `argc` at 0 gives no atom.
given : Option (List Atom) → List Atom
given none = []
given (some atoms) = atoms

module _ (sys : System) (null_atom : Atom) where
  -- `object_attr_getvalueof` on a configuration, by the table of its class; `none` for another name.
  unfoldable pub config_getvalueof : UniverseConfig → Symbol → Option (List Atom)
  unfolding type_atom given
  config_getvalueof x name =
      if sym_eq name universe_config_unicast_addresses
      then some (given (unicast_addresses_get sys x))
      else if sym_eq name universe_config_label
      then some (a_sym x.label ∷ [])
      else if sym_eq name universe_config_type
      then some (type_atom null_atom (type_get sys x) ∷ [])
      else if sym_eq name universe_config_enable
      then some (a_long x.enable ∷ [])
      else if sym_eq name universe_config_protocol
      then some (protocol_get sys x)
      else if sym_eq name universe_config_protocol_mode
      then some (a_sym x.protocol_mode ∷ [])
      else if sym_eq name universe_config_protocol_interface
      then some (a_sym x.protocol_interface ∷ [])
      else if sym_eq name universe_config_internal_universe
      then some (a_long x.internal_universe ∷ [])
      else if sym_eq name universe_config_protocol_universe
      then some (protocol_universe_get sys x)
      else if sym_eq name universe_config_priority
      then some (priority_get sys x)
      else if sym_eq name universe_config_status
      then some (a_sym x.status ∷ [])
      else none

  -- The atoms of a cell; `none` where the row or the column is not found.
  unfoldable pub cell_atoms : Hashtab UniverseConfig → Symbol → Symbol → Option (List Atom)
  unfolding config_getvalueof
  cell_atoms universes col_name row =
      universes.lookup row >>= (λ (c : UniverseConfig). config_getvalueof c col_name)

  unfoldable pub first_value : Option (List Atom) → CellValue
  first_value none = cell_left
  first_value (some []) = cell_undefined
  first_value (some (atom ∷ rest)) = cell_value atom

  -- `lx_config_ui_get_cell_value`
  unfoldable pub get_cell_value : Symbol → Symbol → ConfigUi → CellValue
  unfolding cell_atoms first_value
  get_cell_value col_name row x = first_value (cell_atoms x.service.universes col_name row)

  -- `lx_config_ui_get_cell_text`: the bytes that `strncpy` takes from what the SDK's `atom_gettext`
  -- prints, at most `max_length - 1`; `none` where `text` is left.
  unfoldable pub copied_text : ℕ → Text → Option Text
  copied_text max_length [] = none
  copied_text max_length (c ∷ s) = some (take (max_length - 1) (c ∷ s))

  unfoldable pub get_cell_text :
      (List Atom → Option Text) → Symbol → Symbol → ConfigUi → ℕ → Option Text
  unfolding cell_atoms copied_text
  get_cell_text atom_gettext col_name row x max_length =
      cell_atoms x.service.universes col_name row
      >>= (λ (atoms : List Atom). atom_gettext atoms)
      >>= (λ (s : Text). copied_text max_length s)

  -- Addresses that the getter does not give.
  abbrev pub WithoutAddresses : UniverseConfig → Type 0
  WithoutAddresses c =
      (unicast_addresses_get sys c ≡ none) ⊎ (unicast_addresses_get sys c ≡ some [])

  given-nil : (o : Option (List Atom)) → given o ≡ [] → (o ≡ none) ⊎ (o ≡ some [])
  unfolding given
  given-nil none h = inl refl
  given-nil (some atoms) h = inr (ap some h)

  first_value-undefined : (o : Option (List Atom)) → first_value o ≡ cell_undefined → o ≡ some []
  unfolding first_value
  first_value-undefined none h = absurd (ground (arith, h))
  first_value-undefined (some []) h = refl
  first_value-undefined (some (atom ∷ rest)) h = absurd (ground (arith, h))

  -- Only the addresses can be missing.
  config_getvalueof-nil :
      (c : UniverseConfig) (name : Symbol)
      → config_getvalueof c name ≡ some []
      → (name ≡ universe_config_unicast_addresses) × WithoutAddresses c
  unfolding config_getvalueof protocol_get protocol_universe_get priority_get
  config_getvalueof-nil c name h =
      elim (Bool-cases (sym_eq name universe_config_unicast_addresses)) [
        | inl same ↦ (
          (sym_eq_iff _ _).0 same,
          given-nil (unicast_addresses_get sys c)
              (some-injective _ _ (rw (same, config_getvalueof) at h)),
        )
        | inr other ↦ absurd (ground (arith, h, other))
      ]

  no_addresses :
      (c : UniverseConfig)
      → WithoutAddresses c
      → first_value (config_getvalueof c universe_config_unicast_addresses) ≡ cell_undefined
  unfolding first_value config_getvalueof given sym_eq
  no_addresses c (inl e) = rw e refl
  no_addresses c (inr e) = rw e refl

  -- The value of a cell is undefined exactly in the column of the addresses, where the row is found
  -- and the getter of its configuration gives no address.
  pub get_cell_value-undefined_iff :
      (x : ConfigUi) (col_name row : Symbol)
      → (get_cell_value col_name row x ≡ cell_undefined)
        ↔ (col_name ≡ universe_config_unicast_addresses)
          × (c : UniverseConfig) × (x.service.universes.lookup row ≡ some c)
          × WithoutAddresses c
  unfolding get_cell_value cell_atoms
  get_cell_value-undefined_iff x col_name row = (
    λ h.
        let empty = first_value-undefined (cell_atoms x.service.universes col_name row) h in
        elim (Option-cases (x.service.universes.lookup row)) [
          | inl e ↦ absurd (ground (arith, (rw (e, cell_atoms) at empty)))
          | inr (c, e) ↦
              let r = config_getvalueof-nil c col_name (rw (e, cell_atoms) at empty) in
              (r.0, c, e, r.1)
        ],
    λ r. rw (r.0, r.2, cell_atoms) (no_addresses r.1 r.3),
  )
