-- ===== src/Ui.antt =====
-- lx.config.ui.c: the object that shows the universes in a table and edits them. What is drawn is
-- the SDK's part.
pub mod Rows
pub mod Columns
pub mod Cells
pub mod WriteBack
use lxmax.Common.{
  ℕ, suc, ◌++◌, if◌then◌else◌, Bool, true, false, not, List, [], ◌∷◌, map, Option, none, some,
  ◌>>=◌, ℤ, pos,
}
use lxmax.Max.{System, MaxErr, Symbol, codes, sym_eq, Atom, a_sym, Hashtab}
use lxmax.Symbols.{
  universe_config_type, universe_config_protocol, universe_config_protocol_mode,
  universe_config_protocol_interface, universe_config_internal_universe,
}
use lxmax.Universe.Kinds.{
  universe_type_get_list, universe_protocol_get_list, universe_protocol_mode_get_list,
  universe_protocol_interface_get_list,
}
use lxmax.Universe.Config.{UniverseConfig, universe_config_clone}
use lxmax.Universe.Attributes.{Setting}
use lxmax.Universe.Increment.{universe_config_increment}
use lxmax.Service.{Tables, Service, universes_add, universes_remove}
use lxmax.Remote.Reach.{write_universe}
use lxmax.Sorted.{Listing, get_last, get_next}

-- `t_lx_config_ui`, with the rows of its `dataview` in any order.
pub record ConfigUi : Type 0 where
  pub service : Service
  pub rows : List Symbol
  pub selected_row : Option Symbol
  pub is_disable_external_refresh : Bool

-- `lx_config_ui_refresh_data`
unfoldable pub refresh_data : ConfigUi → ConfigUi
refresh_data x = elim x.service.universes.getkeys [
  | none ↦ record x { rows = [] }
  | some keys ↦ record x { rows = keys }
]

-- `lx_config_ui_notify`, for the service's message that the universes were updated. All others go to
-- the SDK.
unfoldable pub notify_updated : ConfigUi → ConfigUi
unfolding refresh_data
notify_updated x = if not x.is_disable_external_refresh then refresh_data x else x

-- `lx_config_ui_selected_row`
unfoldable pub select_row : Option Symbol → ConfigUi → ConfigUi
select_row row x = record x { selected_row = row }

-- What a lookup finds under a name that may be null.
abbrev pub config_at : Hashtab UniverseConfig → Option Symbol → Option UniverseConfig
config_at universes name = name >>= (λ (s : Symbol). universes.lookup s)

-- `jdataview_deleterow`
unfoldable pub delete_row : Symbol → List Symbol → List Symbol
delete_row row [] = []
delete_row row (r ∷ rows) =
    let rest = delete_row row rows in if sym_eq row r then rest else r ∷ rest

module _ (sys : System) (tables : Tables) (sdk : Listing UniverseConfig) where
  -- The configuration that a new one is made from: the one that is selected, or else the last one.
  unfoldable pub base_config : ConfigUi → Option UniverseConfig
  base_config x =
      let universes = x.service.universes in
      elim (config_at universes x.selected_row) [
        | some c ↦ some c
        | none ↦ config_at universes (get_last sdk universes universe_config_internal_universe)
      ]

  -- The clone, counted up if it has a base.
  unfoldable pub next_config : Service → Symbol → Option UniverseConfig → Option UniverseConfig
  next_config service name none = some (universe_config_clone sys service.interfaces name none)
  next_config service name (some base) =
      universe_config_increment sys service.interfaces
        (universe_config_clone sys service.interfaces name (some base)) (pos 1)

  -- From `lx_service_universes_add` to the end of `lx_config_ui_add_universe`; the service's message
  -- comes while the refresh is disabled.
  unfoldable pub add_row : UniverseConfig → ConfigUi → ConfigUi
  unfolding notify_updated
  add_row config x =
      let y = notify_updated (record x {
        is_disable_external_refresh = true;
        service =
            universes_add tables (record x.service { names_used = suc x.service.names_used })
              config;
      }) in
      record y { rows = y.rows ++ (config.name ∷ []); is_disable_external_refresh = false }

  -- `lx_config_ui_add_universe`; `none` where an exception of the label counter ends it.
  unfoldable pub ui_add_universe : ConfigUi → Option ConfigUi
  unfolding base_config next_config add_row
  ui_add_universe x =
      next_config x.service (tables.unique x.service.names_used) (base_config x)
      >>= (λ (config : UniverseConfig). some (add_row config x))

  -- The branch of `lx_config_ui_remove_universe` in which the selected row is found.
  unfoldable pub remove_row : UniverseConfig → ConfigUi → ConfigUi
  unfolding notify_updated delete_row
  remove_row config x =
      let y = notify_updated (record x {
        is_disable_external_refresh = true;
        selected_row =
            get_next sdk x.service.universes config.name universe_config_internal_universe;
        rows = delete_row config.name x.rows;
        service = universes_remove tables x.service config;
      }) in
      record y { is_disable_external_refresh = false }

  -- What the lookup of the selected row finds.
  unfoldable pub remove_found : Option UniverseConfig → ConfigUi → ConfigUi
  unfolding remove_row
  remove_found none x = record x { is_disable_external_refresh = false }
  remove_found (some config) x = remove_row config x

  -- `lx_config_ui_remove_universe`
  unfoldable pub ui_remove_universe : ConfigUi → ConfigUi
  unfolding remove_found
  ui_remove_universe x = remove_found (config_at x.service.universes x.selected_row) x

  -- `lx_config_ui_set_value`: `object_attr_setvalueof` on the configuration of the row.
  unfoldable pub ui_set_value : Setting → Symbol → ConfigUi → ConfigUi
  ui_set_value s row x = record x { service = write_universe sys tables x.service row s }

  -- A list function that leaves `ac` at 0 gives no atom.
  abbrev menu_atoms : Option (List Atom) → List Atom
  menu_atoms none = []
  menu_atoms (some atoms) = atoms

  abbrev menu_symbols : Option (List Symbol) → List Atom
  menu_symbols none = []
  menu_symbols (some symbols) = map a_sym symbols

  -- The chain of tests in `lx_config_ui_get_cell_menu`; a column without a menu gives no atom.
  unfoldable pub cell_menu : Service → UniverseConfig → Symbol → List Atom
  cell_menu service config col_name =
      if sym_eq col_name universe_config_type
      then menu_symbols (universe_type_get_list config.protocol)
      else if sym_eq col_name universe_config_protocol
      then map a_sym universe_protocol_get_list
      else if sym_eq col_name universe_config_protocol_mode
      then menu_symbols (universe_protocol_mode_get_list config.type config.protocol)
      else if sym_eq col_name universe_config_protocol_interface
      then menu_atoms (
          universe_protocol_interface_get_list sys service.interfaces.network_adapters
            service.interfaces.serial_ports config.protocol)
      else []

  -- `lx_config_ui_get_cell_menu`; `none` where nothing is set. Every item is enabled.
  unfoldable pub get_cell_menu : Symbol → Symbol → ConfigUi → Option (List Atom)
  unfolding cell_menu
  get_cell_menu col_name row x =
      x.service.universes.lookup row
      >>= (λ (config : UniverseConfig). some (cell_menu x.service config col_name))
