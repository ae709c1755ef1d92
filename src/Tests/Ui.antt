-- ===== src/Tests/Ui.antt =====
-- Runs and instances for the table of universes in `lx.config.ui`.
use lxmax.Common.{◌≡◌, ◌↔◌, pos, ℕ, refl, Bool, false, List, [], ◌∷◌, none, some}
use lxmax.Max.{codes, sym_eq, Symbol, Atom, a_long}
use lxmax.Universe.Config.{UniverseConfig, universe_config_clone}
use lxmax.Service.Table.{Stores}
use lxmax.Sorted.{Listing, get_last, get_sorted_by_attribute, listed_pairs, pairs, last_name}
use lxmax.Ui.{ConfigUi, add_row, ui_add_universe, ui_remove_universe, base_config, next_config}
use lxmax.Ui.Rows.{Shown, ui_edits-Shown}
use lxmax.Universe.Config.{universe_config_new}
use lxmax.Universe.Invariant.{universe_config_new-IsValid}
use lxmax.Universe.Attributes.{protocol_universe, priority}
use lxmax.Universe.Getters.{protocol_universe_get, priority_get, get_universe, get_priority}
use lxmax.Symbols.{universe_config_unicast_addresses}
use lxmax.Service.{universes_add}
use lxmax.Service.Invariant.{HoldsValid, universes-HoldsValid}
use lxmax.Ui.{ui_set_value}
use lxmax.Ui.Cells.{
  cell_undefined, config_getvalueof, cell_atoms, first_value, get_cell_value, WithoutAddresses,
  get_cell_value-undefined_iff,
}
use lxmax.Ui.WriteBack.{ui_set_value-get_cell_value}
use lxmax.Tests.Fixture.{sys, tables, service, store}
use lxmax.Tests.Remote.{deletes, empty-HoldsValid}

-- Every value has its own number as the attribute, and lists are as they are.
abbrev config_listing : Listing UniverseConfig
config_listing = record {
  getvalueof = λ (c : UniverseConfig) (attr : Symbol). some (a_long c.internal_universe ∷ []);
  linklist_sort = λ (compare : List Atom → List Atom → Bool) (l : List (List Atom)). l;
  linklist_sort_lem = λ compare l p. refl;
  float_lt = λ (m n : ℕ). false;
}

abbrev empty_ui : ConfigUi
empty_ui = record {
  service = service;
  rows = [];
  selected_row = none;
  is_disable_external_refresh = false;
}

abbrev one_row : ConfigUi
one_row =
    add_row sys tables config_listing
      (universe_config_clone sys service.interfaces (tables.unique service.names_used) none)
      empty_ui

abbrev every_Stores : Stores tables
every_Stores t key c = (store t key c, refl)

ui_edits_example : Shown one_row × Shown (ui_remove_universe sys tables config_listing empty_ui)
unfolding ui_add_universe base_config next_config get_last get_sorted_by_attribute listed_pairs
    pairs last_name
ui_edits_example =
    ui_edits-Shown sys tables config_listing empty_ui one_row every_Stores deletes empty-HoldsValid
      (λ k. refl) refl

-- A table with the universe `u`, which broadcasts through no adapter.
abbrev u : UniverseConfig
u = universe_config_new (codes "u")

abbrev u_ui : ConfigUi
u_ui = record empty_ui { service = universes_add tables service u }

u-HoldsValid : HoldsValid u_ui.service.universes
u-HoldsValid =
    (universes-HoldsValid tables service u (universe_config_new-IsValid (codes "u"))
      empty-HoldsValid).0

get_cell_value-undefined_example :
    (get_cell_value sys (a_long (pos 0)) universe_config_unicast_addresses (codes "u") u_ui
      ≡ cell_undefined)
    ↔ (universe_config_unicast_addresses ≡ universe_config_unicast_addresses)
      × (c : UniverseConfig) × (u_ui.service.universes.lookup (codes "u") ≡ some c)
      × WithoutAddresses sys (a_long (pos 0)) c
get_cell_value-undefined_example =
    get_cell_value-undefined_iff sys (a_long (pos 0)) u_ui universe_config_unicast_addresses
      (codes "u")

write_back_example :
    ((ui_set_value sys tables config_listing
          (protocol_universe (pos 0) (get_universe sys u.protocol u.protocol_universe))
          (codes "u")
          u_ui).service.universes.lookup
        (codes "u")
      ≡ u_ui.service.universes.lookup (codes "u"))
    × ((ui_set_value sys tables config_listing
            (priority (get_priority sys u.protocol u.priority))
            (codes "u")
            u_ui).service.universes.lookup
          (codes "u")
        ≡ u_ui.service.universes.lookup (codes "u"))
unfolding get_cell_value cell_atoms first_value config_getvalueof protocol_universe_get priority_get
    universes_add sym_eq universe_config_new get_universe get_priority
write_back_example =
    ui_set_value-get_cell_value sys tables config_listing (a_long (pos 0)) u_ui (codes "u") (pos 0)
      (get_universe sys u.protocol u.protocol_universe) (get_priority sys u.protocol u.priority)
      u-HoldsValid refl refl (codes "u")
