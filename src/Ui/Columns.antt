-- ===== src/Ui/Columns.antt =====
-- lx.config.ui.c: the columns and their menus.
use lxmax.Common.{ℕ, ◌≡◌, ◌||◌, Bool, true, false, List, [], ◌∷◌, Option, none, some, arith, All}
use lxmax.Max.{Symbol, codes, sym_eq}
use lxmax.Symbols.{
  universe_config_label, universe_config_type, universe_config_enable, universe_config_status,
  universe_config_protocol, universe_config_protocol_mode, universe_config_protocol_interface,
  universe_config_internal_universe, universe_config_protocol_universe, universe_config_priority,
  universe_config_unicast_addresses,
}

-- `e_lx_config_ui_column_kind`
pub data ColumnKind : Type 0 where
  column_text column_text_list column_toggle column_menu column_integer column_static : ColumnKind

-- What a column asks the view for: its component, by the message that `lx_config_ui_add_column` sets,
-- and whether an edit of it reaches `lx_config_ui_set_value`.
pub record Column : Type 0 where
  pub name : Symbol
  pub width : ℕ
  pub is_numeric : Bool
  pub component : Option Symbol
  pub is_editable : Bool

-- `lx_config_ui_add_column`, without the label.
unfoldable pub add_column : Symbol → ℕ → ColumnKind → Bool → Column
add_column name width kind is_numeric = record {
  name = name;
  width = width;
  is_numeric = is_numeric;
  component = elim kind [
    | column_text ↦ some (codes "text_component")
    | column_text_list ↦ some (codes "text_list_component")
    | column_toggle ↦ some (codes "toggle_component")
    | column_menu ↦ some (codes "menu_component")
    | column_integer ↦ some (codes "integer_component")
    | column_static ↦ none
  ];
  is_editable = elim kind [ column_static ↦ false | _ ↦ true ];
}

-- The columns that `lx_config_ui_new` adds.
unfoldable pub columns : List Column
unfolding add_column
columns =
    add_column universe_config_label 200 column_text false
    ∷ add_column universe_config_type 70 column_menu false
    ∷ add_column universe_config_enable 40 column_toggle true
    ∷ add_column universe_config_status 60 column_static true
    ∷ add_column universe_config_protocol 100 column_menu false
    ∷ add_column universe_config_protocol_mode 100 column_menu false
    ∷ add_column universe_config_internal_universe 100 column_integer true
    ∷ add_column universe_config_protocol_universe 100 column_integer true
    ∷ add_column universe_config_priority 60 column_integer false
    ∷ add_column universe_config_protocol_interface 150 column_menu false
    ∷ add_column universe_config_unicast_addresses 200 column_text_list false
    ∷ []

-- The columns for which `lx_config_ui_get_cell_menu` has a branch.
unfoldable pub has_menu : Symbol → Bool
has_menu s =
    sym_eq s universe_config_type
    || sym_eq s universe_config_protocol
    || sym_eq s universe_config_protocol_mode
    || sym_eq s universe_config_protocol_interface

-- Whether the view asks for a menu.
abbrev opens_menu : Option Symbol → Bool
opens_menu none = false
opens_menu (some component) = sym_eq component (codes "menu_component")

-- The columns that are shown as menus are those that `lx_config_ui_get_cell_menu` fills.
pub columns-has_menu : All (λ c. opens_menu c.component ≡ has_menu c.name) columns
unfolding columns has_menu sym_eq add_column
columns-has_menu = ground arith
