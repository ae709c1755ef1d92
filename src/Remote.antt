-- ===== src/Remote.antt =====
-- lx.config.c: the messages of the object `lx.config`, which edits the universes of the service.
pub mod Checks
pub mod Edits
pub mod Replies
pub mod Reach
pub mod Linked
pub mod Attributes
use lxmax.Common.{
  ℕ, suc, ◌++◌, if◌then◌else◌, Bool, true, false, ◌&&◌, List, [], ◌∷◌, map, Option, none, some, ℤ,
  pos, ltb_ℤ,
}
use lxmax.Max.{System, Symbol, sym_eq, Atom, a_long, a_float, a_sym, a_other}
use lxmax.Universe.Kinds.{
  UniverseType, Protocol, universe_type_from_sym, universe_protocol_from_sym,
  universe_protocol_mode_get_list, universe_protocol_interface_get_list,
}
use lxmax.Universe.Config.{UniverseConfig, Interfaces, universe_config_new}
use lxmax.Service.{
  Tables, Service, Patch, universes_add, universes_remove, universes_clear, universes_quick_patch,
}

-- The errors of `lx_config_quick_patch`, in the order of its tests.
pub data Refusal : Type 0 where
  wrong_count wrong_types invalid_type invalid_protocol invalid_mode invalid_interface : Refusal

-- An error, or the value of `is_clear`, the count and the other arguments of the quick patch.
pub data Checked : Type 0 where
  rejected : Refusal → Checked
  accepted : ℤ → ℤ → Patch → Checked

-- A_LONG or A_FLOAT
unfoldable pub is_number : Atom → Bool
is_number (a_long n) = true
is_number (a_float n) = true
is_number _ = false

unfoldable pub is_sym : Atom → Bool
is_sym (a_sym s) = true
is_sym _ = false

module _ (sys : System) where
  -- The loops that look for a symbol in a list of atoms.
  unfoldable pub is_listed : Symbol → List Atom → Bool
  is_listed s [] = false
  is_listed s (atom ∷ atoms) =
      let rest = is_listed s atoms in if sym_eq (sys.max.atom_getsym atom) s then true else rest

  -- A list function that leaves `ac` at 0 gives no atom.
  abbrev pub atoms_of : Option (List Atom) → List Atom
  atoms_of none = []
  atoms_of (some atoms) = atoms

  -- The modes of the menu.
  unfoldable pub modes : UniverseType → Protocol → List Atom
  modes type protocol = elim (universe_protocol_mode_get_list type protocol) [
    | none ↦ []
    | some items ↦ map a_sym items
  ]

  -- From the type to the end of the tests.
  unfoldable pub check_patch : Interfaces → ℤ → ℤ → Patch → Checked
  unfolding is_listed modes
  check_patch service clear count p =
      if is_listed p.protocol_mode (modes p.type p.protocol)
      then if is_listed p.protocol_interface (
          atoms_of (
            universe_protocol_interface_get_list sys service.network_adapters service.serial_ports
              p.protocol))
        then accepted clear count p
        else rejected invalid_interface
      else rejected invalid_mode

  unfoldable pub check_protocol :
      Interfaces → UniverseType → Option Protocol → Symbol → Symbol → ℤ → ℤ → ℤ → ℤ → Checked
  unfolding check_patch
  check_protocol service type none mode interface clear count internal universe =
      rejected invalid_protocol
  check_protocol service type (some protocol) mode interface clear count internal universe =
      check_patch service clear count (record {
        type = type;
        protocol = protocol;
        protocol_mode = mode;
        protocol_interface = interface;
        start_internal_universe = internal;
        start_protocol_universe = universe;
      })

  unfoldable pub check_type :
      Interfaces → Option UniverseType → Symbol → Symbol → Symbol → ℤ → ℤ → ℤ → ℤ → Checked
  unfolding check_protocol
  check_type service none protocol mode interface clear count internal universe =
      rejected invalid_type
  check_type service (some type) protocol mode interface clear count internal universe =
      check_protocol service type (universe_protocol_from_sym protocol) mode interface clear count
        internal universe

  -- The tests of `lx_config_quick_patch`; atoms after the eighth are not looked at.
  unfoldable pub check_arguments : Interfaces → List Atom → Checked
  unfolding check_type is_number is_sym
  check_arguments service
        (clear ∷ count ∷ type ∷ protocol ∷ mode ∷ interface ∷ internal ∷ universe ∷ rest) =
      if is_number clear
        && is_number count
        && is_sym type
        && is_sym protocol
        && is_sym mode
        && is_sym interface
        && is_number internal
        && is_number universe
      then check_type service (universe_type_from_sym (sys.max.atom_getsym type))
          (sys.max.atom_getsym protocol) (sys.max.atom_getsym mode) (sys.max.atom_getsym interface)
          (sys.max.atom_getlong clear) (sys.max.atom_getlong count) (sys.max.atom_getlong internal)
          (sys.max.atom_getlong universe)
      else rejected wrong_types
  check_arguments service _ = rejected wrong_count

module _ (sys : System) (tables : Tables) where
  -- `lx_config_add_universe`
  unfoldable pub add_universe : Service → Service
  add_universe x =
      universes_add tables (record x { names_used = suc x.names_used })
        (universe_config_new (tables.unique x.names_used))

  -- `lx_config_remove_universe`, on the name.
  unfoldable pub remove_universe : Service → Symbol → Service
  remove_universe x name = elim (x.universes.lookup name) [
    | none ↦ x
    | some c ↦ universes_remove tables x c
  ]

  -- `lx_config_clear_universes`
  unfoldable pub clear_universes : Service → Service
  clear_universes x = universes_clear tables x

  -- The calls that end `lx_config_quick_patch`, and the error that it reports.
  unfoldable pub quick_patch_checked : Service → Checked → Service × Option Refusal
  quick_patch_checked x (rejected r) = (x, some r)
  quick_patch_checked x (accepted clear count p) = (
    universes_quick_patch sys tables (if ltb_ℤ (pos 0) clear then universes_clear tables x else x)
        count p,
    none,
  )

  -- `lx_config_quick_patch`
  unfoldable pub quick_patch : Service → List Atom → Service × Option Refusal
  unfolding quick_patch_checked check_arguments
  quick_patch x argv = quick_patch_checked x (check_arguments sys x.interfaces argv)
