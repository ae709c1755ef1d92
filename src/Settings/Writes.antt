-- ===== src/Settings/Writes.antt =====
-- lxmax/lx.service.cpp: the attribute that each entry of a dictionary writes.
use lxmax.Common.{In, ◌↔◌, ◌++◌, none, if◌then◌else◌, List, [], ◌∷◌, some, pos}
use lxmax.Max.{sym_eq, Symbol, Atom, a_long, a_sym}
use lxmax.Symbols.{
  universe_config_label, universe_config_type, universe_config_enable, universe_config_protocol,
  universe_config_protocol_mode, universe_config_protocol_interface,
  universe_config_internal_universe, universe_config_protocol_universe, universe_config_priority,
  universe_config_unicast_addresses,
}
use lxmax.Universe.Attributes.{
  Setting, label, type, enable, protocol, protocol_mode, protocol_interface, internal_universe,
  protocol_universe, priority, unicast_addresses,
}
use lxmax.Settings.{Entry, append_long, append_float, append_sym, append_atoms}
use lxmax.Settings.Loading.{Reading}

-- The write of an entry, by its key and the type of its atoms.
abbrev write_of : Symbol → Atom → List Setting
write_of key atom =
    if sym_eq key universe_config_label
    then label (atom ∷ []) ∷ []
    else if sym_eq key universe_config_type
    then type atom ∷ []
    else if sym_eq key universe_config_enable
    then enable (atom ∷ []) ∷ []
    else if sym_eq key universe_config_protocol
    then protocol atom ∷ []
    else if sym_eq key universe_config_protocol_mode
    then protocol_mode atom ∷ []
    else if sym_eq key universe_config_protocol_interface
    then protocol_interface atom ∷ []
    else if sym_eq key universe_config_internal_universe
    then internal_universe (atom ∷ []) ∷ []
    else if sym_eq key universe_config_protocol_universe
    then protocol_universe (pos 0) atom ∷ []
    else if sym_eq key universe_config_priority
    then priority atom ∷ []
    else []

abbrev entry_writes : Entry → List Setting
entry_writes (append_long key n) = write_of key (a_long n)
entry_writes (append_float key n) = []
entry_writes (append_sym key none) = []
entry_writes (append_sym key (some s)) = write_of key (a_sym s)
entry_writes (append_atoms key argv) =
    if sym_eq key universe_config_unicast_addresses then unicast_addresses argv ∷ [] else []

abbrev pub all_writes : List Entry → List Setting
all_writes [] = []
all_writes (e ∷ es) = entry_writes e ++ all_writes es

-- `attr_dictionary_process` writes the attributes that the dictionary has entries for, and no others,
-- in any order.
abbrev pub WritesEntries : Reading → Type 0
WritesEntries reading =
    (dict : List Entry) (s : Setting) → In s (reading.config_settings dict) ↔ In s (all_writes dict)
