-- ===== src/Settings/Restored.antt =====
-- lxmax/lx.service.cpp: a configuration that is written to the preferences and read from them.
use lxmax.Common.{◌≡◌, ◌≢◌, refl, some, sym, subst, inl, All, All-In, All-of, In}
use lxmax.Max.{System, sym_eq, Symbol}
use lxmax.Symbols.{type_input, type_output}
use lxmax.Universe.Kinds.{UniverseType, type_none, input, output, universe_type_to_sym}
use lxmax.Universe.Config.{UniverseConfig, Interfaces, universe_config_new}
use lxmax.Universe.Invariant.{IsValid}
use lxmax.Universe.Invariant.History.{attr_set_all}
use lxmax.Universe.Invariant.Mode.{type_of_offered}
use lxmax.Settings.Dictionary.{universe_config_to_dictionary}
use lxmax.Settings.Loading.{Reading}
use lxmax.Service.Names.{name-attr_set_all}
use lxmax.Settings.Writes.{all_writes, WritesEntries}
use lxmax.Settings.Stored.{restored_priority, stored_settings, stored_fields}
use lxmax.Settings.Kept.{IsEntry}
use lxmax.Settings.Reordered.{arrived_fields}

type_symbol : (t : UniverseType) → t ≢ type_none → (s : Symbol) × (universe_type_to_sym t ≡ some s)
unfolding universe_type_to_sym
type_symbol type_none h = absurd (h refl)
type_symbol input h = (type_input, refl)
type_symbol output h = (type_output, refl)

module _ (sys : System) where
  -- The writes that the entries of a configuration stand for.
  dictionary_writes :
      (c : UniverseConfig) (type_sym : Symbol)
      → universe_type_to_sym c.type ≡ some type_sym
      → all_writes (universe_config_to_dictionary sys c) ≡ stored_settings sys c type_sym
  unfolding universe_config_to_dictionary sym_eq
  dictionary_writes c type_sym t = rw t refl

  stored-IsEntry :
      (service : Interfaces) (c : UniverseConfig) (type_sym : Symbol)
      → All (IsEntry sys service c type_sym) (stored_settings sys c type_sym)
  stored-IsEntry service c type_sym =
      (refl, (refl, (refl, (refl, (refl, (refl, (refl, (tt, (tt, (tt, tt))))))))))

  -- If `attr_dictionary_process` writes the attributes that a dictionary has entries for and no
  -- others, in whatever order, a valid configuration that is written to a dictionary and read into a
  -- new configuration has its label, type, switch, protocol and internal universe there, whatever
  -- adapters there are.
  pub restored_fields :
      (reading : Reading) (service : Interfaces) (c : UniverseConfig) (name : Symbol)
      → IsValid c
      → WritesEntries reading
      → let y =
          attr_set_all sys service
            (universe_config_new name)
            (reading.config_settings (universe_config_to_dictionary sys c)) in
        (y.name ≡ name)
        × (y.label ≡ c.label)
        × (y.type ≡ c.type)
        × (y.enable ≡ c.enable)
        × (y.protocol ≡ c.protocol)
        × (y.internal_universe ≡ c.internal_universe)
  unfolding universe_config_new
  restored_fields reading service c name v writes =
      let s = type_symbol c.type (type_of_offered c.protocol c.type v.type_offered) in
      let dict = universe_config_to_dictionary sys c in
      let listed = dictionary_writes c s.0 s.1 in
      let p =
        arrived_fields sys service c s.0 v s.1 (reading.config_settings dict)
          (universe_config_new name) (inl refl)
          (All-of (IsEntry sys service c s.0) (reading.config_settings dict) (λ r i.
            All-In (IsEntry sys service c s.0) r (stored_settings sys c s.0)
              (subst (In r) listed ((writes dict r).0 i)) (stored-IsEntry service c s.0)))
          (λ r i. (writes dict r).1 (subst (In r) (sym listed) i)) in
      (
        name-attr_set_all sys service (universe_config_new name) (reading.config_settings dict),
        p.0,
        p.1,
        p.2,
        p.3,
        p.4,
      )

  -- If the attributes of a new configuration are written in the order in which the dictionary of a
  -- valid configuration has them, the new one keeps its name and has the label, the type, the switch,
  -- the protocol, the mode and both universe numbers of that one, and its priority if the protocol is
  -- sACN, or else the default priority.
  pub restored_in_order :
      (service : Interfaces) (c : UniverseConfig) (name : Symbol)
      → IsValid c
      → let y =
          attr_set_all sys service
            (universe_config_new name)
            (all_writes (universe_config_to_dictionary sys c)) in
        (y.name ≡ name)
        × (y.label ≡ c.label)
        × (y.type ≡ c.type)
        × (y.enable ≡ c.enable)
        × (y.protocol ≡ c.protocol)
        × (y.protocol_mode ≡ c.protocol_mode)
        × (y.internal_universe ≡ c.internal_universe)
        × (y.protocol_universe ≡ c.protocol_universe)
        × (y.priority ≡ restored_priority c.protocol c.priority)
  restored_in_order service c name v =
      let s = type_symbol c.type (type_of_offered c.protocol c.type v.type_offered) in
      rw (dictionary_writes c s.0 s.1) (stored_fields sys service c name s.0 v s.1)
