-- ===== src/Universe/Invariant/History.antt =====
-- The invariant of a configuration under any history of attribute writes, and under cloning.
use lxmax.Common.{List, [], ◌∷◌, some, pos, arith}
use lxmax.Max.{System, Symbol}
use lxmax.Universe.Config.{UniverseConfig, Interfaces, universe_config_new, universe_config_clone}
use lxmax.Universe.Attributes.{
  Setting, attr_set, label, enable, internal_universe, status, type, protocol, protocol_mode,
  protocol_interface, priority, protocol_universe, unicast_addresses,
}
use lxmax.Universe.Invariant.{IsValid, universe_config_new-IsValid}
use lxmax.Universe.Invariant.Mode.{protocol_mode_set-IsValid}
use lxmax.Universe.Invariant.Setters.{
  type_set-IsValid, protocol_set-IsValid, protocol_interface_set-IsValid, find_interface-IsValid,
  protocol_universe_set-IsValid, priority_set-IsValid,
}
use lxmax.Universe.Invariant.Unicast.{unicast_addresses_set-IsValid}

module _ (sys : System) (service : Interfaces) where
  -- Any write to any attribute keeps a configuration valid: the type and the mode are ones that the
  -- menus of its protocol offer, the internal universe, the priority and the enable flag are in
  -- their ranges, the protocol universe is in its range if the protocol is Art-Net or sACN (nothing
  -- is said of it for a serial protocol), and no more addresses are in use than the array holds.
  pub attr_set-IsValid :
      (x : UniverseConfig) (s : Setting) → IsValid x → IsValid (attr_set sys service x s)
  unfolding attr_set
  attr_set-IsValid x (label argv) v = record {
    type_offered = v.type_offered;
    mode_offered = v.mode_offered;
    universe_range = v.universe_range;
    enable_range = v.enable_range;
    internal_range = v.internal_range;
    priority_range = v.priority_range;
    slots = v.slots;
    count_fits = v.count_fits;
  }
  attr_set-IsValid x (status argv) v = record {
    type_offered = v.type_offered;
    mode_offered = v.mode_offered;
    universe_range = v.universe_range;
    enable_range = v.enable_range;
    internal_range = v.internal_range;
    priority_range = v.priority_range;
    slots = v.slots;
    count_fits = v.count_fits;
  }
  attr_set-IsValid x (enable argv) v = record {
    type_offered = v.type_offered;
    mode_offered = v.mode_offered;
    universe_range = v.universe_range;
    enable_range =
        sys.max.store_clip_range (pos 0) (pos 1) x.enable argv (omega arith) v.enable_range.0
          v.enable_range.1;
    internal_range = v.internal_range;
    priority_range = v.priority_range;
    slots = v.slots;
    count_fits = v.count_fits;
  }
  attr_set-IsValid x (internal_universe argv) v = record {
    type_offered = v.type_offered;
    mode_offered = v.mode_offered;
    universe_range = v.universe_range;
    enable_range = v.enable_range;
    internal_range =
        sys.max.store_clip_range (pos 0) (pos 63999) x.internal_universe argv (omega arith)
          v.internal_range.0 v.internal_range.1;
    priority_range = v.priority_range;
    slots = v.slots;
    count_fits = v.count_fits;
  }
  attr_set-IsValid x (type atom) v = type_set-IsValid sys x atom v
  attr_set-IsValid x (protocol atom) v = protocol_set-IsValid sys service x atom v
  attr_set-IsValid x (protocol_mode atom) v = protocol_mode_set-IsValid sys x atom v
  attr_set-IsValid x (protocol_interface atom) v =
      protocol_interface_set-IsValid sys service x atom v
  attr_set-IsValid x (priority atom) v = priority_set-IsValid sys x atom v
  attr_set-IsValid x (protocol_universe value atom) v =
      protocol_universe_set-IsValid sys value x atom v
  attr_set-IsValid x (unicast_addresses argv) v = unicast_addresses_set-IsValid sys x argv v

  -- A copy of a valid configuration is valid.
  pub universe_config_clone-IsValid :
      (name : Symbol) (x : UniverseConfig)
      → IsValid x
      → IsValid (universe_config_clone sys service name (some x))
  unfolding universe_config_clone
  universe_config_clone-IsValid name x v = find_interface-IsValid sys service _ (record {
    type_offered = v.type_offered;
    mode_offered = v.mode_offered;
    universe_range = v.universe_range;
    enable_range = v.enable_range;
    internal_range = v.internal_range;
    priority_range = v.priority_range;
    slots = v.slots;
    count_fits = v.count_fits;
  })

  -- The writes to a configuration, in order.
  unfoldable pub attr_set_all : UniverseConfig → List Setting → UniverseConfig
  attr_set_all x [] = x
  attr_set_all x (s ∷ settings) = attr_set_all (attr_set sys service x s) settings

  attr_set_all-IsValid :
      (x : UniverseConfig) (settings : List Setting) → IsValid x → IsValid (attr_set_all x settings)
  unfolding attr_set_all
  attr_set_all-IsValid x [] v = v
  attr_set_all-IsValid x (s ∷ settings) v =
      attr_set_all-IsValid (attr_set sys service x s) settings (attr_set-IsValid x s v)

  -- A new configuration is valid after any sequence of writes.
  pub history-IsValid :
      (name : Symbol) (settings : List Setting)
      → IsValid (attr_set_all (universe_config_new name) settings)
  history-IsValid name settings =
      attr_set_all-IsValid (universe_config_new name) settings (universe_config_new-IsValid name)
