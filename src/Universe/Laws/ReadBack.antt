-- ===== src/Universe/Laws/ReadBack.antt =====
-- lx_universe_config.c: writing back what a getter returns, and numbers out of range.
use lxmax.Common.{◌≡◌, refl, ◌≢◌, ap, List, [], ◌∷◌, some, ℤ, pos, negsuc, ◌≤ℤ◌, arith}
use lxmax.Max.{System, Symbol, Atom, a_long, a_sym, clamp_range}
use lxmax.Dmx.Artnet.RoundTrip.{artnet_round_trip}
use lxmax.Universe.Kinds.{
  Protocol, protocol_none, artnet, sacn, enttec_dmxusbpro, enttec_opendmxusb,
}
use lxmax.Universe.Config.{UniverseConfig}
use lxmax.Universe.Attributes.{
  protocol_universe_set, universe_of_atom, clamped_universe, priority_set, set_priority,
  protocol_mode_set, checked_universe,
}
use lxmax.Universe.Getters.{protocol_universe_get, get_universe, priority_get, get_priority}
use lxmax.Universe.Invariant.{IsValid, InClampedRange}

-- The only atom of a one-atom list, or a given one.
abbrev pub first : List Atom → Atom → Atom
first [] atom = atom
first (a ∷ rest) atom = a

module _ (sys : System) where
  universe_back :
      (p : Protocol) (n value : ℤ)
      → InClampedRange p n
      → (m : ℤ) × (universe_of_atom sys (get_universe sys p n) value ≡ some m)
        × (clamped_universe sys p m ≡ n)
  unfolding universe_of_atom get_universe clamped_universe
  universe_back artnet (pos n) value h = (
    pos n,
    artnet_round_trip n value (omega arith),
    sys.max.clamp_within (pos n) (pos 0) (pos 32767) h.0 h.1,
  )
  universe_back artnet (negsuc n) value h = absurd (omega arith)
  universe_back sacn n value h =
      (n, ap some (sys.max.atom_getlong_lem n), sys.max.clamp_within n (pos 1) (pos 63999) h.0 h.1)
  universe_back enttec_dmxusbpro n value h = (n, ap some (sys.max.atom_getlong_lem n), refl)
  universe_back enttec_opendmxusb n value h = (n, ap some (sys.max.atom_getlong_lem n), refl)
  universe_back protocol_none n value h = (n, ap some (sys.max.atom_getlong_lem n), refl)

  -- The protocol universe that the getter shows, in the Art-Net format or as a number, is read back
  -- by the setter: a valid configuration does not change.
  pub protocol_universe_set-get :
      (x : UniverseConfig) (value : ℤ) (atom : Atom)
      → IsValid x
      → protocol_universe_set sys value x (first (protocol_universe_get sys x) atom) ≡ x
  unfolding protocol_universe_set protocol_universe_get
  protocol_universe_set-get x value atom v =
      let (m, e, c) = universe_back x.protocol x.protocol_universe value v.universe_range in
      rw (e, protocol_universe_set) (ap (λ (n : ℤ). record x { protocol_universe = n }) c)

  priority_back :
      (p : Protocol) (n : ℤ)
      → (pos 1 ≤ℤ n) × (n ≤ℤ pos 200)
      → set_priority sys p (get_priority sys p n) n ≡ n
  unfolding set_priority get_priority
  priority_back sacn n h =
      rw (sys.max.atom_getlong_lem n) (sys.max.clamp_within n (pos 1) (pos 200) h.0 h.1)
  priority_back artnet n h = refl
  priority_back enttec_dmxusbpro n h = refl
  priority_back enttec_opendmxusb n h = refl
  priority_back protocol_none n h = refl

  -- The priority that the getter shows, a number for sACN and a symbol for the other protocols, is
  -- written back: a valid configuration does not change.
  pub priority_set-get :
      (x : UniverseConfig) (atom : Atom)
      → IsValid x
      → priority_set sys x (first (priority_get sys x) atom) ≡ x
  unfolding priority_set priority_get
  priority_set-get x atom v =
      ap (λ (n : ℤ). record x { priority = n })
        (priority_back x.protocol x.priority v.priority_range)

  -- A universe number outside 1 and 2 is stored as it is for the Enttec DMX USB Pro, and the next
  -- write of the mode, to any symbol, replaces it by a number in the range.
  pub serial_universe_unchecked :
      (x : UniverseConfig) (value n : ℤ) (mode : Symbol)
      → x.protocol ≡ enttec_dmxusbpro
      → ¬ ((pos 1 ≤ℤ n) × (n ≤ℤ pos 2))
      → let y = protocol_universe_set sys value x (a_long n) in
        let z = protocol_mode_set sys y (a_sym mode) in
        (y.protocol_universe ≡ n)
        × (pos 1 ≤ℤ z.protocol_universe)
        × (z.protocol_universe ≤ℤ pos 2)
        × (z.protocol_universe ≢ n)
  unfolding protocol_universe_set universe_of_atom clamped_universe protocol_mode_set
      checked_universe
  serial_universe_unchecked x value n mode p out =
      let r = clamp_range sys.max n (pos 1) (pos 2) (omega arith) in
      rw (p, sys.max.atom_getlong_lem n) (refl, r.0, r.1, λ e. out (rw e at r))
