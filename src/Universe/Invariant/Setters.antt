-- ===== src/Universe/Invariant/Setters.antt =====
-- The invariant of a configuration under the setters of its attributes.
use lxmax.Common.{
  zero, suc, ◌≢◌, Option-cases, inl, inr, Option, none, some, ℤ, pos, ◌≤ℤ◌, arith, ap,
}
use lxmax.Max.{System, Atom, a_long, a_float, a_sym, a_other, clamp_range}
use lxmax.Universe.Kinds.{
  type_none, Protocol, protocol_none, artnet, sacn, universe_type_of_long, protocol_of_long,
  universe_type_from_sym, universe_protocol_from_sym,
}
use lxmax.Universe.Config.{UniverseConfig, Interfaces, universe_config_find_interface}
use lxmax.Universe.Config.Frame.{SameButInterface, universe_config_find_interface-Same}
use lxmax.Universe.Attributes.{
  clamped_universe, type_of_atom, protocol_of_atom, universe_of_atom, set_priority, keep_or,
  type_set, protocol_set, protocol_interface_set, protocol_universe_set, priority_set,
}
use lxmax.Universe.Invariant.{InClampedRange, IsValid}
use lxmax.Universe.Invariant.Mode.{IsValid-IsKept, protocol_mode_set-restores}

module _ (sys : System) where
  type_of_long-ne-none : (n : ℤ) → universe_type_of_long n ≢ some type_none
  unfolding universe_type_of_long
  type_of_long-ne-none (pos zero) h = cc
  type_of_long-ne-none (pos (suc zero)) h = cc
  type_of_long-ne-none (pos (suc (suc zero))) h = cc
  type_of_long-ne-none _ h = cc

  protocol_of_long-ne-none : (n : ℤ) → protocol_of_long n ≢ some protocol_none
  unfolding protocol_of_long
  protocol_of_long-ne-none (pos zero) h = cc
  protocol_of_long-ne-none (pos (suc zero)) h = cc
  protocol_of_long-ne-none (pos (suc (suc zero))) h = cc
  protocol_of_long-ne-none (pos (suc (suc (suc zero)))) h = cc
  protocol_of_long-ne-none (pos (suc (suc (suc (suc zero))))) h = cc
  protocol_of_long-ne-none _ h = cc

  type_of_atom-ne-none : (atom : Atom) → type_of_atom sys atom ≢ some type_none
  unfolding type_of_atom universe_type_from_sym
  type_of_atom-ne-none (a_sym s) h = ground arith
  type_of_atom-ne-none (a_long n) h = type_of_long-ne-none _ h
  type_of_atom-ne-none (a_float n) h = type_of_long-ne-none _ h
  type_of_atom-ne-none (a_other n) h = cc

  protocol_of_atom-ne-none : (atom : Atom) → protocol_of_atom sys atom ≢ some protocol_none
  unfolding protocol_of_atom universe_protocol_from_sym
  protocol_of_atom-ne-none (a_sym s) h = ground arith
  protocol_of_atom-ne-none (a_long n) h = protocol_of_long-ne-none _ h
  protocol_of_atom-ne-none (a_float n) h = protocol_of_long-ne-none _ h
  protocol_of_atom-ne-none (a_other n) h = cc

  keep_or-ne {ℓ} :
      {A : Type ℓ} (new : Option A) (old bad : A)
      → new ≢ some bad
      → old ≢ bad
      → keep_or new old ≢ bad
  keep_or-ne none old bad hn ho e = ho e
  keep_or-ne (some a) old bad hn ho e = hn (ap some e)

  pub type_set-IsValid :
      (x : UniverseConfig) (atom : Atom) → IsValid x → IsValid (type_set sys x atom)
  unfolding type_set
  type_set-IsValid x atom v =
      let k = IsValid-IsKept v in
      protocol_mode_set-restores sys (record x { type = keep_or (type_of_atom sys atom) x.type })
        x.protocol_mode
        (record {
          type_known = keep_or-ne _ x.type type_none (type_of_atom-ne-none atom) k.type_known;
          protocol_known = k.protocol_known;
          enable_range = k.enable_range;
          internal_range = k.internal_range;
          priority_range = k.priority_range;
          slots = k.slots;
          count_fits = k.count_fits;
        })

  Same-IsValid : (x y : UniverseConfig) → SameButInterface x y → IsValid x → IsValid y
  Same-IsValid x y e v = rw e (record {
    type_offered = v.type_offered;
    mode_offered = v.mode_offered;
    universe_range = v.universe_range;
    enable_range = v.enable_range;
    internal_range = v.internal_range;
    priority_range = v.priority_range;
    slots = v.slots;
    count_fits = v.count_fits;
  })

  pub find_interface-IsValid :
      (service : Interfaces) (x : UniverseConfig)
      → IsValid x
      → IsValid (universe_config_find_interface sys service x)
  find_interface-IsValid service x v =
      Same-IsValid x (universe_config_find_interface sys service x)
        (universe_config_find_interface-Same sys service x) v

  pub protocol_set-IsValid :
      (service : Interfaces) (x : UniverseConfig) (atom : Atom)
      → IsValid x
      → IsValid (protocol_set sys service x atom)
  unfolding protocol_set
  protocol_set-IsValid service x atom v =
      let k = IsValid-IsKept v in
      find_interface-IsValid service _ (
        protocol_mode_set-restores sys
          (record x { protocol = keep_or (protocol_of_atom sys atom) x.protocol }) x.protocol_mode
          (record {
            type_known = k.type_known;
            protocol_known =
                keep_or-ne _ x.protocol protocol_none (protocol_of_atom-ne-none atom)
                  k.protocol_known;
            enable_range = k.enable_range;
            internal_range = k.internal_range;
            priority_range = k.priority_range;
            slots = k.slots;
            count_fits = k.count_fits;
          }))

  pub protocol_interface_set-IsValid :
      (service : Interfaces) (x : UniverseConfig) (atom : Atom)
      → IsValid x
      → IsValid (protocol_interface_set sys service x atom)
  unfolding protocol_interface_set
  protocol_interface_set-IsValid service x (a_sym s) v = find_interface-IsValid service _ (record {
    type_offered = v.type_offered;
    mode_offered = v.mode_offered;
    universe_range = v.universe_range;
    enable_range = v.enable_range;
    internal_range = v.internal_range;
    priority_range = v.priority_range;
    slots = v.slots;
    count_fits = v.count_fits;
  })
  protocol_interface_set-IsValid service x _ v = v

  clamped_universe-InClampedRange :
      (p : Protocol) (n : ℤ) → InClampedRange p (clamped_universe sys p n)
  unfolding clamped_universe
  clamped_universe-InClampedRange artnet n = clamp_range sys.max n (pos 0) (pos 32767) (omega arith)
  clamped_universe-InClampedRange sacn n = clamp_range sys.max n (pos 1) (pos 63999) (omega arith)
  clamped_universe-InClampedRange _ n = tt

  pub protocol_universe_set-IsValid :
      (value : ℤ) (x : UniverseConfig) (atom : Atom)
      → IsValid x
      → IsValid (protocol_universe_set sys value x atom)
  unfolding protocol_universe_set
  protocol_universe_set-IsValid value x atom v =
      elim (Option-cases (universe_of_atom sys atom value)) [
        | inl e ↦ rw (e, protocol_universe_set) v
        | inr (n, e) ↦
            rw (e, protocol_universe_set)
              (record {
                type_offered = v.type_offered;
                mode_offered = v.mode_offered;
                universe_range = clamped_universe-InClampedRange x.protocol n;
                enable_range = v.enable_range;
                internal_range = v.internal_range;
                priority_range = v.priority_range;
                slots = v.slots;
                count_fits = v.count_fits;
              })
      ]

  set_priority-range :
      (p : Protocol) (x : UniverseConfig) (atom : Atom)
      → (pos 1 ≤ℤ x.priority) × (x.priority ≤ℤ pos 200)
      → (pos 1 ≤ℤ set_priority sys p atom x.priority)
        × (set_priority sys p atom x.priority ≤ℤ pos 200)
  unfolding set_priority
  set_priority-range sacn x atom h =
      clamp_range sys.max (sys.max.atom_getlong atom) (pos 1) (pos 200) (omega arith)
  set_priority-range _ x atom h = h

  pub priority_set-IsValid :
      (x : UniverseConfig) (atom : Atom) → IsValid x → IsValid (priority_set sys x atom)
  unfolding priority_set
  priority_set-IsValid x atom v = record {
    type_offered = v.type_offered;
    mode_offered = v.mode_offered;
    universe_range = v.universe_range;
    enable_range = v.enable_range;
    internal_range = v.internal_range;
    priority_range = set_priority-range x.protocol x atom v.priority_range;
    slots = v.slots;
    count_fits = v.count_fits;
  }
