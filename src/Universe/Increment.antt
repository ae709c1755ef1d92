-- ===== src/Universe/Increment.antt =====
-- lx_universe_config.c: a configuration is counted up, as it is for each further universe.
use mathlib.Core.Option.{some-injective}
use lxmax.Common.{
  subst, ℕ, ◌+◌, ◌≤◌, ◌≡◌, refl, ap, ◌∙◌, [], ◌∷◌, ◌++◌, true, Option, none, some, ℤ, pos, ◌≤ℤ◌,
  add_long, length, arith,
}
use lxmax.Max.{System, Text, Symbol, a_long, a_sym}
use lxmax.Text.{is_cons, IsDigits}
use lxmax.Dmx.Digits.{padded, value, long_max}
use lxmax.Label.{
  Increment, refused, out_of_range, counted, symbol_increment, Ends, symbol_increment_lem,
}
use lxmax.Universe.Config.{UniverseConfig, Interfaces}
use lxmax.Universe.Attributes.{
  attr_set, label, internal_universe, protocol_universe, protocol_universe_set, universe_of_atom,
  clamped_universe,
}
use lxmax.Universe.Invariant.{clamped_universe-eq, IsValid, InClampedRange}
use lxmax.Universe.Invariant.History.{attr_set-IsValid}

module _ (sys : System) (service : Interfaces) where
  -- The write of the label, if there is one.
  unfoldable pub write_label : UniverseConfig → Increment → Option UniverseConfig
  write_label x refused = some x
  write_label x out_of_range = none
  write_label x (counted s) = some (attr_set sys service x (label (a_sym s ∷ [])))

  -- The two numbers are read after the writes before them.
  unfoldable pub write_numbers : UniverseConfig → ℤ → UniverseConfig
  write_numbers x count =
      let y =
        attr_set sys service x
          (internal_universe (a_long (add_long x.internal_universe count) ∷ [])) in
      attr_set sys service y
        (protocol_universe (pos 0) (a_long (add_long y.protocol_universe count)))

  unfoldable pub after_label : ℤ → Option UniverseConfig → Option UniverseConfig
  unfolding write_numbers
  after_label count none = none
  after_label count (some x) = some (write_numbers x count)

  -- `lx_universe_config_increment`; `none` where the exception of `std::stol` ends it.
  unfoldable pub universe_config_increment : UniverseConfig → ℤ → Option UniverseConfig
  unfolding write_label after_label
  universe_config_increment x count =
      after_label count (write_label x (symbol_increment x.label count))

  write_numbers-IsValid :
      (x : UniverseConfig) (count : ℤ) → IsValid x → IsValid (write_numbers x count)
  unfolding write_numbers
  write_numbers-IsValid x count v =
      attr_set-IsValid sys service _ (protocol_universe (pos 0) _)
        (attr_set-IsValid sys service x (internal_universe _) v)

  after_label-IsValid :
      (x y : UniverseConfig) (count : ℤ) (r : Increment)
      → IsValid x
      → after_label count (write_label x r) ≡ some y
      → IsValid y
  unfolding after_label write_label
  after_label-IsValid x y count refused v h =
      subst IsValid (some-injective _ y h) (write_numbers-IsValid x count v)
  after_label-IsValid x y count out_of_range v h = absurd (ground (arith, h))
  after_label-IsValid x y count (counted s) v h =
      subst IsValid (some-injective _ y h)
        (write_numbers-IsValid _ count (attr_set-IsValid sys service x (label (a_sym s ∷ [])) v))

  -- A configuration that is counted up stays valid, whatever the count is.
  pub universe_config_increment-IsValid :
      (x y : UniverseConfig) (count : ℤ)
      → IsValid x
      → universe_config_increment x count ≡ some y
      → IsValid y
  unfolding universe_config_increment
  universe_config_increment-IsValid x y count v h =
      after_label-IsValid x y count (symbol_increment x.label count) v h

  -- If the label ends in digits and the sums are in their ranges, the label and the two universe
  -- numbers are counted up, and nothing else changes.
  pub universe_config_increment_lem :
      (x : UniverseConfig) (s ds : Text) (count : ℕ)
      → x.label ≡ s ++ ds
      → Ends s
      → is_cons ds ≡ true
      → IsDigits ds
      → value 0 ds + count ≤ long_max
      → (pos 0 ≤ℤ add_long x.internal_universe (pos count))
        × (add_long x.internal_universe (pos count) ≤ℤ pos 63999)
      → InClampedRange x.protocol (add_long x.protocol_universe (pos count))
      → universe_config_increment x (pos count)
        ≡ some (record x {
          label = s ++ padded (length ds) (value 0 ds + count);
          internal_universe = add_long x.internal_universe (pos count);
          protocol_universe = add_long x.protocol_universe (pos count);
        })
  unfolding universe_config_increment after_label write_label write_numbers attr_set
      protocol_universe_set universe_of_atom
  universe_config_increment_lem x s ds count text e nonempty digits fits internal universe =
      let t = s ++ padded (length ds) (value 0 ds + count) in
      let m = add_long x.internal_universe (pos count) in
      let n = add_long x.protocol_universe (pos count) in
      let l : sys.max.store_sym x.label (a_sym t ∷ []) ≡ t = sys.max.store_sym_lem x.label t in
      let i : sys.max.store_clip (pos 0) (pos 63999) x.internal_universe (a_long m ∷ []) ≡ m =
        sys.max.store_clip_lem (pos 0) (pos 63999) x.internal_universe m
        ∙ sys.max.clamp_within m (pos 0) (pos 63999) internal.0 internal.1 in
      let u : clamped_universe sys x.protocol (sys.max.atom_getlong (a_long n)) ≡ n =
        ap (clamped_universe sys x.protocol) (sys.max.atom_getlong_lem n)
        ∙ clamped_universe-eq sys x.protocol n universe in
      let inc : symbol_increment x.label (pos count) ≡ counted t =
        ap (λ (l : Symbol). symbol_increment l (pos count)) text
        ∙ symbol_increment_lem s ds count e nonempty digits fits in
      ap (λ (r : Increment). after_label (pos count) (write_label x r)) inc
      ∙ ap some (rw (l, i, u) refl)
