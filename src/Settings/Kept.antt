-- ===== src/Settings/Kept.antt =====
-- lxmax/lx.service.cpp: what one write of an entry of a configuration keeps.
use lxmax.Common.{
  ◌≡◌, ◌⊎◌, refl, ap, sym, subst, ◌∙◌, inl, inr, List, [], ◌∷◌, Option, some, pos, ℤ, Option-cases,
}
use lxmax.Max.{System, Symbol, Atom, a_long, a_sym}
use lxmax.Universe.Kinds.{Protocol, artnet, universe_type_to_sym, universe_protocol_to_sym}
use lxmax.Universe.Kinds.Laws.{universe_type_from_sym_iff, universe_protocol_from_sym_iff}
use lxmax.Universe.Config.{UniverseConfig, Interfaces}
use lxmax.Universe.Config.Frame.{universe_config_find_interface-Same}
use lxmax.Universe.Attributes.{
  Setting, attr_set, label, type, enable, protocol, protocol_mode, protocol_interface,
  internal_universe, type_set, protocol_set, protocol_mode_set, protocol_interface_set,
  protocol_universe_set, unicast_addresses_set, type_of_atom, protocol_of_atom, keep_or,
  checked_type, universe_of_atom,
}
use lxmax.Universe.Invariant.{IsValid}
use lxmax.Universe.Invariant.Mode.{protocol_of_offered}
use lxmax.Universe.Laws.Kind.{checked_type-eq, type_set-Kind, protocol_set-Kind}
use lxmax.Settings.Stored.{kept-unicast}

module _ (sys : System) (service : Interfaces) (c : UniverseConfig) (type_sym : Symbol) where
  -- The write of an entry of the dictionary of `c`. What an entry of the others has does not matter.
  abbrev pub IsEntry : Setting → Type 0
  IsEntry (label argv) = argv ≡ a_sym c.label ∷ []
  IsEntry (type atom) = atom ≡ a_sym type_sym
  IsEntry (enable argv) = argv ≡ a_long c.enable ∷ []
  IsEntry (protocol atom) = atom ≡ a_sym (universe_protocol_to_sym c.protocol)
  IsEntry (protocol_mode atom) = atom ≡ a_sym c.protocol_mode
  IsEntry (protocol_interface atom) = atom ≡ a_sym c.protocol_interface
  IsEntry (internal_universe argv) = argv ≡ a_long c.internal_universe ∷ []
  IsEntry _ = Unit {0}

  -- Before its protocol is written, a new configuration has Art-Net.
  abbrev pub Known : UniverseConfig → Type 0
  Known x = (x.protocol ≡ artnet) ⊎ (x.protocol ≡ c.protocol)

  -- `y` has the fields of `c` that `x` has.
  pub record IsCloser (x y : UniverseConfig) : Type 0 where
    pub known : Known y
    pub label_kept : x.label ≡ c.label → y.label ≡ c.label
    pub type_kept : x.type ≡ c.type → y.type ≡ c.type
    pub enable_kept : x.enable ≡ c.enable → y.enable ≡ c.enable
    pub protocol_kept : x.protocol ≡ c.protocol → y.protocol ≡ c.protocol
    pub internal_kept :
        x.internal_universe ≡ c.internal_universe → y.internal_universe ≡ c.internal_universe

  pub same-IsCloser :
      (x y : UniverseConfig)
      → Known x
      → y.label ≡ x.label
      → y.type ≡ x.type
      → y.enable ≡ x.enable
      → y.protocol ≡ x.protocol
      → y.internal_universe ≡ x.internal_universe
      → IsCloser x y
  same-IsCloser x y k l t e p i = record {
    known = subst (λ q. (q ≡ artnet) ⊎ (q ≡ c.protocol)) (sym p) k;
    label_kept = λ h. l ∙ h;
    type_kept = λ h. t ∙ h;
    enable_kept = λ h. e ∙ h;
    protocol_kept = λ h. p ∙ h;
    internal_kept = λ h. i ∙ h;
  }

  -- A new configuration offers the type of `c` before and after its protocol is written.
  known_type :
      (p : Protocol)
      → IsValid c
      → (p ≡ artnet) ⊎ (p ≡ c.protocol)
      → checked_type sys p c.type ≡ c.type
  unfolding checked_type
  known_type p v (inl e) = rw e refl
  known_type p v (inr e) = rw e (checked_type-eq sys c.protocol c.type v.type_offered)

  protocol_written :
      IsValid c
      → protocol_of_atom sys (a_sym (universe_protocol_to_sym c.protocol)) ≡ some c.protocol
  unfolding protocol_of_atom
  protocol_written v =
      (universe_protocol_from_sym_iff (universe_protocol_to_sym c.protocol) c.protocol).1
        (refl, protocol_of_offered c.protocol c.type v.type_offered)

  pub set-label :
      (x : UniverseConfig) → (attr_set sys service x (label (a_sym c.label ∷ []))).label ≡ c.label
  unfolding attr_set
  set-label x = sys.max.store_sym_lem x.label c.label

  pub set-enable :
      (x : UniverseConfig)
      → IsValid c
      → (attr_set sys service x (enable (a_long c.enable ∷ []))).enable ≡ c.enable
  unfolding attr_set
  set-enable x v =
      sys.max.store_clip_lem (pos 0) (pos 1) x.enable c.enable
      ∙ sys.max.clamp_within c.enable (pos 0) (pos 1) v.enable_range.0 v.enable_range.1

  pub set-internal :
      (x : UniverseConfig)
      → IsValid c
      → (attr_set sys service x
          (internal_universe (a_long c.internal_universe ∷ []))).internal_universe
        ≡ c.internal_universe
  unfolding attr_set
  set-internal x v =
      sys.max.store_clip_lem (pos 0) (pos 63999) x.internal_universe c.internal_universe
      ∙ sys.max.clamp_within c.internal_universe (pos 0) (pos 63999) v.internal_range.0
          v.internal_range.1

  pub set-type :
      (x : UniverseConfig)
      → IsValid c
      → universe_type_to_sym c.type ≡ some type_sym
      → Known x
      → (attr_set sys service x (type (a_sym type_sym))).type ≡ c.type
  unfolding attr_set type_of_atom type_set
  set-type x v t k =
      (type_set-Kind sys x x.protocol c.type (a_sym type_sym) refl
        ((universe_type_from_sym_iff type_sym c.type).1 t)).1
      ∙ known_type x.protocol v k

  pub set-protocol :
      (x : UniverseConfig)
      → IsValid c
      → (attr_set sys service x (protocol (a_sym (universe_protocol_to_sym c.protocol)))).protocol
        ≡ c.protocol
  unfolding attr_set protocol_set protocol_mode_set
  set-protocol x v =
      ap (λ (u : UniverseConfig). u.protocol) (universe_config_find_interface-Same sys service _)
      ∙ ap (λ (o : Option Protocol). keep_or o x.protocol) (protocol_written v)

  pub protocol_set-IsCloser :
      (x : UniverseConfig)
      → IsValid c
      → IsCloser x (protocol_set sys service x (a_sym (universe_protocol_to_sym c.protocol)))
  unfolding protocol_set protocol_mode_set attr_set
  protocol_set-IsCloser x v =
      let same = universe_config_find_interface-Same sys service _ in
      record {
        known = inr (set-protocol x v);
        label_kept = λ h. ap (λ (u : UniverseConfig). u.label) same ∙ h;
        type_kept = λ h.
            (protocol_set-Kind sys service x c.protocol c.type
              (a_sym (universe_protocol_to_sym c.protocol)) h (protocol_written v)
              v.type_offered).1;
        enable_kept = λ h. ap (λ (u : UniverseConfig). u.enable) same ∙ h;
        protocol_kept = λ h. set-protocol x v;
        internal_kept = λ h. ap (λ (u : UniverseConfig). u.internal_universe) same ∙ h;
      }

  pub interface_set-IsCloser :
      (x : UniverseConfig) (s : Symbol)
      → Known x
      → IsCloser x (protocol_interface_set sys service x (a_sym s))
  unfolding protocol_interface_set
  interface_set-IsCloser x s k =
      let same =
        universe_config_find_interface-Same sys service (record x { protocol_interface = s }) in
      same-IsCloser x _ k (ap (λ (u : UniverseConfig). u.label) same)
        (ap (λ (u : UniverseConfig). u.type) same) (ap (λ (u : UniverseConfig). u.enable) same)
        (ap (λ (u : UniverseConfig). u.protocol) same)
        (ap (λ (u : UniverseConfig). u.internal_universe) same)

  pub type_set-IsCloser :
      (x : UniverseConfig)
      → IsValid c
      → universe_type_to_sym c.type ≡ some type_sym
      → Known x
      → IsCloser x (type_set sys x (a_sym type_sym))
  unfolding attr_set type_set protocol_mode_set
  type_set-IsCloser x v t k = record {
    known = k;
    label_kept = λ h. h;
    type_kept = λ h. set-type x v t k;
    enable_kept = λ h. h;
    protocol_kept = λ h. h;
    internal_kept = λ h. h;
  }

  pub mode_set-IsCloser :
      (x : UniverseConfig) (s : Symbol)
      → IsValid c
      → Known x
      → IsCloser x (protocol_mode_set sys x (a_sym s))
  unfolding protocol_mode_set
  mode_set-IsCloser x s v k = record {
    known = k;
    label_kept = λ h. h;
    type_kept = λ h. ap (checked_type sys x.protocol) h ∙ known_type x.protocol v k;
    enable_kept = λ h. h;
    protocol_kept = λ h. h;
    internal_kept = λ h. h;
  }

  pub universe_set-IsCloser :
      (x : UniverseConfig) (value : ℤ) (atom : Atom)
      → Known x
      → IsCloser x (protocol_universe_set sys value x atom)
  unfolding protocol_universe_set
  universe_set-IsCloser x value atom k = elim (Option-cases (universe_of_atom sys atom value)) [
    | inl e ↦ rw (e, protocol_universe_set) (same-IsCloser x x k refl refl refl refl refl)
    | inr (n, e) ↦ rw (e, protocol_universe_set) (same-IsCloser x _ k refl refl refl refl refl)
  ]

  pub unicast_set-IsCloser :
      (x : UniverseConfig) (argv : List Atom)
      → Known x
      → IsCloser x (unicast_addresses_set sys x argv)
  unicast_set-IsCloser x argv k =
      same-IsCloser x _ k (kept-unicast sys (λ u. u.label) x argv (λ a n. refl))
        (kept-unicast sys (λ u. u.type) x argv (λ a n. refl))
        (kept-unicast sys (λ u. u.enable) x argv (λ a n. refl))
        (kept-unicast sys (λ u. u.protocol) x argv (λ a n. refl))
        (kept-unicast sys (λ u. u.internal_universe) x argv (λ a n. refl))
