-- ===== src/Settings/Reordered.antt =====
-- lxmax/lx.service.cpp: the writes of the entries of a configuration, in any order.
use lxmax.Common.{◌≡◌, refl, subst, inl, inr, List, [], ◌∷◌, some, In, All}
use lxmax.Max.{System, Symbol}
use lxmax.Universe.Kinds.{universe_type_to_sym}
use lxmax.Universe.Config.{UniverseConfig, Interfaces}
use lxmax.Universe.Attributes.{
  Setting, attr_set, label, type, enable, status, protocol, protocol_mode, protocol_interface,
  internal_universe, protocol_universe, priority, unicast_addresses, priority_set,
}
use lxmax.Universe.Invariant.{IsValid}
use lxmax.Universe.Invariant.History.{attr_set_all}
use lxmax.Settings.Stored.{stored_settings}
use lxmax.Settings.Kept.{
  IsCloser, IsEntry, Known, interface_set-IsCloser, mode_set-IsCloser, protocol_set-IsCloser,
  same-IsCloser, set-enable, set-internal, set-label, set-protocol, set-type, type_set-IsCloser,
  unicast_set-IsCloser, universe_set-IsCloser,
}

module _ (sys : System) (service : Interfaces) (c : UniverseConfig) (type_sym : Symbol) where
  attr_set-IsCloser :
      (x : UniverseConfig) (s : Setting)
      → IsValid c
      → universe_type_to_sym c.type ≡ some type_sym
      → Known sys service c type_sym x
      → (IsEntry sys service c type_sym) s
      → IsCloser sys service c type_sym x (attr_set sys service x s)
  unfolding attr_set priority_set
  attr_set-IsCloser x (label argv) v t k e = rw e (record {
    known = k;
    label_kept = λ h. sys.max.store_sym_lem x.label c.label;
    type_kept = λ h. h;
    enable_kept = λ h. h;
    protocol_kept = λ h. h;
    internal_kept = λ h. h;
  })
  attr_set-IsCloser x (enable argv) v t k e = rw e (record {
    known = k;
    label_kept = λ h. h;
    type_kept = λ h. h;
    enable_kept = λ h. set-enable sys service c type_sym x v;
    protocol_kept = λ h. h;
    internal_kept = λ h. h;
  })
  attr_set-IsCloser x (internal_universe argv) v t k e = rw e (record {
    known = k;
    label_kept = λ h. h;
    type_kept = λ h. h;
    enable_kept = λ h. h;
    protocol_kept = λ h. h;
    internal_kept = λ h. set-internal sys service c type_sym x v;
  })
  attr_set-IsCloser x (type atom) v t k e = rw e (type_set-IsCloser sys service c type_sym x v t k)
  attr_set-IsCloser x (protocol atom) v t k e =
      rw e (protocol_set-IsCloser sys service c type_sym x v)
  attr_set-IsCloser x (protocol_mode atom) v t k e =
      rw e (mode_set-IsCloser sys service c type_sym x c.protocol_mode v k)
  attr_set-IsCloser x (protocol_interface atom) v t k e =
      rw e (interface_set-IsCloser sys service c type_sym x c.protocol_interface k)
  attr_set-IsCloser x (status argv) v t k e =
      same-IsCloser sys service c type_sym x _ k refl refl refl refl refl
  attr_set-IsCloser x (priority atom) v t k e =
      same-IsCloser sys service c type_sym x _ k refl refl refl refl refl
  attr_set-IsCloser x (protocol_universe value atom) v t k e =
      universe_set-IsCloser sys service c type_sym x value atom k
  attr_set-IsCloser x (unicast_addresses argv) v t k e =
      unicast_set-IsCloser sys service c type_sym x argv k

  -- What holds after one write of a list, and is kept by the others, holds after the list.
  module _ (v : IsValid c) (t : universe_type_to_sym c.type ≡ some type_sym)
      (G : UniverseConfig → Type 0)
      (keep : (x y : UniverseConfig) → IsCloser sys service c type_sym x y → G x → G y) where
    all-keep :
        (settings : List Setting) (x : UniverseConfig)
        → Known sys service c type_sym x
        → All (IsEntry sys service c type_sym) settings
        → G x
        → G (attr_set_all sys service x settings)
    unfolding attr_set_all
    all-keep [] x k all g = g
    all-keep (s ∷ settings) x k all g =
        let closer = attr_set-IsCloser x s v t k all.0 in
        all-keep settings (attr_set sys service x s) closer.known all.1 (keep x _ closer g)

    pub all-arrive :
        (own : Setting)
        → ((x : UniverseConfig) → Known sys service c type_sym x → G (attr_set sys service x own))
        → (settings : List Setting) (x : UniverseConfig) → Known sys service c type_sym x
        → All (IsEntry sys service c type_sym) settings
        → In own settings
        → G (attr_set_all sys service x settings)
    unfolding attr_set_all
    all-arrive own sets [] x k all i = absurd i
    all-arrive own sets (s ∷ settings) x k all (inl e) =
        all-keep settings (attr_set sys service x s) (attr_set-IsCloser x s v t k all.0).known all.1
          (subst (λ r. G (attr_set sys service x r)) e (sets x k))
    all-arrive own sets (s ∷ settings) x k all (inr i) =
        all-arrive own sets settings (attr_set sys service x s)
          (attr_set-IsCloser x s v t k all.0).known all.1 i

  pub arrived_fields :
      IsValid c
      → universe_type_to_sym c.type ≡ some type_sym
      → (settings : List Setting) (x : UniverseConfig) → Known sys service c type_sym x
      → All (IsEntry sys service c type_sym) settings
      → ((s : Setting) → In s (stored_settings sys c type_sym) → In s settings)
      → let y = attr_set_all sys service x settings in
        (y.label ≡ c.label)
        × (y.type ≡ c.type)
        × (y.enable ≡ c.enable)
        × (y.protocol ≡ c.protocol)
        × (y.internal_universe ≡ c.internal_universe)
  arrived_fields v t settings x k all has = (
    all-arrive v t (λ u. u.label ≡ c.label) (λ a b p. p.label_kept) _
        (λ u h. set-label sys service c type_sym u) settings x k all (has _ (inl refl)),
    all-arrive v t (λ u. u.type ≡ c.type) (λ a b p. p.type_kept) _
        (λ u h. set-type sys service c type_sym u v t h) settings x k all (has _ (inr (inl refl))),
    all-arrive v t (λ u. u.enable ≡ c.enable) (λ a b p. p.enable_kept) _
        (λ u h. set-enable sys service c type_sym u v) settings x k all
        (has _ (inr (inr (inl refl)))),
    all-arrive v t (λ u. u.protocol ≡ c.protocol) (λ a b p. p.protocol_kept) _
        (λ u h. set-protocol sys service c type_sym u v) settings x k all
        (has _ (inr (inr (inr (inl refl))))),
    all-arrive v t (λ u. u.internal_universe ≡ c.internal_universe) (λ a b p. p.internal_kept) _
        (λ u h. set-internal sys service c type_sym u v) settings x k all
        (has _ (inr (inr (inr (inr (inr (inr (inl refl)))))))),
  )
