-- ===== src/Remote/Reach.antt =====
-- Any sequence of messages and of writes to stored configurations.
use mathlib.Core.Option.{some-injective}
use lxmax.Common.{
  ◌≡◌, refl, subst, ◌∙◌, true, false, Bool, Bool-cases, Option-cases, inl, inr, if◌then◌else◌, List,
  [], ◌∷◌, Option, none, some, pos, ltb_ℤ, suc, arith,
}
use lxmax.Max.{System, Symbol, sym_eq, Atom}
use lxmax.Universe.Config.{UniverseConfig, universe_config_new}
use lxmax.Universe.Attributes.{Setting, attr_set}
use lxmax.Universe.Invariant.{IsValid, universe_config_new-IsValid}
use lxmax.Universe.Invariant.History.{attr_set-IsValid}
use lxmax.Service.{Tables, Service, universes_clear}
use lxmax.Service.Names.{name-attr_set}
use lxmax.Service.Invariant.{HoldsValid, universes-HoldsValid, universes_quick_patch-HoldsValid}
use lxmax.Remote.{
  Checked, rejected, accepted, add_universe, remove_universe, clear_universes, quick_patch,
  quick_patch_checked,
}

-- A message to `lx.config`, or a write through the SDK to the configuration of a name.
pub data Message : Type 0 where
  add clear : Message
  remove : Symbol → Message
  patch : List Atom → Message
  write : Symbol → Setting → Message

module _ (sys : System) (tables : Tables) where
  -- The table holds pointers: a write to the object is seen by every lookup.
  unfoldable pub written :
      Service → Symbol → Setting → Option UniverseConfig → Symbol → Option UniverseConfig
  written x name s none k = none
  written x name s (some c) k =
      if sym_eq name k then some (attr_set sys x.interfaces c s) else some c

  unfoldable pub write_universe : Service → Symbol → Setting → Service
  unfolding written
  write_universe x name s = record x {
    universes = record {
      getkeys = x.universes.getkeys;
      lookup = λ k. written x name s (x.universes.lookup k) k;
    };
  }

  unfoldable pub step : Service → Message → Service
  unfolding write_universe
  step x add = add_universe sys tables x
  step x clear = clear_universes sys tables x
  step x (remove name) = remove_universe sys tables x name
  step x (patch argv) = (quick_patch sys tables x argv).0
  step x (write name s) = write_universe x name s

  unfoldable pub run : Service → List Message → Service
  unfolding step
  run x [] = x
  run x (m ∷ messages) = run (step x m) messages

  written-HoldsValid :
      (x : Service) (name : Symbol) (s : Setting) (k : Symbol) (r : Option UniverseConfig)
      (c : UniverseConfig)
      → ((d : UniverseConfig) → r ≡ some d → IsValid d × (d.name ≡ k))
      → written x name s r k ≡ some c
      → IsValid c × (c.name ≡ k)
  unfolding written
  written-HoldsValid x name s k none c h e = absurd (ground (arith, e))
  written-HoldsValid x name s k (some d) c h e = elim (Bool-cases (sym_eq name k)) [
    | inl same ↦
        subst (λ (y : UniverseConfig). IsValid y × (y.name ≡ k)) (some-injective _ c (rw same at e))
          (
            attr_set-IsValid sys x.interfaces d s (h d refl).0,
            name-attr_set sys x.interfaces d s ∙ (h d refl).1,
          )
    | inr other ↦
        subst (λ (y : UniverseConfig). IsValid y × (y.name ≡ k))
          (some-injective _ c (rw other at e)) (h d refl)
  ]

  quick_patch_checked-HoldsValid :
      (x : Service) (r : Checked)
      → HoldsValid x.universes
      → HoldsValid (quick_patch_checked sys tables x r).0.universes
  unfolding quick_patch_checked
  quick_patch_checked-HoldsValid x (rejected r) h = h
  quick_patch_checked-HoldsValid x (accepted is_clear count p) h =
      universes_quick_patch-HoldsValid sys tables _ count p (cleared (ltb_ℤ (pos 0) is_clear))
    where
      cleared : (b : Bool) → HoldsValid (if b then universes_clear tables x else x).universes
      cleared true =
          (universes-HoldsValid tables x (universe_config_new []) (universe_config_new-IsValid [])
            h).2
      cleared false = h

  step-HoldsValid :
      (x : Service) (m : Message) → HoldsValid x.universes → HoldsValid (step x m).universes
  unfolding step add_universe remove_universe clear_universes quick_patch write_universe
  step-HoldsValid x add h =
      (universes-HoldsValid tables (record x { names_used = suc x.names_used })
        (universe_config_new (tables.unique x.names_used)) (universe_config_new-IsValid _) h).0
  step-HoldsValid x clear h =
      (universes-HoldsValid tables x (universe_config_new []) (universe_config_new-IsValid []) h).2
  step-HoldsValid x (remove name) h = elim (Option-cases (x.universes.lookup name)) [
    | inl missing ↦ rw (missing, remove_universe) h
    | inr (c, found) ↦
        rw (found, remove_universe) (universes-HoldsValid tables x c (h name c found).0 h).1
  ]
  step-HoldsValid x (patch argv) h = quick_patch_checked-HoldsValid x _ h
  step-HoldsValid x (write name s) h =
      λ k c found. written-HoldsValid x name s k (x.universes.lookup k) c (h k) found

  -- From a table whose entries are valid configurations under their own names, every sequence of
  -- messages to `lx.config` and of writes to the attributes of stored configurations leads to such a
  -- table.
  pub run-HoldsValid :
      (x : Service) (messages : List Message)
      → HoldsValid x.universes
      → HoldsValid (run x messages).universes
  unfolding run
  run-HoldsValid x [] h = h
  run-HoldsValid x (m ∷ messages) h = run-HoldsValid (step x m) messages (step-HoldsValid x m h)
