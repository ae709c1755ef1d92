-- ===== src/Remote/Linked.antt =====
-- lx.config.c: what its messages, and writes to configurations, tell the service.
use std.Path.{fun_ext}
use lxmax.Common.{
  Option, none, Bool-cases, ◌≡◌, inl, inr, refl, ap, sym, subst, ◌∙◌, Bool, true, false, some,
  if◌then◌else◌, ltb_ℤ, pos, arith,
}
use lxmax.Max.{Symbol, sym_eq, sym_eq_iff, System, Hashtab}
use lxmax.Universe.Config.{UniverseConfig}
use lxmax.Service.{Tables, Service, universes_clear}
use lxmax.Service.Announced.{
  Announced, unchanged, Announced-trans, universes_clear-Announced, universes_quick_patch-Announced,
}
use lxmax.Service.Linked.{
  attached_after, IsLinked, universes_clear-IsLinked, universes_quick_patch-IsLinked,
}
use lxmax.Universe.Attributes.{Setting}
use lxmax.Remote.{Checked, rejected, accepted, quick_patch_checked}
use lxmax.Remote.Reach.{written, write_universe}

module _ (sys : System) (tables : Tables) where
  pub quick_patch-Announced :
      (x : Service) (r : Checked) → Announced x (quick_patch_checked sys tables x r).0
  unfolding quick_patch_checked
  quick_patch-Announced x (rejected r) = unchanged x
  quick_patch-Announced x (accepted is_clear count p) =
      Announced-trans x _ _ (cleared (ltb_ℤ (pos 0) is_clear))
        (universes_quick_patch-Announced sys tables _ count p)
    where
      cleared : (b : Bool) → Announced x (if b then universes_clear tables x else x)
      cleared true = universes_clear-Announced tables x
      cleared false = unchanged x

  pub quick_patch-IsLinked :
      (x : Service) (r : Checked) → IsLinked x → IsLinked (quick_patch_checked sys tables x r).0
  unfolding quick_patch_checked
  quick_patch-IsLinked x (rejected r) h = h
  quick_patch-IsLinked x (accepted is_clear count p) h =
      universes_quick_patch-IsLinked sys tables _ count p (cleared (ltb_ℤ (pos 0) is_clear))
    where
      cleared : (b : Bool) → IsLinked (if b then universes_clear tables x else x)
      cleared true = universes_clear-IsLinked tables x
      cleared false = h

  -- A write changes entries, but adds none.
  written-found :
      (x : Service) (name : Symbol) (s : Setting) (k : Symbol) (r : Option UniverseConfig)
      (c : UniverseConfig)
      → written sys tables x name s r k ≡ some c
      → (d : UniverseConfig) × (r ≡ some d)
  unfolding written
  written-found x name s k none c e = absurd (ground (arith, e))
  written-found x name s k (some d) c e = (d, refl)

  pub write-IsLinked :
      (x : Service) (name : Symbol) (s : Setting)
      → IsLinked x
      → IsLinked (write_universe sys tables x name s)
  unfolding write_universe
  write-IsLinked x name s h =
      λ k c found. let d = written-found x name s k (x.universes.lookup k) c found in h k d.0 d.1

  -- A write to a configuration that the service is not attached to changes nothing in the table.
  written-missing :
      (x : Service) (name : Symbol) (s : Setting) (k : Symbol) (r : Option UniverseConfig)
      → x.universes.lookup k ≡ r
      → IsLinked x
      → attached_after name false x.events ≡ false
      → written sys tables x name s r k ≡ r
  unfolding written
  written-missing x name s k none e h a = refl
  written-missing x name s k (some d) e h a = elim (Bool-cases (sym_eq name k)) [
    | inl same ↦
        let t : attached_after name false x.events ≡ true =
          subst (λ n. attached_after n false x.events ≡ true) (sym ((sym_eq_iff _ _).0 same))
            (h k d e) in
        absurd (ground (arith, sym a ∙ t))
    | inr other ↦ rw other refl
  ]

  abbrev with_lookup :
      Hashtab UniverseConfig → (Symbol → Option UniverseConfig) → Hashtab UniverseConfig
  with_lookup t lookup = record t { lookup = lookup }

  pub write-same :
      (x : Service) (name : Symbol) (s : Setting)
      → IsLinked x
      → attached_after name false x.events ≡ false
      → (write_universe sys tables x name s).universes ≡ x.universes
  unfolding write_universe
  write-same x name s h a =
      ap (with_lookup x.universes)
        (fun_ext (λ k. written-missing x name s k (x.universes.lookup k) refl h a))
