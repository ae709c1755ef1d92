-- ===== src/Ui/Rows.antt =====
-- lx.config.ui.c: the rows and the table of universes.
use mathlib.Core.Option.{some-injective}
use lxmax.Common.{
  suc, ◌≡◌, refl, ap, subst, ◌∙◌, if◌then◌else◌, Bool, true, false, not, ◌&&◌, ◌||◌, List, [], ◌∷◌,
  ◌++◌, Option, none, some, ◌>>=◌, arith,
}
use lxmax.Max.{System, Symbol, sym_eq, sym_eq_iff, Hashtab}
use lxmax.Universe.Config.{UniverseConfig}
use lxmax.Service.{Tables, Service, universes_add, universes_remove}
use lxmax.Service.Invariant.{HoldsValid}
use lxmax.Service.Table.{Stores}
use lxmax.Remote.Edits.{Deletes}
use lxmax.Sorted.{Listing}
use lxmax.Ui.{
  ConfigUi, notify_updated, config_at, delete_row, base_config, next_config, add_row,
  ui_add_universe, remove_row, remove_found, ui_remove_universe,
}

abbrev pub has_row : Symbol → List Symbol → Bool
has_row k [] = false
has_row k (r ∷ rows) = sym_eq r k || has_row k rows

abbrev pub is_some : Option UniverseConfig → Bool
is_some none = false
is_some (some c) = true

-- The rows are the names under which the table has a universe.
abbrev pub Shown : ConfigUi → Type 0
Shown x = (k : Symbol) → has_row k x.rows ≡ is_some (x.service.universes.lookup k)

has_row-append :
    (k n : Symbol) (rows : List Symbol)
    → has_row k (rows ++ (n ∷ [])) ≡ (has_row k rows || sym_eq n k)
has_row-append k n [] = ground arith
has_row-append k n (r ∷ rows) = ground (arith, has_row-append k n rows)

has_row-delete_row :
    (k n : Symbol) (rows : List Symbol)
    → has_row k (delete_row n rows) ≡ (has_row k rows && not (sym_eq n k))
unfolding delete_row
has_row-delete_row k n [] = ground arith
has_row-delete_row k n (r ∷ rows) =
    let ih = has_row-delete_row k n rows in
    let a = sym_eq_iff n r in
    let b = sym_eq_iff r k in let c = sym_eq_iff n k in ground (arith, ih, a, b, c)

is_some-stored :
    (b : Bool) (o : Option UniverseConfig) (c : UniverseConfig)
    → (is_some o || b) ≡ is_some (if b then some c else o)
is_some-stored true none c = refl
is_some-stored true (some d) c = refl
is_some-stored false none c = refl
is_some-stored false (some d) c = refl

is_some-deleted :
    (b : Bool) (o : Option UniverseConfig) → (is_some o && not b) ≡ is_some (if b then none else o)
is_some-deleted true none = refl
is_some-deleted true (some d) = refl
is_some-deleted false none = refl
is_some-deleted false (some d) = refl

module _ (sys : System) (tables : Tables) (sdk : Listing UniverseConfig) where
  added-lookup :
      (s : Service) (config : UniverseConfig) (k : Symbol)
      → Stores tables
      → (universes_add tables s config).universes.lookup k
        ≡ (if sym_eq config.name k then some config else s.universes.lookup k)
  unfolding universes_add
  added-lookup s config k stores =
      let r = stores s.universes config.name config in
      rw (r.1, universes_add) (tables.hashtab_store_lem s.universes r.0 config.name config r.1 k)

  removed-lookup :
      (s : Service) (config : UniverseConfig) (k : Symbol)
      → Deletes tables
      → s.universes.lookup config.name ≡ some config
      → (universes_remove tables s config).universes.lookup k
        ≡ (if sym_eq config.name k then none else s.universes.lookup k)
  unfolding universes_remove
  removed-lookup s config k deletes found =
      let r = deletes s.universes config.name config found in
      rw (r.1, universes_remove) (tables.hashtab_delete_lem s.universes r.0 config.name r.1 k)

  add_row-Shown :
      (config : UniverseConfig) (x : ConfigUi)
      → Stores tables
      → Shown x
      → Shown (add_row sys tables sdk config x)
  unfolding add_row notify_updated
  add_row-Shown config x stores shown k =
      let s : Service = record x.service { names_used = suc x.service.names_used } in
      let l = added-lookup s config k stores in
      rw (l, has_row-append k config.name x.rows, shown k)
        (is_some-stored (sym_eq config.name k) (x.service.universes.lookup k) config)

  remove_row-Shown :
      (config : UniverseConfig) (x : ConfigUi)
      → Deletes tables
      → x.service.universes.lookup config.name ≡ some config
      → Shown x
      → Shown (remove_row sys tables sdk config x)
  unfolding remove_row notify_updated
  remove_row-Shown config x deletes found shown k =
      let l = removed-lookup x.service config k deletes found in
      rw (l, has_row-delete_row k config.name x.rows, shown k)
        (is_some-deleted (sym_eq config.name k) (x.service.universes.lookup k))

  added-Shown :
      (x y : ConfigUi) (o : Option UniverseConfig)
      → Stores tables
      → Shown x
      → (o >>= (λ (config : UniverseConfig). some (add_row sys tables sdk config x))) ≡ some y
      → Shown y
  added-Shown x y none stores shown e = absurd (ground (arith, e))
  added-Shown x y (some config) stores shown e =
      subst Shown (some-injective (add_row sys tables sdk config x) y e)
        (add_row-Shown config x stores shown)

  config_at-name :
      (t : Hashtab UniverseConfig) (row : Option Symbol) (config : UniverseConfig)
      → config_at t row ≡ some config
      → (name : Symbol) × (t.lookup name ≡ some config)
  config_at-name t none config e = absurd (ground (arith, e))
  config_at-name t (some name) config e = (name, e)

  removed-Shown :
      (x : ConfigUi) (o : Option UniverseConfig)
      → Deletes tables
      → HoldsValid x.service.universes
      → config_at x.service.universes x.selected_row ≡ o
      → Shown x
      → Shown (remove_found sys tables sdk o x)
  unfolding remove_found
  removed-Shown x none deletes valid found shown = shown
  removed-Shown x (some config) deletes valid found shown =
      let at = config_at-name x.service.universes x.selected_row config found in
      let named : config.name ≡ at.0 = (valid at.0 config at.1).1 in
      remove_row-Shown config x deletes (ap x.service.universes.lookup named ∙ at.1) shown

  -- If every entry of the table is a valid configuration under its own name, and the table takes every
  -- entry and deletes every key that it has, adding a universe and removing the selected one keep the
  -- rows the names under which the table has a universe.
  pub ui_edits-Shown :
      (x y : ConfigUi)
      → Stores tables
      → Deletes tables
      → HoldsValid x.service.universes
      → Shown x
      → ui_add_universe sys tables sdk x ≡ some y
      → Shown y × Shown (ui_remove_universe sys tables sdk x)
  unfolding ui_add_universe ui_remove_universe
  ui_edits-Shown x y stores deletes valid shown e = (
    added-Shown x y
        (next_config sys tables sdk x.service (tables.unique x.service.names_used)
          (base_config sys tables sdk x))
        stores shown e,
    removed-Shown x (config_at x.service.universes x.selected_row) deletes valid refl shown,
  )
