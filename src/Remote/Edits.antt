-- ===== src/Remote/Edits.antt =====
-- The messages of `lx.config` on the table of universes, key by key.
use lxmax.Common.{
  ◌≡◌, refl, ap, sym, ◌∙◌, Bool-cases, Option-cases, inl, inr, if◌then◌else◌, none, some,
}
use lxmax.Max.{System, Symbol, sym_eq, sym_eq_iff, Hashtab}
use lxmax.Universe.Config.{UniverseConfig, universe_config_new}
use lxmax.Service.{Tables, Service, universes_add, universes_remove}
use lxmax.Service.Invariant.{HoldsValid}
use lxmax.Service.Table.{Stores}
use lxmax.Remote.{add_universe, remove_universe}

-- `hashtab_delete` returns no error for a key that the table has.
abbrev pub Deletes : Tables → Type 0
Deletes tables =
    (t : Hashtab UniverseConfig) (key : Symbol) (c : UniverseConfig)
    → t.lookup key ≡ some c
    → (u : Hashtab UniverseConfig) × (tables.hashtab_delete t key ≡ some u)

module _ (sys : System) (tables : Tables) where
  -- If the table takes every entry, adding a universe puts a new configuration under the next unique
  -- name and changes no other key.
  pub add_universe-lookup :
      (x : Service) (k : Symbol)
      → Stores tables
      → (add_universe sys tables x).universes.lookup k ≡ (
          if sym_eq (tables.unique x.names_used) k
          then some (universe_config_new (tables.unique x.names_used))
          else x.universes.lookup k)
  unfolding add_universe universes_add universe_config_new
  add_universe-lookup x k stores =
      let c = universe_config_new (tables.unique x.names_used) in
      let s = stores x.universes c.name c in
      rw (s.1, universes_add) (tables.hashtab_store_lem x.universes s.0 c.name c s.1 k)

  missing_key :
      (t : Hashtab UniverseConfig) (name k : Symbol)
      → t.lookup name ≡ none
      → t.lookup k ≡ (if sym_eq name k then none else t.lookup k)
  missing_key t name k e = elim (Bool-cases (sym_eq name k)) [
    | inl same ↦ rw same (ap t.lookup (sym ((sym_eq_iff name k).0 same)) ∙ e)
    | inr other ↦ rw other refl
  ]

  -- If every entry of the table is a valid configuration under its own name and the table deletes
  -- every key that it has, removing a universe by its name leaves no entry under this name and
  -- changes no other key.
  pub remove_universe-lookup :
      (x : Service) (name k : Symbol)
      → HoldsValid x.universes
      → Deletes tables
      → (remove_universe sys tables x name).universes.lookup k
        ≡ (if sym_eq name k then none else x.universes.lookup k)
  unfolding remove_universe universes_remove
  remove_universe-lookup x name k h deletes = elim (Option-cases (x.universes.lookup name)) [
    | inl missing ↦ rw (missing, remove_universe) (missing_key x.universes name k missing)
    | inr (c, found) ↦
        let named : c.name ≡ name = (h name c found).1 in
        let d = deletes x.universes name c found in
        let e : tables.hashtab_delete x.universes c.name ≡ some d.0 =
          ap (tables.hashtab_delete x.universes) named ∙ d.1 in
        rw (found, remove_universe)
          (rw (e, universes_remove) (tables.hashtab_delete_lem x.universes d.0 name d.1 k))
  ]
