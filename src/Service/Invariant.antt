-- ===== src/Service/Invariant.antt =====
-- lx_service.c: the invariant of the table of universes.
use mathlib.Core.Option.{some-injective}
use lxmax.Common.{
  ℕ, zero, suc, ◌≡◌, refl, sym, subst, ◌∙◌, Bool-cases, Option-cases, inl, inr, Option, none, some,
  ℤ, pos_part, ltb,
}
use lxmax.Max.{System, Symbol, sym_eq, sym_eq_iff, Hashtab}
use lxmax.Universe.Config.{UniverseConfig, Interfaces}
use lxmax.Universe.Invariant.{IsValid}
use lxmax.Universe.Invariant.History.{history-IsValid}
use lxmax.Service.{
  Tables, Service, universes_add, universes_remove, universes_clear, Patch, patched, patch_stored,
  patch_round, patch_rounds, universes_quick_patch, patch_settings,
}

-- What is found under a name is a valid configuration of that name.
abbrev pub HoldsValid : Hashtab UniverseConfig → Type 0
HoldsValid t = (k : Symbol) (c : UniverseConfig) → t.lookup k ≡ some c → IsValid c × (c.name ≡ k)

module _ (tables : Tables) where
  store-HoldsValid :
      (t u : Hashtab UniverseConfig) (c : UniverseConfig)
      → tables.hashtab_store t c.name c ≡ some u
      → IsValid c
      → HoldsValid t
      → HoldsValid u
  store-HoldsValid t u c stored v h k d found = elim (Bool-cases (sym_eq c.name k)) [
    | inl same ↦
        let e : some c ≡ some d =
          sym (rw same at (tables.hashtab_store_lem t u c.name c stored k)) ∙ found in
        subst (λ (y : UniverseConfig). IsValid y × (y.name ≡ k)) (some-injective c d e)
          (v, (sym_eq_iff _ _).0 same)
    | inr other ↦ h k d (sym (rw other at (tables.hashtab_store_lem t u c.name c stored k)) ∙ found)
  ]

  delete-HoldsValid :
      (t u : Hashtab UniverseConfig) (key : Symbol)
      → tables.hashtab_delete t key ≡ some u
      → HoldsValid t
      → HoldsValid u
  delete-HoldsValid t u key deleted h k d found = elim (Bool-cases (sym_eq key k)) [
    | inl same ↦ cc (rw same at (tables.hashtab_delete_lem t u key deleted k), found)
    | inr other ↦ h k d (sym (rw other at (tables.hashtab_delete_lem t u key deleted k)) ∙ found)
  ]

  -- If every entry of the table is a valid configuration under its own name, this is so after a
  -- valid configuration is added or removed, and after the table is cleared.
  pub universes-HoldsValid :
      (x : Service) (c : UniverseConfig)
      → IsValid c
      → HoldsValid x.universes
      → HoldsValid (universes_add tables x c).universes
        × HoldsValid (universes_remove tables x c).universes
        × HoldsValid (universes_clear tables x).universes
  unfolding universes_add universes_remove universes_clear
  universes-HoldsValid x c v h = (
    elim (Option-cases (tables.hashtab_store x.universes c.name c)) [
      | inl e ↦ rw (e, universes_add) h
      | inr (t, e) ↦ rw (e, universes_add) (store-HoldsValid x.universes t c e v h)
    ],
    elim (Option-cases (tables.hashtab_delete x.universes c.name)) [
      | inl e ↦ rw (e, universes_remove) h
      | inr (t, e) ↦ rw (e, universes_remove) (delete-HoldsValid x.universes t c.name e h)
    ],
    λ k d found. cc (tables.hashtab_clear_lem x.universes k, found),
  )

module _ (sys : System) (tables : Tables) where
  patched-IsValid :
      (service : Interfaces) (p : Patch) (name : Symbol) (i : ℕ)
      → IsValid (patched sys tables service p name i)
  unfolding patched
  patched-IsValid service p name i = history-IsValid sys service name (patch_settings p i)

  patch_stored-HoldsValid :
      (x : Service) (c : UniverseConfig) (r : Option (Hashtab UniverseConfig))
      → tables.hashtab_store x.universes c.name c ≡ r
      → IsValid c
      → HoldsValid x.universes
      → HoldsValid (patch_stored sys tables x c r).universes
  unfolding patch_stored
  patch_stored-HoldsValid x c none e v h = h
  patch_stored-HoldsValid x c (some t) e v h = store-HoldsValid tables x.universes t c e v h

  patch_round-HoldsValid :
      (p : Patch) (i : ℕ) (x : Service)
      → HoldsValid x.universes
      → HoldsValid (patch_round sys tables p i x).universes
  unfolding patch_round
  patch_round-HoldsValid p i x h =
      patch_stored-HoldsValid (record x { names_used = suc x.names_used })
        (patched sys tables x.interfaces p (tables.unique x.names_used) i) _ refl
        (patched-IsValid x.interfaces p (tables.unique x.names_used) i) h

  patch_rounds-HoldsValid :
      (p : Patch) (i rounds : ℕ) (x : Service)
      → HoldsValid x.universes
      → HoldsValid (patch_rounds sys tables p i rounds x).universes
  unfolding patch_rounds
  patch_rounds-HoldsValid p i zero x h = h
  patch_rounds-HoldsValid p i (suc rounds) x h =
      patch_rounds-HoldsValid p (suc i) rounds (patch_round sys tables p i x)
        (patch_round-HoldsValid p i x h)

  -- If every entry of the table is a valid configuration under its own name, this is so after a
  -- quick patch, whatever its arguments are.
  pub universes_quick_patch-HoldsValid :
      (x : Service) (patch_count : ℤ) (p : Patch)
      → HoldsValid x.universes
      → HoldsValid (universes_quick_patch sys tables x patch_count p).universes
  unfolding universes_quick_patch
  universes_quick_patch-HoldsValid x patch_count p h =
      let rounds = patch_rounds-HoldsValid p 0 (pos_part patch_count) x h in
      elim (Bool-cases (ltb 0 (pos_part patch_count))) [
        | inl positive ↦ rw positive rounds
        | inr empty ↦ rw empty rounds
      ]
