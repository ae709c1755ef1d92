-- ===== src/Service/Linked.antt =====
-- lx_service.c: the service is attached to every configuration in its table.
use lxmax.Common.{
  ℕ, zero, suc, ◌≡◌, refl, sym, subst, ◌∙◌, Bool, true, false, Bool-cases, Option-cases, inl, inr,
  if◌then◌else◌, List, [], ◌∷◌, ◌++◌, Option, none, some, ℤ, pos_part, ltb,
}
use lxmax.Max.{System, Symbol, sym_eq, sym_eq_iff, Hashtab}
use lxmax.Universe.Config.{UniverseConfig}
use lxmax.Service.{
  Tables, Service, Event, attach, detach, universes_updated, universes_add, universes_remove,
  universes_clear, Patch, patched, patch_stored, patch_round, patch_rounds, universes_quick_patch,
}

-- Whether the service is attached to the object of a name after the events, if it is so before.
abbrev pub attached_after : Symbol → Bool → List Event → Bool
attached_after k b [] = b
attached_after k b (attach s ∷ es) = attached_after k (if sym_eq s k then true else b) es
attached_after k b (detach s ∷ es) = attached_after k (if sym_eq s k then false else b) es
attached_after k b (universes_updated ∷ es) = attached_after k b es

pub attached_after-append :
    (k : Symbol) (es fs : List Event) (b : Bool)
    → attached_after k b (es ++ fs) ≡ attached_after k (attached_after k b es) fs
attached_after-append k [] fs b = refl
attached_after-append k (attach s ∷ es) fs b =
    attached_after-append k es fs (if sym_eq s k then true else b)
attached_after-append k (detach s ∷ es) fs b =
    attached_after-append k es fs (if sym_eq s k then false else b)
attached_after-append k (universes_updated ∷ es) fs b = attached_after-append k es fs b

-- `hashtab_delete` fails only for a key that the table does not have.
abbrev pub Deletes : Tables → Type 0
Deletes tables =
    (t : Hashtab UniverseConfig) (key : Symbol)
    → tables.hashtab_delete t key ≡ none
    → t.lookup key ≡ none

-- The service is attached to what is found in its table.
abbrev pub IsLinked : Service → Type 0
IsLinked x =
    (k : Symbol) (c : UniverseConfig)
    → x.universes.lookup k ≡ some c
    → attached_after k false x.events ≡ true

module _ (tables : Tables) where
  -- A table after a store, where the events end with the attachment and with what keeps it.
  store-IsLinked :
      (x : Service) (c : UniverseConfig) (t : Hashtab UniverseConfig) (k : Symbol)
      (d : UniverseConfig)
      → tables.hashtab_store x.universes c.name c ≡ some t
      → IsLinked x
      → t.lookup k ≡ some d
      → attached_after k false (x.events ++ (attach c.name ∷ [])) ≡ true
  store-IsLinked x c t k d stored h found =
      attached_after-append k x.events (attach c.name ∷ []) false
      ∙ elim (Bool-cases (sym_eq c.name k)) [
        | inl same ↦ rw same refl
        | inr other ↦ rw other (
            h k d (
              sym (rw other at (tables.hashtab_store_lem x.universes t c.name c stored k)) ∙ found))
      ]

  pub universes_add-IsLinked :
      (x : Service) (c : UniverseConfig) → IsLinked x → IsLinked (universes_add tables x c)
  unfolding universes_add
  universes_add-IsLinked x c h = elim (Option-cases (tables.hashtab_store x.universes c.name c)) [
    | inl e ↦ rw (e, universes_add) h
    | inr (t, e) ↦
        rw (e, universes_add)
          (λ k d found.
            attached_after-append k x.events (attach c.name ∷ universes_updated ∷ []) false
            ∙ (sym (attached_after-append k x.events (attach c.name ∷ []) false)
                ∙ store-IsLinked x c t k d e h found))
  ]

  -- Without the object that is detached.
  detach-IsLinked :
      (x : Service) (name : Symbol) (lookup : Symbol → Option UniverseConfig)
      → IsLinked x
      → ((k : Symbol) → lookup k ≡ (if sym_eq name k then none else x.universes.lookup k))
      → (k : Symbol) (d : UniverseConfig) → lookup k ≡ some d
      → (if sym_eq name k then false else attached_after k false x.events) ≡ true
  detach-IsLinked x name lookup h gone k d found = elim (Bool-cases (sym_eq name k)) [
    | inl same ↦ cc (rw same at (gone k), found)
    | inr other ↦ rw other (h k d (sym (rw other at (gone k)) ∙ found))
  ]

  missing_key :
      (x : Service) (name : Symbol)
      → x.universes.lookup name ≡ none
      → (k : Symbol) → x.universes.lookup k ≡ (if sym_eq name k then none else x.universes.lookup k)
  missing_key x name gone k = elim (Bool-cases (sym_eq name k)) [
    | inl same ↦ rw same (subst (λ n. x.universes.lookup n ≡ none) ((sym_eq_iff _ _).0 same) gone)
    | inr other ↦ rw other refl
  ]

  pub universes_remove-IsLinked :
      (x : Service) (c : UniverseConfig)
      → Deletes tables
      → IsLinked x
      → IsLinked (universes_remove tables x c)
  unfolding universes_remove
  universes_remove-IsLinked x c deletes h =
      elim (Option-cases (tables.hashtab_delete x.universes c.name)) [
        | inl e ↦
            rw (e, universes_remove)
              (λ k d found.
                attached_after-append k x.events (detach c.name ∷ []) false
                ∙ detach-IsLinked x c.name x.universes.lookup h
                    (missing_key x c.name (deletes x.universes c.name e)) k d found)
        | inr (t, e) ↦
            rw (e, universes_remove)
              (λ k d found.
                attached_after-append k x.events (detach c.name ∷ universes_updated ∷ []) false
                ∙ detach-IsLinked x c.name t.lookup h
                    (tables.hashtab_delete_lem x.universes t c.name e) k d found)
      ]

  pub universes_clear-IsLinked : (x : Service) → IsLinked (universes_clear tables x)
  unfolding universes_clear
  universes_clear-IsLinked x k c found = cc (tables.hashtab_clear_lem x.universes k, found)

module _ (sys : System) (tables : Tables) where
  patch_stored-IsLinked :
      (x : Service) (c : UniverseConfig) (r : Option (Hashtab UniverseConfig))
      → tables.hashtab_store x.universes c.name c ≡ r
      → IsLinked x
      → IsLinked (patch_stored sys tables x c r)
  unfolding patch_stored
  patch_stored-IsLinked x c none e h = h
  patch_stored-IsLinked x c (some t) e h = λ k d found. store-IsLinked tables x c t k d e h found

  patch_rounds-IsLinked :
      (p : Patch) (i rounds : ℕ) (x : Service)
      → IsLinked x
      → IsLinked (patch_rounds sys tables p i rounds x)
  unfolding patch_rounds patch_round
  patch_rounds-IsLinked p i zero x h = h
  patch_rounds-IsLinked p i (suc rounds) x h =
      patch_rounds-IsLinked p (suc i) rounds (patch_round sys tables p i x) (
        patch_stored-IsLinked (record x { names_used = suc x.names_used })
          (patched sys tables x.interfaces p (tables.unique x.names_used) i) _ refl h)

  pub universes_quick_patch-IsLinked :
      (x : Service) (patch_count : ℤ) (p : Patch)
      → IsLinked x
      → IsLinked (universes_quick_patch sys tables x patch_count p)
  unfolding universes_quick_patch
  universes_quick_patch-IsLinked x patch_count p h =
      let y = patch_rounds sys tables p 0 (pos_part patch_count) x in
      let rounds : IsLinked y = patch_rounds-IsLinked p 0 (pos_part patch_count) x h in
      elim (Bool-cases (ltb 0 (pos_part patch_count))) [
        | inl positive ↦
            rw (positive, universes_quick_patch)
              (λ k d found.
                attached_after-append k y.events (universes_updated ∷ []) false ∙ rounds k d found)
        | inr empty ↦ rw (empty, universes_quick_patch) rounds
      ]
