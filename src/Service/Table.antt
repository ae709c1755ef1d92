-- ===== src/Service/Table.antt =====
-- lx_service.c: the table of universes after a quick patch.
use lxmax.Common.{
  ℕ, zero, suc, ◌+◌, ◌<◌, ◌≡◌, ◌≢◌, refl, ap, ap₂, sym, ◌∙◌, if◌then◌else◌, Bool-cases, inl, inr,
  [], ◌∷◌, ◌++◌, some, pos, ltb, arith,
}
use lxmax.Max.{System, Symbol, sym_eq, sym_eq_iff, sym_eq_refl, Hashtab}
use lxmax.Universe.Config.{UniverseConfig}
use lxmax.Service.Names.{name-attr_set_all}
use lxmax.Service.{
  Tables, Service, Patch, patched, patch_stored, patch_round, patch_rounds, universes_quick_patch,
  patch_settings, attach,
}
use lxmax.Universe.Config.{universe_config_new}

-- `hashtab_store` returns no error.
abbrev pub Stores : Tables → Type 0
Stores tables =
    (t : Hashtab UniverseConfig) (key : Symbol) (c : UniverseConfig)
    → (u : Hashtab UniverseConfig) × (tables.hashtab_store t key c ≡ some u)

module _ (sys : System) (tables : Tables) (stores : Stores tables) where
  name_of : Service → ℕ → Symbol
  name_of x j = tables.unique (x.names_used + j)

  -- The configuration of the round that follows.
  made : Service → Patch → ℕ → UniverseConfig
  made x p i = patched sys tables x.interfaces p (tables.unique x.names_used) i

  made-name : (x : Service) (p : Patch) (i : ℕ) → (made x p i).name ≡ tables.unique x.names_used
  unfolding made patched universe_config_new
  made-name x p i =
      name-attr_set_all sys x.interfaces (universe_config_new (tables.unique x.names_used))
        (patch_settings p i)

  -- The service after a round.
  after : Service → Patch → ℕ → Service
  after x p i = record x {
    names_used = suc x.names_used;
    universes = (stores x.universes (made x p i).name (made x p i)).0;
    events = x.events ++ attach (made x p i).name ∷ [];
  }

  patch_round-after : (x : Service) (p : Patch) (i : ℕ) → patch_round sys tables p i x ≡ after x p i
  unfolding patch_round patch_stored made after
  patch_round-after x p i =
      ap (patch_stored sys tables (record x { names_used = suc x.names_used }) (made x p i))
        (stores x.universes (made x p i).name (made x p i)).1

  lookup-after :
      (x : Service) (p : Patch) (i : ℕ) (k : Symbol)
      → (after x p i).universes.lookup k ≡ (
          if sym_eq (tables.unique x.names_used) k then some (made x p i) else x.universes.lookup k)
  unfolding after
  lookup-after x p i k =
      let s = stores x.universes (made x p i).name (made x p i) in
      tables.hashtab_store_lem x.universes s.0 (made x p i).name (made x p i) s.1 k
      ∙ ap (λ (n : Symbol). if sym_eq n k then some (made x p i) else x.universes.lookup k)
          (made-name x p i)

  lookup-after_ne :
      (x : Service) (p : Patch) (i : ℕ) (k : Symbol)
      → tables.unique x.names_used ≢ k
      → (after x p i).universes.lookup k ≡ x.universes.lookup k
  lookup-after_ne x p i k ne = elim (Bool-cases (sym_eq (tables.unique x.names_used) k)) [
    | inl same ↦ absurd (ne ((sym_eq_iff _ _).0 same))
    | inr other ↦ rw other at (lookup-after x p i k)
  ]

  lookup-after_self :
      (x : Service) (p : Patch) (i : ℕ)
      → (after x p i).universes.lookup (tables.unique x.names_used) ≡ some (made x p i)
  lookup-after_self x p i =
      rw (sym_eq_refl (tables.unique x.names_used)) at
        (lookup-after x p i (tables.unique x.names_used))

  name_of-zero : (x : Service) → name_of x 0 ≡ tables.unique x.names_used
  unfolding name_of
  name_of-zero x = ap tables.unique (omega arith)

  made-round :
      (x : Service) (p : Patch) (i : ℕ)
      → made x p i ≡ patched sys tables x.interfaces p (name_of x 0) (i + 0)
  unfolding made
  made-round x p i = ap₂ (patched sys tables x.interfaces p) (sym (name_of-zero x)) (omega arith)

  name_of-suc : (x : Service) (p : Patch) (i j : ℕ) → name_of (after x p i) j ≡ name_of x (suc j)
  unfolding name_of after
  name_of-suc x p i j = ap tables.unique (omega arith)

  name_of-zero_ne :
      (x : Service) (p : Patch) (i j : ℕ) → name_of (after x p i) j ≢ tables.unique x.names_used
  unfolding name_of after
  name_of-zero_ne x p i j e =
      absurd (omega (arith, tables.unique_inj (suc x.names_used + j) x.names_used e))

  rounds-step :
      (p : Patch) (i rounds : ℕ) (x : Service) (k : Symbol)
      → (patch_rounds sys tables p i (suc rounds) x).universes.lookup k
        ≡ (patch_rounds sys tables p (suc i) rounds (after x p i)).universes.lookup k
  unfolding patch_rounds
  rounds-step p i rounds x k =
      ap (λ (y : Service). (patch_rounds sys tables p (suc i) rounds y).universes.lookup k)
        (patch_round-after x p i)

  -- A key that is not one of the new names keeps what it has.
  patch_rounds-others :
      (p : Patch) (i rounds : ℕ) (x : Service) (k : Symbol)
      → ((j : ℕ) → j < rounds → name_of x j ≢ k)
      → (patch_rounds sys tables p i rounds x).universes.lookup k ≡ x.universes.lookup k
  patch_rounds-others p i zero x k fresh = unfold patch_rounds in refl
  patch_rounds-others p i (suc rounds) x k fresh =
      rounds-step p i rounds x k
      ∙ patch_rounds-others p (suc i) rounds (after x p i) k
          (λ j h e. fresh (suc j) (omega arith) (sym (name_of-suc x p i j) ∙ e))
      ∙ lookup-after_ne x p i k (λ e. fresh 0 (omega arith) (name_of-zero x ∙ e))

  made_later :
      (x : Service) (p : Patch) (i j : ℕ)
      → patched sys tables (after x p i).interfaces p (name_of (after x p i) j) (suc i + j)
        ≡ patched sys tables x.interfaces p (name_of x (suc j)) (i + suc j)
  unfolding after
  made_later x p i j = ap₂ (patched sys tables x.interfaces p) (name_of-suc x p i j) (omega arith)

  -- Under the name of each round stands the configuration of that round.
  patch_rounds-made :
      (p : Patch) (i rounds : ℕ) (x : Service) (j : ℕ)
      → j < rounds
      → (patch_rounds sys tables p i rounds x).universes.lookup (name_of x j)
        ≡ some (patched sys tables x.interfaces p (name_of x j) (i + j))
  patch_rounds-made p i zero x j h = absurd (omega arith)
  patch_rounds-made p i (suc rounds) x zero h =
      rounds-step p i rounds x (name_of x 0)
      ∙ patch_rounds-others p (suc i) rounds (after x p i) (name_of x 0)
          (λ j g e. name_of-zero_ne x p i j (e ∙ name_of-zero x))
      ∙ ap (after x p i).universes.lookup (name_of-zero x)
      ∙ lookup-after_self x p i
      ∙ ap some (made-round x p i)
  patch_rounds-made p i (suc rounds) x (suc j) h =
      rounds-step p i rounds x (name_of x (suc j))
      ∙ ap (patch_rounds sys tables p (suc i) rounds (after x p i)).universes.lookup
          (sym (name_of-suc x p i j))
      ∙ patch_rounds-made p (suc i) rounds (after x p i) j (omega arith)
      ∙ ap some (made_later x p i j)

  -- If the table takes every entry, a quick patch of `n` universes puts the configuration of each
  -- round from 0 to n - 1 under the unique name of that round.
  pub universes_quick_patch_lem :
      (x : Service) (n : ℕ) (p : Patch) (j : ℕ)
      → j < n
      → (universes_quick_patch sys tables x (pos n) p).universes.lookup
          (tables.unique (x.names_used + j))
        ≡ some (patched sys tables x.interfaces p (tables.unique (x.names_used + j)) j)
  unfolding universes_quick_patch name_of
  universes_quick_patch_lem x n p j h = elim (Bool-cases (ltb 0 n)) [
    | inl positive ↦ rw positive (
        patch_rounds-made p 0 n x j h
        ∙ ap (λ (i : ℕ). some (patched sys tables x.interfaces p (name_of x j) i)) (omega arith))
    | inr empty ↦ absurd (ground arith)
  ]

  -- If the table takes every entry, a quick patch of `n` universes leaves what stands under every
  -- key that is not one of the `n` new names.
  pub universes_quick_patch-others :
      (x : Service) (n : ℕ) (p : Patch) (k : Symbol)
      → ((j : ℕ) → j < n → tables.unique (x.names_used + j) ≢ k)
      → (universes_quick_patch sys tables x (pos n) p).universes.lookup k ≡ x.universes.lookup k
  unfolding universes_quick_patch name_of
  universes_quick_patch-others x n p k fresh =
      let rounds = patch_rounds-others p 0 n x k fresh in
      elim (Bool-cases (ltb 0 n)) [
        | inl positive ↦ rw positive rounds
        | inr empty ↦ rw empty rounds
      ]
