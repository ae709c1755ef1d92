-- ===== src/Enumerate.antt =====
-- What the enumerations of adapters and ports share: tables that are filled.
pub mod Adapters
pub mod Filled
pub mod Devices
pub mod Registry
use lxmax.Common.{◌≡◌, if◌then◌else◌, Option, none, some}
use lxmax.Max.{Symbol, sym_eq, Hashtab}

-- `hashtab_new` and `hashtab_store` on a table of any values. `none` is an error code.
pub record Filling (V : Type 0) : Type 0 where
  pub hashtab_new : Hashtab V
  pub hashtab_new_lem : (k : Symbol) → hashtab_new.lookup k ≡ none
  pub hashtab_store : Hashtab V → Symbol → V → Option (Hashtab V)
  pub hashtab_store_lem :
      (t u : Hashtab V) (key : Symbol) (v : V)
      → hashtab_store t key v ≡ some u
      → (k : Symbol) → u.lookup k ≡ (if sym_eq key k then some v else t.lookup k)

-- No store fails.
abbrev pub NeverFull : {V : Type 0} → Filling V → Type 0
NeverFull {V} f =
    (t : Hashtab V) (key : Symbol) (v : V) → (u : Hashtab V) × (f.hashtab_store t key v ≡ some u)

-- A store whose error code is ignored.
unfoldable pub stored : {V : Type 0} → Filling V → Hashtab V → Symbol → V → Hashtab V
stored f t key v = elim (f.hashtab_store t key v) [ none ↦ t | some u ↦ u ]

-- What a store that does not fail leaves under each key.
pub lookup-stored :
    {V : Type 0} (f : Filling V) (t : Hashtab V) (key : Symbol) (v : V)
    → NeverFull f
    → (k : Symbol) → (stored f t key v).lookup k ≡ (if sym_eq key k then some v else t.lookup k)
unfolding stored
lookup-stored f t key v total k =
    let r = total t key v in rw (r.1, stored) (f.hashtab_store_lem t r.0 key v r.1 k)
