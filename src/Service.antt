-- ===== src/Service.antt =====
-- lx_service.c and lx_service.h: the universes of the service, and the quick patch.
pub mod Names
pub mod Announced
pub mod Linked
pub mod Invariant
pub mod QuickPatch
pub mod Table
use lxmax.Common.{
  ℕ, zero, suc, ◌+◌, ◌≡◌, ◌≢◌, ◌↔◌, if◌then◌else◌, ltb, List, [], ◌∷◌, ◌++◌, map, take, Option,
  none, some, ℤ, pos, negsuc, pos_part, add_long,
}
use lxmax.Max.{System, Text, Symbol, codes, sym_eq, Atom, a_long, a_sym, Hashtab}
use lxmax.Dmx.Digits.{padded}
use lxmax.Universe.Kinds.{UniverseType, Protocol, long_of_universe_type, long_of_protocol}
use lxmax.Universe.Config.{UniverseConfig, Interfaces, universe_config_new}
use lxmax.Universe.Attributes.{
  Setting, attr_set, label, type, protocol, protocol_mode, protocol_interface, internal_universe,
  protocol_universe,
}
use lxmax.Universe.Invariant.History.{attr_set_all}

-- A `t_hashtab` of configurations under the SDK's functions. `none` is an error code. `entries` is
-- what `hashtab_funall` visits, and `unique n` what the n-th call of `symbol_unique` returns.
pub record Tables : Type 0 where
  pub hashtab_store :
      Hashtab UniverseConfig → Symbol → UniverseConfig → Option (Hashtab UniverseConfig)
  pub hashtab_store_lem :
      (t u : Hashtab UniverseConfig) (key : Symbol) (c : UniverseConfig)
      → hashtab_store t key c ≡ some u
      → (k : Symbol) → u.lookup k ≡ (if sym_eq key k then some c else t.lookup k)
  pub hashtab_delete : Hashtab UniverseConfig → Symbol → Option (Hashtab UniverseConfig)
  pub hashtab_delete_lem :
      (t u : Hashtab UniverseConfig) (key : Symbol)
      → hashtab_delete t key ≡ some u
      → (k : Symbol) → u.lookup k ≡ (if sym_eq key k then none else t.lookup k)
  pub hashtab_clear : Hashtab UniverseConfig → Hashtab UniverseConfig
  pub hashtab_clear_lem :
      (t : Hashtab UniverseConfig) (k : Symbol) → (hashtab_clear t).lookup k ≡ none
  pub entries : Hashtab UniverseConfig → List UniverseConfig
  pub unique : ℕ → Symbol
  pub unique_inj : (m n : ℕ) → unique m ≡ unique n → m ≡ n

-- What the service tells the SDK, in order.
pub data Event : Type 0 where
  attach detach : Symbol → Event
  universes_updated : Event

-- The part of `t_lx_service` that these functions use, the events so far, and the number of calls
-- of `symbol_unique` so far.
pub record Service : Type 0 where
  pub universes : Hashtab UniverseConfig
  pub interfaces : Interfaces
  pub events : List Event
  pub names_used : ℕ

module _ (tables : Tables) where
  -- `lx_service_universes_add`
  unfoldable pub universes_add : Service → UniverseConfig → Service
  universes_add x c = elim (tables.hashtab_store x.universes c.name c) [
    | none ↦ x
    | some t ↦ record x {
      universes = t;
      events = x.events ++ attach c.name ∷ universes_updated ∷ [];
    }
  ]

  -- `lx_service_universes_remove`: the object is detached whether or not the table has it.
  unfoldable pub universes_remove : Service → UniverseConfig → Service
  universes_remove x c = elim (tables.hashtab_delete x.universes c.name) [
    | none ↦ record x { events = x.events ++ detach c.name ∷ [] }
    | some t ↦ record x {
      universes = t;
      events = x.events ++ detach c.name ∷ universes_updated ∷ [];
    }
  ]

  -- `lx_service_universes_clear` with `lxmax_service_universes_entry_detach`.
  unfoldable pub universes_clear : Service → Service
  universes_clear x = record x {
    universes = tables.hashtab_clear x.universes;
    events =
        x.events
        ++ (map (λ c. detach c.name) (tables.entries x.universes) ++ universes_updated ∷ []);
  }

-- `%03ld`
long_text : ℤ → Text
long_text (pos n) = padded 3 n
long_text (negsuc n) = codes "-" ++ padded 2 (suc n)

-- The label in a buffer of 32 bytes.
unfoldable pub patch_label : ℤ → Symbol
unfolding long_text
patch_label n = take 31 (codes "Quick Patch Universe " ++ long_text n)

-- The arguments of `lx_service_universes_quick_patch` but for the count.
pub record Patch : Type 0 where
  pub type : UniverseType
  pub protocol : Protocol
  pub protocol_mode : Symbol
  pub protocol_interface : Symbol
  pub start_internal_universe : ℤ
  pub start_protocol_universe : ℤ

-- The writes of round `i`, in the order of the calls.
unfoldable pub patch_settings : Patch → ℕ → List Setting
patch_settings p i =
    label (a_sym (patch_label (add_long p.start_internal_universe (pos i))) ∷ [])
    ∷ type (a_long (long_of_universe_type p.type))
    ∷ protocol (a_long (long_of_protocol p.protocol))
    ∷ protocol_mode (a_sym p.protocol_mode)
    ∷ protocol_interface (a_sym p.protocol_interface)
    ∷ internal_universe (a_long (add_long p.start_internal_universe (pos i)) ∷ [])
    ∷ protocol_universe (pos 0) (a_long (add_long p.start_protocol_universe (pos i)))
    ∷ []

module _ (sys : System) (tables : Tables) where
  -- The configuration that round `i` makes.
  unfoldable pub patched : Interfaces → Patch → Symbol → ℕ → UniverseConfig
  patched service p name i =
      attr_set_all sys service (universe_config_new name) (patch_settings p i)

  -- After `hashtab_store`.
  unfoldable pub patch_stored : Service → UniverseConfig → Option (Hashtab UniverseConfig) → Service
  patch_stored x c none = x
  patch_stored x c (some t) = record x { universes = t; events = x.events ++ attach c.name ∷ [] }

  -- One round of the loop.
  unfoldable pub patch_round : Patch → ℕ → Service → Service
  unfolding patch_stored
  patch_round p i x =
      let c = patched x.interfaces p (tables.unique x.names_used) i in
      patch_stored (record x { names_used = suc x.names_used }) c
        (tables.hashtab_store x.universes c.name c)

  -- The loop, from round `i` with `rounds` to go.
  unfoldable pub patch_rounds : Patch → ℕ → ℕ → Service → Service
  patch_rounds p i zero x = x
  patch_rounds p i (suc rounds) x = patch_rounds p (suc i) rounds (patch_round p i x)

  -- `lx_service_universes_quick_patch`. A count that is not positive makes no round.
  unfoldable pub universes_quick_patch : Service → ℤ → Patch → Service
  unfolding patch_rounds
  universes_quick_patch x patch_count p =
      let y = patch_rounds p 0 (pos_part patch_count) x in
      if ltb 0 (pos_part patch_count)
      then record y { events = y.events ++ universes_updated ∷ [] }
      else y
