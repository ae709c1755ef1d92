-- ===== src/Io/Active.antt =====
-- dmx_io_service.cpp: which configurations `set_universes` collects.
use lxmax.Common.{
  ◌≡◌, ◌↔◌, inl, inr, refl, sym, ◌&&◌, ◌||◌, not, Bool, true, false, Bool-cases, Option-cases,
  Option, none, some, List, [], ◌∷◌, ℤ, arith, In,
}
use lxmax.Max.{Symbol, Hashtab}
use lxmax.Universe.Kinds.{UniverseType, type_none, input, output, artnet, sacn}
use lxmax.Universe.Config.{UniverseConfig}
use lxmax.Io.{set_insert, protocol_eq, Collected, insert_config, collect_type, collect_one, collect}

-- A configuration over a network protocol, and one of those that is an input or an output.
unfoldable pub over_ip : UniverseConfig → Bool
unfolding protocol_eq
over_ip c = protocol_eq c.protocol artnet || protocol_eq c.protocol sacn

unfoldable pub is_used : UniverseType → Bool
is_used type_none = false
is_used input = true
is_used output = true

abbrev pub IsActive : UniverseConfig → Type 0
IsActive c = (over_ip c ≡ true) × (is_used c.type ≡ true)

abbrev pub is_empty : List ℤ → Bool
is_empty [] = true
is_empty (a ∷ s) = false

-- No address has been collected.
abbrev pub idle : Collected → Bool
idle k = is_empty k.inputs && is_empty k.outputs

set_insert-nonempty : (a : ℤ) (s : List ℤ) → is_empty (set_insert a s) ≡ false
unfolding set_insert
set_insert-nonempty a [] = refl
set_insert-nonempty a (b ∷ s) = ground arith

idle-collect_type :
    (c : UniverseConfig) (t : UniverseType) (k : Collected)
    → idle (collect_type c t k) ≡ (idle k && not (is_used t))
unfolding collect_type is_used
idle-collect_type c type_none k = ground arith
idle-collect_type c input k = ground (arith, set_insert-nonempty c.internal_universe k.inputs)
idle-collect_type c output k = ground (arith, set_insert-nonempty c.internal_universe k.outputs)

idle-collect_one :
    (c : UniverseConfig) (k : Collected)
    → idle (collect_one c k) ≡ (idle k && not (over_ip c && is_used c.type))
unfolding collect_one over_ip
idle-collect_one c k =
    ground (arith, idle-collect_type c c.type (record k { configs = insert_config c k.configs }))

abbrev quiet_at : Option UniverseConfig → Bool → Bool
quiet_at none rest = rest
quiet_at (some c) rest = not (over_ip c && is_used c.type) && rest

-- The keys of active configurations.
abbrev pub quiet : Hashtab UniverseConfig → List Symbol → Bool
quiet t [] = true
quiet t (key ∷ keys) = quiet_at (t.lookup key) (quiet t keys)

pub idle-collect :
    (t : Hashtab UniverseConfig) (keys : List Symbol) (k : Collected)
    → idle (collect t keys k) ≡ (idle k && quiet t keys)
unfolding collect
idle-collect t [] k = ground arith
idle-collect t (key ∷ keys) k = elim (Option-cases (t.lookup key)) [
  | inl e ↦ rw (e, collect, quiet_at) (idle-collect t keys k)
  | inr (c, e) ↦
      rw (e, collect, quiet_at)
        (ground (arith, idle-collect t keys (collect_one c k), idle-collect_one c k))
]

active-quiet :
    (t : Hashtab UniverseConfig) (keys : List Symbol) (key : Symbol) (c : UniverseConfig)
    → In key keys
    → t.lookup key ≡ some c
    → IsActive c
    → quiet t keys ≡ false
active-quiet t [] key c i e a = absurd i
active-quiet t (k ∷ keys) key c (inl same) e a = rw (sym same, e, quiet_at) (ground arith)
active-quiet t (k ∷ keys) key c (inr i) e a =
    let ih = active-quiet t keys key c i e a in
    elim (Option-cases (t.lookup k)) [
      | inl n ↦ rw (n, quiet_at) ih
      | inr (d, n) ↦ rw (n, quiet_at) (ground arith)
    ]

pub quiet_iff :
    (t : Hashtab UniverseConfig) (keys : List Symbol)
    → (quiet t keys ≡ false)
      ↔ (key : Symbol) × In key keys × (c : UniverseConfig) × (t.lookup key ≡ some c) × IsActive c
quiet_iff t [] = (λ h. ground arith, λ h. ground arith)
quiet_iff t (key ∷ keys) =
    let ih = quiet_iff t keys in
    (
      λ h. elim (Option-cases (t.lookup key)) [
        | inl e ↦ let r = ih.0 (rw (e, quiet_at) at h) in (r.0, inr r.1, r.2, r.3, r.4)
        | inr (c, e) ↦ elim (Bool-cases (over_ip c && is_used c.type)) [
          | inl a ↦ (key, inl refl, c, e, ground arith)
          | inr b ↦
              let q : quiet t keys ≡ false = rw (e, quiet_at, b) at h in
              let r = ih.0 q in (r.0, inr r.1, r.2, r.3, r.4)
        ]
      ],
      λ r. active-quiet t (key ∷ keys) r.0 r.2 r.1 r.3 r.4,
    )
