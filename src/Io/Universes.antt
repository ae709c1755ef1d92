-- ===== src/Io/Universes.antt =====
-- dmx_io_service.cpp: when `set_universes` is defined.
use lxmax.Common.{
  ◌≡◌, ◌↔◌, inl, inr, refl, sym, ◌∙◌, true, false, Bool-cases, none, some, List, [], ◌∷◌, ℤ, arith,
  In,
}
use lxmax.Max.{Symbol, Hashtab}
use lxmax.Universe.Config.{UniverseConfig}
use lxmax.Buffer.{DmxBuffer, dmx_buffer, resize}
use lxmax.Buffer.Resize.{resize_cases}
use lxmax.Io.{DmxIoService, collect, set_universes, set_listed, nothing_collected, pruned}
use lxmax.Io.Active.{IsActive, is_empty, idle, quiet, idle-collect, quiet_iff}
use lxmax.Io.Protocols.{AllIp, collect-AllIp, add_all-some}

resize-idle : (us : List ℤ) (b : DmxBuffer) → is_empty us ≡ true → resize us b ≡ some dmx_buffer
resize-idle [] b h = resize_cases [] b
resize-idle (u ∷ us) b h = absurd (ground arith)

resize-busy : (us : List ℤ) (b : DmxBuffer) → is_empty us ≡ false → resize us b ≡ none
resize-busy [] b h = absurd (ground arith)
resize-busy (u ∷ us) b h = resize_cases (u ∷ us) b

nothing_collected-AllIp : AllIp nothing_collected.configs
nothing_collected-AllIp = ground arith

no_value : (y : DmxIoService) → none ≡ some y → ⊥
no_value y h = ground arith

-- With no active configuration both buffers are emptied.
set_listed-quiet :
    (t : Hashtab UniverseConfig) (keys : List Symbol) (x : DmxIoService)
    → quiet t keys ≡ true
    → (y : DmxIoService) × (set_listed t keys x ≡ some y)
      × (y.input_buffer ≡ dmx_buffer)
      × (y.output_buffer ≡ dmx_buffer)
unfolding set_listed
set_listed-quiet t keys x q =
    let k = collect t keys nothing_collected in
    let i : idle k ≡ true = idle-collect t keys nothing_collected ∙ q in
    let a : is_empty k.inputs ≡ true = ground (arith, i) in
    let b : is_empty k.outputs ≡ true = ground (arith, i) in
    let s =
      add_all-some k.configs x.protocols
        (collect-AllIp t keys nothing_collected nothing_collected-AllIp) in
    (
      pruned k dmx_buffer dmx_buffer s.0,
      rw (resize-idle k.inputs x.input_buffer a, resize-idle k.outputs x.output_buffer b, s.1) refl,
      refl,
      refl,
    )

set_listed-busy :
    (t : Hashtab UniverseConfig) (keys : List Symbol) (x : DmxIoService)
    → quiet t keys ≡ false
    → set_listed t keys x ≡ none
unfolding set_listed
set_listed-busy t keys x q =
    let k = collect t keys nothing_collected in
    let i : idle k ≡ false = idle-collect t keys nothing_collected ∙ q in
    elim (Bool-cases (is_empty k.inputs)) [
      | inl a ↦
          let b : is_empty k.outputs ≡ false = ground (arith, i, a) in
          rw (resize-idle k.inputs x.input_buffer a, resize-busy k.outputs x.output_buffer b) refl
      | inr a ↦ rw (resize-busy k.inputs x.input_buffer a) refl
    ]

set_universes-listed :
    (t : Hashtab UniverseConfig) (keys : List Symbol) (x : DmxIoService)
    → t.getkeys ≡ some keys
    → set_universes t x ≡ set_listed t keys x
unfolding set_universes set_listed collect
set_universes-listed t keys x e = rw (e, set_universes) refl

-- If the table lists its keys, `set_universes` is undefined exactly when one of the listed
-- configurations is an input or an output over Art-Net or sACN.
pub set_universes_iff :
    (t : Hashtab UniverseConfig) (keys : List Symbol) (x : DmxIoService)
    → t.getkeys ≡ some keys
    → (set_universes t x ≡ none)
      ↔ (key : Symbol) × In key keys × (c : UniverseConfig) × (t.lookup key ≡ some c) × IsActive c
set_universes_iff t keys x e = (
  λ h0.
      let h : set_listed t keys x ≡ none = sym (set_universes-listed t keys x e) ∙ h0 in
      elim (Bool-cases (quiet t keys)) [
        | inl q ↦ let s = set_listed-quiet t keys x q in absurd (no_value s.0 (sym h ∙ s.1))
        | inr q ↦ (quiet_iff t keys).0 q
      ],
  λ a. set_universes-listed t keys x e ∙ set_listed-busy t keys x ((quiet_iff t keys).1 a),
)
