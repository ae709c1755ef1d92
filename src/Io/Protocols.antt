-- ===== src/Io/Protocols.antt =====
-- dmx_io_service.cpp: the protocols that the collected configurations find.
use lxmax.Common.{
  ◌≡◌, inl, inr, refl, ◌||◌, true, Bool-cases, Option-cases, some, List, [], ◌∷◌, arith, All,
}
use lxmax.Max.{Symbol, sym_eq, Hashtab}
use lxmax.Universe.Kinds.{
  UniverseType, type_none, input, output, Protocol, protocol_none, artnet, sacn, enttec_dmxusbpro,
  enttec_opendmxusb,
}
use lxmax.Universe.Config.{UniverseConfig}
use lxmax.Io.{
  DmxIoProtocol, create_protocol, protocol_eq, Collected, insert_config, collect_type, collect_one,
  collect, add_to_protocols, add_all, protocol_add_universe,
}
use lxmax.Io.Active.{over_ip}

-- The configurations that are collected are over a network protocol.
abbrev pub AllIp : List UniverseConfig → Type 0
AllIp = All (λ c. over_ip c ≡ true)

insert_config-AllIp :
    (c : UniverseConfig) (configs : List UniverseConfig)
    → over_ip c ≡ true
    → AllIp configs
    → AllIp (insert_config c configs)
unfolding insert_config
insert_config-AllIp c [] h a = (h, a)
insert_config-AllIp c (d ∷ configs) h a = elim (Bool-cases (sym_eq c.name d.name)) [
  | inl e ↦ rw e a
  | inr e ↦ rw e (a.0, insert_config-AllIp c configs h a.1)
]

collect_type-AllIp :
    (c : UniverseConfig) (t : UniverseType) (k : Collected)
    → AllIp k.configs
    → AllIp ((collect_type c t k).configs)
unfolding collect_type
collect_type-AllIp c type_none k a = a
collect_type-AllIp c input k a = a
collect_type-AllIp c output k a = a

collect_one-AllIp :
    (c : UniverseConfig) (k : Collected) → AllIp k.configs → AllIp ((collect_one c k).configs)
unfolding collect_one collect_type over_ip
collect_one-AllIp c k a = elim (Bool-cases (over_ip c)) [
  | inl e ↦ rw e (
      collect_type-AllIp c c.type (record k { configs = insert_config c k.configs })
        (insert_config-AllIp c k.configs e a))
  | inr e ↦ rw e a
]

pub collect-AllIp :
    (t : Hashtab UniverseConfig) (keys : List Symbol) (k : Collected)
    → AllIp k.configs
    → AllIp ((collect t keys k).configs)
unfolding collect
collect-AllIp t [] k a = a
collect-AllIp t (key ∷ keys) k a = elim (Option-cases (t.lookup key)) [
  | inl e ↦ rw (e, collect) (collect-AllIp t keys k a)
  | inr (c, e) ↦ rw (e, collect) (collect-AllIp t keys (collect_one c k) (collect_one-AllIp c k a))
]

create_protocol-some :
    (q : Protocol)
    → (protocol_eq q artnet || protocol_eq q sacn) ≡ true
    → (p : DmxIoProtocol) × (create_protocol q ≡ some p)
unfolding protocol_eq create_protocol
create_protocol-some protocol_none h = absurd (ground arith)
create_protocol-some artnet h =
    (record { protocol = artnet; input_universes = []; output_universes = [] }, refl)
create_protocol-some sacn h =
    (record { protocol = sacn; input_universes = []; output_universes = [] }, refl)
create_protocol-some enttec_dmxusbpro h = absurd (ground arith)
create_protocol-some enttec_opendmxusb h = absurd (ground arith)

-- A configuration over a network protocol finds its protocol, or one is made.
add_to_protocols-some :
    (c : UniverseConfig) (ps : List DmxIoProtocol)
    → over_ip c ≡ true
    → (qs : List DmxIoProtocol) × (add_to_protocols c ps ≡ some qs)
unfolding add_to_protocols over_ip protocol_eq create_protocol protocol_add_universe
add_to_protocols-some c [] h = let q = create_protocol-some c.protocol h in (q.0 ∷ [], rw q.1 refl)
add_to_protocols-some c (p ∷ ps) h =
    let ih = add_to_protocols-some c ps h in
    elim (Bool-cases (protocol_eq p.protocol c.protocol)) [
      | inl e ↦ rw e (p ∷ ps, refl)
      | inr e ↦ rw (e, ih.1) (p ∷ ih.0, refl)
    ]

pub add_all-some :
    (configs : List UniverseConfig) (ps : List DmxIoProtocol)
    → AllIp configs
    → (qs : List DmxIoProtocol) × (add_all configs ps ≡ some qs)
unfolding add_all
add_all-some [] ps a = (ps, refl)
add_all-some (c ∷ configs) ps a =
    let s = add_to_protocols-some c ps a.0 in
    let r = add_all-some configs s.0 a.1 in (r.0, rw s.1 r.1)
