-- ===== src/Io.antt =====
-- lxmax/internals: dmx_io_service.cpp, dmx_io_protocol.cpp and the two protocols. Where the buffers
-- are undefined, so is the service. Threads, locks and the context of the sockets are not modelled.
pub mod Active
pub mod Protocols
pub mod Universes
use lxmax.Common.{
  ℕ, ◌++◌, ◌&&◌, ◌||◌, if◌then◌else◌, Bool, true, false, Option, none, some, List, [], ◌∷◌, map, ℤ,
  ltb_ℤ, ◌>>=◌,
}
use lxmax.Max.{Symbol, sym_eq, Hashtab}
use lxmax.Universe.Kinds.{
  UniverseType, type_none, input, output, Protocol, protocol_none, artnet, sacn, enttec_dmxusbpro,
  enttec_opendmxusb,
}
use lxmax.Universe.Config.{UniverseConfig}
use lxmax.Buffer.{DmxBuffer, dmx_buffer, eq_long, resize, write, read, swap}

-- `dmx_artnet_io_protocol` and `dmx_sacn_io_protocol`: the maps from addresses to active universes,
-- of which the name is kept.
pub record DmxIoProtocol : Type 0 where
  pub protocol : Protocol
  pub input_universes : List (ℤ × Symbol)
  pub output_universes : List (ℤ × Symbol)

-- `create_protocol`; `none` is `nullptr`.
unfoldable pub create_protocol : Protocol → Option DmxIoProtocol
create_protocol artnet =
    some (record { protocol = artnet; input_universes = []; output_universes = [] })
create_protocol sacn =
    some (record { protocol = sacn; input_universes = []; output_universes = [] })
create_protocol _ = none

-- `add_universe` and `remove_universe` of the two protocols, which have no effect.
unfoldable pub protocol_add_universe : UniverseConfig → DmxIoProtocol → DmxIoProtocol
protocol_add_universe config p = p

unfoldable pub protocol_remove_universe : Symbol → DmxIoProtocol → DmxIoProtocol
protocol_remove_universe name p = p

-- `universes`
unfoldable pub protocol_universes : DmxIoProtocol → List Symbol
protocol_universes p =
    map (λ (u : ℤ × Symbol). u.1) p.input_universes
    ++ map (λ (u : ℤ × Symbol). u.1) p.output_universes

-- `dmx_io_service`; `_protocols` by the protocol that each entry stands under.
pub record DmxIoService : Type 0 where
  pub input_buffer : DmxBuffer
  pub output_buffer : DmxBuffer
  pub protocols : List DmxIoProtocol

-- `std::set::insert`
unfoldable pub set_insert : ℤ → List ℤ → List ℤ
set_insert a [] = a ∷ []
set_insert a (b ∷ s) =
    let rest = set_insert a s in
    if eq_long a b then b ∷ s else if ltb_ℤ a b then a ∷ b ∷ s else b ∷ rest

unfoldable pub protocol_eq : Protocol → Protocol → Bool
protocol_eq protocol_none protocol_none = true
protocol_eq artnet artnet = true
protocol_eq sacn sacn = true
protocol_eq enttec_dmxusbpro enttec_dmxusbpro = true
protocol_eq enttec_opendmxusb enttec_opendmxusb = true
protocol_eq _ _ = false

-- What the loop over the keys collects: the configurations, each under its name, and the addresses of
-- the inputs and of the outputs.
pub record Collected : Type 0 where
  pub configs : List UniverseConfig
  pub inputs : List ℤ
  pub outputs : List ℤ

-- `configs.insert`, which keeps an entry under the same name.
unfoldable pub insert_config : UniverseConfig → List UniverseConfig → List UniverseConfig
insert_config c [] = c ∷ []
insert_config c (d ∷ configs) =
    let rest = insert_config c configs in if sym_eq c.name d.name then d ∷ configs else d ∷ rest

unfoldable pub collect_type : UniverseConfig → UniverseType → Collected → Collected
unfolding set_insert
collect_type c input k = record k { inputs = set_insert c.internal_universe k.inputs }
collect_type c output k = record k { outputs = set_insert c.internal_universe k.outputs }
collect_type c type_none k = k

unfoldable pub collect_one : UniverseConfig → Collected → Collected
unfolding protocol_eq insert_config collect_type
collect_one c k =
    if protocol_eq c.protocol artnet || protocol_eq c.protocol sacn
    then collect_type c c.type (record k { configs = insert_config c k.configs })
    else k

-- The loop over the keys of the table.
unfoldable pub collect : Hashtab UniverseConfig → List Symbol → Collected → Collected
collect universes [] k = k
collect universes (key ∷ keys) k = elim (universes.lookup key) [
  | none ↦ collect universes keys k
  | some c ↦ collect universes keys (collect_one c k)
]

-- The body of the loop over the configurations: the protocol is looked up, made where it is missing,
-- and told of the universe.
unfoldable pub add_to_protocols : UniverseConfig → List DmxIoProtocol → Option (List DmxIoProtocol)
unfolding protocol_eq create_protocol protocol_add_universe
add_to_protocols c [] =
    create_protocol c.protocol >>= (λ (p : DmxIoProtocol). some (protocol_add_universe c p ∷ []))
add_to_protocols c (p ∷ protocols) =
    let rest = add_to_protocols c protocols in
    if protocol_eq p.protocol c.protocol
    then some (protocol_add_universe c p ∷ protocols)
    else rest >>= (λ (ps : List DmxIoProtocol). some (p ∷ ps))

unfoldable pub add_all : List UniverseConfig → List DmxIoProtocol → Option (List DmxIoProtocol)
unfolding add_to_protocols
add_all [] protocols = some protocols
add_all (c ∷ configs) protocols =
    add_to_protocols c protocols >>= (λ (ps : List DmxIoProtocol). add_all configs ps)

-- The loops that remove the universes without a configuration.
unfoldable pub has_name : Symbol → List UniverseConfig → Bool
has_name name [] = false
has_name name (c ∷ configs) = let rest = has_name name configs in sym_eq c.name name || rest

unfoldable pub remove_missing : List UniverseConfig → List Symbol → DmxIoProtocol → DmxIoProtocol
remove_missing configs [] p = p
remove_missing configs (name ∷ names) p =
    remove_missing configs names
      (if has_name name configs then p else protocol_remove_universe name p)

-- After the protocols were told of the universes.
abbrev pub pruned : Collected → DmxBuffer → DmxBuffer → List DmxIoProtocol → DmxIoService
pruned k input_buffer output_buffer protocols = record {
  input_buffer = input_buffer;
  output_buffer = output_buffer;
  protocols =
      map (λ (p : DmxIoProtocol). remove_missing k.configs (protocol_universes p) p) protocols;
}

abbrev pub nothing_collected : Collected
nothing_collected = record { configs = []; inputs = []; outputs = [] }

-- `set_universes` once the keys are known.
unfoldable pub set_listed :
    Hashtab UniverseConfig → List Symbol → DmxIoService → Option DmxIoService
set_listed universes keys x =
    let k = collect universes keys nothing_collected in
    resize k.inputs x.input_buffer >>= (λ (i : DmxBuffer).
      resize k.outputs x.output_buffer >>= (λ (o : DmxBuffer).
        add_all k.configs x.protocols >>= (λ (ps : List DmxIoProtocol). some (pruned k i o ps))))

-- `dmx_io_service::set_universes`; the global adapters are not used.
unfoldable pub set_universes : Hashtab UniverseConfig → DmxIoService → Option DmxIoService
set_universes universes x = elim universes.getkeys [
  | none ↦ some x
  | some keys ↦ set_listed universes keys x
]

-- `dmx_io_service::write` and `dmx_io_service::read`
unfoldable pub io_write : ℤ → ℤ → List ℕ → DmxIoService → Option DmxIoService
io_write universe channel src x =
    write universe channel src x.output_buffer
    >>= (λ (b : DmxBuffer). some (record x { output_buffer = b }))

unfoldable pub io_read : ℤ → ℤ → ℕ → DmxIoService → Option (ℕ × List ℕ)
io_read universe channel channel_count x = read universe channel channel_count x.input_buffer

-- `dmx_io_service::process_io`; `send_data` of both protocols has no effect.
unfoldable pub process_io : DmxIoService → Option DmxIoService
process_io x = swap x.output_buffer >>= (λ (b : DmxBuffer). some (record x { output_buffer = b }))
