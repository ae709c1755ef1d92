-- ===== src/Universe/Getters.antt =====
-- lx_universe_config.c: the getters of the class attributes.
use lxmax.Common.{if◌then◌else◌, ◌||◌, List, [], ◌∷◌, map, take, Option, none, some, ℤ}
use lxmax.Max.{System, Symbol, sym_eq, Atom, a_long, a_sym, IpAddress}
use lxmax.Symbols.{
  not_applicable, artnet_mode_broadcast, artnet_mode_unicast, sacn_mode_multicast,
  sacn_mode_unicast, interface_ip_adapter_all, ip_address_broadcast,
}
use lxmax.Dmx.Artnet.{to_artnet_format}
use lxmax.Dmx.Multicast.{to_sacn_multicast_ip}
use lxmax.Net.Adapter.{network_adapter_get_broadcast_ips}
use lxmax.Universe.Kinds.{Protocol, artnet, sacn, universe_type_to_sym, universe_protocol_to_sym}
use lxmax.Universe.Config.{UniverseConfig}

module _ (sys : System) where
  -- The atoms that a getter returns.
  unfoldable pub type_get : UniverseConfig → Option Symbol
  type_get x = universe_type_to_sym x.type

  unfoldable pub protocol_get : UniverseConfig → List Atom
  protocol_get x = a_sym (universe_protocol_to_sym x.protocol) ∷ []

  -- `lx_universe_protocol_universe_get`
  unfoldable pub get_universe : Protocol → ℤ → Atom
  get_universe artnet n = a_sym (to_artnet_format n)
  get_universe _ n = a_long n

  unfoldable pub protocol_universe_get : UniverseConfig → List Atom
  unfolding get_universe
  protocol_universe_get x = get_universe x.protocol x.protocol_universe ∷ []

  -- `lx_universe_priority_get`
  unfoldable pub get_priority : Protocol → ℤ → Atom
  get_priority sacn n = a_long n
  get_priority _ n = a_sym not_applicable

  unfoldable pub priority_get : UniverseConfig → List Atom
  unfolding get_priority
  priority_get x = get_priority x.protocol x.priority ∷ []

  unfoldable pub address_atom : IpAddress → Atom
  address_atom ip = a_sym (sys.inet.inet_ntop ip)

  -- `lx_universe_unicast_addresses_get`; `none` where `argc` and `argv` stay.
  unfoldable pub unicast_addresses_get : UniverseConfig → Option (List Atom)
  unfolding address_atom
  unicast_addresses_get x =
      if sym_eq x.protocol_mode artnet_mode_unicast || sym_eq x.protocol_mode sacn_mode_unicast
      then some (map address_atom (take x.unicast_addresses_count x.unicast_addresses))
      else if sym_eq x.protocol_mode artnet_mode_broadcast
      then if sym_eq x.protocol_interface interface_ip_adapter_all
        then some (a_sym ip_address_broadcast ∷ [])
        else elim x.adapter [
          | none ↦ none
          | some a ↦ some (map address_atom (network_adapter_get_broadcast_ips a))
        ]
      else if sym_eq x.protocol_mode sacn_mode_multicast
      then some (address_atom (to_sacn_multicast_ip x.protocol_universe) ∷ [])
      else some (a_sym not_applicable ∷ [])
