-- ===== src/Enumerate/Adapters.antt =====
-- lx_net_macos.c and lx_net_win.c: the table of network adapters.
pub mod Grouped
pub mod Listed
use lxmax.Common.{
  ℕ, zero, suc, ◌≡◌, ◌≤◌, if◌then◌else◌, List, [], ◌∷◌, ◌++◌, map, Option, none, some, ◌>>=◌, ℤ,
  take,
}
use lxmax.Max.{Text, Symbol, sym_eq, IpAddress, Hashtab}
use lxmax.Net.Adapter.{AdapterAddress, NetworkAdapter}
use lxmax.Enumerate.{Filling, stored}
use lxmax.Enumerate.Filled.{for_each}

-- `lx_network_adapter_new`
unfoldable pub network_adapter_new : Symbol → ℤ → List AdapterAddress → NetworkAdapter
network_adapter_new name index addresses = record {
  name = name;
  index = index;
  addresses = addresses;
}

-- A `struct sockaddr`: an IPv4 address, or one of another family.
pub data SockAddr : Type 0 where
  inet : IpAddress → SockAddr
  other_family : SockAddr

-- A `struct ifaddrs`. Its pointers can be null.
pub record IfAddrs : Type 0 where
  pub ifa_name : Text
  pub ifa_addr : Option SockAddr
  pub ifa_netmask : Option IpAddress

-- `linklist_append(adapter->addresses, …)` on the adapter that the table holds under `name`, as it is
-- then found under `k`.
unfoldable pub appended :
    Symbol → AdapterAddress → Symbol → Option NetworkAdapter → Option NetworkAdapter
appended name address k none = none
appended name address k (some x) =
    if sym_eq name k then some (record x { addresses = x.addresses ++ address ∷ [] }) else some x

-- The table holds pointers: every lookup sees the new address.
unfoldable pub append_address :
    Hashtab NetworkAdapter → Symbol → AdapterAddress → Hashtab NetworkAdapter
unfolding appended
append_address t name address = record {
  getkeys = t.getkeys;
  lookup = λ k. appended name address k (t.lookup k);
}

-- `if_nametoindex` is the system's.
module _ (filling : Filling NetworkAdapter) (if_nametoindex : Text → ℤ) where
  -- The adapter of that name is found in the table, or one is stored in it.
  unfoldable pub with_adapter : Hashtab NetworkAdapter → Text → Hashtab NetworkAdapter
  with_adapter t name = elim (t.lookup name) [
    | none ↦ stored filling t name (network_adapter_new name (if_nametoindex name) [])
    | some x ↦ t
  ]

  -- One round of the loop in lx_net_macos.c, on the fields of an entry; `none` where a null netmask
  -- is read.
  unfoldable pub add_entry :
      Text
      → Option SockAddr
      → Option IpAddress
      → Hashtab NetworkAdapter
      → Option (Hashtab NetworkAdapter)
  unfolding with_adapter append_address
  add_entry name none mask t = some t
  add_entry name (some other_family) mask t = some t
  add_entry name (some (inet address)) none t = none
  add_entry name (some (inet address)) (some mask) t =
      some (
        append_address (with_adapter t name) name
          (record { address = address; subnet_mask = mask }))

  -- The loop.
  unfoldable pub add_all_ifaddrs :
      List IfAddrs → Hashtab NetworkAdapter → Option (Hashtab NetworkAdapter)
  unfolding add_entry
  add_all_ifaddrs [] t = some t
  add_all_ifaddrs (e ∷ es) t =
      add_entry e.ifa_name e.ifa_addr e.ifa_netmask t
      >>= (λ (u : Hashtab NetworkAdapter). add_all_ifaddrs es u)

  -- `lx_network_adapter_enumerate` in lx_net_macos.c; `none` is a failure of `getifaddrs`.
  unfoldable pub enumerate_macos : Option (List IfAddrs) → Option (Hashtab NetworkAdapter)
  unfolding add_all_ifaddrs
  enumerate_macos none = some filling.hashtab_new
  enumerate_macos (some entries) = add_all_ifaddrs entries filling.hashtab_new

-- An `IP_ADAPTER_ADDRESSES`, with the prefix length of each unicast address.
pub record IpAdapterAddresses : Type 0 where
  pub friendly_name : Text
  pub if_index : ℤ
  pub unicast_addresses : List (SockAddr × ℕ)

-- What `GetAdaptersAddresses` returns.
pub data AdaptersResult : Type 0 where
  error_buffer_overflow error_other : AdaptersResult
  no_error : List IpAdapterAddresses → AdaptersResult

-- The `do` loop of lx_net_win.c, with so many tries left after this one. `GetAdaptersAddresses` is
-- given the length of the buffer and sets it.
unfoldable pub try_adapters : (ℕ → AdaptersResult × ℕ) → ℕ → ℕ → AdaptersResult
try_adapters get_adapters_addresses zero buffer_length = (get_adapters_addresses buffer_length).0
try_adapters get_adapters_addresses (suc tries) buffer_length =
    let r = get_adapters_addresses buffer_length in
    elim r.0 [
      | error_buffer_overflow ↦ try_adapters get_adapters_addresses tries r.1
      | error_other ↦ error_other
      | no_error xs ↦ no_error xs
    ]

module _ (mask_of_length : ℕ → IpAddress) where
  -- The inner loop in lx_net_win.c: the IPv4 addresses. `mask_of_length` is `ConvertLengthToIpv4Mask`.
  unfoldable pub unicast_entries : List (SockAddr × ℕ) → List AdapterAddress
  unicast_entries [] = []
  unicast_entries ((inet address, prefix_length) ∷ rest) =
      record { address = address; subnet_mask = mask_of_length prefix_length }
      ∷ unicast_entries rest
  unicast_entries ((other_family, prefix_length) ∷ rest) = unicast_entries rest

  module _ (filling : Filling NetworkAdapter) where
    -- One round of the outer loop; an adapter of a name that is there takes its place.
    unfoldable pub add_adapter :
        IpAdapterAddresses → Hashtab NetworkAdapter → Hashtab NetworkAdapter
    unfolding unicast_entries
    add_adapter x t =
        stored filling t x.friendly_name
          (network_adapter_new x.friendly_name x.if_index (unicast_entries x.unicast_addresses))

    -- What follows the loop.
    unfoldable pub fill_table : AdaptersResult → Hashtab NetworkAdapter
    unfolding add_adapter
    fill_table error_buffer_overflow = filling.hashtab_new
    fill_table error_other = filling.hashtab_new
    fill_table (no_error xs) = for_each add_adapter xs filling.hashtab_new

    -- `lx_network_adapter_enumerate` in lx_net_win.c, with the first length of the buffer.
    unfoldable pub enumerate_win : (ℕ → AdaptersResult × ℕ) → ℕ → Hashtab NetworkAdapter
    unfolding try_adapters fill_table
    enumerate_win get_adapters_addresses buffer_length =
        fill_table (try_adapters get_adapters_addresses 2 buffer_length)
