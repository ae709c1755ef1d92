-- ===== src/Enumerate/Adapters/Grouped.antt =====
-- lx_net_macos.c: the adapters are the entries of the system, grouped by their names.
use mathlib.Core.List.{append-nil}
use lxmax.Common.{
  ◌≡◌, refl, sym, ap, ◌∙◌, Bool-cases, Option-cases, inl, inr, false, if◌then◌else◌, List, [], ◌∷◌,
  ◌++◌, append_assoc, Option, none, some, ℤ, All, Bool, true,
}
use lxmax.Max.{Text, Symbol, sym_eq, sym_eq_iff, IpAddress, Hashtab}
use lxmax.Net.Adapter.{AdapterAddress, NetworkAdapter}
use lxmax.Enumerate.{Filling, NeverFull, lookup-stored}
use lxmax.Enumerate.Adapters.{
  network_adapter_new, SockAddr, inet, other_family, IfAddrs, append_address, appended,
  with_adapter, add_entry, add_all_ifaddrs, enumerate_macos,
}

-- An IPv4 entry has a netmask.
abbrev Masked : Option SockAddr → Option IpAddress → Type 0
Masked none mask = Unit {0}
Masked (some other_family) mask = Unit {0}
Masked (some (inet address)) none = ⊥
Masked (some (inet address)) (some mask) = Unit {0}

abbrev pub IsMasked : IfAddrs → Type 0
IsMasked e = Masked e.ifa_addr e.ifa_netmask

abbrev ip_entry : Option SockAddr → Option IpAddress → List AdapterAddress
ip_entry none mask = []
ip_entry (some other_family) mask = []
ip_entry (some (inet address)) none = []
ip_entry (some (inet address)) (some mask) = record { address = address; subnet_mask = mask } ∷ []

-- The IPv4 addresses that the system gives for a name, in its order.
abbrev entry_of : Symbol → IfAddrs → List AdapterAddress
entry_of k e = if sym_eq e.ifa_name k then ip_entry e.ifa_addr e.ifa_netmask else []

abbrev pub addresses_of : Symbol → List IfAddrs → List AdapterAddress
addresses_of k [] = []
addresses_of k (e ∷ es) = entry_of k e ++ addresses_of k es

module _ (if_nametoindex : Text → ℤ) where
  -- What is found under a name after so many addresses have come to it.
  abbrev grown : Symbol → Option NetworkAdapter → List AdapterAddress → Option NetworkAdapter
  grown k (some x) more = some (record x { addresses = x.addresses ++ more })
  grown k none [] = none
  grown k none (a ∷ more) =
      some (record { name = k; index = if_nametoindex k; addresses = a ∷ more })

  -- The adapter of a name: none without an address.
  abbrev pub adapter_of : Symbol → List IfAddrs → Option NetworkAdapter
  adapter_of k es = grown k none (addresses_of k es)

  grown-nil : (k : Symbol) (o : Option NetworkAdapter) → grown k o [] ≡ o
  grown-nil k none = refl
  grown-nil k (some x) =
      ap (λ (l : List AdapterAddress). some (record x { addresses = l })) (append-nil x.addresses)

  -- An entry that adds nothing, under any name.
  kept :
      (k : Symbol) (o : Option NetworkAdapter) (same : Bool)
      → grown k o (if same then [] else []) ≡ o
  kept k o true = grown-nil k o
  kept k o false = grown-nil k o

  grown-grown :
      (k : Symbol) (o : Option NetworkAdapter) (xs ys : List AdapterAddress)
      → grown k (grown k o xs) ys ≡ grown k o (xs ++ ys)
  grown-grown k (some x) xs ys =
      ap (λ (l : List AdapterAddress). some (record x { addresses = l }))
        (append_assoc x.addresses xs ys)
  grown-grown k none [] ys = refl
  grown-grown k none (a ∷ xs) ys = refl

  module _ (filling : Filling NetworkAdapter) (total : NeverFull filling) where
    -- The adapter that the table has under a name, or a new one.
    abbrev base : Text → Option NetworkAdapter → NetworkAdapter
    base name none = record { name = name; index = if_nametoindex name; addresses = [] }
    base name (some x) = x

    lookup-with_adapter :
        (t : Hashtab NetworkAdapter) (name : Text) (k : Symbol)
        → (with_adapter filling if_nametoindex t name).lookup k
          ≡ (if sym_eq name k then some (base name (t.lookup name)) else t.lookup k)
    unfolding with_adapter network_adapter_new
    lookup-with_adapter t name k = elim (Option-cases (t.lookup name)) [
      | inl new ↦
          rw (new, with_adapter)
            (lookup-stored filling t name (network_adapter_new name (if_nametoindex name) []) total
              k)
      | inr (x, old) ↦ elim (Bool-cases (sym_eq name k)) [
        | inl same ↦
            rw (old, with_adapter, same)
              (sym (ap (λ (s : Symbol). t.lookup s) ((sym_eq_iff name k).0 same)) ∙ old)
        | inr other ↦ rw (old, with_adapter, other) refl
      ]
    ]

    grown-base :
        (name : Text) (address : AdapterAddress) (o : Option NetworkAdapter)
        → some (record (base name o) { addresses = (base name o).addresses ++ address ∷ [] })
          ≡ grown name o (address ∷ [])
    grown-base name address none = refl
    grown-base name address (some x) = refl

    appended-other :
        (name : Text) (address : AdapterAddress) (k : Symbol) (o : Option NetworkAdapter)
        → sym_eq name k ≡ false
        → appended name address k o ≡ o
    unfolding appended
    appended-other name address k none other = refl
    appended-other name address k (some x) other = rw other refl

    -- An address that is appended under a name, whether or not its adapter was there.
    lookup-append :
        (t : Hashtab NetworkAdapter) (name : Text) (address : AdapterAddress) (k : Symbol)
        → (append_address (with_adapter filling if_nametoindex t name) name address).lookup k
          ≡ grown k (t.lookup k) (if sym_eq name k then address ∷ [] else [])
    unfolding append_address appended
    lookup-append t name address k = elim (Bool-cases (sym_eq name k)) [
      | inl same ↦
          let e : name ≡ k = (sym_eq_iff name k).0 same in
          rw (lookup-with_adapter t name k, same, appended, same)
            (grown-base name address (t.lookup name)
              ∙ ap (λ (s : Symbol). grown s (t.lookup s) (address ∷ [])) e)
      | inr other ↦
          rw (lookup-with_adapter t name k, other)
            (appended-other name address k (t.lookup k) other ∙ sym (grown-nil k (t.lookup k)))
    ]

    -- One round.
    lookup-add_entry :
        (name : Text) (addr : Option SockAddr) (mask : Option IpAddress)
        (t : Hashtab NetworkAdapter)
        → Masked addr mask
        → (u : Hashtab NetworkAdapter) × (add_entry filling if_nametoindex name addr mask t
            ≡ some u)
          × ((k : Symbol)
              → u.lookup k
                ≡ grown k (t.lookup k) (if sym_eq name k then ip_entry addr mask else []))
    unfolding add_entry
    lookup-add_entry name none mask t m = (t, refl, λ k. sym (kept k (t.lookup k) (sym_eq name k)))
    lookup-add_entry name (some other_family) mask t m =
        (t, refl, λ k. sym (kept k (t.lookup k) (sym_eq name k)))
    lookup-add_entry name (some (inet address)) none t m = absurd m
    lookup-add_entry name (some (inet address)) (some mask) t m = (
      append_address (with_adapter filling if_nametoindex t name) name
          (record { address = address; subnet_mask = mask }),
      refl,
      λ k. lookup-append t name (record { address = address; subnet_mask = mask }) k,
    )

    lookup-add_all_ifaddrs :
        (es : List IfAddrs) (t : Hashtab NetworkAdapter)
        → All IsMasked es
        → (u : Hashtab NetworkAdapter) × (add_all_ifaddrs filling if_nametoindex es t ≡ some u)
          × ((k : Symbol) → u.lookup k ≡ grown k (t.lookup k) (addresses_of k es))
    unfolding add_all_ifaddrs
    lookup-add_all_ifaddrs [] t m = (t, refl, λ k. sym (grown-nil k (t.lookup k)))
    lookup-add_all_ifaddrs (e ∷ es) t m =
        let r = lookup-add_entry e.ifa_name e.ifa_addr e.ifa_netmask t m.0 in
        let s = lookup-add_all_ifaddrs es r.0 m.1 in
        (
          s.0,
          rw r.1 s.1,
          λ k.
              s.2 k
              ∙ (ap (λ (o : Option NetworkAdapter). grown k o (addresses_of k es)) (r.2 k)
                  ∙ grown-grown k (t.lookup k) (entry_of k e) (addresses_of k es)),
        )

    -- If no store fails and every IPv4 entry has a netmask, the enumeration on macOS is defined, and
    -- under each name it finds the adapter with all IPv4 addresses that the system gives for this
    -- name, in its order, and none where there is no such address.
    pub enumerate_macos-adapter_of :
        (es : List IfAddrs)
        → All IsMasked es
        → (u : Hashtab NetworkAdapter) × (enumerate_macos filling if_nametoindex (some es) ≡ some u)
          × ((k : Symbol) → u.lookup k ≡ adapter_of k es)
    unfolding enumerate_macos
    enumerate_macos-adapter_of es m =
        let r = lookup-add_all_ifaddrs es filling.hashtab_new m in
        (
          r.0,
          r.1,
          λ k.
              r.2 k
              ∙ ap (λ (o : Option NetworkAdapter). grown k o (addresses_of k es))
                  (filling.hashtab_new_lem k),
        )
