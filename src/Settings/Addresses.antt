-- ===== src/Settings/Addresses.antt =====
-- lx.service.cpp: the unicast addresses of the settings.
use lxmax.Common.{
  ℕ, zero, suc, ◌+◌, ◌≤◌, ◌==◌, ◌≡◌, refl, ap, false, List, [], ◌∷◌, map, none, All, length, take,
  arith, if◌then◌else◌,
}
use lxmax.Max.{System, Atom, a_long, a_float, a_sym, a_other, IpAddress, IsIp}
use lxmax.Universe.Attributes.{store_addresses, store_address, store_read}
use lxmax.Universe.Getters.{address_atom}
use lxmax.Universe.Laws.Unicast.{store_addresses-map, take-all, length-map}
use lxmax.Settings.{
  ServiceObject, global_artnet_unicast_addresses_get, global_artnet_unicast_addresses_set,
  global_sacn_unicast_addresses_get, global_sacn_unicast_addresses_set,
}

module _ (sys : System) where
  stored_back :
      (array : List IpAddress) (old : ℕ) (ip : IpAddress) (ips : List IpAddress)
      → length array ≡ 32
      → All IsIp (ip ∷ ips)
      → length (ip ∷ ips) ≤ 32
      → let argv = map (address_atom sys) (ip ∷ ips) in
        let stored = store_addresses sys (take 32 argv) (array, 0) in
        map (address_atom sys) (take (if stored.1 == 0 then old else stored.1) stored.0) ≡ argv
  stored_back array old ip ips n all fits =
      let argv = map (address_atom sys) (ip ∷ ips) in
      let whole : take 32 argv ≡ argv =
        take-all 32 argv (omega (arith, length-map (address_atom sys) (ip ∷ ips))) in
      let s = store_addresses-map sys (ip ∷ ips) array 0 all (omega (arith, n)) in
      let some_read : (0 + length (ip ∷ ips) == 0) ≡ false = ground arith in
      rw (whole, s.0, some_read) (ap (map (address_atom sys)) s.1)

  -- One to 32 addresses that are set are the addresses that the getter returns, in order, for Art-Net
  -- and for sACN.
  pub global_unicast_get-set :
      (x : ServiceObject) (ip : IpAddress) (ips : List IpAddress)
      → length x.global_artnet_unicast_addresses ≡ 32
      → length x.global_sacn_unicast_addresses ≡ 32
      → All IsIp (ip ∷ ips)
      → length (ip ∷ ips) ≤ 32
      → let argv = map (address_atom sys) (ip ∷ ips) in
        (global_artnet_unicast_addresses_get sys (global_artnet_unicast_addresses_set sys x argv)
          ≡ argv)
        × (global_sacn_unicast_addresses_get sys (global_sacn_unicast_addresses_set sys x argv)
            ≡ argv)
  unfolding global_artnet_unicast_addresses_get global_artnet_unicast_addresses_set
      global_sacn_unicast_addresses_get global_sacn_unicast_addresses_set
  global_unicast_get-set x ip ips n m all fits = (
    stored_back x.global_artnet_unicast_addresses x.global_artnet_unicast_addresses_count ip ips n
        all fits,
    stored_back x.global_sacn_unicast_addresses x.global_sacn_unicast_addresses_count ip ips m all
        fits,
  )

  -- An atom that is no symbol, or one that is not read as an address.
  abbrev pub Unreadable : Atom → Type 0
  Unreadable (a_sym s) = sys.inet.inet_pton s ≡ none
  Unreadable _ = Unit {0}

  store_addresses-Unreadable :
      (argv : List Atom) (stored : List IpAddress × ℕ)
      → All Unreadable argv
      → store_addresses sys argv stored ≡ stored
  unfolding store_addresses store_address store_read
  store_addresses-Unreadable [] stored u = refl
  store_addresses-Unreadable (a_sym s ∷ argv) (array, count) u =
      rw (u.0, store_address, store_read) (store_addresses-Unreadable argv (array, count) u.1)
  store_addresses-Unreadable (a_long n ∷ argv) stored u = store_addresses-Unreadable argv stored u.1
  store_addresses-Unreadable (a_float n ∷ argv) stored u =
      store_addresses-Unreadable argv stored u.1
  store_addresses-Unreadable (a_other n ∷ argv) stored u =
      store_addresses-Unreadable argv stored u.1

  take-Unreadable : (n : ℕ) (argv : List Atom) → All Unreadable argv → All Unreadable (take n argv)
  take-Unreadable zero argv u = tt
  take-Unreadable (suc n) [] u = tt
  take-Unreadable (suc n) (atom ∷ argv) u = (u.0, take-Unreadable n argv u.1)

  -- Atoms none of which is an address leave all settings as they are, the empty list among them: the
  -- addresses that are set cannot be cleared.
  pub global_unicast_set-Unreadable :
      (x : ServiceObject) (argv : List Atom)
      → All Unreadable argv
      → (global_artnet_unicast_addresses_set sys x argv ≡ x)
        × (global_sacn_unicast_addresses_set sys x argv ≡ x)
  unfolding global_artnet_unicast_addresses_set global_sacn_unicast_addresses_set
  global_unicast_set-Unreadable x argv u =
      let a =
        store_addresses-Unreadable (take 32 argv) (x.global_artnet_unicast_addresses, 0)
          (take-Unreadable 32 argv u) in
      let b =
        store_addresses-Unreadable (take 32 argv) (x.global_sacn_unicast_addresses, 0)
          (take-Unreadable 32 argv u) in
      (rw a refl, rw b refl)
