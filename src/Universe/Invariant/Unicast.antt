-- ===== src/Universe/Invariant/Unicast.antt =====
-- The invariant of a configuration under the setter of the unicast addresses.
use lxmax.Common.{
  ℕ, suc, ◌+◌, ◌≤◌, ◌≡◌, refl, ◌==◌, if◌then◌else◌, Bool-cases, inl, inr, List, [], ◌∷◌, Option,
  none, some, length, length-set, take, ◌∙◌, length-take, arith,
}
use lxmax.Max.{System, Atom, a_sym, IpAddress}
use lxmax.Universe.Config.{UniverseConfig, unicast_addresses_max}
use lxmax.Universe.Attributes.{
  store_addresses, store_address, store_read, unicast_refused, unicast_addresses_set,
}
use lxmax.Universe.Invariant.{IsValid}

pick_count-le :
    (stored old : ℕ) → stored ≤ 32 → old ≤ 32 → (if stored == 0 then old else stored) ≤ 32
pick_count-le stored old h k = ground arith

module _ (sys : System) where
  store_read-slots :
      (read : Option IpAddress) (array : List IpAddress) (count : ℕ)
      → length (store_read sys read (array, count)).0 ≡ length array
  unfolding store_read
  store_read-slots none array count = refl
  store_read-slots (some ip) array count = length-set array count ip

  store_address-slots :
      (atom : Atom) (array : List IpAddress) (count : ℕ)
      → length (store_address sys atom (array, count)).0 ≡ length array
  unfolding store_address
  store_address-slots (a_sym s) array count = store_read-slots (sys.inet.inet_pton s) array count
  store_address-slots _ array count = refl

  store_addresses-slots :
      (argv : List Atom) (stored : List IpAddress × ℕ)
      → length (store_addresses sys argv stored).0 ≡ length stored.0
  unfolding store_addresses
  store_addresses-slots [] stored = refl
  store_addresses-slots (atom ∷ argv) stored =
      store_addresses-slots argv (store_address sys atom stored)
      ∙ store_address-slots atom stored.0 stored.1

  store_read-count :
      (read : Option IpAddress) (array : List IpAddress) (count : ℕ)
      → (store_read sys read (array, count)).1 ≤ suc count
  unfolding store_read
  store_read-count none array count = omega arith
  store_read-count (some ip) array count = omega arith

  store_address-count :
      (atom : Atom) (array : List IpAddress) (count : ℕ)
      → (store_address sys atom (array, count)).1 ≤ suc count
  unfolding store_address
  store_address-count (a_sym s) array count = store_read-count (sys.inet.inet_pton s) array count
  store_address-count _ array count = omega arith

  store_addresses-count :
      (argv : List Atom) (stored : List IpAddress × ℕ)
      → (store_addresses sys argv stored).1 ≤ stored.1 + length argv
  unfolding store_addresses
  store_addresses-count [] stored = omega arith
  store_addresses-count (atom ∷ argv) stored = omega (
    arith,
    store_addresses-count argv (store_address sys atom stored),
    store_address-count atom stored.0 stored.1,
  )

  -- The new array and count, if the setter goes through with some atoms.
  abbrev stored_by : UniverseConfig → List Atom → List IpAddress × ℕ
  stored_by x argv = store_addresses sys (take unicast_addresses_max argv) (x.unicast_addresses, 0)

  with_addresses-IsValid :
      (x : UniverseConfig) (array : List IpAddress) (count : ℕ)
      → length array ≡ 32
      → count ≤ 32
      → IsValid x
      → IsValid (record x { unicast_addresses = array; unicast_addresses_count = count })
  with_addresses-IsValid x array count h k v = record {
    type_offered = v.type_offered;
    mode_offered = v.mode_offered;
    universe_range = v.universe_range;
    enable_range = v.enable_range;
    internal_range = v.internal_range;
    priority_range = v.priority_range;
    slots = h;
    count_fits = k;
  }

  pub unicast_addresses_set-IsValid :
      (x : UniverseConfig) (argv : List Atom)
      → IsValid x
      → IsValid (unicast_addresses_set sys x argv)
  unfolding unicast_addresses_set
  unicast_addresses_set-IsValid x argv v = elim (Bool-cases (unicast_refused sys x)) [
    | inl refused ↦ rw refused v
    | inr allowed ↦ elim (Bool-cases (length argv == 0)) [
      | inl empty ↦
          rw (allowed, empty)
            (with_addresses-IsValid x x.unicast_addresses 0 v.slots (omega arith) v)
      | inr some_given ↦
          rw (allowed, some_given)
            (with_addresses-IsValid x (stored_by x argv).0 _
              (store_addresses-slots (take 32 argv) (x.unicast_addresses, 0) ∙ v.slots)
              (pick_count-le (stored_by x argv).1 x.unicast_addresses_count
                (omega (
                  arith,
                  store_addresses-count (take 32 argv) (x.unicast_addresses, 0),
                  length-take 32 argv,
                ))
                v.count_fits)
              v)
    ]
  ]
