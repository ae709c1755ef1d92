-- ===== src/Universe/Laws/Unicast.antt =====
-- lx_universe_config.c: setting the unicast addresses, then getting them.
use mathlib.Core.List.{append-nil}
use native.Mathlib.Nat.{add-zero}
use lxmax.Common.{
  ℕ, zero, suc, ◌+◌, ◌≤◌, ◌<◌, ◌==◌, ◌≡◌, refl, ap, sym, subst, ◌∙◌, ◌↔◌, true, false, List, [],
  ◌∷◌, ◌++◌, map, some, arith, length, take, set, All, Bool-cases, inl, inr, length-set,
  append_assoc,
}
use lxmax.Max.{System, sym_eq, sym_eq_iff, Atom, IpAddress, IsIp}
use lxmax.Symbols.{artnet_mode_unicast}
use lxmax.Universe.Kinds.{UniverseType, type_none, input, output}
use lxmax.Universe.Config.{UniverseConfig, unicast_addresses_max}
use lxmax.Universe.Attributes.{
  unicast_refused, is_input, store_addresses, store_address, store_read, unicast_addresses_set,
}
use lxmax.Universe.Getters.{unicast_addresses_get, address_atom}
use lxmax.Universe.Invariant.{IsValid}

module _ {ℓ} {A : Type ℓ} where
  take-set :
      (xs : List A) (i : ℕ) (v : A)
      → i < length xs
      → take (suc i) (set xs i v) ≡ take i xs ++ v ∷ []
  take-set [] i v h = absurd (omega arith)
  take-set (x ∷ xs) zero v h = refl
  take-set (x ∷ xs) (suc i) v h = ap (◌∷◌ x) (take-set xs i v (omega arith))

  pub take-all : (n : ℕ) (xs : List A) → length xs ≤ n → take n xs ≡ xs
  take-all zero [] h = refl
  take-all zero (x ∷ xs) h = absurd (omega arith)
  take-all (suc n) [] h = refl
  take-all (suc n) (x ∷ xs) h = ap (◌∷◌ x) (take-all n xs (omega arith))

  pub length-map {κ} : {B : Type κ} (f : A → B) (xs : List A) → length (map f xs) ≡ length xs
  length-map f [] = refl
  length-map f (x ∷ xs) = ap suc (length-map f xs)

module _ (sys : System) where
  is_input_iff : (t : UniverseType) → (is_input sys t ≡ true) ↔ (t ≡ input)
  unfolding is_input
  is_input_iff type_none = ground arith
  is_input_iff input = ground arith
  is_input_iff output = ground arith

  -- The setter of the unicast addresses refuses exactly the universes of type input, whatever the
  -- mode.
  pub unicast_refused_iff : (x : UniverseConfig) → (unicast_refused sys x ≡ true) ↔ (x.type ≡ input)
  unfolding unicast_refused
  unicast_refused_iff x = ground (arith, is_input_iff x.type)

  store_one :
      (ip : IpAddress) (array : List IpAddress) (count : ℕ)
      → IsIp ip
      → store_address sys (address_atom sys ip) (array, count) ≡ (set array count ip, suc count)
  unfolding store_address address_atom store_read
  store_one ip array count h = rw (sys.inet.pton-ntop ip h, store_read)

  abbrev pub Stored : List IpAddress → List IpAddress → ℕ → List IpAddress × ℕ → Type 0
  Stored ips array count stored =
      (stored.1 ≡ count + length ips)
      × (take (count + length ips) stored.0 ≡ take count array ++ ips)

  -- The loop stores the addresses one after the other behind the `count` first slots.
  pub store_addresses-map :
      (ips : List IpAddress) (array : List IpAddress) (count : ℕ)
      → All IsIp ips
      → count + length ips ≤ length array
      → Stored ips array count (store_addresses sys (map (address_atom sys) ips) (array, count))
  unfolding store_addresses
  store_addresses-map [] array count all fits = (omega arith, rw (add-zero, append-nil))
  store_addresses-map (ip ∷ ips) array count all fits =
      let ih =
        store_addresses-map ips (set array count ip) (suc count) all.1
          (omega (arith, length-set array count ip)) in
      let e : count + length (ip ∷ ips) ≡ suc count + length ips = omega arith in
      let step =
        ap (store_addresses sys (map (address_atom sys) ips)) (store_one ip array count all.0) in
      subst (Stored (ip ∷ ips) array count) (sym step) (
        ih.0 ∙ sym e,
        ap
              (λ (n : ℕ).
                take n
                  (store_addresses sys (map (address_atom sys) ips)
                    (set array count ip, suc count)).0)
              e
            ∙ ih.1
            ∙ ap (λ (t : List IpAddress). t ++ ips) (take-set array count ip (omega arith))
            ∙ append_assoc (take count array) (ip ∷ []) ips,
      )

  -- What the setter leaves, when it goes through with one atom or more.
  set_allowed :
      (x : UniverseConfig) (stored : List IpAddress × ℕ) (argv : List Atom)
      → unicast_refused sys x ≡ false
      → 0 < length argv
      → store_addresses sys (take unicast_addresses_max argv) (x.unicast_addresses, 0) ≡ stored
      → 0 < stored.1
      → unicast_addresses_set sys x argv
        ≡ record x { unicast_addresses = stored.0; unicast_addresses_count = stored.1 }
  unfolding unicast_addresses_set
  set_allowed x stored argv allowed given e some_read =
      let some_given : (length argv == 0) ≡ false = ground arith in
      let counted : (stored.1 == 0) ≡ false = ground arith in
      rw (allowed, some_given, e, counted) refl

  get_unicast :
      (x : UniverseConfig)
      → x.protocol_mode ≡ artnet_mode_unicast
      → unicast_addresses_get sys x
        ≡ some (map (address_atom sys) (take x.unicast_addresses_count x.unicast_addresses))
  unfolding unicast_addresses_get
  get_unicast x mode =
      let e : sym_eq x.protocol_mode artnet_mode_unicast ≡ true = (sym_eq_iff _ _).1 mode in
      rw e refl

  output-allowed : (x : UniverseConfig) → x.type ≡ output → unicast_refused sys x ≡ false
  output-allowed x t = elim (Bool-cases (unicast_refused sys x)) [
    | inl refused ↦ cc (t, (unicast_refused_iff x).0 refused)
    | inr allowed ↦ allowed
  ]

  -- One to 32 addresses that are set on a valid configuration of type output in unicast mode are the
  -- addresses that the getter returns, in order.
  pub unicast_addresses_get-set :
      (x : UniverseConfig) (ip : IpAddress) (ips : List IpAddress)
      → IsValid x
      → x.type ≡ output
      → x.protocol_mode ≡ artnet_mode_unicast
      → All IsIp (ip ∷ ips)
      → length (ip ∷ ips) ≤ 32
      → unicast_addresses_get sys (unicast_addresses_set sys x (map (address_atom sys) (ip ∷ ips)))
        ≡ some (map (address_atom sys) (ip ∷ ips))
  unicast_addresses_get-set x ip ips v t mode all fits =
      let argv = map (address_atom sys) (ip ∷ ips) in
      let stored = store_addresses sys argv (x.unicast_addresses, 0) in
      let s = store_addresses-map (ip ∷ ips) x.unicast_addresses 0 all (omega (arith, v.slots)) in
      let whole : take 32 argv ≡ argv =
        take-all 32 argv (omega (arith, length-map (address_atom sys) (ip ∷ ips))) in
      rw
        (set_allowed x stored argv (output-allowed x t) (omega arith)
          (ap (λ (l : List Atom). store_addresses sys l (x.unicast_addresses, 0)) whole)
          (omega (arith, s.0)))
        (get_unicast _ mode
          ∙ ap (λ (l : List IpAddress). some (map (address_atom sys) l))
              (ap (λ (n : ℕ). take n stored.0) s.0 ∙ s.1))
