-- ===== src/Tests/Fixture.antt =====
-- Concrete stand-ins for the SDK, the system and the tables, and sample data for the tests.
use lxmax.Common.{
  ℕ, ◌≡◌, refl, ap, sym, if◌then◌else◌, ◌&&◌, ltb, List, [], ◌∷◌, Option, none, some, ℤ, pos,
  negsuc, ◌≤ℤ◌, ltb_ℤ, arith,
}
use mathlib.Core.Option.{some-injective}
use lxmax.Max.{
  Max, Inet, System, mac, Text, Symbol, codes, sym_eq, Atom, a_long, a_sym, IpAddress, IsIp,
  Hashtab,
}
use lxmax.Net.Adapter.{NetworkAdapter}
use lxmax.Serial.{SerialPort}
use lxmax.Universe.Kinds.{sacn, output}
use lxmax.Universe.Config.{UniverseConfig, Interfaces}
use lxmax.Service.{Tables, Service, Patch}

abbrev clamp : ℤ → ℤ → ℤ → ℤ
clamp a lo hi = if ltb_ℤ a lo then lo else if ltb_ℤ hi a then hi else a

eq_of_le : (a b : ℤ) → a ≤ℤ b → b ≤ℤ a → a ≡ b
eq_of_le (pos m) (pos n) h g = ap pos (omega arith)
eq_of_le (pos m) (negsuc n) h g = absurd (omega arith)
eq_of_le (negsuc m) (pos n) h g = absurd (omega arith)
eq_of_le (negsuc m) (negsuc n) h g = ap negsuc (omega arith)

pub clamp-below : (a lo hi : ℤ) → lo ≤ℤ hi → a ≤ℤ lo → clamp a lo hi ≡ lo
clamp-below a lo hi h g = ground (arith, eq_of_le a lo)

pub clamp-above : (a lo hi : ℤ) → lo ≤ℤ hi → hi ≤ℤ a → clamp a lo hi ≡ hi
clamp-above a lo hi h g =
    ground (arith, eq_of_le a hi, eq_of_le lo hi, eq_of_le a lo, eq_of_le hi a)

pub clamp-within : (a lo hi : ℤ) → lo ≤ℤ a → a ≤ℤ hi → clamp a lo hi ≡ a
clamp-within a lo hi h g = ground arith

abbrev long_of : Atom → ℤ
long_of (a_long n) = n
long_of _ = pos 0

abbrev sym_of : Atom → Symbol
sym_of (a_sym s) = s
sym_of _ = []

abbrev store_sym : Symbol → List Atom → Symbol
store_sym old [] = old
store_sym old (atom ∷ rest) = sym_of atom

abbrev store_clip : ℤ → ℤ → ℤ → List Atom → ℤ
store_clip lo hi old [] = old
store_clip lo hi old (atom ∷ rest) = clamp (long_of atom) lo hi

clamp-range : (a lo hi : ℤ) → lo ≤ℤ hi → (lo ≤ℤ clamp a lo hi) × (clamp a lo hi ≤ℤ hi)
clamp-range a lo hi h = ground arith

pub store_clip-range :
    (lo hi old : ℤ) (argv : List Atom)
    → lo ≤ℤ hi
    → lo ≤ℤ old
    → old ≤ℤ hi
    → (lo ≤ℤ store_clip lo hi old argv) × (store_clip lo hi old argv ≤ℤ hi)
store_clip-range lo hi old [] h f g = (f, g)
store_clip-range lo hi old (atom ∷ rest) h f g = clamp-range (long_of atom) lo hi h

abbrev max : Max
max = record {
  atom_getlong = long_of;
  atom_getlong_lem = λ n. refl;
  atom_getsym = sym_of;
  atom_getsym_lem = λ s. refl;
  blank = a_long (pos 0);
  clamp = clamp;
  clamp_below = clamp-below;
  clamp_above = clamp-above;
  clamp_within = clamp-within;
  store_sym = store_sym;
  store_sym_lem = λ old s. refl;
  store_clip = store_clip;
  store_clip_lem = λ lo hi old n. refl;
  store_clip_range = store_clip-range;
}

-- A text of four bytes stands for an address.
abbrev ntop : IpAddress → Text
ntop ip = ip.a ∷ ip.b ∷ ip.c ∷ ip.d ∷ []

abbrev pton : Text → Option IpAddress
pton (a ∷ b ∷ c ∷ d ∷ []) =
    if ltb a 256 && ltb b 256 && ltb c 256 && ltb d 256
    then some (record { a = a; b = b; c = c; d = d })
    else none
pton _ = none

pub pton_of_ntop : (ip : IpAddress) → IsIp ip → pton (ntop ip) ≡ some ip
pton_of_ntop ip h = ground arith

pub pton-octets : (s : Text) (ip : IpAddress) → pton s ≡ some ip → IsIp ip
pton-octets s ip h = ground arith

abbrev inet : Inet
inet = record {
  inet_ntop = ntop;
  inet_pton = pton;
  pton-ntop = pton_of_ntop;
  pton-IsIp = pton-octets;
}

abbrev pub sys : System
sys = record { max = max; inet = inet; platform = mac }

-- An association list as a table: a key that is stored again hides what it had.
abbrev pub store : Hashtab UniverseConfig → Symbol → UniverseConfig → Hashtab UniverseConfig
store t key c = record {
  getkeys = t.getkeys;
  lookup = λ k. if sym_eq key k then some c else t.lookup k;
}

abbrev pub delete : Hashtab UniverseConfig → Symbol → Hashtab UniverseConfig
delete t key = record {
  getkeys = t.getkeys;
  lookup = λ k. if sym_eq key k then none else t.lookup k;
}

abbrev pub nothing_stored {ℓ} : {V : Type ℓ} → Symbol → Option V
nothing_stored k = none

abbrev pub no_configs : Hashtab UniverseConfig
no_configs = record { getkeys = some []; lookup = nothing_stored }

pub store-lookup :
    (t u : Hashtab UniverseConfig) (key : Symbol) (c : UniverseConfig)
    → some (store t key c) ≡ some u
    → (k : Symbol) → u.lookup k ≡ (if sym_eq key k then some c else t.lookup k)
store-lookup t u key c e k =
    ap (λ (h : Hashtab UniverseConfig). h.lookup k) (sym (some-injective (store t key c) u e))

pub delete-lookup :
    (t u : Hashtab UniverseConfig) (key : Symbol)
    → some (delete t key) ≡ some u
    → (k : Symbol) → u.lookup k ≡ (if sym_eq key k then none else t.lookup k)
delete-lookup t u key e k =
    ap (λ (h : Hashtab UniverseConfig). h.lookup k) (sym (some-injective (delete t key) u e))

abbrev pub nth_name : ℕ → Symbol
nth_name n = n ∷ []

pub nth_name-inj : (m n : ℕ) → nth_name m ≡ nth_name n → m ≡ n
nth_name-inj m n e = ground (arith, e)

abbrev pub tables : Tables
tables = record {
  hashtab_store = λ t key c. some (store t key c);
  hashtab_store_lem = store-lookup;
  hashtab_delete = λ t key. some (delete t key);
  hashtab_delete_lem = delete-lookup;
  hashtab_clear = λ t. no_configs;
  hashtab_clear_lem = λ t k. refl;
  entries = λ t. [];
  unique = nth_name;
  unique_inj = nth_name-inj;
}

abbrev pub adapter : NetworkAdapter
adapter = record {
  name = codes "en0";
  index = pos 4;
  addresses =
      record {
        address = record { a = 192; b = 168; c = 1; d = 20 };
        subnet_mask = record { a = 255; b = 255; c = 255; d = 0 };
      }
      ∷ [];
}

abbrev pub com3 : SerialPort
com3 = record {
  description = codes "USB Serial Port";
  hardware_id = codes "FTDI";
  port = codes "COM3";
}

abbrev pub interfaces : Interfaces
interfaces = record {
  network_adapters = record {
    getkeys = some (codes "en0" ∷ []);
    lookup = λ k. if sym_eq k (codes "en0") then some adapter else none;
  };
  serial_ports = record {
    getkeys = some (codes "COM3" ∷ []);
    lookup = λ k. if sym_eq k (codes "COM3") then some com3 else none;
  };
  global_artnet_adapter = some adapter;
  global_sacn_adapter = none;
}

abbrev pub service : Service
service = record { universes = no_configs; interfaces = interfaces; events = []; names_used = 5 }

abbrev pub patch : Patch
patch = record {
  type = output;
  protocol = sacn;
  protocol_mode = codes "multicast";
  protocol_interface = codes "[global]";
  start_internal_universe = pos 10;
  start_protocol_universe = pos 20;
}
