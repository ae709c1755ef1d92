-- ===== src/Max.antt =====
-- What the sources take from the Max SDK and from the system: symbols, atoms, error codes, and the
-- functions that they call. `Max` and `Inet` are interfaces: the code behind them is not in the
-- repository, so their operations are parameters, with the documented behaviour as laws.
use Prim.Native.Char.{code}
use Prim.Native.String.{String}
use lxmax.Common.{
  ℕ, ◌<◌, ◌==◌, ◌≡◌, refl, ◌↔◌, Bool, true, false, ◌&&◌, List, [], ◌∷◌, Option, some, arith, ℤ,
  ◌≤ℤ◌,
}

-- A C string without its terminator: a list of bytes.
abbrev pub Text : Type 0
Text = List ℕ

abbrev pub codes : String → Text
codes String.[] = []
codes (String.◌∷◌ c s) = code c ∷ codes s

-- A `t_symbol*`. `gensym` interns, so two symbols are one pointer when their names are one text: a
-- symbol is its `s_name`, and `gensym(buffer)` is the text in the buffer.
abbrev pub Symbol : Type 0
Symbol = Text

-- `s == t` on symbol pointers.
unfoldable pub sym_eq : Symbol → Symbol → Bool
sym_eq [] [] = true
sym_eq [] (b ∷ t) = false
sym_eq (a ∷ s) [] = false
sym_eq (a ∷ s) (b ∷ t) = a == b && sym_eq s t

sym_eq→eq : (s t : Symbol) → sym_eq s t ≡ true → s ≡ t
unfolding sym_eq
sym_eq→eq [] [] h = refl
sym_eq→eq [] (b ∷ t) h = ground arith
sym_eq→eq (a ∷ s) [] h = ground arith
sym_eq→eq (a ∷ s) (b ∷ t) h = ground (arith, sym_eq→eq s t)

pub sym_eq_refl : (s : Symbol) → sym_eq s s ≡ true
unfolding sym_eq
sym_eq_refl [] = refl
sym_eq_refl (a ∷ s) = ground (arith, sym_eq_refl s)

-- Two symbols compare equal exactly when they are one.
pub sym_eq_iff : (s t : Symbol) → (sym_eq s t ≡ true) ↔ (s ≡ t)
sym_eq_iff s t = (sym_eq→eq s t, λ e. rw e (sym_eq_refl t))

-- `t_max_err`, as far as the sources tell its values apart.
pub data MaxErr : Type 0 where
  err_none err_generic : MaxErr

-- `t_atom`. A float is its bit pattern; `a_other` is an atom of any other type.
pub data Atom : Type 0 where
  a_long : ℤ → Atom
  a_float : ℕ → Atom
  a_sym : Symbol → Atom
  a_other : ℕ → Atom

-- The SDK's functions on atoms, its `CLAMP`, and its own setters of class attributes, which store
-- the arguments in the member where the class registers no accessor.
pub record Max : Type 0 where
  pub atom_getlong : Atom → ℤ
  pub atom_getlong_lem : (n : ℤ) → atom_getlong (a_long n) ≡ n
  pub atom_getsym : Atom → Symbol
  pub atom_getsym_lem : (s : Symbol) → atom_getsym (a_sym s) ≡ s
  -- What `atom_alloc_array` leaves in an atom that is not set afterwards.
  pub blank : Atom
  -- `CLAMP(a, lo, hi)`
  pub clamp : ℤ → ℤ → ℤ → ℤ
  pub clamp_below : (a lo hi : ℤ) → lo ≤ℤ hi → a ≤ℤ lo → clamp a lo hi ≡ lo
  pub clamp_above : (a lo hi : ℤ) → lo ≤ℤ hi → hi ≤ℤ a → clamp a lo hi ≡ hi
  pub clamp_within : (a lo hi : ℤ) → lo ≤ℤ a → a ≤ℤ hi → clamp a lo hi ≡ a
  -- The setter of a `CLASS_ATTR_SYM` member: old value, arguments, new value.
  pub store_sym : Symbol → List Atom → Symbol
  pub store_sym_lem : (old s : Symbol) → store_sym old (a_sym s ∷ []) ≡ s
  -- The setter of a number under `CLASS_ATTR_FILTER_CLIP(lo, hi)`.
  pub store_clip : ℤ → ℤ → ℤ → List Atom → ℤ
  pub store_clip_lem : (lo hi old n : ℤ) → store_clip lo hi old (a_long n ∷ []) ≡ clamp n lo hi
  pub store_clip_range :
      (lo hi old : ℤ) (argv : List Atom)
      → lo ≤ℤ hi
      → lo ≤ℤ old
      → old ≤ℤ hi
      → (lo ≤ℤ store_clip lo hi old argv) × (store_clip lo hi old argv ≤ℤ hi)

-- `CLAMP` lands in its range.
pub clamp_range :
    (m : Max) (a lo hi : ℤ) → lo ≤ℤ hi → (lo ≤ℤ m.clamp a lo hi) × (m.clamp a lo hi ≤ℤ hi)
clamp_range m a lo hi h =
    ground (arith, m.clamp_below a lo hi, m.clamp_above a lo hi, m.clamp_within a lo hi)

-- An IPv4 address: four octets (`t_lx_ip_address`).
pub record IpAddress : Type 0 where
  pub a : ℕ
  pub b : ℕ
  pub c : ℕ
  pub d : ℕ

-- Each octet is a `uint8_t`.
pub record IsIp (ip : IpAddress) : Type 0 where
  pub a_lt : ip.a < 256
  pub b_lt : ip.b < 256
  pub c_lt : ip.c < 256
  pub d_lt : ip.d < 256

-- The system's `inet_ntop` and `inet_pton` at `AF_INET`: what is printed is read back, and what is
-- read is an address.
pub record Inet : Type 0 where
  pub inet_ntop : IpAddress → Text
  pub inet_pton : Text → Option IpAddress
  pub pton-ntop : (ip : IpAddress) → IsIp ip → inet_pton (inet_ntop ip) ≡ some ip
  pub pton-IsIp : (s : Text) (ip : IpAddress) → inet_pton s ≡ some ip → IsIp ip

-- A `t_hashtab`, as far as a reader sees it: the keys that `hashtab_getkeys` returns, in its order
-- (`none` where it fails), and what `hashtab_lookup` finds.
pub record Hashtab (V : Type 0) : Type 0 where
  pub getkeys : Option (List Symbol)
  pub lookup : Symbol → Option V

-- `WIN_VERSION` or not.
pub data Platform : Type 0 where
  win mac : Platform

-- What surrounds the library: the SDK, the system's address functions and the platform.
pub record System : Type 0 where
  pub max : Max
  pub inet : Inet
  pub platform : Platform
