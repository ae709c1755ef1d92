-- ===== src/Sorted.antt =====
-- lx_helpers.cpp: a hash table in the order of an attribute.
pub mod Neighbours
use lxmax.Common.{
  ℕ, zero, suc, ◌+◌, ◌≡◌, if◌then◌else◌, ltb, ◌==◌, Bool, true, false, List, [], ◌∷◌, length,
  Option, none, some, ltb_ℤ,
}
use lxmax.Max.{Text, Symbol, sym_eq, Atom, a_long, a_float, a_sym, a_other, Hashtab}

-- How many entries of a list pass a test.
abbrev pub count {ℓ} : {A : Type ℓ} → (A → Bool) → List A → ℕ
count p [] = 0
count p (a ∷ s) = if p a then suc (count p s) else count p s

-- The SDK's `object_attr_getvalueof` (`none` is an error), its `linklist_sort`, which keeps each entry
-- as often as it was, and the order of doubles by their bit patterns.
pub record Listing (V : Type 0) : Type 0 where
  pub getvalueof : V → Symbol → Option (List Atom)
  pub linklist_sort : (List Atom → List Atom → Bool) → List (List Atom) → List (List Atom)
  pub linklist_sort_lem :
      (compare : List Atom → List Atom → Bool) (l : List (List Atom)) (p : List Atom → Bool)
      → count p (linklist_sort compare l) ≡ count p l
  pub float_lt : ℕ → ℕ → Bool

-- `strcmp(s, t) < 0`
unfoldable pub text_lt : Text → Text → Bool
text_lt s [] = false
text_lt [] (d ∷ t) = true
text_lt (c ∷ s) (d ∷ t) = let rest = text_lt s t in if c == d then rest else ltb c d

-- The `switch` of the comparison, after the test that the types agree.
unfoldable pub atom_lt : (ℕ → ℕ → Bool) → Atom → Atom → Bool
unfolding text_lt
atom_lt float_lt (a_long m) (a_long n) = ltb_ℤ m n
atom_lt float_lt (a_float m) (a_float n) = float_lt m n
atom_lt float_lt (a_sym s) (a_sym t) = text_lt s t
atom_lt float_lt _ _ = false

unfoldable pub second_lt : (ℕ → ℕ → Bool) → List Atom → List Atom → Bool
unfolding atom_lt
second_lt float_lt (a ∷ b ∷ s) (c ∷ d ∷ t) = atom_lt float_lt b d
second_lt float_lt _ _ = false

-- `lx_hashtab_get_sorted_compare`
unfoldable pub get_sorted_compare : (ℕ → ℕ → Bool) → List Atom → List Atom → Bool
unfolding second_lt
get_sorted_compare float_lt a b =
    if ltb (length a) (length b)
    then true
    else if ltb (length b) (length a)
    then false
    else if ltb (length a) 2
    then false
    else second_lt float_lt a b

-- The name in a pair.
abbrev pub pair_key : List Atom → Option Symbol
pair_key (a_sym s ∷ rest) = some s
pair_key _ = none

abbrev pub has_key : Symbol → List Atom → Bool
has_key k (a_sym s ∷ rest) = sym_eq s k
has_key k _ = false

module _ {V : Type 0} (sdk : Listing V) where
  -- The pair of one key, from what the attribute of its value holds.
  unfoldable pub append_pair : Symbol → Option (List Atom) → List (List Atom) → List (List Atom)
  append_pair key (some (value ∷ values)) rest = (a_sym key ∷ value ∷ []) ∷ rest
  append_pair key _ rest = rest

  -- The loop over the keys.
  unfoldable pub pairs : Hashtab V → Symbol → List Symbol → List (List Atom)
  unfolding append_pair
  pairs hashtab attr [] = []
  pairs hashtab attr (key ∷ keys) = elim (hashtab.lookup key) [
    | none ↦ pairs hashtab attr keys
    | some v ↦ append_pair key (sdk.getvalueof v attr) (pairs hashtab attr keys)
  ]

  -- The list before it is sorted, from what `hashtab_getkeys` gives.
  unfoldable pub listed_pairs : Hashtab V → Symbol → Option (List Symbol) → List (List Atom)
  unfolding pairs
  listed_pairs hashtab attr none = []
  listed_pairs hashtab attr (some keys) = pairs hashtab attr keys

  -- `lx_helpers_hashtab_get_sorted_by_attribute`
  unfoldable pub get_sorted_by_attribute : Hashtab V → Symbol → List (List Atom)
  unfolding listed_pairs get_sorted_compare
  get_sorted_by_attribute hashtab attr =
      sdk.linklist_sort (get_sorted_compare sdk.float_lt)
        (listed_pairs hashtab attr hashtab.getkeys)

  -- The names of the first and of the last pair of a list.
  unfoldable pub first_name : List (List Atom) → Option Symbol
  first_name [] = none
  first_name (pair ∷ rest) = pair_key pair

  unfoldable pub last_name : List (List Atom) → Option Symbol
  last_name [] = none
  last_name (pair ∷ []) = pair_key pair
  last_name (pair ∷ other ∷ rest) = last_name (other ∷ rest)

  -- The loops that look for a key: the name of the pair behind it, or in front of it.
  unfoldable pub name_after : Symbol → List (List Atom) → Option Symbol
  unfolding first_name
  name_after key [] = none
  name_after key (pair ∷ rest) =
      let further = name_after key rest in if has_key key pair then first_name rest else further

  unfoldable pub name_before : Symbol → Option Symbol → List (List Atom) → Option Symbol
  name_before key previous [] = none
  name_before key previous (pair ∷ rest) =
      let further = name_before key (pair_key pair) rest in
      if has_key key pair then previous else further

  -- `lx_helpers_hashtab_get_first`, `..._get_last`, `..._get_next` and `..._get_prev`; `none` is
  -- `NULL`.
  unfoldable pub get_first : Hashtab V → Symbol → Option Symbol
  unfolding get_sorted_by_attribute
  get_first hashtab attr = first_name (get_sorted_by_attribute hashtab attr)

  unfoldable pub get_last : Hashtab V → Symbol → Option Symbol
  unfolding get_sorted_by_attribute
  get_last hashtab attr = last_name (get_sorted_by_attribute hashtab attr)

  unfoldable pub get_next : Hashtab V → Symbol → Symbol → Option Symbol
  unfolding get_sorted_by_attribute
  get_next hashtab key attr = name_after key (get_sorted_by_attribute hashtab attr)

  unfoldable pub get_prev : Hashtab V → Symbol → Symbol → Option Symbol
  unfolding get_sorted_by_attribute
  get_prev hashtab key attr = name_before key none (get_sorted_by_attribute hashtab attr)
