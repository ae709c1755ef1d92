-- ===== src/Tests/Sorted.antt =====
-- Runs and instances for hash tables in the order of an attribute.
use lxmax.Common.{ℕ, ◌≡◌, refl, if◌then◌else◌, Bool, List, [], ◌∷◌, some, pos, arith}
use lxmax.Max.{Symbol, codes, sym_eq, Atom, a_long, Hashtab}
use lxmax.Sorted.{Listing, get_next, get_prev, name_after}
use lxmax.Sorted.Neighbours.{Distinct, get_prev-get_next}

-- Values that are their own attribute, and a sort that leaves lists as they are.
abbrev listing : Listing Atom
listing = record {
  getvalueof = λ (v : Atom) (attr : Symbol). some (v ∷ []);
  linklist_sort = λ (compare : List Atom → List Atom → Bool) (l : List (List Atom)). l;
  linklist_sort_lem = λ compare l p. refl;
  float_lt = λ (m n : ℕ). Bool.false;
}

abbrev two_keys : List Symbol
two_keys = (1 ∷ []) ∷ (2 ∷ []) ∷ []

abbrev two_values : Hashtab Atom
two_values = record {
  getkeys = some two_keys;
  lookup =
      λ (k : Symbol). if sym_eq k (1 ∷ []) then some (a_long (pos 1)) else some (a_long (pos 2));
}

two_keys-Distinct : Distinct two_keys
unfolding sym_eq
two_keys-Distinct k = ground arith

get_prev-get_next_example : get_prev listing two_values (2 ∷ []) (codes "number") ≡ some (1 ∷ [])
unfolding get_next sym_eq name_after
get_prev-get_next_example =
    get_prev-get_next listing two_values (codes "number") two_keys (1 ∷ []) (2 ∷ []) refl
      two_keys-Distinct refl
