-- ===== src/Sorted/Neighbours.antt =====
-- lx_helpers.cpp: the names in front of one another and behind one another.
use lxmax.Common.{
  suc, ◌≤◌, ◌≡◌, refl, ap, ◌∙◌, if◌then◌else◌, true, false, Bool-cases, Option-cases, inl, inr,
  List, [], ◌∷◌, Option, none, some, arith,
}
use lxmax.Max.{Symbol, sym_eq, sym_eq_iff, Atom, a_long, a_float, a_sym, a_other, Hashtab}
use lxmax.Sorted.{
  count, Listing, pair_key, has_key, append_pair, pairs, listed_pairs, get_sorted_compare,
  get_sorted_by_attribute, first_name, name_after, name_before, get_next, get_prev,
}

-- No key is listed twice.
abbrev pub Distinct : List Symbol → Type 0
Distinct keys = (k : Symbol) → count (λ s. sym_eq s k) keys ≤ 1

has_key-pair_key : (k : Symbol) (p : List Atom) → has_key k p ≡ true → pair_key p ≡ some k
has_key-pair_key k [] h = cc h
has_key-pair_key k (a_sym s ∷ rest) h = ap some ((sym_eq_iff s k).0 h)
has_key-pair_key k (a_long n ∷ rest) h = cc h
has_key-pair_key k (a_float n ∷ rest) h = cc h
has_key-pair_key k (a_other n ∷ rest) h = cc h

pair_key-has_key : (k : Symbol) (p : List Atom) → pair_key p ≡ some k → has_key k p ≡ true
pair_key-has_key k [] h = cc h
pair_key-has_key k (a_sym s ∷ rest) h = (sym_eq_iff s k).1 (ground (arith, h))
pair_key-has_key k (a_long n ∷ rest) h = cc h
pair_key-has_key k (a_float n ∷ rest) h = cc h
pair_key-has_key k (a_other n ∷ rest) h = cc h

module _ {V : Type 0} (sdk : Listing V) where
  first_name-count :
      (j : Symbol) (l : List (List Atom)) → first_name sdk l ≡ some j → 1 ≤ count (has_key j) l
  unfolding first_name
  first_name-count j [] h = cc h
  first_name-count j (p ∷ l) h = ground (arith, pair_key-has_key j p h)

  -- What stands behind a key is in the list behind its head.
  name_after-count :
      (k j : Symbol) (p : List Atom) (l : List (List Atom))
      → name_after sdk k (p ∷ l) ≡ some j
      → 1 ≤ count (has_key j) l
  unfolding name_after first_name
  name_after-count k j p [] h = ground (arith, h)
  name_after-count k j p (q ∷ l) h =
      let ih = name_after-count k j q l in
      let f = first_name-count j (q ∷ l) in ground (arith, h, ih, f)

  name_before-skip :
      (l : List (List Atom)) (p : List Atom) (previous : Option Symbol) (j : Symbol)
      → has_key j p ≡ false
      → name_before sdk j previous (p ∷ l) ≡ name_before sdk j (pair_key p) l
  unfolding name_before
  name_before-skip l p previous j e = rw e refl

  name_before-head :
      (l : List (List Atom)) (p : List Atom) (previous : Option Symbol) (k j : Symbol)
      → has_key j p ≡ false
      → pair_key p ≡ some k
      → first_name sdk l ≡ some j
      → name_before sdk j previous (p ∷ l) ≡ some k
  unfolding name_before first_name
  name_before-head [] p previous k j e f h = cc h
  name_before-head (q ∷ l) p previous k j e f h =
      let g : has_key j q ≡ true = pair_key-has_key j q h in rw (e, g) f

  -- The name behind a name, and the name in front of that.
  name_before-after :
      (l : List (List Atom)) (previous : Option Symbol) (k j : Symbol)
      → ((i : Symbol) → count (has_key i) l ≤ 1)
      → name_after sdk k l ≡ some j
      → name_before sdk j previous l ≡ some k
  unfolding name_after
  name_before-after [] previous k j once h = cc h
  name_before-after (p ∷ l) previous k j once h =
      let n : 1 ≤ count (has_key j) l = name_after-count k j p l h in
      let other : has_key j p ≡ false = ground (arith, n, once j) in
      let rest : (i : Symbol) → count (has_key i) l ≤ 1 = λ i. ground (arith, once i) in
      elim (Bool-cases (has_key k p)) [
        | inl e ↦
            name_before-head l p previous k j other (has_key-pair_key k p e) (ground (arith, h, e))
        | inr e ↦
            let ih = name_before-after l (pair_key p) k j rest (ground (arith, h, e)) in
            name_before-skip l p previous j other ∙ ih
      ]

  append_pair-count :
      (key : Symbol) (r : Option (List Atom)) (l : List (List Atom)) (k : Symbol)
      → count (has_key k) (append_pair sdk key r l)
        ≤ (if sym_eq key k then suc (count (has_key k) l) else count (has_key k) l)
  unfolding append_pair
  append_pair-count key none l k = ground arith
  append_pair-count key (some []) l k = ground arith
  append_pair-count key (some (value ∷ values)) l k = ground arith

  pairs-count :
      (t : Hashtab V) (attr : Symbol) (keys : List Symbol) (k : Symbol)
      → count (has_key k) (pairs sdk t attr keys) ≤ count (λ s. sym_eq s k) keys
  unfolding pairs
  pairs-count t attr [] k = omega arith
  pairs-count t attr (key ∷ keys) k =
      let ih = pairs-count t attr keys k in
      elim (Option-cases (t.lookup key)) [
        | inl e ↦ rw (e, pairs) (ground (arith, ih))
        | inr (v, e) ↦
            let a = append_pair-count key (sdk.getvalueof v attr) (pairs sdk t attr keys) k in
            rw (e, pairs) (ground (arith, ih, a))
      ]

  sorted-count :
      (t : Hashtab V) (attr : Symbol) (keys : List Symbol) (k : Symbol)
      → t.getkeys ≡ some keys
      → Distinct keys
      → count (has_key k) (get_sorted_by_attribute sdk t attr) ≤ 1
  unfolding get_sorted_by_attribute listed_pairs
  sorted-count t attr keys k e d =
      let listed = listed_pairs sdk t attr t.getkeys in
      let s = sdk.linklist_sort_lem (get_sorted_compare sdk.float_lt) listed (has_key k) in
      let l : count (has_key k) listed ≡ count (has_key k) (pairs sdk t attr keys) =
        ap (λ (o : Option (List Symbol)). count (has_key k) (listed_pairs sdk t attr o)) e in
      omega (arith, s, l, pairs-count t attr keys k, d k)

  -- In a table that lists each key once, the name that `get_next` finds for a key leads back to this
  -- key by `get_prev`, for each attribute.
  pub get_prev-get_next :
      (t : Hashtab V) (attr : Symbol) (keys : List Symbol) (k j : Symbol)
      → t.getkeys ≡ some keys
      → Distinct keys
      → get_next sdk t k attr ≡ some j
      → get_prev sdk t j attr ≡ some k
  unfolding get_next get_prev
  get_prev-get_next t attr keys k j e d h =
      name_before-after (get_sorted_by_attribute sdk t attr) none k j
        (λ i. sorted-count t attr keys i e d) h
