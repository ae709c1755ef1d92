-- ===== src/Enumerate/Filled.antt =====
-- The loops that store one entry for each element of a list: the last one under a key is found.
use mathlib.Core.Option.{some-injective}
use lxmax.Common.{
  ◌≡◌, ◌↔◌, refl, sym, ap, ◌∙◌, Bool, true, false, Bool-cases, Option-cases, inl, inr,
  if◌then◌else◌, List, [], ◌∷◌, ◌++◌, Option, none, some, All, arith,
}
use lxmax.Max.{Symbol, Hashtab}

-- A loop over a list.
unfoldable pub for_each : {A S : Type 0} → (A → S → S) → List A → S → S
for_each body [] s = s
for_each body (x ∷ xs) s = for_each body xs (body x s)

module _ {A : Type 0} (test : A → Bool) where
  -- The last element that passes a test, between what stands before it and behind it.
  pub record IsLast (xs : List A) (x : A) : Type 0 where
    pub before : List A
    pub after : List A
    pub whole : xs ≡ before ++ (x ∷ after)
    pub passes : test x ≡ true
    pub others : All (λ y. test y ≡ false) after

  abbrev or_first : Option A → A → Option A
  or_first (some y) x = some y
  or_first none x = if test x then some x else none

  abbrev last_with : List A → Option A
  last_with [] = none
  last_with (x ∷ xs) = or_first (last_with xs) x

  last_with-none : (xs : List A) → All (λ y. test y ≡ false) xs → last_with xs ≡ none
  last_with-none [] h = refl
  last_with-none (x ∷ xs) h = rw (last_with-none xs h.1, h.0) refl

  none-last_with : (xs : List A) → last_with xs ≡ none → All (λ y. test y ≡ false) xs
  none-last_with [] h = tt
  none-last_with (x ∷ xs) h = elim (Option-cases (last_with xs)) [
    | inl e ↦ elim (Bool-cases (test x)) [
      | inl hit ↦ absurd (ground (arith, (rw (e, hit) at h)))
      | inr miss ↦ (miss, none-last_with xs e)
    ]
    | inr (y, e) ↦ absurd (ground (arith, (rw e at h)))
  ]

  last_with-IsLast : (xs : List A) (x : A) → last_with xs ≡ some x → IsLast xs x
  last_with-IsLast [] x h = absurd (ground (arith, h))
  last_with-IsLast (z ∷ xs) x h = elim (Option-cases (last_with xs)) [
    | inl e ↦ elim (Bool-cases (test z)) [
      | inl hit ↦
          let same = some-injective z x (rw (e, hit) at h) in
          rw (← same) (record {
            before = [];
            after = xs;
            whole = refl;
            passes = hit;
            others = none-last_with xs e;
          })
      | inr miss ↦ absurd (ground (arith, (rw (e, miss) at h)))
    ]
    | inr (y, e) ↦
        let same = some-injective y x (rw e at h) in
        let r = last_with-IsLast xs y e in
        rw (← same) (record {
          before = z ∷ r.before;
          after = r.after;
          whole = ap (λ l. z ∷ l) r.whole;
          passes = r.passes;
          others = r.others;
        })
  ]

  last_with-append :
      (before after : List A) (x : A)
      → test x ≡ true
      → All (λ y. test y ≡ false) after
      → last_with (before ++ (x ∷ after)) ≡ some x
  last_with-append [] after x hit others = rw (last_with-none after others, hit) refl
  last_with-append (z ∷ before) after x hit others =
      rw (last_with-append before after x hit others) refl

  IsLast-last_with : (xs : List A) (x : A) → IsLast xs x → last_with xs ≡ some x
  IsLast-last_with xs x r =
      ap last_with r.whole ∙ last_with-append r.before r.after x r.passes r.others

abbrev value_of : {A V : Type 0} → (A → V) → Option A → Option V → Option V
value_of value none old = old
value_of value (some x) old = some (value x)

module _ {A V : Type 0} (test : A → Symbol → Bool) (value : A → V) where
  -- One round stores its value under the key that it has.
  abbrev pub Stores : (A → Hashtab V → Hashtab V) → Type 0
  Stores body =
      (x : A) (t : Hashtab V) (k : Symbol)
      → (body x t).lookup k ≡ (if test x k then some (value x) else t.lookup k)

  lookup-for_each :
      (body : A → Hashtab V → Hashtab V) (xs : List A) (t : Hashtab V) (k : Symbol)
      → Stores body
      → (for_each body xs t).lookup k ≡ value_of value (last_with (λ x. test x k) xs) (t.lookup k)
  unfolding for_each
  lookup-for_each body [] t k law = refl
  lookup-for_each body (x ∷ xs) t k law =
      let there = lookup-for_each body xs (body x t) k law in
      elim (Option-cases (last_with (λ y. test y k) xs)) [
        | inl e ↦ elim (Bool-cases (test x k)) [
          | inl hit ↦ rw (e, hit) ((rw e at there) ∙ (rw hit at (law x t k)))
          | inr miss ↦ rw (e, miss) ((rw e at there) ∙ (rw miss at (law x t k)))
        ]
        | inr (y, e) ↦ rw e (rw e at there)
      ]

  -- From an empty table.
  pub for_each_iff :
      (body : A → Hashtab V → Hashtab V) (xs : List A) (t : Hashtab V) (k : Symbol) (v : V)
      → Stores body
      → t.lookup k ≡ none
      → ((for_each body xs t).lookup k ≡ some v)
        ↔ (x : A) × IsLast (λ y. test y k) xs x × (value x ≡ v)
  for_each_iff body xs t k v law empty =
      let all = lookup-for_each body xs t k law in
      (
        λ h. elim (Option-cases (last_with (λ y. test y k) xs)) [
          | inl e ↦ absurd (ground (arith, (rw (e, empty) at all), h))
          | inr (x, e) ↦ (
            x,
            last_with-IsLast (λ y. test y k) xs x e,
            some-injective (value x) v (sym (rw e at all) ∙ h),
          )
        ],
        λ r.
            all
            ∙ (ap (λ (o : Option A). value_of value o (t.lookup k))
                  (IsLast-last_with (λ y. test y k) xs r.0 r.1)
                ∙ ap some r.2),
      )
