-- ===== src/Common.antt =====
-- The names that every module of the library shares: the libraries', passed on, and those of the
-- children below (Boolean tests, integers, lists, the laws of `&` and `|`).
pub mod Tests
pub mod Int
pub mod Lists
pub mod Bits
unfoldable pub use Tests.*
unfoldable pub use Int.*
pub use Lists.*
pub use Prim.Native.Nat.{ℕ, zero, suc, ◌+◌, ◌-◌, ◌*◌, ◌/◌, ◌%◌, ◌^◌, ◌≤◌, ◌<◌, min, bit_and, bit_or}
pub use mathlib.Core.Path.{◌≡◌, refl, sym, ap, ap₂, subst, ◌∙◌}
pub use mathlib.Core.Logic.{◌≢◌, ◌↔◌, ◌⊎◌, inl, inr}
pub use mathlib.Core.Bool.{Bool, true, false, not, ◌&&◌, ◌||◌}
pub use mathlib.Core.Option.{Option, none, some}
pub use mathlib.Core.List.{List, [], ◌∷◌, ◌++◌, map, append_assoc}
pub use native.Mathlib.Omega.{arith}

pub All-In : {A : Type 0} (P : A → Type 0) (a : A) (xs : List A) → In a xs → All P xs → P a
All-In P a [] i all = absurd i
All-In P a (x ∷ xs) (inl e) all = subst P (sym e) all.0
All-In P a (x ∷ xs) (inr i) all = All-In P a xs i all.1

pub All-of : {A : Type 0} (P : A → Type 0) (xs : List A) → ((a : A) → In a xs → P a) → All P xs
All-of P [] h = tt
All-of P (x ∷ xs) h = (h x (inl refl), All-of P xs (λ a i. h a (inr i)))
