-- ===== src/Base.antt =====
-- Names shared by every module: the libraries' types and operators passed on, and the children's
-- tests on numbers and lists measured by native numbers. No source of the repository is modelled here.
mod Tests
mod Lists
pub mod Ints
pub use Tests.*
pub use Lists.*
pub use Prim.Native.Nat.{ℕ, zero, suc, ◌+◌, ◌-◌, ◌*◌, ◌/◌, ◌%◌, ◌^◌, ◌≤◌, ◌<◌, min}
pub use mathlib.Core.Path.{◌≡◌, refl, sym, ap, subst, ◌∙◌}
pub use mathlib.Core.Logic.{◌≢◌, ◌↔◌, ◌⊎◌, inl, inr}
pub use mathlib.Core.Bool.{Bool, true, false, not, ◌&&◌, ◌||◌}
pub use mathlib.Core.Option.{Option, none, some}
pub use mathlib.Core.List.{List, [], ◌∷◌, ◌++◌, map}
pub use native.Mathlib.Omega.{arith}

-- A result of fallible library code, as Rust's `Result`.
pub data Result {ℓ κ} (A : Type ℓ) (E : Type κ) : Type (ℓ ⊔ κ) where
  ok : A → Result A E
  err : E → Result A E

pub Result-cases {ℓ κ} :
    {A : Type ℓ} {E : Type κ} (r : Result A E)
    → ((a : A) × (r ≡ Result.ok a)) ⊎ ((e : E) × (r ≡ Result.err e))
Result-cases (ok a) = inl (a, refl)
Result-cases (err e) = inr (e, refl)

-- `option.map(f)` is the library's `Option.map`; a byte string is a list of numbers below 256.
abbrev pub Bytes : Type 0
Bytes = List ℕ
