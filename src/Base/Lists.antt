-- ===== src/Base/Lists.antt =====
-- Lists measured and indexed by native numbers, under the library's names.
use Prim.Native.Nat.{ℕ, zero, suc, ◌+◌, ◌-◌, ◌≤◌, ◌<◌, min}
use mathlib.Core.Path.{◌≡◌, refl, ap, sym}
use mathlib.Core.List.{List, [], ◌∷◌, ◌++◌}
use mathlib.Core.Option.{Option, none, some}
use mathlib.Core.Logic.{◌≢◌, ◌⊎◌, inl, inr}
use native.Mathlib.Omega.{arith}

module _ {ℓ} {A : Type ℓ} where
  abbrev pub length : List A → ℕ
  length [] = 0
  length (x ∷ xs) = suc (length xs)

  abbrev pub get_elem? : List A → ℕ → Option A
  get_elem? [] i = none
  get_elem? (x ∷ xs) zero = some x
  get_elem? (x ∷ xs) (suc i) = get_elem? xs i

  -- A write out of bounds changes nothing.
  abbrev pub set : List A → ℕ → A → List A
  set [] i v = []
  set (x ∷ xs) zero v = v ∷ xs
  set (x ∷ xs) (suc i) v = x ∷ set xs i v

  abbrev pub take : ℕ → List A → List A
  take zero xs = []
  take (suc n) [] = []
  take (suc n) (x ∷ xs) = x ∷ take n xs

  abbrev pub drop : ℕ → List A → List A
  drop zero xs = xs
  drop (suc n) [] = []
  drop (suc n) (x ∷ xs) = drop n xs

  abbrev pub replicate : ℕ → A → List A
  replicate zero a = []
  replicate (suc n) a = a ∷ replicate n a

  pub length-append : (xs ys : List A) → length (xs ++ ys) ≡ length xs + length ys
  length-append [] ys = omega arith
  length-append (x ∷ xs) ys = omega (arith, length-append xs ys)

  pub length-take : (n : ℕ) (xs : List A) → length (take n xs) ≡ min n (length xs)
  length-take zero xs = omega arith
  length-take (suc n) [] = omega arith
  length-take (suc n) (x ∷ xs) = omega (arith, length-take n xs)

  pub length-drop : (n : ℕ) (xs : List A) → length (drop n xs) ≡ length xs - n
  length-drop zero xs = omega arith
  length-drop (suc n) [] = omega arith
  length-drop (suc n) (x ∷ xs) = omega (arith, length-drop n xs)

  pub length-replicate : (n : ℕ) (a : A) → length (replicate n a) ≡ n
  length-replicate zero a = refl
  length-replicate (suc n) a = ap suc (length-replicate n a)

  pub take-append-drop : (n : ℕ) (xs : List A) → take n xs ++ drop n xs ≡ xs
  take-append-drop zero xs = refl
  take-append-drop (suc n) [] = refl
  take-append-drop (suc n) (x ∷ xs) = ap (◌∷◌ x) (take-append-drop n xs)

  pub take-all : (n : ℕ) (xs : List A) → length xs ≤ n → take n xs ≡ xs
  take-all zero [] h = refl
  take-all zero (x ∷ xs) h = absurd (omega arith)
  take-all (suc n) [] h = refl
  take-all (suc n) (x ∷ xs) h = ap (◌∷◌ x) (take-all n xs (omega arith))

  pub take-append : (xs ys : List A) → take (length xs) (xs ++ ys) ≡ xs
  take-append [] ys = refl
  take-append (x ∷ xs) ys = ap (◌∷◌ x) (take-append xs ys)

  pub drop-append : (xs ys : List A) → drop (length xs) (xs ++ ys) ≡ ys
  drop-append [] ys = refl
  drop-append (x ∷ xs) ys = drop-append xs ys

module _ {ℓ} {A : Type ℓ} where
  pub length-set : (xs : List A) (i : ℕ) (v : A) → length (set xs i v) ≡ length xs
  length-set [] i v = refl
  length-set (x ∷ xs) zero v = refl
  length-set (x ∷ xs) (suc i) v = ap suc (length-set xs i v)

  -- What is read after a write is what was written, or what stood there.
  pub set-cases :
      (xs : List A) (i j : ℕ) (v p : A)
      → get_elem? (set xs i v) j ≡ some p
      → ((j ≡ i) × (p ≡ v)) ⊎ ((j ≢ i) × (get_elem? xs j ≡ some p))
  set-cases [] i j v p e = cc
  set-cases (x ∷ xs) zero zero v p e = inl (refl, cc)
  set-cases (x ∷ xs) zero (suc j) v p e = inr (omega arith, e)
  set-cases (x ∷ xs) (suc i) zero v p e = inr (omega arith, e)
  set-cases (x ∷ xs) (suc i) (suc j) v p e = elim (set-cases xs i j v p e) [
    | inl (same, q) ↦ inl (ap suc same, q)
    | inr (other, old) ↦ inr (omega arith, old)
  ]

  -- A write changes what stands at its index, and that only.
  pub get_elem?-set :
      (xs : List A) (i j : ℕ) (v p : A)
      → get_elem? xs j ≡ some p
      → ((j ≡ i) × (get_elem? (set xs i v) j ≡ some v))
        ⊎ ((j ≢ i) × (get_elem? (set xs i v) j ≡ some p))
  get_elem?-set [] i j v p e = cc
  get_elem?-set (x ∷ xs) zero zero v p e = inl (refl, refl)
  get_elem?-set (x ∷ xs) zero (suc j) v p e = inr (omega arith, e)
  get_elem?-set (x ∷ xs) (suc i) zero v p e = inr (omega arith, e)
  get_elem?-set (x ∷ xs) (suc i) (suc j) v p e = elim (get_elem?-set xs i j v p e) [
    | inl (same, q) ↦ inl (ap suc same, q)
    | inr (other, old) ↦ inr (omega arith, old)
  ]

  pub set-get : (xs : List A) (i : ℕ) (v : A) → get_elem? xs i ≡ some v → set xs i v ≡ xs
  set-get [] i v g = cc
  set-get (x ∷ xs) zero v g = let same : x ≡ v = cc in ap (λ y. y ∷ xs) (sym same)
  set-get (x ∷ xs) (suc i) v g = ap (λ ys. x ∷ ys) (set-get xs i v g)

  pub set-set : (xs : List A) (i : ℕ) (u v : A) → set (set xs i u) i v ≡ set xs i v
  set-set [] i u v = refl
  set-set (x ∷ xs) zero u v = refl
  set-set (x ∷ xs) (suc i) u v = ap (λ ys. x ∷ ys) (set-set xs i u v)

  pub get_elem?-set_same :
      (xs : List A) (i : ℕ) (u v : A) → get_elem? xs i ≡ some u → get_elem? (set xs i v) i ≡ some v
  get_elem?-set_same xs i u v g = elim (get_elem?-set xs i i v u g) [
    | inl (_, now) ↦ now
    | inr (other, _) ↦ absurd (other refl)
  ]

  pub get_elem?-lt : (xs : List A) (i : ℕ) → i < length xs → (x : A) × (get_elem? xs i ≡ some x)
  get_elem?-lt [] i h = absurd (omega arith)
  get_elem?-lt (x ∷ xs) zero h = (x, refl)
  get_elem?-lt (x ∷ xs) (suc i) h = get_elem?-lt xs i (omega arith)

  pub lt_of_get_elem? : (xs : List A) (i : ℕ) {x : A} → get_elem? xs i ≡ some x → i < length xs
  lt_of_get_elem? [] i e = cc
  lt_of_get_elem? (y ∷ xs) zero e = omega arith
  lt_of_get_elem? (y ∷ xs) (suc i) e = omega (arith, lt_of_get_elem? xs i e)
