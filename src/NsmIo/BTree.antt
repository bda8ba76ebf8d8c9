-- ===== src/NsmIo/BTree.antt =====
-- The standard library's ordered containers, as far as the crates use them: `BTreeMap<usize, V>`
-- with `insert` and iteration in the order of the keys, and `BTreeSet<u16>` with `len` and `iter`.
-- A map is its entries in the order of iteration.
use aws_nitro_enclaves_nsm_a.Base.{
  ℕ, ◌<◌, ◌≡◌, refl, List, [], ◌∷◌, ◌++◌, Option, none, some, arith, ltb, ◌==◌, if◌then◌else◌,
}

abbrev pub BTreeMap : Type 0 → Type 0
BTreeMap V = List (ℕ × V)

-- The elements in the order of iteration.
abbrev pub BTreeSet : Type 0
BTreeSet = List ℕ

module _ {V : Type 0} where
  -- `insert` replaces the value of a key that is there.
  unfoldable pub insert : ℕ → V → BTreeMap V → BTreeMap V
  insert k v [] = (k, v) ∷ []
  insert k v ((j, w) ∷ m) =
      let later = insert k v m in
      if ltb k j then (k, v) ∷ (j, w) ∷ m else if k == j then (k, v) ∷ m else (j, w) ∷ later

  unfoldable pub lookup : ℕ → BTreeMap V → Option V
  lookup k [] = none
  lookup k ((j, w) ∷ m) = if k == j then some w else lookup k m

  -- The keys rise, and all lie above `n`.
  abbrev pub Above : ℕ → BTreeMap V → Type 0
  Above n [] = Unit {0}
  Above n ((j, w) ∷ m) = (n < j) × Above j m

  -- The keys rise.
  abbrev pub IsMap : BTreeMap V → Type 0
  IsMap [] = Unit {0}
  IsMap ((j, w) ∷ m) = Above j m

  pub lookup-insert :
      (k j : ℕ) (v : V) (m : BTreeMap V)
      → lookup j (insert k v m) ≡ (if j == k then some v else lookup j m)
  unfolding lookup insert
  lookup-insert k j v [] = refl
  lookup-insert k j v ((i, w) ∷ m) = ground (arith, lookup-insert k j v m)

  Above-insert : (n k : ℕ) (v : V) (m : BTreeMap V) → n < k → Above n m → Above n (insert k v m)
  unfolding insert
  Above-insert n k v [] h a = (h, tt)
  Above-insert n k v ((j, w) ∷ m) h a = ground (arith, Above-insert j k v m)

  pub insert-IsMap : (k : ℕ) (v : V) (m : BTreeMap V) → IsMap m → IsMap (insert k v m)
  unfolding insert
  insert-IsMap k v [] a = tt
  insert-IsMap k v ((j, w) ∷ m) a = ground (arith, Above-insert j k v m)

  -- `last` is the greatest key of the entries, or any number where there are none.
  abbrev pub Below : BTreeMap V → ℕ → Type 0
  Below [] n = Unit {0}
  Below ((j, w) ∷ m) n = (j < n) × Below m n

  -- An insertion above every key appends.
  pub insert-append : (k : ℕ) (v : V) (m : BTreeMap V) → Below m k → insert k v m ≡ m ++ (k, v) ∷ []
  unfolding insert
  insert-append k v [] b = refl
  insert-append k v ((j, w) ∷ m) b = ground (arith, insert-append k v m b.1)
