-- ===== src/Machine/Memory.antt =====
-- The memory of the C caller, as nsm-lib/src/lib.rs reaches it through raw pointers. An address
-- that is not mapped holds `none`: to read or write there is undefined behaviour.
use mathlib.Core.Option
use aws_nitro_enclaves_nsm_a.Base.{
  ℕ, zero, suc, ◌+◌, ◌≤◌, ◌<◌, ◌≡◌, refl, ◌⊎◌, Bool, true, false, Option, none, some, List, [], ◌∷◌,
  arith, ◌==◌, if◌then◌else◌, length, ap,
}

-- Addresses count elements of the type pointed to.
abbrev pub Ptr : Type 0
Ptr = ℕ

abbrev pub null : Ptr
null = 0

abbrev pub is_null : Ptr → Bool
is_null p = p == null

abbrev pub Memory : Type 0 → Type 0
Memory A = Ptr → Option A

module _ {A : Type 0} where
  abbrev pub is_some : Option A → Bool
  is_some none = false
  is_some (some _) = true

  abbrev pub update : Memory A → Ptr → A → Memory A
  update m p a q = if p == q then some a else m q

  abbrev read_cons : Option A → Option (List A) → Option (List A)
  read_cons none r = none
  read_cons (some a) r = Option.map (◌∷◌ a) r

  -- The `n` elements from `p` on.
  unfoldable pub read : Memory A → Ptr → ℕ → Option (List A)
  read m p zero = some []
  read m p (suc n) = read_cons (m p) (read m (suc p) n)

  -- The elements of the list, written from `p` on, where all of that memory is mapped.
  unfoldable pub write : Memory A → Ptr → List A → Option (Memory A)
  write m p [] = some m
  write m p (x ∷ xs) =
      let rest = write (update m p x) (suc p) xs in if is_some (m p) then rest else none

  -- The `n` elements from `p` on are mapped.
  abbrev pub IsMapped : Memory A → Ptr → ℕ → Type 0
  IsMapped m p zero = Unit {0}
  IsMapped m p (suc n) = (is_some (m p) ≡ true) × IsMapped m (suc p) n

  -- What a write leaves behind.
  unfoldable pub overlay : Memory A → Ptr → List A → Memory A
  overlay m p [] = m
  overlay m p (x ∷ xs) = overlay (update m p x) (suc p) xs

  -- A write never unmaps, so mapped memory stays mapped.
  pub IsMapped-update :
      (m : Memory A) (q p : Ptr) (a : A) (n : ℕ) → IsMapped m p n → IsMapped (update m q a) p n
  IsMapped-update m q p a zero h = tt
  IsMapped-update m q p a (suc n) h = (ground arith, IsMapped-update m q (suc p) a n h.1)

  pub IsMapped-overlay :
      (xs : List A) (m : Memory A) (q p : Ptr) (n : ℕ)
      → IsMapped m p n
      → IsMapped (overlay m q xs) p n
  unfolding overlay
  IsMapped-overlay [] m q p n h = h
  IsMapped-overlay (x ∷ xs) m q p n h =
      IsMapped-overlay xs (update m q x) (suc q) p n (IsMapped-update m q p x n h)

  pub IsMapped-le :
      (m : Memory A) (p : Ptr) {k : ℕ} (n : ℕ) → k ≤ n → IsMapped m p n → IsMapped m p k
  IsMapped-le m p {k = zero} n h v = tt
  IsMapped-le m p {k = suc k} zero h v = absurd (omega arith)
  IsMapped-le m p {k = suc k} (suc n) h v = (v.0, IsMapped-le m (suc p) n (omega arith) v.1)

  -- On mapped memory a write succeeds.
  pub write-overlay :
      (xs : List A) (m : Memory A) (p : Ptr)
      → IsMapped m p (length xs)
      → write m p xs ≡ some (overlay m p xs)
  unfolding write overlay
  write-overlay [] m p h = refl
  write-overlay (x ∷ xs) m p h = ground (
    arith,
    write-overlay xs (update m p x) (suc p) (IsMapped-update m p (suc p) x (length xs) h.1),
  )

  -- It changes nothing outside its range.
  pub overlay_outside :
      (xs : List A) (m : Memory A) (p q : Ptr)
      → (q < p) ⊎ (p + length xs ≤ q)
      → overlay m p xs q ≡ m q
  unfolding overlay
  overlay_outside [] m p q h = refl
  overlay_outside (x ∷ xs) m p q h = ground (arith, overlay_outside xs (update m p x) (suc p) q)

  -- Reading depends on the range alone.
  pub read_cong :
      (n : ℕ) (m k : Memory A) (p : Ptr)
      → ((q : Ptr) → p ≤ q → q < p + n → m q ≡ k q)
      → read m p n ≡ read k p n
  unfolding read
  read_cong zero m k p h = refl
  read_cong (suc n) m k p h =
      ground (arith, h p, read_cong n m k (suc p) (λ q lo hi. h q (omega arith) (omega arith)))

  -- What was written is read back.
  pub read-overlay :
      (xs : List A) (m : Memory A) (p : Ptr) → read (overlay m p xs) p (length xs) ≡ some xs
  unfolding read overlay
  read-overlay [] m p = refl
  read-overlay (x ∷ xs) m p =
      ground
        (arith, overlay_outside xs (update m p x) (suc p) p, read-overlay xs (update m p x) (suc p))

  -- Mapped memory can be read, and gives as many elements as asked for.
  pub read-IsMapped :
      (n : ℕ) (m : Memory A) (p : Ptr)
      → IsMapped m p n
      → (xs : List A) × (read m p n ≡ some xs) × (length xs ≡ n)
  unfolding read
  read-IsMapped zero m p h = ([], refl, refl)
  read-IsMapped (suc n) m p h = prefix (m p) h.0 (read-IsMapped n m (suc p) h.1)
    where
      prefix :
          (o : Option A)
          → is_some o ≡ true
          → (xs : List A) × (read m (suc p) n ≡ some xs) × (length xs ≡ n)
          → (xs : List A) × (read_cons o (read m (suc p) n) ≡ some xs) × (length xs ≡ suc n)
      prefix none e r = cc
      prefix (some a) e (xs, e', l) = (a ∷ xs, rw e', ap suc l)
