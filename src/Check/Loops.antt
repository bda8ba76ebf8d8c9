-- ===== src/Check/Loops.antt =====
-- The loops of check_initial_pcrs in nsm-test/src/bin/nsm-check.rs: what each of them decides.
use native.Mathlib.Nat.{add-zero}
use aws_nitro_enclaves_nsm_a.Base.{
  ℕ, zero, suc, ◌+◌, ◌≤◌, ◌<◌, ◌≡◌, refl, ◌≢◌, ◌↔◌, ◌⊎◌, inl, inr, Bool, true, false, not, none,
  some, List, [], ◌∷◌, Bytes, arith, ◌==◌, if◌then◌else◌, Bool-cases, length, get_elem?, take, drop,
}
use aws_nitro_enclaves_nsm_a.Machine.{World, index_out_of_bounds, ◌>>◌}
use aws_nitro_enclaves_nsm_a.Check.Asserts.{
  assert, bytes_eq, bytes_eq-cases, Decides, Decides-then, Decides-iff, assert-Decides,
}
use aws_nitro_enclaves_nsm_a.Check.Pcrs.{
  PcrData, check_reserved, check_empty, check_lock_at, check_locks,
}

-- Every PCR has the property at its index.
abbrev pub AllFrom : (ℕ → PcrData → Type 0) → ℕ → List PcrData → Type 0
AllFrom P i [] = Unit {0}
AllFrom P i (p ∷ ps) = P i p × AllFrom P (suc i) ps

-- A PCR is empty but for 0, 1, 2 and 4.
abbrev pub Filled : Bytes → ℕ → PcrData → Type 0
Filled zeroed i p = ((i < 5) × (i ≢ 3) → p.value ≢ zeroed) × ((i ≡ 3) ⊎ (5 ≤ i) → p.value ≡ zeroed)

abbrev pub HasLength : ℕ → ℕ → PcrData → Type 0
HasLength n i p = length p.value ≡ n

abbrev pub HasLock : Bool → ℕ → PcrData → Type 0
HasLock want i p = p.lock ≡ want

module _ {K : Type 0} (zeroed : Bytes) (w : World K) where
  same-Decides :
      (i : ℕ) (p : PcrData)
      → (i ≡ 3) ⊎ (5 ≤ i)
      → Decides (Filled zeroed i p) (assert {K = K} (bytes_eq p.value zeroed)) w
  same-Decides i p h = elim (bytes_eq-cases p.value zeroed) [
    | inl (e, same) ↦ assert-Decides w _ (inl (e, (λ k. absurd (omega arith), λ _. same)))
    | inr (e, other) ↦ assert-Decides w _ (inr (e, λ f. other (f.1 h)))
  ]

  reserved_one-Decides :
      (i : ℕ) (p : PcrData)
      → i < 5
      → Decides
          (Filled zeroed i p)
          (assert {K = K}
            (if i == 3 then bytes_eq p.value zeroed else not (bytes_eq p.value zeroed)))
          w
  reserved_one-Decides i p h = elim (Bool-cases (i == 3)) [
    | inl e ↦ rw e (same-Decides i p (ground arith))
    | inr ne ↦ rw ne (elim (bytes_eq-cases p.value zeroed) [
      | inl (e, same) ↦ assert-Decides w _ (inr (rw e, λ f. f.0 (h, ground arith) same))
      | inr (e, other) ↦ assert-Decides w _ (inl (rw e, (λ _. other, λ k. absurd (ground arith))))
    ])
  ]

  pub check_reserved-Decides :
      (i : ℕ) (ps : List PcrData)
      → i + length ps ≤ 5
      → Decides (AllFrom (Filled zeroed) i ps) (check_reserved zeroed i ps) w
  unfolding check_reserved
  check_reserved-Decides i [] h = inl (tt, refl)
  check_reserved-Decides i (p ∷ ps) h =
      let value = if i == 3 then bytes_eq p.value zeroed else not (bytes_eq p.value zeroed) in
      Decides-then w (assert value) (check_reserved zeroed (suc i) ps)
        (reserved_one-Decides i p (omega arith)) (check_reserved-Decides (suc i) ps (omega arith))

  pub check_empty-Decides :
      (i : ℕ) (ps : List PcrData)
      → 5 ≤ i
      → Decides (AllFrom (Filled zeroed) i ps) (check_empty zeroed ps) w
  unfolding check_empty
  check_empty-Decides i [] h = inl (tt, refl)
  check_empty-Decides i (p ∷ ps) h =
      Decides-then w (assert (bytes_eq p.value zeroed)) (check_empty zeroed ps)
        (same-Decides i p (inr h)) (check_empty-Decides (suc i) ps (omega arith))

-- A property of every PCR, of the first `n` and of the others.
pub AllFrom-take-drop :
    (P : ℕ → PcrData → Type 0) (n i : ℕ) (ps : List PcrData)
    → (AllFrom P i (take n ps) × AllFrom P (i + n) (drop n ps)) ↔ AllFrom P i ps
AllFrom-take-drop P zero i ps = (λ h. rw add-zero at h.1, λ h. (tt, rw add-zero h))
AllFrom-take-drop P (suc n) i [] = (λ h. tt, λ h. (tt, tt))
AllFrom-take-drop P (suc n) i (p ∷ ps) =
    let (to, back) = AllFrom-take-drop P n (suc i) ps in
    let e : i + suc n ≡ suc i + n = omega arith in
    (λ h. (h.0.0, to (h.0.1, rw e at h.1)), λ h. ((h.0, (back h.1).0), rw e (back h.1).1))

-- What stands at an index, and behind it.
drop_cases :
    (i : ℕ) (ps : List PcrData)
    → ((get_elem? ps i ≡ none) × (length ps ≤ i))
      ⊎ ((p : PcrData) × (get_elem? ps i ≡ some p)
          × (drop i ps ≡ p ∷ drop (suc i) ps)
          × (i < length ps))
drop_cases i [] = inl (refl, omega arith)
drop_cases zero (p ∷ ps) = inr (p, refl, refl, omega arith)
drop_cases (suc i) (p ∷ ps) = elim (drop_cases i ps) [
  | inl (e, l) ↦ inl (e, omega arith)
  | inr (q, e, t, l) ↦ inr (q, e, t, omega arith)
]

module _ {K : Type 0} (want : Bool) (ps : List PcrData) (w : World K) where
  lock-cases :
      (b : Bool)
      → (((if want then b else not b) ≡ true) × (b ≡ want))
        ⊎ (((if want then b else not b) ≡ false) × (b ≢ want))
  lock-cases true = ground arith
  lock-cases false = ground arith

  -- The property that the loop decides: the indices are there, and their PCRs have the lock.
  abbrev pub Locks : (i n : ℕ) → Type 0
  Locks i n = ((i + n ≤ length ps) ⊎ (n ≡ 0)) × AllFrom (HasLock want) i (take n (drop i ps))

  Locks-suc :
      (i n : ℕ) (p : PcrData)
      → drop i ps ≡ p ∷ drop (suc i) ps
      → i < length ps
      → ((p.lock ≡ want) × Locks (suc i) n) ↔ Locks i (suc n)
  Locks-suc i n p t l =
      rw t (λ h. (inl (omega arith), (h.0, h.1.1)), λ h. (h.1.0, (omega arith, h.1.1)))

  pub check_locks-Decides : (i n : ℕ) → Decides (Locks i n) (check_locks want ps i n) w
  unfolding check_locks
  check_locks-Decides i zero = inl ((inr refl, tt), refl)
  check_locks-Decides i (suc n) = elim (drop_cases i ps) [
    | inl (e, l) ↦ inr (λ h. absurd (omega arith), index_out_of_bounds, rw (e, check_lock_at))
    | inr (p, e, t, l) ↦
        let first = check_lock_at want (get_elem? ps i) in
        let rest = check_locks want ps (suc i) n in
        let head : Decides (p.lock ≡ want) first w =
          rw e (assert-Decides w (if want then p.lock else not p.lock) (lock-cases p.lock)) in
        Decides-iff w (first >> rest) (Locks-suc i n p t l)
          (Decides-then w first rest head (check_locks-Decides (suc i) n))
  ]
