-- ===== src/Check/Rules.antt =====
-- Rules for the loops of the test programs, over a property of the kernel's state.
use native.Mathlib.Nat.{add-zero}
use aws_nitro_enclaves_nsm_a.Base.{ℕ, zero, suc, ◌+◌, ◌≤◌, ◌<◌, ◌≡◌, refl, arith}
use aws_nitro_enclaves_nsm_a.Machine.{World, ok, Cmd, ◌>>◌}
use aws_nitro_enclaves_nsm_a.Check.Locks.{for_each, repeat}

-- The command passes, changes only the kernel's state, and leaves it in `P`.
abbrev pub Passes : {K : Type 0} → Cmd K (Unit {0}) → World K → (K → Type 0) → Type 0
Passes {K} run w P = (k : K) × (run w ≡ ok tt (record w { kernel = k })) × P k

module _ {K : Type 0} where
  pub Passes-then :
      (m n : Cmd K (Unit {0})) (w : World K) (P Q : K → Type 0)
      → Passes m w P
      → ((k : K) → P k → Passes n (record w { kernel = k }) Q)
      → Passes (m >> n) w Q
  Passes-then m n w P Q (k, e, p) next = let (k', e', q) = next k p in (k', rw (e, e'), q)

  -- An invariant at each index, kept by the body, holds behind the last.
  pub for_each-Passes :
      (I : ℕ → K → Type 0) (body : ℕ → Cmd K (Unit {0})) (n i : ℕ)
      → ((j : ℕ) (w : World K) → i ≤ j → j < i + n → I j w.kernel → Passes (body j) w (I (suc j)))
      → (w : World K) → I i w.kernel
      → Passes (for_each body i n) w (I (i + n))
  unfolding for_each
  for_each-Passes I body zero i step w h = (w.kernel, refl, rw add-zero h)
  for_each-Passes I body (suc n) i step w h =
      let shift : suc i + n ≡ i + suc n = omega arith in
      Passes-then (body i) (for_each body (suc i) n) w (I (suc i)) (I (i + suc n))
        (step i w (omega arith) (omega arith) h)
        λ k p. rw shift at (
          for_each-Passes I body n (suc i) (λ j w' lo hi. step j w' (omega arith) (omega arith))
            (record w { kernel = k }) p)

  -- Rounds that keep an invariant.
  pub repeat-Passes :
      (I : K → Type 0) (body : Cmd K (Unit {0})) (n : ℕ)
      → ((w : World K) → I w.kernel → Passes body w I)
      → (w : World K) → I w.kernel
      → Passes (repeat n body) w I
  unfolding repeat
  repeat-Passes I body zero step w h = (w.kernel, refl, h)
  repeat-Passes I body (suc n) step w h =
      Passes-then body (repeat n body) w I I (step w h)
        λ k p. repeat-Passes I body n step (record w { kernel = k }) p

  -- Where the first round reaches what the others keep.
  pub repeat_first-Passes :
      (I J : K → Type 0) (body : Cmd K (Unit {0})) (n : ℕ)
      → ((w : World K) → I w.kernel → Passes body w J)
      → ((w : World K) → J w.kernel → Passes body w J)
      → (w : World K) → I w.kernel
      → Passes (repeat (suc n) body) w J
  unfolding repeat
  repeat_first-Passes I J body n first more w h =
      Passes-then body (repeat n body) w J J (first w h)
        λ k p. repeat-Passes J body n more (record w { kernel = k }) p
