-- ===== src/Check/Locking.antt =====
-- check_pcr_locks of nsm-test/src/bin/nsm-check.rs on a device that keeps the protocol.
use Prim.Native.Nat.{max}
use native.Mathlib.Nat.{le_refl}
use aws_nitro_enclaves_nsm_a.Base.{
  ℕ, suc, ◌+◌, ◌≤◌, ◌<◌, ◌≡◌, refl, ◌≢◌, ◌⊎◌, inl, inr, true, false, not, ◌&&◌, ◌||◌, Bytes, arith,
  leb, ◌==◌, if◌then◌else◌, length, replicate, get_elem?-lt,
}
use Prim.Native.Nat.{max}
use native.Mathlib.Nat.{le_refl}
use aws_nitro_enclaves_nsm_a.Base.Ints.{ℤ}
use aws_nitro_enclaves_nsm_a.Machine.{World, ok, Cmd}
use aws_nitro_enclaves_nsm_a.NsmIo.{Request, Response}
use aws_nitro_enclaves_nsm_a.Driver.Api.{NsmDriver}
use aws_nitro_enclaves_nsm_a.Check.Asserts.{bytes_eq, bytes_eq-cases}
use aws_nitro_enclaves_nsm_a.Check.Pcrs.{PcrData}
use aws_nitro_enclaves_nsm_a.Check.Locks.{
  dummy_data, expect_error, expect_lock_pcr, expect_lock_pcrs, expect_extended, expect_described,
  request,
}
use aws_nitro_enclaves_nsm_a.Check.Protocol.{Bank, Responds, KeepsPcrs}
use aws_nitro_enclaves_nsm_a.Check.Rules.{Passes}
use aws_nitro_enclaves_nsm_a.Check.Stages.{Facts, Stage, Stage-extend, Stage-lock, Stage-lock_below}

module _ {K B : Type 0} (d : NsmDriver K B) (ctx : ℤ) (view : K → Bank)
    (extension : Bytes → Bytes → Bytes) (most : ℕ) (keeps : KeepsPcrs d ctx view extension most)
    (room : length dummy_data ≤ most) (n m : ℕ)
    (sized : (v : Bytes) → length (extension v dummy_data) ≡ n)
    (filled : (v : Bytes) → extension v dummy_data ≢ replicate n 0) where
  -- A response that is accepted.
  request-Passes :
      (q : Request B) (expect : Response → Cmd K (Unit {0})) (w : World K) (r : Response)
      (bank : Bank)
      → Responds d ctx view q w r bank
      → ((w' : World K) → expect r w' ≡ ok tt w')
      → Passes (request d ctx q expect) w (λ k. view k ≡ bank)
  request-Passes q expect w r bank (k, e, v) h = (k, rw e (h (record w { kernel = k })), v)

  -- The stage of the device in a state of the kernel.
  abbrev pub At : ℕ → ℕ → K → Type 0
  At e l k = Stage n m e l (view k)

  pub extend-Passes :
      (e j : ℕ) (w : World K)
      → 16 ≤ j
      → j < m
      → At (max e j) 16 w.kernel
      → Passes
          (request d ctx (Request.extend_pcr j dummy_data) (expect_extended n))
          w
          (At (max e (suc j)) 16)
  unfolding expect_extended
  extend-Passes e j w lo hi s =
      let (p, g) = get_elem?-lt (view w.kernel) j (omega (arith, s.size)) in
      let free = (s.facts j p g).unlocked lo in
      let value = extension p.value dummy_data in
      let ne = filled p.value in
      let length_ok : (length value == n) ≡ true = let l = sized p.value in ground arith in
      let next = Stage-extend e j p value g lo (sized p.value) ne s in
      let differs : bytes_eq value (replicate n 0) ≡ false =
        elim (bytes_eq-cases value (replicate n 0)) [
          | inl (_, same) ↦ absurd (ne same)
          | inr (other, _) ↦ other
        ] in
      let (k, done, v) =
        request-Passes (Request.extend_pcr j dummy_data) (expect_extended n) w
          (Response.extend_pcr value) _ (keeps.extends j p dummy_data w g free room)
          (λ w'. rw (length_ok, differs)) in
      (k, done, rw v next)

  pub refuse_lock-Passes :
      (e l j : ℕ) (w : World K)
      → j < l
      → j < m
      → At e l w.kernel
      → Passes (request d ctx (Request.lock_pcr j) expect_error) w (At e l)
  unfolding expect_error
  refuse_lock-Passes e l j w lo hi s =
      let (p, g) = get_elem?-lt (view w.kernel) j (omega (arith, s.size)) in
      let (c, r) = keeps.refuses_lock j p w g ((s.facts j p g).locked lo) in
      let (k, done, v) = request-Passes (Request.lock_pcr j) expect_error w _ _ r (λ w'. refl) in
      (k, done, rw v s)

  pub refuse_extend-Passes :
      (e l j : ℕ) (w : World K)
      → j < l
      → j < m
      → At e l w.kernel
      → Passes (request d ctx (Request.extend_pcr j dummy_data) expect_error) w (At e l)
  unfolding expect_error
  refuse_extend-Passes e l j w lo hi s =
      let (p, g) = get_elem?-lt (view w.kernel) j (omega (arith, s.size)) in
      let (c, r) = keeps.refuses_extend j p dummy_data w g ((s.facts j p g).locked lo) room in
      let (k, done, v) =
        request-Passes (Request.extend_pcr j dummy_data) expect_error w _ _ r (λ w'. refl) in
      (k, done, rw v s)

  pub lock-Passes :
      (e j : ℕ) (w : World K)
      → j < m
      → At e j w.kernel
      → Passes (request d ctx (Request.lock_pcr j) expect_lock_pcr) w (At e (suc j))
  unfolding expect_lock_pcr
  lock-Passes e j w hi s =
      let (p, g) = get_elem?-lt (view w.kernel) j (omega (arith, s.size)) in
      let r = keeps.locks j p w g ((s.facts j p g).unlocked (le_refl j)) in
      let (k, done, v) = request-Passes (Request.lock_pcr j) expect_lock_pcr w _ _ r (λ w'. refl) in
      (k, done, rw v (Stage-lock e j p g s))

  pub lock_range-Passes :
      (e : ℕ) (w : World K)
      → At e m w.kernel
      → Passes (request d ctx (Request.lock_pcrs m) expect_lock_pcrs) w (At e m)
  unfolding expect_lock_pcrs
  lock_range-Passes e w s =
      let r = keeps.locks_range m w (omega (arith, s.size)) in
      let (k, done, v) =
        request-Passes (Request.lock_pcrs m) expect_lock_pcrs w _ _ r (λ w'. refl) in
      (k, done, rw v (Stage-lock_below e s))

  pub refuse_range-Passes :
      (e l : ℕ) (w : World K)
      → At e l w.kernel
      → Passes (request d ctx (Request.lock_pcrs (m + 1)) expect_error) w (At e l)
  unfolding expect_error
  refuse_range-Passes e l w s =
      let (c, r) = keeps.refuses_range (m + 1) w (omega (arith, s.size)) in
      let (k, done, v) =
        request-Passes (Request.lock_pcrs (m + 1)) expect_error w _ _ r (λ w'. refl) in
      (k, done, rw v s)

  -- The value that the check wants to see last.
  last_value :
      (j : ℕ) (p : PcrData)
      → j < m
      → Facts n m m j p
      → let empty = j == 3 || leb 5 j && leb j 15 in
        (if empty then bytes_eq p.value (replicate n 0) else not (bytes_eq p.value (replicate n 0)))
        ≡ true
  last_value j p h f = elim (bytes_eq-cases p.value (replicate n 0)) [
    | inl (e, same) ↦
        let low : ¬ (16 ≤ j) = λ k. f.extended k h same in
        let few : ¬ ((j < 5) × (j ≢ 3)) = λ k. (f.filled (omega arith)).0 k same in
        rw e (ground arith)
    | inr (e, other) ↦
        let no : ¬ ((j < 16) × ((j ≡ 3) ⊎ (5 ≤ j))) = λ k. other ((f.filled k.0).1 k.1) in
        rw e (ground arith)
  ]

  pub describe-Passes :
      (j : ℕ) (w : World K)
      → j < m
      → At m m w.kernel
      → Passes (request d ctx (Request.describe_pcr j) (expect_described n j)) w (At m m)
  unfolding expect_described
  describe-Passes j w h s =
      let (p, g) = get_elem?-lt (view w.kernel) j (omega (arith, s.size)) in
      let f = s.facts j p g in
      let r = keeps.describes j p w g in
      let length_ok : (length p.value == n) ≡ true = let l = f.sized in ground arith in
      let value_ok = last_value j p h f in
      let lock_ok = f.locked h in
      let (k, done, v) =
        request-Passes (Request.describe_pcr j) (expect_described n j) w _ _ r
          (λ w'. rw (length_ok, value_ok, lock_ok)) in
      (k, done, rw v s)
