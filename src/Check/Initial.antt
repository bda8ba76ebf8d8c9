-- ===== src/Check/Initial.antt =====
-- check_initial_pcrs of nsm-test/src/bin/nsm-check.rs against the PCRs that the device holds.
use native.Mathlib.Nat.{add-zero, le_refl}
use aws_nitro_enclaves_nsm_a.Base.{
  ℕ, suc, ◌+◌, ◌-◌, ◌≤◌, ◌≡◌, refl, ap, ◌∙◌, ◌↔◌, ◌⊎◌, inl, inr, true, false, some, List, [], ◌∷◌,
  Bytes, arith, ◌==◌, Bool-cases, length, get_elem?, take, drop, replicate, length-take,
  length-drop, take-all,
}
use aws_nitro_enclaves_nsm_a.Base.Ints.{ℤ}
use aws_nitro_enclaves_nsm_a.Machine.{World, Panic, ok, panic, assertion_failed, Cmd, ◌>>◌}
use aws_nitro_enclaves_nsm_a.NsmIo.{Request, Response}
use aws_nitro_enclaves_nsm_a.Driver.Api.{NsmDriver}
use aws_nitro_enclaves_nsm_a.Check.Asserts.{
  assert, bytes_eq, bytes_eq-cases, Decides, Decides-then, Decides-iff, assert-Decides,
}
use aws_nitro_enclaves_nsm_a.Check.Pcrs.{
  PcrData, Description, get_pcr_len, range_from, check_reserved, check_empty, check_locks,
  pcr_data_of, describe_pcrs, check_initial_pcrs,
}
use aws_nitro_enclaves_nsm_a.Check.Loops.{
  AllFrom, Filled, HasLength, HasLock, check_reserved-Decides, check_empty-Decides,
  AllFrom-take-drop, Locks, check_locks-Decides,
}

-- What makes the check pass: sixteen PCRs at least, with values of the digest's length, filled and
-- locked as they must be, and the device reports just the first sixteen as locked.
pub record IsInitial (description : Description) (pcrs : List PcrData) : Type 0 where
  pub enough : 16 ≤ length pcrs
  pub sized : AllFrom (HasLength (get_pcr_len description)) 0 pcrs
  pub filled : AllFrom (Filled (replicate (get_pcr_len description) 0)) 0 pcrs
  pub reported : description.locked_pcrs ≡ range_from 0 16
  pub locked : AllFrom (HasLock true) 0 (take 16 pcrs)
  pub unlocked : AllFrom (HasLock false) 16 (drop 16 pcrs)

-- The asserts on the values that were read.
asserts : {K : Type 0} → Description → List PcrData → Cmd K (Unit {0})
asserts description pcr_data =
    let zeroed_pcr = replicate (get_pcr_len description) 0 in
    check_reserved zeroed_pcr 0 (take 5 pcr_data)
    >> (check_empty zeroed_pcr (drop 5 pcr_data)
        >> (assert (bytes_eq description.locked_pcrs (range_from 0 16))
            >> (check_locks true pcr_data 0 16
                >> check_locks false pcr_data 16 (description.max_pcrs - 16))))

module _ {K : Type 0} (description : Description) (ps : List PcrData) (w : World K) where
  reported-Decides :
      Decides
        (description.locked_pcrs ≡ range_from 0 16)
        (assert {K = K} (bytes_eq description.locked_pcrs (range_from 0 16)))
        w
  reported-Decides = assert-Decides w _ (bytes_eq-cases description.locked_pcrs (range_from 0 16))

  -- The properties that the asserts decide, one after another, are those of `IsInitial`.
  asserts-IsInitial :
      description.max_pcrs ≡ length ps
      → AllFrom (HasLength (get_pcr_len description)) 0 ps
      → let zeroed : Bytes = replicate (get_pcr_len description) 0 in
        (AllFrom (Filled zeroed) 0 (take 5 ps)
          × (AllFrom (Filled zeroed) 5 (drop 5 ps)
              × ((description.locked_pcrs ≡ range_from 0 16)
                  × (Locks true ps w 0 16 × Locks false ps w 16 (description.max_pcrs - 16)))))
        ↔ IsInitial description ps
  asserts-IsInitial m sized =
      let (join, split) =
        AllFrom-take-drop (Filled (replicate (get_pcr_len description) 0)) 5 0 ps in
      let n = description.max_pcrs - 16 in
      let whole : take n (drop 16 ps) ≡ drop 16 ps =
        take-all n (drop 16 ps) (omega (arith, length-drop 16 ps)) in
      (
        λ h.
            let some_pcrs = h.1.1.1.0.0 in
            record {
              enough = omega arith;
              sized = sized;
              filled = join (h.0, h.1.0);
              reported = h.1.1.0;
              locked = h.1.1.1.0.1;
              unlocked = rw whole at h.1.1.1.1.1;
            },
        λ i.
            let parts = split i.filled in
            (
              parts.0,
              (
                parts.1,
                (
                  i.reported,
                  (
                    (inl i.enough, i.locked),
                    (let e = i.enough in omega arith, rw whole i.unlocked),
                  ),
                ),
              ),
            ),
      )

  asserts-Decides :
      description.max_pcrs ≡ length ps
      → AllFrom (HasLength (get_pcr_len description)) 0 ps
      → Decides (IsInitial description ps) (asserts description ps) w
  unfolding asserts
  asserts-Decides m sized =
      let zeroed : Bytes = replicate (get_pcr_len description) 0 in
      let a : Cmd K (Unit {0}) = check_reserved zeroed 0 (take 5 ps) in
      let b : Cmd K (Unit {0}) = check_empty zeroed (drop 5 ps) in
      let c : Cmd K (Unit {0}) = assert (bytes_eq description.locked_pcrs (range_from 0 16)) in
      let e : Cmd K (Unit {0}) = check_locks true ps 0 16 in
      let f : Cmd K (Unit {0}) = check_locks false ps 16 (description.max_pcrs - 16) in
      let few : 0 + length (take 5 ps) ≤ 5 = omega (arith, length-take 5 ps) in
      Decides-iff w (a >> (b >> (c >> (e >> f)))) (asserts-IsInitial m sized) (
        Decides-then w a (b >> (c >> (e >> f))) (check_reserved-Decides zeroed w 0 (take 5 ps) few)
          (Decides-then w b (c >> (e >> f)) (check_empty-Decides zeroed w 5 (drop 5 ps) (le_refl 5))
            (Decides-then w c (e >> f) reported-Decides (
              Decides-then w e f (check_locks-Decides true ps w 0 16)
                (check_locks-Decides false ps w 16 (description.max_pcrs - 16))))))

module _ {K B : Type 0} (d : NsmDriver K B) (ctx : ℤ) (view : K → List PcrData)
    (describes : (i : ℕ) (p : PcrData) (w : World K)
      → get_elem? (view w.kernel) i ≡ some p
      → (k : K) × (d.nsm_process_request ctx (Request.describe_pcr i) w
          ≡ ok (Response.describe_pcr p.lock p.value) (record w { kernel = k }))
        × (view k ≡ view w.kernel)) where
  -- The PCRs from index `i` on are read, if their values have the length; else an assert fails.
  describe_pcrs-cases :
      (n i : ℕ) (ps : List PcrData) (w : World K)
      → ((j : ℕ) → get_elem? (view w.kernel) (i + j) ≡ get_elem? ps j)
      → (AllFrom (HasLength n) i ps
          × ((k : K) × (describe_pcrs d ctx n i (length ps) w ≡ ok ps (record w { kernel = k }))
              × (view k ≡ view w.kernel)))
        ⊎ ((¬ AllFrom (HasLength n) i ps)
            × ((w' : World K) × (describe_pcrs d ctx n i (length ps) w
                  ≡ panic assertion_failed w')))
  unfolding describe_pcrs pcr_data_of
  describe_pcrs-cases n i [] w h = inl (tt, (w.kernel, refl, refl))
  describe_pcrs-cases n i (p ∷ ps) w h =
      let (k, e, v) = describes i p w (rw add-zero at (h 0)) in
      let w₁ : World K = record w { kernel = k } in
      let shift : (j : ℕ) → suc i + j ≡ i + suc j = λ j. omega arith in
      let h₁ : (j : ℕ) → get_elem? (view k) (suc i + j) ≡ get_elem? ps j =
        λ j. rw (v, shift j) (h (suc j)) in
      elim (Bool-cases (length p.value == n)) [
        | inr wrong ↦ inr (λ a. absurd (let x = a.0 in ground arith), (w₁, rw (e, wrong, assert)))
        | inl right ↦ elim (describe_pcrs-cases n (suc i) ps w₁ h₁) [
          | inl (a, (k', e', v')) ↦ inl ((ground arith, a), (k', rw (e, right, e'), v' ∙ v))
          | inr (na, (w', e')) ↦ inr (λ a. na a.1, (w', rw (e, right, e')))
        ]
      ]

  -- On a device that answers DescribePCR by the PCR that it holds and keeps its PCRs, where the
  -- description has their number as max_pcrs, check_initial_pcrs passes and leaves the PCRs as they
  -- are exactly where the device holds at least 16 PCRs, every value has the length of the digest,
  -- PCR 3 and those from 5 on are zero while 0, 1, 2 and 4 are not, exactly the first 16 are
  -- locked, and the description lists exactly these as locked; in every other case it panics.
  pub check_initial_pcrs-IsInitial :
      (description : Description) (w : World K)
      → description.max_pcrs ≡ length (view w.kernel)
      → (IsInitial description (view w.kernel)
          × ((k : K) × (check_initial_pcrs d ctx description w ≡ ok tt (record w { kernel = k }))
              × (view k ≡ view w.kernel)))
        ⊎ ((¬ IsInitial description (view w.kernel))
            × ((p : Panic) × (w' : World K) × (check_initial_pcrs d ctx description w
                  ≡ panic p w')))
  unfolding check_initial_pcrs asserts
  check_initial_pcrs-IsInitial description w m =
      let ps = view w.kernel in
      elim (describe_pcrs-cases (get_pcr_len description) 0 ps w
        (λ j. ap (get_elem? ps) (omega arith))) [
          | inr (na, (w', e)) ↦ inr (λ i. na i.sized, (assertion_failed, w', rw (rw (← m) at e)))
          | inl (a, (k, e, v)) ↦
              let read = rw (← m) at e in
              elim (asserts-Decides description ps (record w { kernel = k }) m a) [
                | inl (i, done) ↦ inl (i, (k, rw read done, v))
                | inr (ni, p, fails) ↦ inr (ni, (p, record w { kernel = k }, rw read fails))
              ]
        ]
