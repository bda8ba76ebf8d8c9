-- ===== src/Check/Passing.antt =====
-- check_pcr_locks of nsm-test/src/bin/nsm-check.rs on a device that keeps the protocol.
use Prim.Native.Nat.{max}
use aws_nitro_enclaves_nsm_a.Base.{
  ℕ, ◌+◌, ◌-◌, ◌^◌, ◌≤◌, ◌<◌, ◌≡◌, refl, ◌≢◌, true, false, Bytes, arith, leb, length, get_elem?,
  replicate, some, lt_of_get_elem?,
}
use aws_nitro_enclaves_nsm_a.Base.Ints.{ℤ}
use aws_nitro_enclaves_nsm_a.Machine.{World, Cmd, ◌>>=◌, ◌>>◌}
use aws_nitro_enclaves_nsm_a.NsmIo.{Request}
use aws_nitro_enclaves_nsm_a.Driver.Api.{NsmDriver}
use aws_nitro_enclaves_nsm_a.Check.Pcrs.{PcrData, Description, get_pcr_len}
use aws_nitro_enclaves_nsm_a.Check.Locks.{
  dummy_data, expect_error, expect_lock_pcr, expect_lock_pcrs, expect_extended, expect_described,
  for_each, repeat, add_one_u16, request, check_pcr_locks,
}
use aws_nitro_enclaves_nsm_a.Check.Initial.{IsInitial}
use aws_nitro_enclaves_nsm_a.Check.Protocol.{Bank, KeepsPcrs}
use aws_nitro_enclaves_nsm_a.Check.Rules.{
  Passes, Passes-then, for_each-Passes, repeat-Passes, repeat_first-Passes,
}
use aws_nitro_enclaves_nsm_a.Check.Stages.{Stage, IsInitial-Stage}
use aws_nitro_enclaves_nsm_a.Check.Locking.{
  extend-Passes, refuse_lock-Passes, refuse_extend-Passes, lock-Passes, lock_range-Passes,
  refuse_range-Passes, describe-Passes,
}

module _ {K B : Type 0} (d : NsmDriver K B) (ctx : ℤ) (view : K → Bank)
    (extension : Bytes → Bytes → Bytes) (most : ℕ) (keeps : KeepsPcrs d ctx view extension most)
    (room : length dummy_data ≤ most) (n m : ℕ)
    (sized : (v : Bytes) → length (extension v dummy_data) ≡ n)
    (filled : (v : Bytes) → extension v dummy_data ≢ replicate n 0) (enough : 16 ≤ m) where
  abbrev Reached : ℕ → ℕ → K → Type 0
  Reached e l k = Stage n m e l (view k)

  all_refused : Cmd K (Unit {0})
  all_refused = for_each (λ j. request d ctx (Request.lock_pcr j) expect_error) 0 16

  all_refused-Passes : (w : World K) → Reached 16 16 w.kernel → Passes all_refused w (Reached 16 16)
  unfolding all_refused
  all_refused-Passes w s =
      for_each-Passes (λ j. Reached 16 16) _ 16 0
        (λ j w' lo hi s'.
          refuse_lock-Passes d ctx view extension most keeps room n m sized filled 16 16 j w'
            (omega arith) (omega arith) s')
        w s

  all_extended : Cmd K (Unit {0})
  all_extended =
      for_each (λ j. request d ctx (Request.extend_pcr j dummy_data) (expect_extended n)) 16
        (m - 16)

  all_extended-Passes :
      (e : ℕ) (w : World K)
      → 16 ≤ e
      → e ≤ m
      → Reached e 16 w.kernel
      → Passes all_extended w (Reached m 16)
  unfolding all_extended
  all_extended-Passes e w lo hi s =
      let start : max e 16 ≡ e = omega arith in
      let end : max e (16 + (m - 16)) ≡ m = omega arith in
      rw end at (
        for_each-Passes (λ j. Reached (max e j) 16)
          (λ j. request d ctx (Request.extend_pcr j dummy_data) (expect_extended n)) (m - 16) 16
          (λ j w' lo' hi' s'.
            extend-Passes d ctx view extension most keeps room n m sized filled e j w' lo'
              (omega arith) s')
          w (rw start s))

  all_locked : Cmd K (Unit {0})
  all_locked = for_each (λ j. request d ctx (Request.lock_pcr j) expect_lock_pcr) 16 (m - 16)

  all_locked-Passes : (w : World K) → Reached m 16 w.kernel → Passes all_locked w (Reached m m)
  unfolding all_locked
  all_locked-Passes w s =
      let end : 16 + (m - 16) ≡ m = omega arith in
      rw end at (
        for_each-Passes (Reached m) (λ j. request d ctx (Request.lock_pcr j) expect_lock_pcr)
          (m - 16) 16
          (λ j w' lo hi s'.
            lock-Passes d ctx view extension most keeps room n m sized filled m j w' (omega arith)
              s')
          w s)

  none_extended : Cmd K (Unit {0})
  none_extended = for_each (λ j. request d ctx (Request.extend_pcr j dummy_data) expect_error) 0 m

  none_extended-Passes : (w : World K) → Reached m m w.kernel → Passes none_extended w (Reached m m)
  unfolding none_extended
  none_extended-Passes w s =
      for_each-Passes (λ j. Reached m m) _ m 0
        (λ j w' lo hi s'.
          refuse_extend-Passes d ctx view extension most keeps room n m sized filled m m j w'
            (omega arith) (omega arith) s')
        w s

  all_described : Cmd K (Unit {0})
  all_described = for_each (λ j. request d ctx (Request.describe_pcr j) (expect_described n j)) 0 m

  all_described-Passes : (w : World K) → Reached m m w.kernel → Passes all_described w (Reached m m)
  unfolding all_described
  all_described-Passes w s =
      for_each-Passes (λ j. Reached m m) _ m 0
        (λ j w' lo hi s'.
          describe-Passes d ctx view extension most keeps room n m sized filled j w' (omega arith)
            s')
        w s

  described_ten : Cmd K (Unit {0})
  described_ten = repeat 10 all_described

  -- From the second LockPCRs on.
  rest : ℕ → Cmd K (Unit {0})
  rest range =
      request d ctx (Request.lock_pcrs range) expect_error >> (none_extended >> described_ten)

  rest-Passes : (w : World K) → Reached m m w.kernel → Passes (rest (m + 1)) w (Reached m m)
  unfolding rest described_ten
  rest-Passes w s =
      let error = request d ctx (Request.lock_pcrs (m + 1)) expect_error in
      Passes-then error (none_extended >> repeat 10 all_described) w (Reached m m) (Reached m m)
        (refuse_range-Passes d ctx view extension most keeps room n m sized filled m m w s)
        λ k s'.
          Passes-then none_extended (repeat 10 all_described) (record w { kernel = k })
            (Reached m m) (Reached m m) (none_extended-Passes (record w { kernel = k }) s')
            λ k' s''.
              repeat-Passes (Reached m m) all_described 10 all_described-Passes
                (record w { kernel = k' }) s''

  counted : Cmd K (Unit {0})
  counted = add_one_u16 m >>= rest

  counted-Passes :
      (w : World K) → m + 1 < 2 ^ 16 → Reached m m w.kernel → Passes counted w (Reached m m)
  unfolding counted add_one_u16
  counted-Passes w few s =
      let small : leb (2 ^ 16) (m + 1) ≡ false = ground arith in rw small (rest-Passes w s)

  -- The whole check.
  whole : Cmd K (Unit {0})
  whole =
      all_refused
      >> (repeat 10 all_extended
          >> (all_locked >> (request d ctx (Request.lock_pcrs m) expect_lock_pcrs >> counted)))

  whole-Passes :
      (w : World K) → m + 1 < 2 ^ 16 → Reached 16 16 w.kernel → Passes whole w (Reached m m)
  unfolding whole
  whole-Passes w few s =
      let range = request d ctx (Request.lock_pcrs m) expect_lock_pcrs in
      Passes-then all_refused (repeat 10 all_extended >> (all_locked >> (range >> counted))) w
        (Reached 16 16) (Reached m m) (all_refused-Passes w s)
        λ k₁ s₁.
          Passes-then (repeat 10 all_extended) (all_locked >> (range >> counted))
            (record w { kernel = k₁ }) (Reached m 16) (Reached m m)
            (repeat_first-Passes (Reached 16 16) (Reached m 16) all_extended 9
              (λ w' s'. all_extended-Passes 16 w' (omega arith) enough s')
              (λ w' s'. all_extended-Passes m w' enough (omega arith) s') (record w { kernel = k₁ })
              s₁)
            λ k₂ s₂.
              Passes-then all_locked (range >> counted) (record w { kernel = k₂ }) (Reached m m)
                (Reached m m) (all_locked-Passes (record w { kernel = k₂ }) s₂)
                λ k₃ s₃.
                  Passes-then range counted (record w { kernel = k₃ }) (Reached m m) (Reached m m)
                    (lock_range-Passes d ctx view extension most keeps room n m sized filled m
                      (record w { kernel = k₃ }) s₃)
                    λ k₄ s₄. counted-Passes (record w { kernel = k₄ }) few s₄

-- The check, cut into its parts.
check_pcr_locks-whole :
    {K B : Type 0} (d : NsmDriver K B) (ctx : ℤ) (view : K → Bank)
    (extension : Bytes → Bytes → Bytes) (most : ℕ) (keeps : KeepsPcrs d ctx view extension most)
    (room : length dummy_data ≤ most) (description : Description)
    (sized : (v : Bytes) → length (extension v dummy_data) ≡ get_pcr_len description)
    (filled : (v : Bytes) → extension v dummy_data ≢ replicate (get_pcr_len description) 0)
    (enough : 16 ≤ description.max_pcrs)
    → check_pcr_locks d ctx description
      ≡ whole d ctx view extension most keeps room
          (get_pcr_len description)
          description.max_pcrs
          sized
          filled
          enough
unfolding check_pcr_locks whole counted rest all_refused all_extended all_locked none_extended
    all_described described_ten
check_pcr_locks-whole d ctx view extension most keeps room description sized filled enough = refl

module _ {K B : Type 0} (d : NsmDriver K B) (ctx : ℤ) (view : K → Bank)
    (extension : Bytes → Bytes → Bytes) (most : ℕ) where
  -- On a device that keeps the protocol on PCRs with requests of at least 3 bytes of data, whose
  -- digests of the dummy data have the digest's length and are not zero, that starts as
  -- check_initial_pcrs wants it and has fewer than 2 ^ 16 - 1 PCRs, check_pcr_locks passes: no
  -- assertion, unexpected response or overflow stops it, and afterwards the device has as many
  -- PCRs, every one of them locked and those from 16 on not zero.
  pub check_pcr_locks-Passes :
      (description : Description) (w : World K)
      → KeepsPcrs d ctx view extension most
      → length dummy_data ≤ most
      → ((v : Bytes) → length (extension v dummy_data) ≡ get_pcr_len description)
      → ((v : Bytes) → extension v dummy_data ≢ replicate (get_pcr_len description) 0)
      → IsInitial description (view w.kernel)
      → description.max_pcrs ≡ length (view w.kernel)
      → description.max_pcrs + 1 < 2 ^ 16
      → Passes (check_pcr_locks d ctx description) w λ k.
        (length (view k) ≡ description.max_pcrs)
        × ((j : ℕ) (p : PcrData)
            → get_elem? (view k) j ≡ some p
            → (p.lock ≡ true) × (16 ≤ j → p.value ≢ replicate (get_pcr_len description) 0))
  check_pcr_locks-Passes description w keeps room sized filled initial m few =
      let n = get_pcr_len description in
      let enough : 16 ≤ description.max_pcrs = omega (arith, initial.enough) in
      let start : Stage n description.max_pcrs 16 16 (view w.kernel) =
        rw (← m) at (IsInitial-Stage description (view w.kernel) initial) in
      let (k, done, s) =
        whole-Passes d ctx view extension most keeps room n description.max_pcrs sized filled enough
          w few start in
      (
        k,
        rw
            (check_pcr_locks-whole d ctx view extension most keeps room description sized filled
              enough)
            done,
        (
          s.size,
          λ j p g.
              let below : j < description.max_pcrs =
                omega (arith, lt_of_get_elem? (view k) j g, s.size) in
              let f = s.facts j p g in (f.locked below, λ lo. f.extended lo below),
        ),
      )
