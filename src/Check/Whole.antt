-- ===== src/Check/Whole.antt =====
-- main of nsm-test/src/bin/nsm-check.rs on a device that does what the program checks.
use aws_nitro_enclaves_nsm_a.Base.{
  ℕ, zero, suc, ◌≤◌, ◌≡◌, refl, ap, sym, ◌∙◌, ◌≢◌, ◌⊎◌, inl, inr, true, false, none, some, Option,
  [], Bytes, arith, ◌==◌, length, get_elem?, replicate,
}
use aws_nitro_enclaves_nsm_a.Base.Ints.{ℤ, is_negative}
use aws_nitro_enclaves_nsm_a.Machine.{World, Cmd, ok, ◌>>◌}
use aws_nitro_enclaves_nsm_a.NsmIo.{NsmInfo}
use aws_nitro_enclaves_nsm_a.Driver.Api.{NsmDriver}
use aws_nitro_enclaves_nsm_a.Check.{main}
use aws_nitro_enclaves_nsm_a.Check.Asserts.{bytes_eq, bytes_eq-cases}
use aws_nitro_enclaves_nsm_a.Check.Pcrs.{
  PcrData, Description, get_pcr_len, get_nsm_description, description_of, check_initial_pcrs,
}
use aws_nitro_enclaves_nsm_a.Check.Locks.{dummy_data, check_pcr_locks}
use aws_nitro_enclaves_nsm_a.Check.Services.{
  expect_document, expect_random, check_single_attestation, check_attestation, check_random_loop,
  check_random,
}
use aws_nitro_enclaves_nsm_a.Check.Initial.{IsInitial, check_initial_pcrs-IsInitial}
use aws_nitro_enclaves_nsm_a.Check.Protocol.{Bank}
use aws_nitro_enclaves_nsm_a.Check.Rules.{Passes, Passes-then}
use aws_nitro_enclaves_nsm_a.Check.Passing.{check_pcr_locks-Passes}
use aws_nitro_enclaves_nsm_a.Check.Serving.{description_at, IsMade, ServesAll}

-- What is run behind a command that passes.
pub then-run :
    {K : Type 0} (m n : Cmd K (Unit {0})) (w : World K) (k : K)
    → m w ≡ ok tt (record w { kernel = k })
    → (m >> n) w ≡ n (record w { kernel = k })
then-run m n w k e = rw e

module _ {K B : Type 0} (d : NsmDriver K B) (ctx : ℤ) (view : K → Bank)
    (extension : Bytes → Bytes → Bytes) (most : ℕ) (byte_buf : Bytes → B) (info : NsmInfo)
    (last : K → Bytes) (serves : ServesAll d ctx view extension most byte_buf info last) where
  -- The device holds what it held.
  abbrev pub Kept : Bank → K → Type 0
  Kept bank k = view k ≡ bank

  pub check_single_attestation-Passes :
      (user_data nonce public_key : Option B) (bank : Bank) (w : World K)
      → IsMade byte_buf user_data
      → IsMade byte_buf nonce
      → IsMade byte_buf public_key
      → Kept bank w.kernel
      → Passes (check_single_attestation d ctx user_data nonce public_key) w (Kept bank)
  unfolding check_single_attestation expect_document
  check_single_attestation-Passes u n p bank w hu hn hp h =
      let (document, full, (k, e, v)) = serves.attests u n p w hu hn hp in
      let nonempty : (length document == 0) ≡ false = ground arith in (k, rw (e, nonempty), v ∙ h)

  check_attestation-Passes :
      (bank : Bank) (w : World K)
      → Kept bank w.kernel
      → Passes (check_attestation d ctx byte_buf) w (Kept bank)
  unfolding check_attestation
  check_attestation-Passes bank w h =
      let buf : Option B = some (byte_buf aws_nitro_enclaves_nsm_a.Check.Services.dummy_data) in
      let one = check_single_attestation d ctx none none none in
      let two = check_single_attestation d ctx buf none none in
      let three = check_single_attestation d ctx buf buf none in
      let four = check_single_attestation d ctx buf buf buf in
      let I = Kept bank in
      let nil : IsMade byte_buf none = inl refl in
      let one_k : IsMade byte_buf buf = inr refl in
      Passes-then one (two >> (three >> four)) w I I
        (check_single_attestation-Passes none none none bank w nil nil nil h)
        λ k₁ h₁.
          Passes-then two (three >> four) (record w { kernel = k₁ }) I I
            (check_single_attestation-Passes buf none none bank (record w { kernel = k₁ }) one_k nil
              nil h₁)
            λ k₂ h₂.
              Passes-then three four (record w { kernel = k₂ }) I I
                (check_single_attestation-Passes buf buf none bank (record w { kernel = k₂ }) one_k
                  one_k nil h₂)
                λ k₃ h₃.
                  check_single_attestation-Passes buf buf buf bank (record w { kernel = k₃ }) one_k
                    one_k one_k h₃

  -- The bytes to differ from are none, or the ones drawn last.
  check_random_loop-Passes :
      (n : ℕ) (prev_random : Bytes) (bank : Bank) (w : World K)
      → (prev_random ≡ []) ⊎ (prev_random ≡ last w.kernel)
      → Kept bank w.kernel
      → Passes (check_random_loop d ctx n prev_random) w (Kept bank)
  unfolding check_random_loop expect_random
  check_random_loop-Passes zero prev bank w p h = (w.kernel, refl, h)
  check_random_loop-Passes (suc n) prev bank w p h =
      let (random, full, fresh, (k, e, v, l)) = serves.draws w in
      let nonempty : (length random == 0) ≡ false = ground arith in
      let other : bytes_eq prev random ≡ false = elim (bytes_eq-cases prev random) [
        | inl (_, same) ↦ absurd (elim p [
          | inl none_yet ↦ full (ap length (sym same ∙ none_yet))
          | inr drawn ↦ fresh (sym same ∙ drawn)
        ])
        | inr (different, _) ↦ different
      ] in
      let (k', e', h') =
        check_random_loop-Passes n random bank (record w { kernel = k }) (inr (sym l)) (v ∙ h) in
      (k', rw (e, nonempty, other) e', h')

  check_random-Passes :
      (bank : Bank) (w : World K) → Kept bank w.kernel → Passes (check_random d ctx) w (Kept bank)
  unfolding check_random
  check_random-Passes bank w h = check_random_loop-Passes 16 [] bank w (inl refl) h

  check_initial_pcrs-Passes :
      (w : World K)
      → (description : Description) → IsInitial description (view w.kernel)
      → description.max_pcrs ≡ length (view w.kernel)
      → Passes (check_initial_pcrs d ctx description) w (Kept (view w.kernel))
  check_initial_pcrs-Passes w description initial m =
      elim (check_initial_pcrs-IsInitial d ctx view serves.pcrs.describes description w m) [
        | inl (_, passes) ↦ passes
        | inr (other, _) ↦ absurd (other initial)
      ]

  pub get_nsm_description-description_at :
      (w : World K)
      → (k : K) × (get_nsm_description d ctx w
          ≡ ok (description_at info (view w.kernel)) (record w { kernel = k }))
        × Kept (view w.kernel) k
  unfolding get_nsm_description description_of
  get_nsm_description-description_at w = let (k, e, v) = serves.describes w in (k, rw e, v)

  -- On a device that keeps the protocol on PCRs with requests of at least 3 bytes of data, has 32
  -- of them in the state that check_initial_pcrs wants, whose digests of the dummy data have the
  -- digest's length and are not zero, that reports in every state the number of its PCRs and those
  -- that are locked then, with a module id that is not empty, attests the requests of
  -- check_attestation with documents that are not empty, and draws random bytes that are not empty
  -- and not those of the draw before, main of nsm-check runs to its end once nsm_init has opened
  -- the device: no assertion, unexpected response or overflow stops it, it ends as nsm_exit does,
  -- nothing but the kernel's state has changed before nsm_exit, and all 32 PCRs are locked.
  pub main-Passes :
      (w₀ w₁ : World K)
      → d.nsm_init w₀ ≡ ok ctx w₁
      → is_negative ctx ≡ false
      → length dummy_data ≤ most
      → ((v : Bytes)
          → length (extension v dummy_data) ≡ get_pcr_len (description_at info (view w₁.kernel)))
      → ((v : Bytes)
          → extension v dummy_data
            ≢ replicate (get_pcr_len (description_at info (view w₁.kernel))) 0)
      → IsInitial (description_at info (view w₁.kernel)) (view w₁.kernel)
      → length (view w₁.kernel) ≡ 32
      → length info.module_id ≢ 0
      → (k : K) × (main d byte_buf w₀ ≡ d.nsm_exit ctx (record w₁ { kernel = k }))
        × (length (view k) ≡ 32)
        × ((j : ℕ) (p : PcrData) → get_elem? (view k) j ≡ some p → p.lock ≡ true)
  unfolding main
  main-Passes w₀ w₁ opened valid room sized filled initial held named =
      let present : (length info.module_id == 0) ≡ false = ground arith in
      let count : (length (view w₁.kernel) == 32) ≡ true = ground arith in
      let w : K → World K = λ k. record w₁ { kernel = k } in
      let (k₁, e₁, v₁) = get_nsm_description-description_at w₁ in
      let (k₂, e₂, v₂) =
        check_single_attestation-Passes none none none (view w₁.kernel) (w k₁) (inl refl) (inl refl)
          (inl refl) v₁ in
      let (k₃, e₃, v₃) =
        check_initial_pcrs-Passes (w k₂) (description_at info (view w₁.kernel)) (rw v₂ initial)
          (omega (arith, ap length v₂)) in
      let v₃' : view k₃ ≡ view w₁.kernel = v₃ ∙ v₂ in
      let (k₄, e₄, (size, facts)) =
        check_pcr_locks-Passes d ctx view extension most (description_at info (view w₁.kernel))
          (w k₃) serves.pcrs room sized filled (rw v₃' initial) (omega (arith, ap length v₃'))
          (omega arith) in
      let (k₅, e₅, v₅) = check_attestation-Passes (view k₄) (w k₄) refl in
      let (k₆, e₆, v₆) = check_random-Passes (view k₄) (w k₅) v₅ in
      let single = check_single_attestation d ctx none none none in
      let initials = check_initial_pcrs d ctx (description_at info (view w₁.kernel)) in
      let locking = check_pcr_locks d ctx (description_at info (view w₁.kernel)) in
      let attesting = check_attestation d ctx byte_buf in
      let drawing = check_random d ctx in
      let exit = d.nsm_exit ctx in
      let after_attesting = drawing >> exit in
      let after_locking = attesting >> after_attesting in
      let after_initials = locking >> after_locking in
      let after_single = initials >> after_initials in
      (
        k₆,
        rw (opened, valid, e₁, count, present)
            (then-run single after_single (w k₁) k₂ e₂
              ∙ (then-run initials after_initials (w k₂) k₃ e₃
                  ∙ (then-run locking after_locking (w k₃) k₄ e₄
                      ∙ (then-run attesting after_attesting (w k₄) k₅ e₅
                          ∙ then-run drawing exit (w k₅) k₆ e₆)))),
        omega (arith, ap length v₆, size),
        λ j p g. (facts j p (rw v₆ at g)).0,
      )
