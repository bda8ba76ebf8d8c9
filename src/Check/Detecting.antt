-- ===== src/Check/Detecting.antt =====
-- main of nsm-test/src/bin/nsm-check.rs on a device that is not as it wants it at the start.
use aws_nitro_enclaves_nsm_a.Base.{
  Bool-cases, ℕ, ◌≡◌, refl, ap, ◌∙◌, ◌≢◌, inl, inr, false, true, Bytes, none, arith, ◌==◌, length,
}
use aws_nitro_enclaves_nsm_a.Base.Ints.{ℤ, is_negative}
use aws_nitro_enclaves_nsm_a.Machine.{assertion_failed, Cmd, World, Panic, ok, panic, ◌>>◌}
use aws_nitro_enclaves_nsm_a.NsmIo.{NsmInfo}
use aws_nitro_enclaves_nsm_a.Driver.Api.{NsmDriver}
use aws_nitro_enclaves_nsm_a.Check.{main}
use aws_nitro_enclaves_nsm_a.Check.Asserts.{assert}
use aws_nitro_enclaves_nsm_a.Check.Pcrs.{check_initial_pcrs}
use aws_nitro_enclaves_nsm_a.Check.Locks.{check_pcr_locks}
use aws_nitro_enclaves_nsm_a.Check.Services.{
  check_single_attestation, check_attestation, check_random,
}
use aws_nitro_enclaves_nsm_a.Check.Initial.{IsInitial, check_initial_pcrs-IsInitial}
use aws_nitro_enclaves_nsm_a.Check.Protocol.{Bank}
use aws_nitro_enclaves_nsm_a.Check.Serving.{description_at, ServesAll}
use aws_nitro_enclaves_nsm_a.Check.Whole.{
  then-run, check_single_attestation-Passes, get_nsm_description-description_at,
  check_single_attestation-Passes,
}

-- Nothing is run behind a panic.
then-stops :
    {K : Type 0} (m n : Cmd K (Unit {0})) (w : World K) (p : Panic) (w' : World K)
    → m w ≡ panic p w'
    → (m >> n) w ≡ panic p w'
then-stops m n w p w' e = rw e

module _ {K B : Type 0} (d : NsmDriver K B) (ctx : ℤ) (view : K → Bank)
    (extension : Bytes → Bytes → Bytes) (most : ℕ) (byte_buf : Bytes → B) (info : NsmInfo)
    (last : K → Bytes) where
  -- What main wants of the descriptor and the device before it changes a PCR.
  pub record IsReady (bank : Bank) : Type 0 where
    pub valid : is_negative ctx ≡ false
    pub max : length bank ≡ 32
    pub named : length info.module_id ≢ 0
    pub initial : IsInitial (description_at info bank) bank

  main-panic_initial :
      ServesAll d ctx view extension most byte_buf info last
      → (w₀ w₁ : World K) → d.nsm_init w₀ ≡ ok ctx w₁
      → is_negative ctx ≡ false
      → (length (view w₁.kernel) == 32) ≡ true
      → (length info.module_id == 0) ≡ false
      → ¬ IsInitial (description_at info (view w₁.kernel)) (view w₁.kernel)
      → (p : Panic) × (w' : World K) × (main d byte_buf w₀ ≡ panic p w')
  unfolding main
  main-panic_initial serves w₀ w₁ opened valid count present wrong =
      let w : K → World K = λ k. record w₁ { kernel = k } in
      let description = description_at info (view w₁.kernel) in
      let (k₁, e₁, v₁) =
        get_nsm_description-description_at d ctx view extension most byte_buf info last serves w₁ in
      let (k₂, e₂, v₂) =
        check_single_attestation-Passes d ctx view extension most byte_buf info last serves none
          none none (view w₁.kernel) (w k₁) (inl refl) (inl refl) (inl refl) v₁ in
      let single = check_single_attestation d ctx none none none in
      let initials = check_initial_pcrs d ctx description in
      let rest =
        check_pcr_locks d ctx description
        >> (check_attestation d ctx byte_buf >> (check_random d ctx >> d.nsm_exit ctx)) in
      elim (check_initial_pcrs-IsInitial d ctx view serves.pcrs.describes description (w k₂)
        (omega (arith, ap length v₂))) [
          | inl (right, _) ↦ absurd (wrong (rw v₂ at right))
          | inr (_, (p, w', stops)) ↦ (
            p,
            w',
            rw (opened, valid, e₁, count, present)
                (then-run single (initials >> rest) (w k₁) k₂ e₂
                  ∙ then-stops initials rest (w k₂) p w' stops),
          )
        ]

  -- Where nsm_init has returned a descriptor, and, if that is not negative, the device behind it
  -- keeps the protocol on PCRs, reports in every state the number of its PCRs and those that are
  -- locked then, attests the requests of check_attestation with documents that are not empty and
  -- draws random bytes that are not empty and not those of the draw before: where the descriptor is
  -- negative, or the device has another number of PCRs than 32, an empty module id, or PCRs that
  -- are not as check_initial_pcrs wants them, main of nsm-check panics.
  pub main-panic :
      (w₀ w₁ : World K)
      → (is_negative ctx ≡ false → ServesAll d ctx view extension most byte_buf info last)
      → d.nsm_init w₀ ≡ ok ctx w₁
      → ¬ IsReady (view w₁.kernel)
      → (p : Panic) × (w' : World K) × (main d byte_buf w₀ ≡ panic p w')
  unfolding main
  main-panic w₀ w₁ if_valid opened unready = elim (Bool-cases (is_negative ctx)) [
    | inl invalid ↦ (assertion_failed, w₁, rw (opened, invalid, assert))
    | inr valid ↦
        let serves = if_valid valid in
        let (k₁, e₁, v₁) =
          get_nsm_description-description_at d ctx view extension most byte_buf info last serves
            w₁ in
        elim (Bool-cases (length (view w₁.kernel) == 32)) [
          | inr other ↦
              (assertion_failed, record w₁ { kernel = k₁ }, rw (opened, valid, e₁, other, assert))
          | inl count ↦ elim (Bool-cases (length info.module_id == 0)) [
            | inl unnamed ↦ (
              assertion_failed,
              record w₁ { kernel = k₁ },
              rw (opened, valid, e₁, count, unnamed, assert),
            )
            | inr present ↦ main-panic_initial serves w₀ w₁ opened valid count present λ initial.
                unready (record {
                  valid = valid;
                  max = ground arith;
                  named = λ none_there. ground arith;
                  initial = initial;
                })
          ]
        ]
  ]
