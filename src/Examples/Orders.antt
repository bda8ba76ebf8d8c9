-- ===== src/Examples/Orders.antt =====
-- The theorems on all the orders of nsm-multithread.rs at some of its runs.
use aws_nitro_enclaves_nsm_a.Base.{
  ℕ, ◌+◌, ◌*◌, ◌≤◌, ◌≡◌, refl, sym, ap, [], ◌∷◌, Bytes, arith, length,
}
use aws_nitro_enclaves_nsm_a.Base.Ints.{pos}
use aws_nitro_enclaves_nsm_a.Machine.{World}
use aws_nitro_enclaves_nsm_a.NsmIo.{Response, internal_error, read_only_index}
use aws_nitro_enclaves_nsm_a.Check.Protocol.{Bank}
use aws_nitro_enclaves_nsm_a.Stress.{
  as_i32, attested, attestation_job, check_attestation, check_single_attestation, report,
  extend_pcr, repeat, pcr_of, data_of,
}
use aws_nitro_enclaves_nsm_a.Stress.Pool.{State, Step, Steps, start, joining}
use aws_nitro_enclaves_nsm_a.Stress.Settled.{exit_code-Steps}
use aws_nitro_enclaves_nsm_a.Stress.Bounded.{moves, moves-le}
use aws_nitro_enclaves_nsm_a.Stress.Kept.{AttestsOnly, ClosesOnly, Steps-kept}
use aws_nitro_enclaves_nsm_a.Examples.Hardware.{device, held, bank, device-KeepsPcrs}
use aws_nitro_enclaves_nsm_a.Examples.Bank.{extension}
use aws_nitro_enclaves_nsm_a.Examples.Threads.{refusing, world, Run, behind, ready, bank_locked}

-- The first attestation is refused, and its job reports that.
reported : (s : State (Unit {0}) Bytes) × Run s × (s.exit_code ≡ 2)
unfolding attestation_job check_attestation check_single_attestation report attested as_i32
reported =
    let p₁ = behind (Steps.stay (start world)) (Step.load_term _ refl refl) in
    let p₂ = behind p₁ (Step.submit_attestation _ refl refl) in
    let p₃ = behind p₂ (Step.asks _ 0 _ _ (Response.error internal_error) world refl refl) in
    (_, behind p₃ (Step.exchanges _ 0 _ _ _ refl refl), refl)

-- A second job is submitted afterwards.
later : (t : State (Unit {0}) Bytes) × Steps refusing (pos 3) (λ b. b) reported.0 t
unfolding reported attestation_job check_attestation check_single_attestation report attested as_i32
later = (_, Steps.then_step _ _ _ (Steps.stay reported.0) (Step.submit_extension _ refl))

exit_code-Steps_example : later.0.exit_code ≡ reported.0.exit_code
exit_code-Steps_example =
    exit_code-Steps refusing (pos 3) (λ b. b) world reported.0 later.0 reported.1 later.1
      (λ z. let two : ◌≡◌ {A = ℕ} 2 0 = cc (reported.2) in cc)

-- One job of each kind is in the pool when the signal comes.
waiting : (s : State (Unit {0}) Bytes) × Run s × (s.phase ≡ joining) × (length s.tasks ≡ 2)
waiting =
    let p₁ = behind (Steps.stay (start world)) (Step.load_term _ refl refl) in
    let p₂ = behind p₁ (Step.submit_attestation _ refl refl) in
    let p₃ = behind p₂ (Step.submit_extension _ refl) in
    let p₄ = behind p₃ (Step.signal _) in (_, behind p₄ (Step.stop_term _ refl refl), refl, refl)

-- The extension makes its two requests.
ending : (t : State (Unit {0}) Bytes) × Steps refusing (pos 3) (λ b. b) waiting.0 t
unfolding waiting extend_pcr repeat
ending =
    let q₁ =
      Steps.then_step _ _ _ (Steps.stay waiting.0)
        (Step.asks _ 0 _ _ (Response.error internal_error) world refl refl) in
    (
      _,
      Steps.then_step _ _ _ q₁ (Step.asks _ 0 _ _ (Response.error internal_error) world refl refl),
    )

moves-le_example : moves refusing (pos 3) (λ b. b) ending.1 ≤ 5 * length waiting.0.tasks + 1
moves-le_example =
    moves-le refusing (pos 3) (λ b. b) world waiting.0 ending.0 waiting.1 waiting.2 ending.1

device-AttestsOnly : AttestsOnly device (pos 3) held
device-AttestsOnly u n p w = (Response.attestation (1 ∷ []), (w.kernel, refl, refl))

device-ClosesOnly : ClosesOnly device (pos 3) held
device-ClosesOnly w w' e =
    let same : w ≡ w' = cc in ap (λ (x : World (Bank × ℕ)). held x.kernel) (sym same)

-- An extension is asked for and refused.
extending : (s : State (Bank × ℕ) Bytes) × Steps device (pos 3) (λ b. b) (start ready) s
unfolding extend_pcr repeat pcr_of data_of
extending =
    let p₁ = Steps.then_step _ _ _ (Steps.stay (start ready)) (Step.load_term _ refl refl) in
    let p₂ = Steps.then_step _ _ _ p₁ (Step.submit_attestation _ refl refl) in
    let p₃ = Steps.then_step _ _ _ p₂ (Step.submit_extension _ refl) in
    (
      _,
      Steps.then_step _ _ _ p₃ (Step.asks _ 0 _ _ (Response.error read_only_index) ready refl refl),
    )

Steps-kept_example : held extending.0.world.kernel ≡ bank
Steps-kept_example =
    Steps-kept device (pos 3) (λ b. b) held extension 3000 device-KeepsPcrs (omega arith)
      device-AttestsOnly device-ClosesOnly ready extending.0 (omega arith, bank_locked) extending.1
