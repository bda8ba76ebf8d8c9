-- ===== src/Examples/Threads.antt =====
-- The theorems on nsm-multithread.rs on a small device, and a run in which an attestation fails.
use aws_nitro_enclaves_nsm_a.Base.{
  ℕ, zero, suc, ◌<◌, ◌≡◌, refl, ◌⊎◌, true, none, some, [], ◌∷◌, Bytes, get_elem?, arith,
}
use aws_nitro_enclaves_nsm_a.Base.Ints.{pos}
use aws_nitro_enclaves_nsm_a.Machine.{World, ok}
use aws_nitro_enclaves_nsm_a.NsmIo.{Request, Response, internal_error, ErrorCode as NsmErrorCode}
use aws_nitro_enclaves_nsm_a.Driver.Api.{NsmDriver}
use aws_nitro_enclaves_nsm_a.Check.Pcrs.{PcrData}
use aws_nitro_enclaves_nsm_a.Check.Protocol.{Bank}
use aws_nitro_enclaves_nsm_a.Check.Stages.{IsInitial-Stage}
use aws_nitro_enclaves_nsm_a.Check.Serving.{description_from}
use aws_nitro_enclaves_nsm_a.Stress.{
  ErrorCode, Thread, ret, as_i32, attested, attestation_job, check_attestation,
  check_single_attestation, report, extend_pcr, repeat, data_of,
}
use aws_nitro_enclaves_nsm_a.Stress.Alone.{run, extend_pcr-refused}
use aws_nitro_enclaves_nsm_a.Stress.Pool.{State, Step, Steps, start, exited, failures}
use aws_nitro_enclaves_nsm_a.Stress.ExitCode.{In, exited-failures}
use aws_nitro_enclaves_nsm_a.Examples.Hardware.{
  device, held, info, bank, bank-IsInitial, device-KeepsPcrs,
}
use aws_nitro_enclaves_nsm_a.Examples.Bank.{extension}

-- A device that refuses every request.
abbrev pub refusing : NsmDriver (Unit {0}) Bytes
refusing = record {
  nsm_init = ok (pos 3);
  nsm_exit = λ fd. ok tt;
  nsm_process_request = λ fd q. ok (Response.error internal_error);
  answers = λ fd q w. (Response.error internal_error, w.kernel, refl);
}

abbrev pub world : World (Unit {0})
world = record { kernel = tt; memory = λ p. none; log = [] }

abbrev pub Run : State (Unit {0}) Bytes → Type 0
Run s = Steps refusing (pos 3) (λ b. b) (start world) s

pub behind : {s t : State (Unit {0}) Bytes} → Run s → Step refusing (pos 3) (λ b. b) s t → Run t
behind steps step = Steps.then_step _ _ _ steps step

-- The first attestation is refused, its job reports that, and the loop stops at the exit code.
failing_run : (s : State (Unit {0}) Bytes) × Run s × (s.phase ≡ exited 2)
unfolding attestation_job check_attestation check_single_attestation report extend_pcr repeat
    attested as_i32
failing_run =
    let p₁ = behind (Steps.stay (start world)) (Step.load_term _ refl refl) in
    let p₂ = behind p₁ (Step.submit_attestation _ refl refl) in
    let p₃ = behind p₂ (Step.asks _ 0 _ _ (Response.error internal_error) world refl refl) in
    let p₄ = behind p₃ (Step.exchanges _ 0 _ _ _ refl refl) in
    let p₅ = behind p₄ (Step.submit_extension _ refl) in
    let p₆ = behind p₅ (Step.asks _ 0 _ _ (Response.error internal_error) world refl refl) in
    let p₇ = behind p₆ (Step.asks _ 0 _ _ (Response.error internal_error) world refl refl) in
    let p₈ = behind p₇ (Step.load_term _ refl refl) in
    let p₉ = behind p₈ (Step.stop_code _ refl (λ e. cc)) in
    (_, behind p₉ (Step.exit _ world refl done refl), refl)
  where
    done :
        (i : ℕ) (p : Thread Bytes (Unit {0}))
        → get_elem? (ret tt ∷ ret tt ∷ []) i ≡ some p
        → p ≡ ret tt
    done zero p e = cc
    done (suc zero) p e = cc
    done (suc (suc i)) p e = cc

exited-failures_example :
    ((◌≡◌ {A = ℕ} 2 0) × (failures failing_run.0.seen ≡ []))
    ⊎ ((e : ErrorCode) × (◌≡◌ {A = ℕ} 2 (as_i32 e)) × In e (failures failing_run.0.seen))
exited-failures_example =
    exited-failures refusing (pos 3) (λ b. b) world failing_run.0 2 failing_run.1 failing_run.2

abbrev pub ready : World (Bank × ℕ)
ready = record { kernel = (bank, 0); memory = λ p. none; log = [] }

pub bank_locked : (i : ℕ) (p : PcrData) → i < 16 → get_elem? bank i ≡ some p → p.lock ≡ true
bank_locked i p h g =
    ((IsInitial-Stage (description_from info) bank bank-IsInitial).facts i p g).locked h

extend_pcr-refused_example :
    let q = Request.extend_pcr 5 (data_of 5) in
    (e₁ e₂ : NsmErrorCode) × (k₁ k₂ : Bank × ℕ) × (device.nsm_process_request (pos 3) q ready
      ≡ ok (Response.error e₁) (record ready { kernel = k₁ }))
    × (device.nsm_process_request (pos 3) q (record ready { kernel = k₁ })
        ≡ ok (Response.error e₂) (record ready { kernel = k₂ }))
    × (run device (pos 3) (extend_pcr 5) 0 ready ≡ ok (tt, 0) (record ready { kernel = k₂ }))
    × (held k₁ ≡ bank)
    × (held k₂ ≡ bank)
extend_pcr-refused_example =
    extend_pcr-refused device (pos 3) held extension 3000 5 0 ready device-KeepsPcrs (omega arith)
      (omega arith) bank_locked
