-- ===== src/Examples/Sessions.antt =====
-- A process around its use of the device, on a kernel that is the list of open descriptors; and
-- nsm-check.rs on a device whose PCRs are all empty and locked.
use aws_nitro_enclaves_nsm_a.Base.{
  false, zero, suc, arith, length, some, ltb, ◌≤◌, get_elem?, ℕ, ◌≡◌, refl, ap, none, List, [], ◌∷◌,
  Bytes, Result, ◌⊎◌, inl, inr, replicate,
}
use aws_nitro_enclaves_nsm_a.Base.Ints.{ℤ, pos, negsuc}
use aws_nitro_enclaves_nsm_a.Machine.{ok, LogLine, World, Outcome, Panic, panic, assertion_failed}
use aws_nitro_enclaves_nsm_a.NsmIo.{Request, Response, internal_error}
use aws_nitro_enclaves_nsm_a.Driver.{nsm_init, nsm_exit, Os, nsm_process_request}
use aws_nitro_enclaves_nsm_a.Driver.Answers.{StaysInBounds, nsm_driver}
use aws_nitro_enclaves_nsm_a.Driver.Refinement.{process_all}
use aws_nitro_enclaves_nsm_a.Driver.Session.{Descriptors, Failed, Opened, Closed, nsm_exit-nsm_init}
use aws_nitro_enclaves_nsm_a.Driver.Api.{NsmDriver}
use aws_nitro_enclaves_nsm_a.Stress.{
  Thread, ret, as_i32, attested, attestation_job, check_attestation, check_single_attestation,
  report, extend_pcr, repeat, pcr_of, data_of,
}
use aws_nitro_enclaves_nsm_a.Stress.Pool.{State, Step, Steps, start, begin}
use aws_nitro_enclaves_nsm_a.Stress.Session.{
  registering, HasExited, OpenIn, ClosedIn, nsm_exit-begin,
}
use aws_nitro_enclaves_nsm_a.Check.{main}
use aws_nitro_enclaves_nsm_a.Check.Asserts.{bytes_eq}
use aws_nitro_enclaves_nsm_a.Check.Pcrs.{
  get_pcr_len, check_reserved, check_empty, check_locks, pcr_data_of, describe_pcrs,
  check_initial_pcrs,
}
use aws_nitro_enclaves_nsm_a.Check.Protocol.{Bank}
use aws_nitro_enclaves_nsm_a.Check.Serving.{description_at}
use aws_nitro_enclaves_nsm_a.Check.Initial.{check_initial_pcrs-IsInitial}
use aws_nitro_enclaves_nsm_a.Check.Detecting.{IsReady, main-panic}
use aws_nitro_enclaves_nsm_a.Examples.Bank.{extension, empty}
use aws_nitro_enclaves_nsm_a.Examples.Hardware.{
  info, device, held, last_drawn, device-KeepsPcrs, device-ServesAll,
}
use aws_nitro_enclaves_nsm_a.Examples.Platform.{encode, cbor, encodes}

abbrev tail : List ℤ → List ℤ
tail [] = []
tail (fd ∷ fds) = fds

abbrev pub os : Os (List ℤ)
os = record {
  request_code_readwrite = λ magic nr size. size;
  size_of_message = 32;
  ioctl = λ fd code message k. (negsuc 0, message, k);
  errno_last = λ k. 9;
  emsgsize = 90;
  open_file = λ options path k. (Result.ok (pos 3), pos 3 ∷ k);
  close = λ fd k. (Result.ok tt, tail k);
}

pub bounds : StaysInBounds os
bounds fd code message k h = h

pub descriptors : Descriptors os (λ k. k)
descriptors = record {
  opens = λ options k fd e.
      let same : pos 3 ≡ fd = cc in (rw (← same) refl, ap (λ (x : ℤ). x ∷ k) same);
  fails = λ options k e h. absurd cc;
  leaves = λ fd code message k. refl;
  releases = λ fd k rest h. rw h;
}

abbrev process : World (List ℤ)
process = record { kernel = pos 0 ∷ []; memory = λ p. none; log = [] }

nsm_exit-nsm_init_example :
    Failed os (λ k. k) process
    ⊎ ((fd : ℤ) × (w₁ : World (List ℤ)) × Opened os (λ k. k) process fd w₁
        × ((qs : List (Request Bytes))
            → (rs : List Response) × (k : List ℤ) × (w₃ : World (List ℤ)) × (process_all
                  (nsm_process_request cbor os fd)
                  qs
                  w₁
                ≡ Outcome.ok rs (record w₁ { kernel = k }))
              × Closed os (λ k. k) (pos 0 ∷ []) fd (record w₁ { kernel = k }) w₃))
nsm_exit-nsm_init_example = nsm_exit-nsm_init os (λ k. k) descriptors cbor encodes bounds process

-- The stress test in this process: its requests fail, and it ends at the exit code.
abbrev driver : NsmDriver (List ℤ) Bytes
unfolding nsm_driver
driver = nsm_driver cbor os encodes bounds

abbrev register : List ℤ → Result (Unit {0}) ℕ × List ℤ
register k = (Result.ok tt, k)

abbrev opened : World (List ℤ)
opened = record { kernel = pos 3 ∷ pos 0 ∷ []; memory = λ p. none; log = LogLine.opened ∷ [] }

begun : begin driver (registering register) process ≡ ok (pos 3) opened
unfolding begin driver nsm_driver nsm_init
begun = refl

refused :
    (q : Request Bytes)
    → length (encode q) ≤ 9
    → driver.nsm_process_request (pos 3) q opened ≡ ok (Response.error internal_error) opened
unfolding driver nsm_driver nsm_process_request
refused q h =
    let small : ltb 0x1000 (length (encode q)) ≡ false = ground arith in
    rw (small, nsm_process_request)

abbrev closed : World (List ℤ)
closed = record {
  kernel = pos 0 ∷ [];
  memory = λ p. none;
  log = LogLine.closed (pos 3) ∷ LogLine.opened ∷ [];
}

all_done :
    (i : ℕ) (p : Thread Bytes (Unit {0})) → get_elem? (ret tt ∷ ret tt ∷ []) i ≡ some p → p ≡ ret tt
all_done zero p e = cc
all_done (suc zero) p e = cc
all_done (suc (suc i)) p e = cc

stress_run : (s : State (List ℤ) Bytes) × Steps driver (pos 3) (λ b. b) (start opened) s
unfolding attestation_job check_attestation check_single_attestation report extend_pcr repeat
    attested as_i32 pcr_of data_of driver nsm_driver nsm_exit
stress_run =
    let answer = Response.error internal_error in
    let p₁ = Steps.then_step _ _ _ (Steps.stay (start opened)) (Step.load_term _ refl refl) in
    let p₂ = Steps.then_step _ _ _ p₁ (Step.submit_attestation _ refl refl) in
    let p₃ =
      Steps.then_step _ _ _ p₂ (Step.asks _ 0 _ _ answer opened refl (refused _ (omega arith))) in
    let p₄ = Steps.then_step _ _ _ p₃ (Step.exchanges _ 0 _ _ _ refl refl) in
    let p₅ = Steps.then_step _ _ _ p₄ (Step.submit_extension _ refl) in
    let p₆ =
      Steps.then_step _ _ _ p₅ (Step.asks _ 0 _ _ answer opened refl (refused _ (omega arith))) in
    let p₇ =
      Steps.then_step _ _ _ p₆ (Step.asks _ 0 _ _ answer opened refl (refused _ (omega arith))) in
    let p₈ = Steps.then_step _ _ _ p₇ (Step.load_term _ refl refl) in
    let p₉ = Steps.then_step _ _ _ p₈ (Step.stop_code _ refl (λ e. cc)) in
    (_, Steps.then_step _ _ _ p₉ (Step.exit _ closed refl all_done refl))

nsm_exit-begin_example :
    ((¬ HasExited stress_run.0) × OpenIn (λ k. k) process (pos 3) stress_run.0.world)
    ⊎ (HasExited stress_run.0 × ClosedIn (λ k. k) process (pos 3) stress_run.0.world)
unfolding driver nsm_driver
nsm_exit-begin_example =
    nsm_exit-begin os (λ k. k) descriptors cbor encodes bounds (λ b. b) register (λ k. refl) process
      opened (pos 3) stress_run.0 begun stress_run.1

abbrev blank : World (Bank × ℕ)
blank = record { kernel = (replicate 32 empty, 0); memory = λ p. none; log = [] }

blank_stops :
    check_initial_pcrs device (pos 3) (description_at info (replicate 32 empty)) blank
    ≡ panic assertion_failed blank
unfolding check_initial_pcrs describe_pcrs pcr_data_of check_reserved check_empty check_locks
    get_pcr_len bytes_eq
blank_stops = refl

not-IsReady :
    ¬ IsReady device (pos 3) held extension 3000 (λ b. b) info last_drawn (replicate 32 empty)
not-IsReady ready =
    elim (check_initial_pcrs-IsInitial device (pos 3) held device-KeepsPcrs.describes
      (description_at info (replicate 32 empty)) blank refl) [
        | inl (_, (k, e, _)) ↦ absurd (let h = blank_stops in cc)
        | inr (other, _) ↦ other ready.initial
      ]

main-panic_example :
    (p : Panic) × (w' : World (Bank × ℕ)) × (main device (λ b. b) blank ≡ panic p w')
main-panic_example =
    main-panic device (pos 3) held extension 3000 (λ b. b) info last_drawn blank blank
      (λ _. device-ServesAll) refl not-IsReady
