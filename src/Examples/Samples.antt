-- ===== src/Examples/Samples.antt =====
-- The theorems on what nsm-check.rs accepts, on the device of Examples/Hardware.antt.
use aws_nitro_enclaves_nsm_a.Base.{ℕ, some, [], replicate}
use aws_nitro_enclaves_nsm_a.Base.Ints.{pos}
use aws_nitro_enclaves_nsm_a.Check.Services.{check_attestation, check_random}
use aws_nitro_enclaves_nsm_a.Check.Sampling.{
  Accepts, AreFresh, AllAttest, replies, behind_all, random_requests, attestation_requests,
  check_random-AreFresh, check_attestation-AllAttest,
}
use aws_nitro_enclaves_nsm_a.Examples.Hardware.{device, start}

check_random-AreFresh_example :
    Accepts
      (AreFresh [] (replies device (pos 3) (random_requests 16) start))
      (check_random device (pos 3))
      start
      (behind_all device (pos 3) (random_requests 16) start)
check_random-AreFresh_example = check_random-AreFresh device (pos 3) start

check_attestation-AllAttest_example :
    let qs = attestation_requests (some (replicate {A = ℕ} 1024 128)) in
    Accepts
      (AllAttest (replies device (pos 3) qs start))
      (check_attestation device (pos 3) (λ b. b))
      start
      (behind_all device (pos 3) qs start)
check_attestation-AllAttest_example = check_attestation-AllAttest device (pos 3) (λ b. b) start
