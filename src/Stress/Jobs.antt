-- ===== src/Stress/Jobs.antt =====
-- How a job of nsm-multithread.rs may go on after each response.
use aws_nitro_enclaves_nsm_a.Base.{ℕ, ◌≡◌, refl, Option, none, some, Bytes, Result}
use aws_nitro_enclaves_nsm_a.NsmIo.{Request, Response}
use aws_nitro_enclaves_nsm_a.Stress.{
  ErrorCode, as_i32, Thread, ret, ask, compare_exchange, ◌>>=◌, or_return, repeat, dummy_data,
  attested, extend_pcr, check_single_attestation, check_attestation, report, attestation_job,
}
use aws_nitro_enclaves_nsm_a.Stress.Pool.{failure_of}

-- All that is left is to report the error.
abbrev pub Pending : {B : Type 0} → ErrorCode → Thread B (Unit {0}) → Type 0
Pending {B} e p =
    (k : Result ℕ ℕ → Thread B (Unit {0})) × (p ≡ compare_exchange 0 (as_i32 e) k)
    × ((x : Result ℕ ℕ) → k x ≡ ret tt)

-- No attestation has failed yet; where one does, the error is reported next, and else the job goes
-- on like this.
unfoldable pub Sound : {B : Type 0} → Thread B (Unit {0}) → Type 0
Sound (ret a) = Unit {0}
Sound {B} (ask q k) =
    (r : Response) → elim (failure_of q r) [ none ↦ Sound (k r) | some e ↦ Pending e (k r) ]
Sound (compare_exchange current new k) = ⊥

module _ {B : Type 0} where
  -- How a job is to go on after an attestation with the result `x`.
  abbrev GoesOn : Result (Unit {0}) ErrorCode → Thread B (Unit {0}) → Type 0
  GoesOn (Result.ok _) p = Sound p
  GoesOn (Result.err e) p = Pending e p

  GoesOn-Sound :
      (user_data nonce public_key : Option B) (r : Response) (p : Thread B (Unit {0}))
      → GoesOn (attested r) p
      → elim (failure_of (Request.attestation user_data nonce public_key) r) as (λ _. Type 0) [
        | none ↦ Sound p
        | some e ↦ Pending e p
      ]
  unfolding failure_of
  GoesOn-Sound u n key r p h = go (attested r) h
    where
      go :
          (x : Result (Unit {0}) ErrorCode)
          → GoesOn x p
          → elim (elim x as (λ _. Option ErrorCode) [ Result.ok _ ↦ none | Result.err e ↦ some e ])
              as (λ _. Type 0) [ none ↦ Sound p | some e ↦ Pending e p ]
      go (Result.ok _) g = g
      go (Result.err e) g = g

  -- An attestation, and what follows where it does not fail.
  attestation-Sound :
      (user_data nonce public_key : Option B) (rest : Thread B (Result (Unit {0}) ErrorCode))
      → Sound (rest >>= report)
      → Sound (or_return (check_single_attestation user_data nonce public_key) rest >>= report)
  unfolding Sound check_single_attestation report
  attestation-Sound u n p rest h r = GoesOn-Sound u n p r _ (go (attested r))
    where
      go : (x : Result (Unit {0}) ErrorCode) → GoesOn x (or_return (ret x) rest >>= report)
      go (Result.ok _) = h
      go (Result.err e) = ((λ _. ret tt), refl, λ x. refl)

  last-Sound :
      (user_data nonce public_key : Option B)
      → Sound (check_single_attestation user_data nonce public_key >>= report)
  unfolding Sound check_single_attestation report
  last-Sound u n p r = GoesOn-Sound u n p r _ (go (attested r))
    where
      go : (x : Result (Unit {0}) ErrorCode) → GoesOn x (report x)
      go (Result.ok _) = tt
      go (Result.err e) = ((λ _. ret tt), refl, λ x. refl)

  pub attestation_job-Sound : (byte_buf : Bytes → B) → Sound (attestation_job byte_buf)
  unfolding attestation_job check_attestation
  attestation_job-Sound byte_buf =
      let buf = some (byte_buf dummy_data) in
      attestation-Sound none none none
        (or_return (check_single_attestation buf none none) (
          or_return (check_single_attestation buf buf none) (check_single_attestation buf buf buf)))
        (attestation-Sound buf none none
          (or_return (check_single_attestation buf buf none) (check_single_attestation buf buf buf))
          (attestation-Sound buf buf none (check_single_attestation buf buf buf)
            (last-Sound buf buf buf)))

pub extend_pcr-Sound : (B : Type 0) (j : ℕ) → Sound (extend_pcr {B = B} j)
unfolding Sound extend_pcr repeat failure_of
extend_pcr-Sound B j r r' = tt
