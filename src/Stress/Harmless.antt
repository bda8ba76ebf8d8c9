-- ===== src/Stress/Harmless.antt =====
-- What the jobs of nsm-multithread.rs ask the device for.
use aws_nitro_enclaves_nsm_a.Base.{ℕ, ◌%◌, ◌+◌, ◌≤◌, ◌<◌, Option, Bytes, Result, arith, length}
use aws_nitro_enclaves_nsm_a.NsmIo.{Request, Response}
use aws_nitro_enclaves_nsm_a.Stress.{
  ErrorCode, Thread, ret, ask, compare_exchange, ◌>>=◌, or_return, repeat, pcr_of, data_of,
  extend_pcr, check_single_attestation, check_attestation, report, attestation_job,
}

-- Every request of the thread has the property, whatever it is answered.
unfoldable pub Asks : {B A : Type 0} → (Request B → Type 0) → Thread B A → Type 0
Asks P (ret a) = Unit {0}
Asks P (ask q k) = P q × ((r : Response) → Asks P (k r))
Asks P (compare_exchange current new k) = (x : Result ℕ ℕ) → Asks P (k x)

-- Attestations, and extensions of one of the first 16 PCRs by four bytes.
abbrev pub IsHarmless : {B : Type 0} → Request B → Type 0
IsHarmless (Request.attestation _ _ _) = Unit {0}
IsHarmless (Request.extend_pcr i input) = (i < 16) × (length input ≤ 4)
IsHarmless _ = ⊥

module _ {B : Type 0} (P : Request B → Type 0) where
  Asks-bind :
      {A C : Type 0} (m : Thread B A) (f : A → Thread B C)
      → Asks P m
      → ((a : A) → Asks P (f a))
      → Asks P (m >>= f)
  unfolding Asks
  Asks-bind (ret a) f h next = next a
  Asks-bind (ask q k) f h next = (h.0, λ r. Asks-bind (k r) f (h.1 r) next)
  Asks-bind (compare_exchange c n k) f h next = λ x. Asks-bind (k x) f (h x) next

pub extend_pcr-Asks : (B : Type 0) (j : ℕ) → Asks IsHarmless (extend_pcr {B = B} j)
unfolding Asks extend_pcr repeat pcr_of data_of
extend_pcr-Asks B j =
    let few : ((16 + j) % 16 < 16) × (4 ≤ 4) = omega arith in (few, λ r. (few, λ r'. tt))

report-Asks : (B : Type 0) (x : Result (Unit {0}) ErrorCode) → Asks {B = B} IsHarmless (report x)
unfolding Asks report
report-Asks B (Result.ok _) = tt
report-Asks B (Result.err e) = λ x. tt

module _ {B : Type 0} where
  single-Asks : (u n p : Option B) → Asks IsHarmless (check_single_attestation u n p)
  unfolding Asks check_single_attestation
  single-Asks u n p = (tt, λ r. tt)

  or_return-Asks :
      {E : Type 0} (m rest : Thread B (Result (Unit {0}) E))
      → Asks IsHarmless m
      → Asks IsHarmless rest
      → Asks IsHarmless (or_return m rest)
  unfolding Asks
  or_return-Asks m rest h h' = Asks-bind IsHarmless m _ h go
    where
      go : (x : Result (Unit {0}) _) → Asks IsHarmless (or_return (ret x) rest)
      go (Result.ok _) = h'
      go (Result.err e) = tt

  pub attestation_job-Asks : (byte_buf : Bytes → B) → Asks IsHarmless (attestation_job byte_buf)
  unfolding attestation_job check_attestation
  attestation_job-Asks byte_buf =
      Asks-bind IsHarmless (check_attestation byte_buf) report
        (or_return-Asks _ _ (single-Asks _ _ _) (
          or_return-Asks _ _ (single-Asks _ _ _)
            (or_return-Asks _ _ (single-Asks _ _ _) (single-Asks _ _ _))))
        (report-Asks B)
