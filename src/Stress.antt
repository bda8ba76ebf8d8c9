-- ===== src/Stress.antt =====
-- nsm-test/src/bin/nsm-multithread.rs: the jobs of the stress test, as programs whose requests and
-- accesses to the shared exit code can be interleaved. What it prints is left out.
pub mod Alone
pub mod Pool
pub mod Jobs
pub mod ExitCode
pub mod Settled
pub mod Harmless
pub mod Kept
pub mod Session
pub mod Within
pub mod Bounded
use aws_nitro_enclaves_nsm_a.Base.{
  ℕ, zero, suc, ◌+◌, ◌/◌, ◌%◌, ◌^◌, Option, none, some, [], ◌∷◌, Bytes, Result, ◌==◌, if◌then◌else◌,
  length, replicate,
}
use aws_nitro_enclaves_nsm_a.NsmIo.{Request, Response}

pub data ErrorCode : Type 0 where
  attestation_document_empty : ErrorCode
  attestation_invalid_response : ErrorCode

-- `e as i32`
unfoldable pub as_i32 : ErrorCode → ℕ
as_i32 ErrorCode.attestation_document_empty = 1
as_i32 ErrorCode.attestation_invalid_response = 2

-- What a thread does: it asks the device, or accesses the exit code. `compare_exchange current new`
-- goes on with the value found, as `ok` if that was `current` and `new` has replaced it.
pub data Thread (B A : Type 0) : Type 0 where
  ret : A → Thread B A
  ask : Request B → (Response → Thread B A) → Thread B A
  compare_exchange : (current new : ℕ) → (Result ℕ ℕ → Thread B A) → Thread B A

infixl 5 ◌>>=◌ ◌>>◌
abbrev pub ◌>>=◌ : {B A C : Type 0} → Thread B A → (A → Thread B C) → Thread B C
ret a >>= f = f a
ask q k >>= f = ask q λ r. k r >>= f
compare_exchange c n k >>= f = compare_exchange c n λ r. k r >>= f

abbrev pub ◌>>◌ : {B A C : Type 0} → Thread B A → Thread B C → Thread B C
m >> n = m >>= λ _. n

abbrev pub nsm_process_request : {B : Type 0} → Request B → Thread B Response
nsm_process_request q = ask q ret

-- `result?; rest`
abbrev pub or_return :
    {B E : Type 0}
    → Thread B (Result (Unit {0}) E)
    → Thread B (Result (Unit {0}) E)
    → Thread B (Result (Unit {0}) E)
or_return m rest =
    m >>= λ result. elim result [ Result.ok _ ↦ rest | Result.err e ↦ ret (Result.err e) ]

-- `for _loop_idx in 0..n`
unfoldable pub repeat : {B : Type 0} → ℕ → Thread B (Unit {0}) → Thread B (Unit {0})
repeat zero body = ret tt
repeat (suc n) body = body >> repeat n body

-- `vec![128; DATA_LEN]`
unfoldable pub dummy_data : Bytes
dummy_data = replicate 1024 128

unfoldable pub attested : Response → Result (Unit {0}) ErrorCode
attested (Response.attestation document) =
    if length document == 0 then Result.err ErrorCode.attestation_document_empty else Result.ok tt
attested _ = Result.err ErrorCode.attestation_invalid_response

-- `x & 15` is `x % 16`, `(x >> n) & 0xFF` is `x / 2 ^ n % 256`; `j` is taken to stay below the
-- limit of usize.
unfoldable pub pcr_of : ℕ → ℕ
pcr_of j = (16 + j) % 16

unfoldable pub data_of : ℕ → Bytes
data_of j = j / 2 ^ 24 % 256 ∷ j / 2 ^ 16 % 256 ∷ j / 2 ^ 8 % 256 ∷ j % 256 ∷ []

module _ {B : Type 0} where
  unfoldable pub extend_pcr : ℕ → Thread B (Unit {0})
  extend_pcr j =
      repeat 2
        (do _response ← nsm_process_request (Request.extend_pcr (pcr_of j) (data_of j)); ret tt)

  unfoldable pub check_single_attestation :
      (user_data nonce public_key : Option B) → Thread B (Result (Unit {0}) ErrorCode)
  check_single_attestation user_data nonce public_key = do
    response ← nsm_process_request (Request.attestation user_data nonce public_key)
    ret (attested response)

  -- `byte_buf` is `ByteBuf::from` of serde_bytes.
  unfoldable pub check_attestation : (byte_buf : Bytes → B) → Thread B (Result (Unit {0}) ErrorCode)
  check_attestation byte_buf =
      let buf = some (byte_buf dummy_data) in
      or_return (check_single_attestation none none none) (
        or_return (check_single_attestation buf none none) (
          or_return (check_single_attestation buf buf none) (check_single_attestation buf buf buf)))

  -- The first closure that main gives to the pool; the second is `extend_pcr`.
  unfoldable pub report : Result (Unit {0}) ErrorCode → Thread B (Unit {0})
  report (Result.ok _) = ret tt
  report (Result.err e) = compare_exchange 0 (as_i32 e) λ _. ret tt

  unfoldable pub attestation_job : (byte_buf : Bytes → B) → Thread B (Unit {0})
  attestation_job byte_buf = do exit_code ← check_attestation byte_buf; report exit_code
