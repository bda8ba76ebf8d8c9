-- ===== src/Driver/Answers.antt =====
-- nsm_process_request of nsm-driver/src/lib.rs: every way in which a request is answered, and that
-- it always is. With nsm_init and nsm_exit it is a driver as its clients use it.
use aws_nitro_enclaves_nsm_a.Base.{
  ℕ, zero, suc, ◌≤◌, ◌<◌, ◌≡◌, refl, ◌≢◌, ◌⊎◌, inl, inr, Bytes, some, Result, arith, true, false,
  ltb, leb, ◌==◌, length, Bool-cases, take, Result-cases,
}
use aws_nitro_enclaves_nsm_a.Base.Ints.{ℤ, pos, negsuc}
use aws_nitro_enclaves_nsm_a.Machine.{World, Outcome}
use aws_nitro_enclaves_nsm_a.NsmIo.{Request, Response, error, Cbor, input_too_large, internal_error}
use aws_nitro_enclaves_nsm_a.Driver.{
  nsm_ioctl_magic, nsm_request_max_size, io_vec, as_slice, NsmMessage, Os, cbor_response,
  status_error, nsm_process_request, nsm_init, nsm_exit,
}
use aws_nitro_enclaves_nsm_a.Driver.Api.{Answers, NsmDriver}

-- serde_cbor encodes every request.
abbrev pub Encodes : {B C : Type 0} → Cbor B C → Type 0
Encodes {B} lib = (q : Request B) → (b : Bytes) × (lib.request_to_vec q ≡ Result.ok b)

-- The kernel reports no longer response than the memory that it was given for it.
abbrev pub StaysInBounds : {K : Type 0} → Os K → Type 0
StaysInBounds {K} os =
    (fd : ℤ) (code : ℕ) (message : NsmMessage) (k : K)
    → message.response.len ≤ length message.response.base
    → let message' = (os.ioctl fd code message k).1 in
      message'.response.len ≤ length message'.response.base

-- What is sent for an encoded request.
abbrev pub sent : Bytes → NsmMessage
sent b = record { request = io_vec b; response = io_vec cbor_response }

abbrev pub code : {K : Type 0} → Os K → ℕ
code os = os.request_code_readwrite nsm_ioctl_magic 0 os.size_of_message

-- How the driver, in a kernel state `k`, answers `q` by `r` and leaves the kernel in `k'`.
pub data Exchange {K B C : Type 0} (lib : Cbor B C) (os : Os K) (fd : ℤ) (q : Request B) (k : K)
    (r : Response) (k' : K) : Type 0 where
  -- Too large: nothing is sent.
  rejected :
      (b : Bytes)
      → lib.request_to_vec q ≡ Result.ok b
      → nsm_request_max_size < length b
      → r ≡ error input_too_large
      → k' ≡ k
      → Exchange lib os fd q k r k'
  -- The kernel reports an error.
  failed :
      (b : Bytes) (status : ℤ) (message : NsmMessage)
      → lib.request_to_vec q ≡ Result.ok b
      → length b ≤ nsm_request_max_size
      → os.ioctl fd (code os) (sent b) k ≡ (status, message, k')
      → status ≢ pos 0
      → (os.errno_last k' ≡ os.emsgsize → r ≡ error input_too_large)
      → (os.errno_last k' ≢ os.emsgsize → r ≡ error internal_error)
      → Exchange lib os fd q k r k'
  -- The device responds; what is no response is an internal error.
  answered :
      (b slice : Bytes) (message : NsmMessage)
      → lib.request_to_vec q ≡ Result.ok b
      → length b ≤ nsm_request_max_size
      → os.ioctl fd (code os) (sent b) k ≡ (pos 0, message, k')
      → as_slice message.response ≡ some slice
      → (lib.response_from_slice slice ≡ Result.ok r)
        ⊎ ((c : C) × (lib.response_from_slice slice ≡ Result.err c) × (r ≡ error internal_error))
      → Exchange lib os fd q k r k'

module _ {K B C : Type 0} (lib : Cbor B C) (os : Os K) (encodes : Encodes lib)
    (bounds : StaysInBounds os) (fd : ℤ) where
  answered-Exchange :
      (q : Request B) (b : Bytes) (w : World K) (message : NsmMessage) (k : K)
      → lib.request_to_vec q ≡ Result.ok b
      → length b ≤ nsm_request_max_size
      → os.ioctl fd (code os) (sent b) w.kernel ≡ (pos 0, message, k)
      → message.response.len ≤ length message.response.base
      → (r : Response) × (nsm_process_request lib os fd q w
          ≡ Outcome.ok r (record w { kernel = k }))
        × Exchange lib os fd q w.kernel r k
  unfolding nsm_process_request
  answered-Exchange q b w message k e small i inside =
      let slice = take message.response.len message.response.base in
      let fits : ltb nsm_request_max_size (length b) ≡ false = ground arith in
      let whole : leb message.response.len (length message.response.base) ≡ true = ground arith in
      elim (Result-cases (lib.response_from_slice slice)) [
        | inl (r, d) ↦
            (r, rw (e, fits, i, whole, d), answered b slice message e small i (rw whole) (inl d))
        | inr (c, d) ↦ (
          error internal_error,
          rw (e, fits, i, whole, d),
          answered b slice message e small i (rw whole) (inr (c, d, refl)),
        )
      ]

  failed-Exchange :
      (q : Request B) (b : Bytes) (w : World K) (status : ℤ) (message : NsmMessage) (k : K)
      → lib.request_to_vec q ≡ Result.ok b
      → length b ≤ nsm_request_max_size
      → os.ioctl fd (code os) (sent b) w.kernel ≡ (status, message, k)
      → status_error status (os.errno_last k) ≡ some (os.errno_last k)
      → status ≢ pos 0
      → (r : Response) × (nsm_process_request lib os fd q w
          ≡ Outcome.ok r (record w { kernel = k }))
        × Exchange lib os fd q w.kernel r k
  unfolding nsm_process_request
  failed-Exchange q b w status message k e small i s ne =
      let fits : ltb nsm_request_max_size (length b) ≡ false = ground arith in
      elim (Bool-cases (os.errno_last k == os.emsgsize)) [
        | inl same ↦ (
          error input_too_large,
          rw (e, fits, i, s, same),
          failed b status message e small i ne (λ h. refl) (ground arith),
        )
        | inr other ↦ (
          error internal_error,
          rw (e, fits, i, s, other),
          failed b status message e small i ne (ground arith) (λ h. refl),
        )
      ]

  sent-Exchange :
      (q : Request B) (b : Bytes) (w : World K) (status : ℤ) (message : NsmMessage) (k : K)
      → lib.request_to_vec q ≡ Result.ok b
      → length b ≤ nsm_request_max_size
      → os.ioctl fd (code os) (sent b) w.kernel ≡ (status, message, k)
      → message.response.len ≤ length message.response.base
      → (r : Response) × (nsm_process_request lib os fd q w
          ≡ Outcome.ok r (record w { kernel = k }))
        × Exchange lib os fd q w.kernel r k
  unfolding status_error
  sent-Exchange q b w (pos zero) message k e small i inside =
      answered-Exchange q b w message k e small i inside
  sent-Exchange q b w (pos (suc n)) message k e small i inside =
      failed-Exchange q b w (pos (suc n)) message k e small i refl (λ h. cc)
  sent-Exchange q b w (negsuc n) message k e small i inside =
      failed-Exchange q b w (negsuc n) message k e small i refl (λ h. cc)

  -- Where serde_cbor encodes every request and the kernel reports no longer response than its
  -- memory, every request is answered in exactly one of three ways, with no panic and no undefined
  -- behaviour, and only the kernel's state changes: an encoding above 0x1000 bytes is refused as
  -- InputTooLarge with nothing sent; else the encoding and a zeroed buffer of 0x3000 bytes go to
  -- ioctl once, and a failing status gives InputTooLarge for EMSGSIZE and InternalError for any
  -- other errno, while status 0 gives the decoded response, or InternalError where it does not
  -- decode.
  pub nsm_process_request-Exchange :
      (q : Request B) (w : World K)
      → (r : Response) × (k : K) × (nsm_process_request lib os fd q w
          ≡ Outcome.ok r (record w { kernel = k }))
        × Exchange lib os fd q w.kernel r k
  unfolding nsm_process_request
  nsm_process_request-Exchange q w =
      let (b, e) = encodes q in
      let result = os.ioctl fd (code os) (sent b) w.kernel in
      elim (Bool-cases (ltb nsm_request_max_size (length b))) [
        | inl large ↦
            (error input_too_large, w.kernel, rw (e, large), rejected b e (ground arith) refl refl)
        | inr small ↦
            let inside = bounds fd (code os) (sent b) w.kernel (omega arith) in
            let (r, done, x) =
              sent-Exchange q b w result.0 result.1 result.2 e (ground arith) refl inside in
            (r, result.2, done, x)
      ]

-- The driver of the crate, under what it relies on.
module _ {K B C : Type 0} (lib : Cbor B C) (os : Os K) (encodes : Encodes lib)
    (bounds : StaysInBounds os) where
  pub nsm_process_request-Answers : Answers (nsm_process_request lib os)
  nsm_process_request-Answers fd q w =
      let (r, k, e, x) = nsm_process_request-Exchange lib os encodes bounds fd q w in (r, k, e)

  unfoldable pub nsm_driver : NsmDriver K B
  nsm_driver = record {
    nsm_init = nsm_init os;
    nsm_exit = nsm_exit os;
    nsm_process_request = nsm_process_request lib os;
    answers = nsm_process_request-Answers;
  }
