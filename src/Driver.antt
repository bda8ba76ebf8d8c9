-- ===== src/Driver.antt =====
-- nsm-driver/src/lib.rs: a request goes to the device through `ioctl` as CBOR, its response comes
-- back as CBOR. libc, nix and std are the parameter `Os`, serde_cbor is the parameter `Cbor`.
pub mod Api
pub mod Answers
pub mod Refinement
pub mod Session
use Prim.Native.String.{String}
use aws_nitro_enclaves_nsm_a.Base.{
  ℕ, zero, suc, ◌-◌, ◌≡◌, refl, Bool, true, Option, none, some, List, ◌∷◌, Bytes, Result, ltb, leb,
  ◌==◌, if◌then◌else◌, length, take, replicate, length-replicate,
}
use aws_nitro_enclaves_nsm_a.Base.Ints.{ℤ, pos, negsuc}
use aws_nitro_enclaves_nsm_a.Machine.{
  LogLine, World, Cmd, Outcome, pure, unwrap_ok, access, ◌>>=◌, ◌>>◌, log_line,
}
use aws_nitro_enclaves_nsm_a.NsmIo.{
  Request, Response, error, Cbor, success, input_too_large, internal_error,
}

abbrev pub dev_file : String
dev_file = "/dev/nsm"

abbrev pub nsm_ioctl_magic : ℕ
nsm_ioctl_magic = 0x0a

abbrev pub nsm_request_max_size : ℕ
nsm_request_max_size = 0x1000

abbrev pub nsm_response_max_size : ℕ
nsm_response_max_size = 0x3000

-- nix's `IoVec`, the C `struct iovec`: the memory that `iov_base` points to, and `iov_len`.
pub record IoVec : Type 0 where
  pub base : Bytes
  pub len : ℕ

-- `IoVec::from_slice` and `from_mut_slice`.
abbrev pub io_vec : Bytes → IoVec
io_vec b = record { base = b; len = length b }

-- `as_slice`: undefined behaviour where the length passes the memory.
abbrev pub as_slice : IoVec → Option Bytes
as_slice v = if leb v.len (length v.base) then some (take v.len v.base) else none

pub record NsmMessage : Type 0 where
  pub request : IoVec
  pub response : IoVec

pub record OpenOptions : Type 0 where
  pub read : Bool
  pub write : Bool

-- libc, nix and std::fs. The kernel may change the message that `ioctl` is given.
pub record Os (K : Type 0) : Type 0 where
  pub request_code_readwrite : (magic nr size : ℕ) → ℕ
  pub size_of_message : ℕ
  pub ioctl : ℤ → ℕ → NsmMessage → K → ℤ × NsmMessage × K
  pub errno_last : K → ℕ
  pub emsgsize : ℕ
  pub open_file : OpenOptions → String → K → Result ℤ ℕ × K
  pub close : ℤ → K → Result (Unit {0}) ℕ × K

-- `[0; NSM_RESPONSE_MAX_SIZE]`
pub cbor_response : Bytes
cbor_response = replicate nsm_response_max_size 0

pub length-cbor_response : length cbor_response ≡ nsm_response_max_size
unfolding cbor_response
length-cbor_response = length-replicate {A = ℕ} nsm_response_max_size 0

-- `match status`: 0 is success, anything else is the error in errno.
status_error : ℤ → ℕ → Option ℕ
status_error (pos zero) errno = none
status_error (pos (suc n)) errno = some errno
status_error (negsuc n) errno = some errno

module _ {K B C : Type 0} (lib : Cbor B C) (os : Os K) where
  nsm_encode_request_to_cbor : Request B → Cmd K Bytes
  nsm_encode_request_to_cbor request = unwrap_ok (lib.request_to_vec request)

  nsm_decode_response_from_cbor : IoVec → Cmd K Response
  nsm_decode_response_from_cbor response_data = do
    slice ← access (as_slice response_data)
    pure (elim (lib.response_from_slice slice) [
      | Result.ok response ↦ response
      | Result.err _ ↦ error internal_error
    ])

  -- The message comes back with what the kernel has made of it.
  pub nsm_ioctl : ℤ → NsmMessage → Cmd K (Option ℕ × NsmMessage)
  nsm_ioctl fd message w =
      let code = os.request_code_readwrite nsm_ioctl_magic 0 os.size_of_message in
      let (status, message', k) = os.ioctl fd code message w.kernel in
      Outcome.ok (status_error status (os.errno_last k), message') (record w { kernel = k })

  answer : Option ℕ → NsmMessage → Cmd K Response
  answer none message = nsm_decode_response_from_cbor message.response
  answer (some errno) message =
      pure (if errno == os.emsgsize then error input_too_large else error internal_error)

  unfoldable pub nsm_process_request : ℤ → Request B → Cmd K Response
  unfolding nsm_encode_request_to_cbor nsm_decode_response_from_cbor nsm_ioctl answer status_error
  nsm_process_request fd request = do
    cbor_request ← nsm_encode_request_to_cbor request
    if ltb nsm_request_max_size (length cbor_request) then pure (error input_too_large) else do
      (status, message) ←
          nsm_ioctl fd (record { request = io_vec cbor_request; response = io_vec cbor_response })
      answer status message

module _ {K : Type 0} (os : Os K) where
  unfoldable pub nsm_init : Cmd K ℤ
  nsm_init w =
      let options : OpenOptions = record { read = true; write = true } in
      let (open_dev, k) = os.open_file options dev_file w.kernel in
      elim open_dev [
        | Result.ok fd ↦ (log_line LogLine.opened >> pure fd) (record w { kernel = k })
        | Result.err e ↦
            (log_line (LogLine.failed_to_open e) >> pure (negsuc 0)) (record w { kernel = k })
      ]

  unfoldable pub nsm_exit : ℤ → Cmd K (Unit {0})
  nsm_exit fd w =
      let (result, k) = os.close fd w.kernel in
      elim result [
        | Result.ok _ ↦ log_line (LogLine.closed fd) (record w { kernel = k })
        | Result.err e ↦ log_line (LogLine.failed_to_close fd e) (record w { kernel = k })
      ]
