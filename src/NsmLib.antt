-- ===== src/NsmLib.antt =====
-- nsm-lib/src/lib.rs: the C entry points over the driver. Raw pointers lead into the memory of the
-- world. A C reference (`&mut u32`, `&mut bool`, `&mut NsmDescription`) is passed as its value, and
-- comes back with the result. A `u32` is a number below 2 ^ 32, `as u32` is `% 2 ^ 32`.
pub mod Raw
pub mod Description
pub mod Delivery
pub mod Replies
pub mod Entry
pub mod Outputs
pub mod Sequences
pub mod Ranges
pub mod Calls
pub mod Clients
pub mod Session
use mathlib.Core.Option
use aws_nitro_enclaves_nsm_a.Base.{
  ℕ, Bool, ◌||◌, Option, none, some, Bytes, min, ◌==◌, if◌then◌else◌, length,
}
use aws_nitro_enclaves_nsm_a.Base.Ints.{ℤ, is_negative}
use aws_nitro_enclaves_nsm_a.Machine.{Cmd, pure, ◌>>=◌, ◌>>◌}
use aws_nitro_enclaves_nsm_a.Machine.Memory.{Ptr, is_null}
use aws_nitro_enclaves_nsm_a.NsmIo.{
  Request, Response, ErrorCode, success, invalid_argument, invalid_response,
}
use aws_nitro_enclaves_nsm_a.Driver.Api.{NsmDriver}
use Raw.{copy_nonoverlapping, nsm_get_vec_from_raw, nsm_get_raw_from_vec}
use Description.{NsmDescription, describe}

-- The arms of each entry point's `match` on the response.
module _ {K : Type 0} where
  unfoldable pub extended : Ptr → ℕ → Response → Cmd K (ErrorCode × ℕ)
  extended pcr_data pcr_data_len (Response.extend_pcr pcr) =
      nsm_get_raw_from_vec pcr pcr_data pcr_data_len
  extended pcr_data pcr_data_len (Response.error err) = pure (err, pcr_data_len)
  extended pcr_data pcr_data_len _ = pure (invalid_response, pcr_data_len)

  unfoldable pub described : Bool → Ptr → ℕ → Response → Cmd K (ErrorCode × Bool × ℕ)
  described lock data_ptr data_len (Response.describe_pcr pcr_lock pcr_data) = do
    (code, len) ← nsm_get_raw_from_vec pcr_data data_ptr data_len
    pure (code, pcr_lock, len)
  described lock data_ptr data_len (Response.error err) = pure (err, lock, data_len)
  described lock data_ptr data_len _ = pure (invalid_response, lock, data_len)

  unfoldable pub nsm_described : NsmDescription → Response → Cmd K (ErrorCode × NsmDescription)
  nsm_described nsm_description (Response.describe_nsm info) = describe info nsm_description
  nsm_described nsm_description (Response.error err) = pure (err, nsm_description)
  nsm_described nsm_description _ = pure (invalid_response, nsm_description)

  unfoldable pub attested : Ptr → ℕ → Response → Cmd K (ErrorCode × ℕ)
  attested att_doc_data att_doc_len (Response.attestation attestation_doc) =
      nsm_get_raw_from_vec attestation_doc att_doc_data att_doc_len
  attested att_doc_data att_doc_len (Response.error err) = pure (err, att_doc_len)
  attested att_doc_data att_doc_len _ = pure (invalid_response, att_doc_len)

  unfoldable pub drawn : Ptr → ℕ → Response → Cmd K (ErrorCode × ℕ)
  drawn buf buf_len (Response.get_random random) = do
    let size = min buf_len (length random)
    copy_nonoverlapping random buf size
    pure (success, size)
  drawn buf buf_len (Response.error err) = pure (err, buf_len)
  drawn buf buf_len _ = pure (invalid_response, buf_len)

unfoldable pub pcr_locked : Response → ErrorCode
pcr_locked Response.lock_pcr = success
pcr_locked (Response.error err) = err
pcr_locked _ = invalid_response

unfoldable pub pcrs_locked : Response → ErrorCode
pcrs_locked Response.lock_pcrs = success
pcrs_locked (Response.error err) = err
pcrs_locked _ = invalid_response

module _ {K B : Type 0} (d : NsmDriver K B) where
  open d use {nsm_process_request}

  unfoldable pub nsm_lib_init : Cmd K ℤ
  nsm_lib_init = d.nsm_init

  unfoldable pub nsm_lib_exit : ℤ → Cmd K (Unit {0})
  nsm_lib_exit = d.nsm_exit

  unfoldable pub nsm_extend_pcr :
      (fd : ℤ) (index : ℕ) (data_ptr : Ptr) (data_len : ℕ) (pcr_data : Ptr) (pcr_data_len : ℕ)
      → Cmd K (ErrorCode × ℕ)
  nsm_extend_pcr fd index data_ptr data_len pcr_data pcr_data_len = do
    data_vec ← nsm_get_vec_from_raw data_ptr data_len
    elim data_vec [
      | none ↦ pure (invalid_argument, pcr_data_len)
      | some vec ↦ do
        response ← nsm_process_request fd (Request.extend_pcr index vec)
        extended pcr_data pcr_data_len response
    ]

  -- Returns the lock and the length as they stand in the caller's variables afterwards.
  unfoldable pub nsm_describe_pcr :
      (fd : ℤ) (index : ℕ) (lock : Bool) (data_ptr : Ptr) (data_len : ℕ)
      → Cmd K (ErrorCode × Bool × ℕ)
  nsm_describe_pcr fd index lock data_ptr data_len = do
    response ← nsm_process_request fd (Request.describe_pcr index)
    described lock data_ptr data_len response

  unfoldable pub nsm_lock_pcr : (fd : ℤ) (index : ℕ) → Cmd K ErrorCode
  nsm_lock_pcr fd index = do
    response ← nsm_process_request fd (Request.lock_pcr index)
    pure (pcr_locked response)

  unfoldable pub nsm_lock_pcrs : (fd : ℤ) (range : ℕ) → Cmd K ErrorCode
  nsm_lock_pcrs fd range = do
    response ← nsm_process_request fd (Request.lock_pcrs range)
    pure (pcrs_locked response)

  unfoldable pub nsm_get_description :
      (fd : ℤ) (nsm_description : NsmDescription) → Cmd K (ErrorCode × NsmDescription)
  nsm_get_description fd nsm_description = do
    response ← nsm_process_request fd Request.describe_nsm
    nsm_described nsm_description response

  unfoldable pub nsm_get_random : (fd : ℤ) (buf : Ptr) (buf_len : ℕ) → Cmd K (ErrorCode × ℕ)
  nsm_get_random fd buf buf_len =
      if is_negative fd || is_null buf || buf_len == 0
      then pure (invalid_argument, buf_len)
      else do response ← nsm_process_request fd Request.get_random; drawn buf buf_len response

  -- `byte_buf` is `ByteBuf::from` of serde_bytes.
  module _ (byte_buf : Bytes → B) where
    unfoldable pub get_byte_buf_from_user_data : Ptr → ℕ → Cmd K (Option B)
    get_byte_buf_from_user_data p len = do
      data_vec ← nsm_get_vec_from_raw p len
      pure (Option.map byte_buf data_vec)

    unfoldable pub nsm_get_attestation_doc :
        (fd : ℤ) (user_data : Ptr) (user_data_len : ℕ) (nonce_data : Ptr) (nonce_len : ℕ)
        (pub_key_data : Ptr) (pub_key_len : ℕ) (att_doc_data : Ptr) (att_doc_len : ℕ)
        → Cmd K (ErrorCode × ℕ)
    unfolding get_byte_buf_from_user_data
    nsm_get_attestation_doc fd user_data user_data_len nonce_data nonce_len pub_key_data pub_key_len
          att_doc_data att_doc_len =
        do
          user_data_buf ← get_byte_buf_from_user_data user_data user_data_len
          nonce ← get_byte_buf_from_user_data nonce_data nonce_len
          public_key ← get_byte_buf_from_user_data pub_key_data pub_key_len
          response ← nsm_process_request fd (Request.attestation user_data_buf nonce public_key)
          attested att_doc_data att_doc_len response
