-- ===== src/NsmLib/Entry.antt =====
-- The entry points of nsm-lib/src/lib.rs that hand bytes over or lock, against the device's reply.
use mathlib.Core.Option
use aws_nitro_enclaves_nsm_a.Base.{ℕ, ◌≡◌, refl, ◌↔◌, ◌⊎◌, inl, inr, Option, some, Bytes, arith}
use aws_nitro_enclaves_nsm_a.Base.Ints.{ℤ}
use aws_nitro_enclaves_nsm_a.Machine.{World, ok}
use aws_nitro_enclaves_nsm_a.Machine.Memory.{Ptr, null}
use aws_nitro_enclaves_nsm_a.NsmIo.{
  Request, Response, ErrorCode, success, invalid_argument, invalid_response,
}
use aws_nitro_enclaves_nsm_a.Driver.Api.{NsmDriver, reply, behind, nsm_process_request-reply}
use aws_nitro_enclaves_nsm_a.NsmLib.{
  extended, nsm_extend_pcr, attested, nsm_get_attestation_doc, pcr_locked, nsm_lock_pcr,
  pcrs_locked, nsm_lock_pcrs,
}
use aws_nitro_enclaves_nsm_a.NsmLib.Replies.{
  Reply, payload, refused, unexpected, IsBuffer, Argument, omitted, HandsOver, Ends,
  nsm_get_raw_from_vec-HandsOver, nsm_get_vec_from_raw-Argument,
}

-- The PCR value of an ExtendPCR response.
unfoldable pub extension : Response → Reply
extension (Response.extend_pcr pcr) = payload pcr
extension (Response.error err) = refused err
extension _ = unexpected

-- The document of an Attestation response.
unfoldable pub document : Response → Reply
document (Response.attestation doc) = payload doc
document (Response.error err) = refused err
document _ = unexpected

module _ {K : Type 0} (out : Ptr) (capacity : ℕ) (w : World K)
    (buffer : IsBuffer w.memory out capacity) where
  extended-HandsOver :
      (r : Response)
      → Ends (extended out capacity r w) w (HandsOver out capacity w.memory (extension r))
  unfolding extended extension
  extended-HandsOver (Response.extend_pcr pcr) =
      nsm_get_raw_from_vec-HandsOver pcr out capacity w buffer
  extended-HandsOver (Response.error err) = (err, capacity, w.memory, refl, (refl, refl, refl))
  extended-HandsOver _ = (invalid_response, capacity, w.memory, refl, (refl, refl, refl))

  attested-HandsOver :
      (r : Response)
      → Ends (attested out capacity r w) w (HandsOver out capacity w.memory (document r))
  unfolding attested document
  attested-HandsOver (Response.attestation doc) =
      nsm_get_raw_from_vec-HandsOver doc out capacity w buffer
  attested-HandsOver (Response.error err) = (err, capacity, w.memory, refl, (refl, refl, refl))
  attested-HandsOver _ = (invalid_response, capacity, w.memory, refl, (refl, refl, refl))

module _ {K B : Type 0} (d : NsmDriver K B) (fd : ℤ) where
  -- With null input data nsm_extend_pcr returns InvalidArgument with the length as given, makes no
  -- request and changes nothing, whatever the other arguments are.
  pub nsm_extend_pcr-null :
      (index data_len : ℕ) (pcr_data : Ptr) (pcr_data_len : ℕ) (w : World K)
      → nsm_extend_pcr d fd index null data_len pcr_data pcr_data_len w
        ≡ ok (invalid_argument, pcr_data_len) w
  unfolding nsm_extend_pcr
  nsm_extend_pcr-null index data_len pcr_data pcr_data_len w =
      rw (nsm_get_vec_from_raw-Argument null data_len w (omitted refl))

  -- With readable input data and an output pointer that is null or leads to enough mapped memory,
  -- nsm_extend_pcr makes the one request ExtendPCR with the index and exactly those bytes, and
  -- returns: an ExtendPCR response goes to the buffer within its bounds (or is BufferTooSmall with
  -- length 0 where the pointer is null), an error response becomes the returned code, any other
  -- response is InvalidResponse, and in the last two cases the caller's length and memory stay as
  -- they were.
  pub nsm_extend_pcr-HandsOver :
      (index : ℕ) (p : Ptr) (n : ℕ) (out : Ptr) (capacity : ℕ) (w : World K) {xs : Bytes}
      → Argument w.memory p n (some xs)
      → IsBuffer w.memory out capacity
      → let q = Request.extend_pcr index xs in
        Ends
          (nsm_extend_pcr d fd index p n out capacity w)
          (behind d fd q w)
          (HandsOver out capacity w.memory (extension (reply d fd q w)))
  unfolding nsm_extend_pcr
  nsm_extend_pcr-HandsOver index p n out capacity w {xs} a b =
      let q = Request.extend_pcr index xs in
      rw (nsm_get_vec_from_raw-Argument p n w a, nsm_process_request-reply d fd q w)
        (unfold behind in extended-HandsOver out capacity (behind d fd q w) b (reply d fd q w))

  -- With each of the three inputs null or readable, and an output pointer that is null or leads to
  -- enough mapped memory, nsm_get_attestation_doc makes the one request Attestation, in which user
  -- data, nonce and public key are absent exactly where their pointers are null and hold the bytes
  -- read otherwise; the document of the response goes to the buffer within its bounds, an error
  -- becomes the code, any other response is InvalidResponse, and in the last two cases length and
  -- memory stay as they were.
  pub nsm_get_attestation_doc-HandsOver :
      (byte_buf : Bytes → B) (user_data nonce_data pub_key_data : Ptr)
      (user_data_len nonce_len pub_key_len : ℕ) (out : Ptr) (capacity : ℕ) (w : World K)
      {user_data' nonce' public_key' : Option Bytes}
      → Argument w.memory user_data user_data_len user_data'
      → Argument w.memory nonce_data nonce_len nonce'
      → Argument w.memory pub_key_data pub_key_len public_key'
      → IsBuffer w.memory out capacity
      → let wrap = Option.map byte_buf in
        let q = Request.attestation (wrap user_data') (wrap nonce') (wrap public_key') in
        Ends
          (nsm_get_attestation_doc d byte_buf fd user_data user_data_len nonce_data nonce_len
            pub_key_data pub_key_len out capacity w)
          (behind d fd q w)
          (HandsOver out capacity w.memory (document (reply d fd q w)))
  unfolding nsm_get_attestation_doc
  nsm_get_attestation_doc-HandsOver byte_buf user_data nonce_data pub_key_data user_data_len
        nonce_len pub_key_len out capacity w {user_data'} {nonce'} {public_key'} a a' a'' b =
      let wrap = Option.map byte_buf in
      let q = Request.attestation (wrap user_data') (wrap nonce') (wrap public_key') in
      rw
        (
          nsm_get_vec_from_raw-Argument user_data user_data_len w a,
          nsm_get_vec_from_raw-Argument nonce_data nonce_len w a',
          nsm_get_vec_from_raw-Argument pub_key_data pub_key_len w a'',
          nsm_process_request-reply d fd q w,
        )
        (unfold behind in attested-HandsOver out capacity (behind d fd q w) b (reply d fd q w))

-- A lock is granted by its own response, or by the error that stands for success.
abbrev pub Grants : Response → Response → Type 0
Grants own r = (r ≡ own) ⊎ (r ≡ Response.error success)

pcr_locked-Grants : (r : Response) → (pcr_locked r ≡ success) ↔ Grants Response.lock_pcr r
unfolding pcr_locked
pcr_locked-Grants Response.lock_pcr = (λ e. inl refl, λ g. refl)
pcr_locked-Grants (Response.error err) = (λ e. inr (rw e), λ g. ground arith)
pcr_locked-Grants _ = (λ e. cc, λ g. ground arith)

pcrs_locked-Grants : (r : Response) → (pcrs_locked r ≡ success) ↔ Grants Response.lock_pcrs r
unfolding pcrs_locked
pcrs_locked-Grants Response.lock_pcrs = (λ e. inl refl, λ g. refl)
pcrs_locked-Grants (Response.error err) = (λ e. inr (rw e), λ g. ground arith)
pcrs_locked-Grants _ = (λ e. cc, λ g. ground arith)

module _ {K B : Type 0} (d : NsmDriver K B) (fd : ℤ) where
  -- nsm_lock_pcr makes the one request LockPCR and returns; its code is Success exactly when the
  -- device answered LockPCR or an error with the code Success.
  pub nsm_lock_pcr-Grants :
      (index : ℕ) (w : World K)
      → let q = Request.lock_pcr index in
        (code : ErrorCode) × (nsm_lock_pcr d fd index w ≡ ok code (behind d fd q w))
        × ((code ≡ success) ↔ Grants Response.lock_pcr (reply d fd q w))
  unfolding nsm_lock_pcr
  nsm_lock_pcr-Grants index w =
      let q = Request.lock_pcr index in
      (
        pcr_locked (reply d fd q w),
        rw (nsm_process_request-reply d fd q w),
        pcr_locked-Grants (reply d fd q w),
      )

  -- nsm_lock_pcrs makes the one request LockPCRs and returns; its code is Success exactly when the
  -- device answered LockPCRs or an error with the code Success.
  pub nsm_lock_pcrs-Grants :
      (range : ℕ) (w : World K)
      → let q = Request.lock_pcrs range in
        (code : ErrorCode) × (nsm_lock_pcrs d fd range w ≡ ok code (behind d fd q w))
        × ((code ≡ success) ↔ Grants Response.lock_pcrs (reply d fd q w))
  unfolding nsm_lock_pcrs
  nsm_lock_pcrs-Grants range w =
      let q = Request.lock_pcrs range in
      (
        pcrs_locked (reply d fd q w),
        rw (nsm_process_request-reply d fd q w),
        pcrs_locked-Grants (reply d fd q w),
      )
