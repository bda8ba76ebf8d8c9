-- ===== src/NsmLib/Description/Total.antt =====
-- nsm_get_description of nsm-lib/src/lib.rs on every response.
use aws_nitro_enclaves_nsm_a.Base.{
  ◌≤◌, ◌<◌, ◌≡◌, refl, ◌⊎◌, inl, inr, arith, leb, length, Bool-cases,
}
use aws_nitro_enclaves_nsm_a.Base.Ints.{ℤ}
use aws_nitro_enclaves_nsm_a.Machine.{World, ok, panic, index_out_of_bounds}
use aws_nitro_enclaves_nsm_a.NsmIo.{
  Request, Response, ErrorCode, success, invalid_response, NsmInfo,
}
use aws_nitro_enclaves_nsm_a.Driver.Api.{NsmDriver, reply, behind, nsm_process_request-reply}
use aws_nitro_enclaves_nsm_a.NsmLib.Description.{NsmDescription, IsDescription}
use aws_nitro_enclaves_nsm_a.NsmLib.{nsm_described, nsm_get_description}
use aws_nitro_enclaves_nsm_a.NsmLib.Description.Filled.{
  Describes, nsm_get_description-Describes, nsm_get_description-panic,
}

module _ {K B : Type 0} (d : NsmDriver K B) (fd : ℤ) (old : NsmDescription) (w : World K) where
  -- The device describes itself: the description is filled in, or its array overflows.
  abbrev pub Fills : NsmInfo → Type 0
  Fills info =
      ((length info.locked_pcrs ≤ 64)
        × ((new : NsmDescription) × (nsm_get_description d fd old w
              ≡ ok (success, new) (behind d fd Request.describe_nsm w))
            × Describes info old new))
      ⊎ ((64 < length info.locked_pcrs)
          × (nsm_get_description d fd old w
              ≡ panic index_out_of_bounds (behind d fd Request.describe_nsm w)))

  -- The call returns the code, and the description is as it was.
  abbrev pub Returns : ErrorCode → Type 0
  Returns code =
      nsm_get_description d fd old w ≡ ok (code, old) (behind d fd Request.describe_nsm w)

  -- What comes of each response.
  abbrev pub Gets : Response → Type 0
  Gets (Response.describe_nsm info) = Fills info
  Gets (Response.error err) = Returns err
  Gets _ = Returns invalid_response

  returned :
      (r : Response) (code : ErrorCode)
      → reply d fd Request.describe_nsm w ≡ r
      → nsm_described old r (behind d fd Request.describe_nsm w)
        ≡ ok (code, old) (behind d fd Request.describe_nsm w)
      → Returns code
  unfolding nsm_get_description
  returned r code e same = rw (nsm_process_request-reply d fd Request.describe_nsm w, e) same

  replied : IsDescription old → (r : Response) → reply d fd Request.describe_nsm w ≡ r → Gets r
  unfolding nsm_described
  replied sizes (Response.describe_nsm info) e =
      elim (Bool-cases (leb (length info.locked_pcrs) 64)) [
        | inl few ↦
            let fits : length info.locked_pcrs ≤ 64 = ground arith in
            inl (fits, nsm_get_description-Describes d fd old w sizes e fits)
        | inr many ↦
            let over : 64 < length info.locked_pcrs = ground arith in
            inr (over, nsm_get_description-panic d fd old w sizes e over)
      ]
  replied sizes (Response.error err) e = returned (Response.error err) err e refl
  replied sizes (Response.describe_pcr l v) e =
      returned (Response.describe_pcr l v) invalid_response e refl
  replied sizes (Response.extend_pcr v) e = returned (Response.extend_pcr v) invalid_response e refl
  replied sizes Response.lock_pcr e = returned Response.lock_pcr invalid_response e refl
  replied sizes Response.lock_pcrs e = returned Response.lock_pcrs invalid_response e refl
  replied sizes (Response.attestation v) e =
      returned (Response.attestation v) invalid_response e refl
  replied sizes (Response.get_random v) e = returned (Response.get_random v) invalid_response e refl

-- Where the caller's arrays have their sizes 100 and 64, nsm_get_description makes its one request,
-- and: where the device describes itself with at most 64 locked PCRs, it returns Success with the
-- description filled in from just that response; where it describes itself with more, the function
-- panics on an index out of bounds; an error is returned as its code, and any other response as
-- InvalidResponse, both with the description as it was.
pub nsm_get_description-Gets :
    {K B : Type 0} (d : NsmDriver K B) (fd : ℤ) (old : NsmDescription) (w : World K)
    → IsDescription old
    → Gets d fd old w (reply d fd Request.describe_nsm w)
nsm_get_description-Gets d fd old w sizes =
    replied d fd old w sizes (reply d fd Request.describe_nsm w) refl
