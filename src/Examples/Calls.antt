-- ===== src/Examples/Calls.antt =====
-- The theorems on the C entry points, on the platform of Examples/Platform.antt: a caller with
-- buffers of three bytes at 100 and 200.
use aws_nitro_enclaves_nsm_a.Base.{
  ℕ, ◌≡◌, refl, ◌↔◌, false, [], ◌∷◌, none, some, Bytes, arith, replicate,
}
use aws_nitro_enclaves_nsm_a.Base.Ints.{pos}
use aws_nitro_enclaves_nsm_a.Machine.{ok, panic, index_out_of_bounds}
use aws_nitro_enclaves_nsm_a.Machine.Memory.{Memory, read, IsMapped}
use aws_nitro_enclaves_nsm_a.NsmIo.{Request, Response, ErrorCode, success, sha256, NsmInfo}
use aws_nitro_enclaves_nsm_a.Driver.Api.{NsmDriver, reply, behind, nsm_process_request-reply}
use aws_nitro_enclaves_nsm_a.Driver.{nsm_process_request}
use aws_nitro_enclaves_nsm_a.NsmLib.Raw.{nsm_get_raw_from_vec}
use aws_nitro_enclaves_nsm_a.NsmLib.Delivery.{Delivered, nsm_get_raw_from_vec-Delivered}
use aws_nitro_enclaves_nsm_a.NsmLib.Replies.{
  IsBuffer, present, Argument, omitted, given, HandsOver, Ends,
}
use aws_nitro_enclaves_nsm_a.NsmLib.Entry.{
  extension, document, Grants, nsm_extend_pcr-HandsOver, nsm_get_attestation_doc-HandsOver,
  nsm_lock_pcr-Grants, nsm_lock_pcrs-Grants,
}
use aws_nitro_enclaves_nsm_a.NsmLib.Outputs.{
  pcr_value, pcr_lock, Draws, nsm_describe_pcr-HandsOver, nsm_get_random-Draws,
}
use aws_nitro_enclaves_nsm_a.NsmLib.Description.{NsmDescription, IsDescription}
use aws_nitro_enclaves_nsm_a.NsmLib.Description.Filled.{
  Describes, nsm_get_description-Describes, nsm_get_description-panic,
}
use aws_nitro_enclaves_nsm_a.NsmLib.Description.Total.{Gets, nsm_get_description-Gets}
use aws_nitro_enclaves_nsm_a.NsmLib.{
  nsm_extend_pcr, nsm_get_attestation_doc, nsm_lock_pcr, nsm_lock_pcrs, nsm_describe_pcr,
  nsm_get_random, nsm_get_description,
}
use aws_nitro_enclaves_nsm_a.Examples.Platform.{driver, world, info}

buffer-IsMapped : IsMapped world.memory 200 3
buffer-IsMapped = (refl, (refl, (refl, tt)))

buffer : IsBuffer world.memory 200 3
buffer = present (omega arith) buffer-IsMapped

input : Argument world.memory 100 2 (some (7 ∷ 7 ∷ []))
unfolding read
input = given (omega arith) refl

nsm_get_raw_from_vec-Delivered_example :
    (code : ErrorCode) × (size : ℕ) × (m' : Memory ℕ) × (nsm_get_raw_from_vec
        (1 ∷ 2 ∷ 3 ∷ 4 ∷ [])
        200
        3
        world
      ≡ ok (code, size) (record world { memory = m' }))
    × Delivered (1 ∷ 2 ∷ 3 ∷ 4 ∷ []) 200 3 world.memory m' code size
nsm_get_raw_from_vec-Delivered_example =
    nsm_get_raw_from_vec-Delivered (1 ∷ 2 ∷ 3 ∷ 4 ∷ []) 200 3 world (omega arith) buffer-IsMapped

nsm_extend_pcr-HandsOver_example :
    let q = Request.extend_pcr 16 (7 ∷ 7 ∷ []) in
    Ends
      (nsm_extend_pcr driver (pos 3) 16 100 2 200 3 world)
      (behind driver (pos 3) q world)
      (HandsOver 200 3 world.memory (extension (reply driver (pos 3) q world)))
nsm_extend_pcr-HandsOver_example =
    nsm_extend_pcr-HandsOver driver (pos 3) 16 100 2 200 3 world input buffer

nsm_get_attestation_doc-HandsOver_example :
    let q : Request Bytes = Request.attestation (some (7 ∷ 7 ∷ [])) none (some (7 ∷ 7 ∷ [])) in
    Ends
      (nsm_get_attestation_doc driver (λ b. b) (pos 3) 100 2 0 9 100 2 200 3 world)
      (behind driver (pos 3) q world)
      (HandsOver 200 3 world.memory (document (reply driver (pos 3) q world)))
nsm_get_attestation_doc-HandsOver_example =
    nsm_get_attestation_doc-HandsOver driver (pos 3) (λ b. b) 100 0 100 2 9 2 200 3 world input
      (omitted refl) input buffer

nsm_describe_pcr-HandsOver_example :
    let q = Request.describe_pcr 16 in
    let r = reply driver (pos 3) q world in
    (code : ErrorCode) × (size : ℕ) × (m' : Memory ℕ) × (nsm_describe_pcr driver
        (pos 3)
        16
        false
        200
        3
        world
      ≡ ok (code, pcr_lock false r, size) (record (behind driver (pos 3) q world) { memory = m' }))
    × HandsOver 200 3 world.memory (pcr_value r) code size m'
nsm_describe_pcr-HandsOver_example =
    nsm_describe_pcr-HandsOver driver (pos 3) 16 false 200 3 world buffer

nsm_lock_pcr-Grants_example :
    (code : ErrorCode) × (nsm_lock_pcr driver (pos 3) 16 world
      ≡ ok code (behind driver (pos 3) (Request.lock_pcr 16) world))
    × ((code ≡ success)
        ↔ Grants Response.lock_pcr (reply driver (pos 3) (Request.lock_pcr 16) world))
nsm_lock_pcr-Grants_example = nsm_lock_pcr-Grants driver (pos 3) 16 world

nsm_lock_pcrs-Grants_example :
    (code : ErrorCode) × (nsm_lock_pcrs driver (pos 3) 4 world
      ≡ ok code (behind driver (pos 3) (Request.lock_pcrs 4) world))
    × ((code ≡ success)
        ↔ Grants Response.lock_pcrs (reply driver (pos 3) (Request.lock_pcrs 4) world))
nsm_lock_pcrs-Grants_example = nsm_lock_pcrs-Grants driver (pos 3) 4 world

nsm_get_random-Draws_example :
    Ends
      (nsm_get_random driver (pos 3) 200 3 world)
      (behind driver (pos 3) Request.get_random world)
      (Draws 200 3 world.memory (reply driver (pos 3) Request.get_random world))
nsm_get_random-Draws_example =
    nsm_get_random-Draws driver (pos 3) 200 3 world refl (omega arith) (omega arith) buffer-IsMapped

abbrev blank : NsmDescription
blank = record {
  version_major = 0;
  version_minor = 0;
  version_patch = 0;
  module_id = replicate 100 0;
  module_id_len = 0;
  max_pcrs = 0;
  locked_pcrs = replicate 64 0;
  locked_pcrs_len = 0;
  digest = sha256;
}

blank-IsDescription : IsDescription blank
blank-IsDescription = record { module_id_size = refl; locked_pcrs_size = refl }

info_reported : reply driver (pos 3) Request.describe_nsm world ≡ Response.describe_nsm info
unfolding driver nsm_process_request
info_reported = cc (nsm_process_request-reply driver (pos 3) Request.describe_nsm world)

nsm_get_description-Describes_example :
    (new : NsmDescription) × (nsm_get_description driver (pos 3) blank world
      ≡ ok (success, new) (behind driver (pos 3) Request.describe_nsm world))
    × Describes info blank new
nsm_get_description-Describes_example =
    nsm_get_description-Describes driver (pos 3) blank world blank-IsDescription info_reported
      (omega arith)

-- A device that reports 65 locked PCRs.
abbrev crowded_info : NsmInfo
crowded_info = record info { locked_pcrs = replicate 65 1 }

crowded : NsmDriver ℕ Bytes
crowded = record {
  nsm_init = ok (pos 3);
  nsm_exit = λ fd. ok tt;
  nsm_process_request = λ fd q. ok (Response.describe_nsm crowded_info);
  answers = λ fd q w. (Response.describe_nsm crowded_info, w.kernel, refl);
}

crowd_reported :
    reply crowded (pos 3) Request.describe_nsm world ≡ Response.describe_nsm crowded_info
unfolding crowded
crowd_reported = cc (nsm_process_request-reply crowded (pos 3) Request.describe_nsm world)

nsm_get_description-panic_example :
    nsm_get_description crowded (pos 3) blank world
    ≡ panic index_out_of_bounds (behind crowded (pos 3) Request.describe_nsm world)
nsm_get_description-panic_example =
    nsm_get_description-panic crowded (pos 3) blank world blank-IsDescription crowd_reported
      (omega arith)

nsm_get_description-Gets_example :
    Gets crowded (pos 3) blank world (reply crowded (pos 3) Request.describe_nsm world)
nsm_get_description-Gets_example =
    nsm_get_description-Gets crowded (pos 3) blank world blank-IsDescription
