-- ===== src/Check/Serving.antt =====
-- What a device behind a driver does that passes nsm-test/src/bin/nsm-check.rs.
use aws_nitro_enclaves_nsm_a.Base.{
  ℕ, suc, [], ◌∷◌, if◌then◌else◌, ◌≡◌, ◌≢◌, ◌⊎◌, none, some, Option, Bytes, length,
}
use aws_nitro_enclaves_nsm_a.Base.Ints.{ℤ}
use aws_nitro_enclaves_nsm_a.Machine.{World, ok}
use aws_nitro_enclaves_nsm_a.NsmIo.{Request, Response, NsmInfo}
use aws_nitro_enclaves_nsm_a.NsmIo.BTree.{BTreeSet}
use aws_nitro_enclaves_nsm_a.Driver.Api.{NsmDriver}
use aws_nitro_enclaves_nsm_a.Check.{main}
use aws_nitro_enclaves_nsm_a.Check.Pcrs.{Description}
use aws_nitro_enclaves_nsm_a.Check.Services.{
  expect_document, expect_random, check_single_attestation, check_attestation, check_random_loop,
  check_random,
}
use aws_nitro_enclaves_nsm_a.Check.Protocol.{Bank, Responds, KeepsPcrs}

-- The description that get_nsm_description takes from the response.
abbrev pub description_from : NsmInfo → Description
description_from info = record {
  version_major = info.version_major;
  version_minor = info.version_minor;
  version_patch = info.version_patch;
  module_id = info.module_id;
  max_pcrs = info.max_pcrs;
  locked_pcrs = info.locked_pcrs;
  digest = info.digest;
}

-- The PCRs from index `i` on that are locked: those that are read-only.
abbrev pub locked_from : ℕ → Bank → BTreeSet
locked_from i [] = []
locked_from i (p ∷ ps) = let rest = locked_from (suc i) ps in if p.lock then i ∷ rest else rest

-- What the device reports of itself while it holds the bank: what `info` says, but for the number of
-- PCRs and those that are locked.
abbrev pub reporting : NsmInfo → Bank → NsmInfo
reporting info bank = record info { max_pcrs = length bank; locked_pcrs = locked_from 0 bank }

abbrev pub description_at : NsmInfo → Bank → Description
description_at info bank = description_from (reporting info bank)

-- What check_attestation gives for a datum: nothing, or its 1024 bytes.
abbrev pub IsMade : {B : Type 0} → (Bytes → B) → Option B → Type 0
IsMade byte_buf o =
    (o ≡ none) ⊎ (o ≡ some (byte_buf aws_nitro_enclaves_nsm_a.Check.Services.dummy_data))

-- A device that describes itself by `info` and the PCRs that it holds, attests such requests with documents that are not
-- empty, and draws random bytes that are not empty and not those of `last`, the draw before.
pub record ServesAll {K B : Type 0} (d : NsmDriver K B) (ctx : ℤ) (view : K → Bank)
    (extension : Bytes → Bytes → Bytes) (most : ℕ) (byte_buf : Bytes → B) (info : NsmInfo)
    (last : K → Bytes) : Type 0 where
  pub pcrs : KeepsPcrs d ctx view extension most
  pub describes :
      (w : World K)
      → Responds d ctx view Request.describe_nsm w
          (Response.describe_nsm (reporting info (view w.kernel)))
          (view w.kernel)
  pub attests :
      (user_data nonce public_key : Option B) (w : World K)
      → IsMade byte_buf user_data
      → IsMade byte_buf nonce
      → IsMade byte_buf public_key
      → (document : Bytes) × (length document ≢ 0)
        × Responds d ctx view
            (Request.attestation user_data nonce public_key)
            w
            (Response.attestation document)
            (view w.kernel)
  pub draws :
      (w : World K)
      → (random : Bytes) × (length random ≢ 0)
        × (random ≢ last w.kernel)
        × ((k : K) × (d.nsm_process_request ctx Request.get_random w
              ≡ ok (Response.get_random random) (record w { kernel = k }))
            × (view k ≡ view w.kernel)
            × (last k ≡ random))
