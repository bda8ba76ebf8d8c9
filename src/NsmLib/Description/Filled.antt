-- ===== src/NsmLib/Description/Filled.antt =====
-- nsm_get_description of nsm-lib/src/lib.rs: what the caller's description holds afterwards, and
-- the responses at which the function panics instead.
use aws_nitro_enclaves_nsm_a.Base.{
  suc, ◌-◌, ◌%◌, ◌^◌, ◌≤◌, ◌<◌, ◌≡◌, refl, ◌∷◌, ◌++◌, some, arith, min, length, get_elem?, take,
  drop, length-append, length-take, length-drop, take-append, drop-append,
}
use aws_nitro_enclaves_nsm_a.Base.Ints.{ℤ}
use aws_nitro_enclaves_nsm_a.Machine.{World, ok, panic, index_out_of_bounds}
use aws_nitro_enclaves_nsm_a.NsmIo.{
  Request, Response, success, Digest, sha256, sha384, sha512, NsmInfo,
}
use aws_nitro_enclaves_nsm_a.Driver.Api.{NsmDriver, reply, behind, nsm_process_request-reply}
use aws_nitro_enclaves_nsm_a.NsmLib.Description.{
  NsmDescription, IsDescription, copy_digest, describe,
}
use aws_nitro_enclaves_nsm_a.NsmLib.{nsm_described, nsm_get_description}
use aws_nitro_enclaves_nsm_a.NsmLib.Description.Arrays.{
  get_elem?-append, fill_locked_pcrs-fits, fill_locked_pcrs-panic, copy_from_slice-append,
  set_or_panic-terminated,
}

-- `d` holds what the device reported, and what `old` held in the parts that are not used.
pub record Describes (info : NsmInfo) (old d : NsmDescription) : Type 0 where
  pub version_major : d.version_major ≡ info.version_major
  pub version_minor : d.version_minor ≡ info.version_minor
  pub version_patch : d.version_patch ≡ info.version_patch
  pub max_pcrs : d.max_pcrs ≡ info.max_pcrs
  pub digest : d.digest ≡ info.digest
  pub locked_pcrs_len : d.locked_pcrs_len ≡ length info.locked_pcrs
  pub locked_pcrs : take d.locked_pcrs_len d.locked_pcrs ≡ info.locked_pcrs
  pub locked_pcrs_rest :
      drop d.locked_pcrs_len d.locked_pcrs ≡ drop d.locked_pcrs_len old.locked_pcrs
  pub module_id_len : d.module_id_len ≡ min 99 (length info.module_id)
  pub module_id : take d.module_id_len d.module_id ≡ take d.module_id_len info.module_id
  pub terminated : get_elem? d.module_id d.module_id_len ≡ some 0
  pub sizes : IsDescription d

copy_digest_lem : (g : Digest) → copy_digest g ≡ g
unfolding copy_digest
copy_digest_lem sha256 = refl
copy_digest_lem sha384 = refl
copy_digest_lem sha512 = refl

-- The description that is left in the caller's hands.
filled : NsmInfo → NsmDescription → NsmDescription
filled info d =
    let n = min 99 (length info.module_id) in
    record {
      version_major = info.version_major;
      version_minor = info.version_minor;
      version_patch = info.version_patch;
      module_id = take n info.module_id ++ 0 ∷ drop (suc n) d.module_id;
      module_id_len = n;
      max_pcrs = info.max_pcrs;
      locked_pcrs = info.locked_pcrs ++ drop (length info.locked_pcrs) d.locked_pcrs;
      locked_pcrs_len = length info.locked_pcrs;
      digest = info.digest;
    }

filled-Describes :
    (info : NsmInfo) (d : NsmDescription)
    → IsDescription d
    → length info.locked_pcrs ≤ 64
    → Describes info d (filled info d)
unfolding filled
filled-Describes info d v h =
    let n = min 99 (length info.module_id) in
    let pre = take n info.module_id in
    let l : length pre ≡ n = omega (arith, length-take n info.module_id) in
    let rest = drop (suc n) d.module_id in
    record {
      version_major = refl;
      version_minor = refl;
      version_patch = refl;
      max_pcrs = refl;
      digest = refl;
      locked_pcrs_len = refl;
      locked_pcrs = take-append info.locked_pcrs (drop (length info.locked_pcrs) d.locked_pcrs);
      locked_pcrs_rest =
          drop-append info.locked_pcrs (drop (length info.locked_pcrs) d.locked_pcrs);
      module_id_len = refl;
      module_id = rw l at (take-append pre (0 ∷ rest));
      terminated = rw l at (get_elem?-append pre rest 0);
      sizes = record {
        module_id_size = omega (
          arith,
          length-append pre (0 ∷ rest),
          length-drop (suc n) d.module_id,
          v.module_id_size,
        );
        locked_pcrs_size = omega (
          arith,
          length-append info.locked_pcrs (drop (length info.locked_pcrs) d.locked_pcrs),
          length-drop (length info.locked_pcrs) d.locked_pcrs,
          v.locked_pcrs_size,
        );
      };
    }

module _ {K : Type 0} (w : World K) where
  describe-filled :
      (info : NsmInfo) (d : NsmDescription)
      → IsDescription d
      → length info.locked_pcrs ≤ 64
      → describe info d w ≡ ok (success, filled info d) w
  unfolding describe filled
  describe-filled info d v h =
      let n = min 99 (length info.module_id) in
      let short : n ≤ length info.module_id = omega arith in
      let inside : n ≤ length d.module_id = omega (arith, v.module_id_size) in
      let before : n < length d.module_id = omega (arith, v.module_id_size) in
      let asked : min (length d.module_id - 1) (length info.module_id) ≡ n =
        omega (arith, v.module_id_size) in
      let loop =
        fill_locked_pcrs-fits w info.locked_pcrs d.locked_pcrs
          (omega (arith, v.locked_pcrs_size)) in
      let small : n % 2 ^ 32 ≡ n = omega arith in
      let few : length info.locked_pcrs % 2 ^ 32 ≡ length info.locked_pcrs = omega arith in
      rw (
        loop,
        asked,
        copy_from_slice-append w d.module_id info.module_id n inside short,
        set_or_panic-terminated w d.module_id info.module_id n before short,
        small,
        few,
        copy_digest_lem info.digest,
      )

  describe-panic :
      (info : NsmInfo) (d : NsmDescription)
      → IsDescription d
      → 64 < length info.locked_pcrs
      → describe info d w ≡ panic index_out_of_bounds w
  unfolding describe
  describe-panic info d v h =
      rw (
        fill_locked_pcrs-panic w info.locked_pcrs d.locked_pcrs (omega (arith, v.locked_pcrs_size)))

module _ {K B : Type 0} (d : NsmDriver K B) (fd : ℤ) where
  -- Where the caller's arrays have their sizes 100 and 64 and the device describes itself with at
  -- most 64 locked PCRs, nsm_get_description succeeds: versions, PCR count and digest are the
  -- device's, the first locked_pcrs_len entries of the array are the locked PCRs and the rest are
  -- untouched, module_id holds the first 99 bytes at most of the identifier with a zero byte behind
  -- them, module_id_len is their number, and the arrays keep their sizes.
  pub nsm_get_description-Describes :
      (old : NsmDescription) (w : World K) {info : NsmInfo}
      → IsDescription old
      → reply d fd Request.describe_nsm w ≡ Response.describe_nsm info
      → length info.locked_pcrs ≤ 64
      → (new : NsmDescription) × (nsm_get_description d fd old w
          ≡ ok (success, new) (behind d fd Request.describe_nsm w))
        × Describes info old new
  unfolding nsm_get_description nsm_described
  nsm_get_description-Describes old w {info} v e h = (
    filled info old,
    rw (nsm_process_request-reply d fd Request.describe_nsm w, e)
        (describe-filled (behind d fd Request.describe_nsm w) info old v h),
    filled-Describes info old v h,
  )

  -- Where the caller's arrays have their sizes and the device reports more than 64 locked PCRs,
  -- nsm_get_description does not return: it panics on an index out of bounds after the request has
  -- been made.
  pub nsm_get_description-panic :
      (old : NsmDescription) (w : World K) {info : NsmInfo}
      → IsDescription old
      → reply d fd Request.describe_nsm w ≡ Response.describe_nsm info
      → 64 < length info.locked_pcrs
      → nsm_get_description d fd old w
        ≡ panic index_out_of_bounds (behind d fd Request.describe_nsm w)
  unfolding nsm_get_description nsm_described
  nsm_get_description-panic old w {info} v e h =
      rw (nsm_process_request-reply d fd Request.describe_nsm w, e)
        (describe-panic (behind d fd Request.describe_nsm w) info old v h)
