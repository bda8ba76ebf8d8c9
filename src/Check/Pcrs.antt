-- ===== src/Check/Pcrs.antt =====
-- nsm-test/src/bin/nsm-check.rs: the description of the device, and the check of the PCRs as they
-- are at the start.
use aws_nitro_enclaves_nsm_a.Base.{
  ℕ, zero, suc, ◌-◌, Bool, true, false, not, Option, none, some, List, [], ◌∷◌, Bytes, ◌==◌,
  if◌then◌else◌, length, get_elem?, take, drop, replicate,
}
use aws_nitro_enclaves_nsm_a.Base.Ints.{ℤ}
use aws_nitro_enclaves_nsm_a.Machine.{
  Cmd, pure, panics, assertion_failed, index_out_of_bounds, ◌>>=◌, ◌>>◌,
}
use aws_nitro_enclaves_nsm_a.NsmIo.{Request, Response, Digest, sha256, sha384, sha512}
use aws_nitro_enclaves_nsm_a.NsmIo.BTree.{BTreeSet}
use aws_nitro_enclaves_nsm_a.Driver.Api.{NsmDriver}
use aws_nitro_enclaves_nsm_a.Check.Asserts.{assert, bytes_eq}

abbrev pub reserved_pcrs : ℕ
reserved_pcrs = 5

pub record PcrData : Type 0 where
  pub lock : Bool
  pub value : Bytes

pub record Description : Type 0 where
  pub version_major : ℕ
  pub version_minor : ℕ
  pub version_patch : ℕ
  pub module_id : Bytes
  pub max_pcrs : ℕ
  pub locked_pcrs : BTreeSet
  pub digest : Digest

unfoldable pub pcr_len : Digest → ℕ
pcr_len sha256 = 32
pcr_len sha384 = 48
pcr_len sha512 = 64

unfoldable pub get_pcr_len : Description → ℕ
unfolding pcr_len
get_pcr_len description = pcr_len description.digest

-- `(lo..lo + n).collect()`
abbrev pub range_from : ℕ → ℕ → List ℕ
range_from lo zero = []
range_from lo (suc n) = lo ∷ range_from (suc lo) n

module _ {K : Type 0} where
  -- PCRs [0..5) must not be empty, but for 3.
  unfoldable pub check_reserved : Bytes → ℕ → List PcrData → Cmd K (Unit {0})
  check_reserved zeroed_pcr index [] = pure tt
  check_reserved zeroed_pcr index (pcr ∷ pcrs) = do
    assert
        (if index == 3 then bytes_eq pcr.value zeroed_pcr else not (bytes_eq pcr.value zeroed_pcr))
    check_reserved zeroed_pcr (suc index) pcrs

  unfoldable pub check_empty : Bytes → List PcrData → Cmd K (Unit {0})
  check_empty zeroed_pcr [] = pure tt
  check_empty zeroed_pcr (pcr ∷ pcrs) = do
    assert (bytes_eq pcr.value zeroed_pcr)
    check_empty zeroed_pcr pcrs

  -- `for pcr in index..index + n` over `pcr_data[pcr].lock`.
  unfoldable pub check_lock_at : Bool → Option PcrData → Cmd K (Unit {0})
  check_lock_at want none = panics index_out_of_bounds
  check_lock_at want (some pcr) = assert (if want then pcr.lock else not pcr.lock)

  unfoldable pub check_locks : Bool → List PcrData → (index n : ℕ) → Cmd K (Unit {0})
  unfolding check_lock_at
  check_locks want pcr_data index zero = pure tt
  check_locks want pcr_data index (suc n) = do
    check_lock_at want (get_elem? pcr_data index)
    check_locks want pcr_data (suc index) n

module _ {K B : Type 0} (d : NsmDriver K B) (ctx : ℤ) where
  open d use {nsm_process_request}

  unfoldable pub description_of : Response → Cmd K Description
  description_of (Response.describe_nsm info) = pure (record {
    version_major = info.version_major;
    version_minor = info.version_minor;
    version_patch = info.version_patch;
    module_id = info.module_id;
    max_pcrs = info.max_pcrs;
    locked_pcrs = info.locked_pcrs;
    digest = info.digest;
  })
  description_of _ = panics assertion_failed

  unfoldable pub get_nsm_description : Cmd K Description
  get_nsm_description = do
    response ← nsm_process_request ctx Request.describe_nsm
    description_of response

  -- The closure of `map`: a PCR's lock and value, if that has the length of the digest.
  unfoldable pub pcr_data_of : ℕ → Response → Cmd K PcrData
  pcr_data_of expected_pcr_len (Response.describe_pcr lock value) = do
    assert (length value == expected_pcr_len)
    pure (record { lock = lock; value = value })
  pcr_data_of expected_pcr_len _ = panics assertion_failed

  -- `(pcr..pcr + n).map(..).collect()`
  unfoldable pub describe_pcrs : ℕ → (pcr n : ℕ) → Cmd K (List PcrData)
  describe_pcrs expected_pcr_len pcr zero = pure []
  describe_pcrs expected_pcr_len pcr (suc n) = do
    response ← nsm_process_request ctx (Request.describe_pcr pcr)
    first ← pcr_data_of expected_pcr_len response
    rest ← describe_pcrs expected_pcr_len (suc pcr) n
    pure (first ∷ rest)

  unfoldable pub check_initial_pcrs : Description → Cmd K (Unit {0})
  check_initial_pcrs description = do
    let expected_pcr_len = get_pcr_len description
    pcr_data ← describe_pcrs expected_pcr_len 0 description.max_pcrs
    let zeroed_pcr : Bytes = replicate expected_pcr_len 0
    check_reserved zeroed_pcr 0 (take reserved_pcrs pcr_data)
    check_empty zeroed_pcr (drop reserved_pcrs pcr_data)
    assert (bytes_eq description.locked_pcrs (range_from 0 16))
    check_locks true pcr_data 0 16
    check_locks false pcr_data 16 (description.max_pcrs - 16)
