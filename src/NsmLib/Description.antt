-- ===== src/NsmLib/Description.antt =====
-- The description that nsm-lib/src/lib.rs fills for a C caller: `NsmDescription`, and the branch of
-- nsm_get_description that copies a DescribeNSM response into it.
pub mod Arrays
pub mod Filled
pub mod Total
use mathlib.Core.Option
use aws_nitro_enclaves_nsm_a.Base.{
  ℕ, zero, suc, ◌-◌, ◌%◌, ◌^◌, ◌≡◌, Option, none, some, List, [], ◌∷◌, ◌++◌, Bytes, min, leb,
  if◌then◌else◌, length, take, drop,
}
use aws_nitro_enclaves_nsm_a.Machine.{Cmd, pure, panics, index_out_of_bounds, ◌>>=◌}
use aws_nitro_enclaves_nsm_a.NsmIo.{ErrorCode, success, Digest, sha256, sha384, sha512, NsmInfo}
use aws_nitro_enclaves_nsm_a.NsmIo.BTree.{BTreeSet}

pub record NsmDescription : Type 0 where
  pub version_major : ℕ
  pub version_minor : ℕ
  pub version_patch : ℕ
  pub module_id : Bytes
  pub module_id_len : ℕ
  pub max_pcrs : ℕ
  pub locked_pcrs : List ℕ
  pub locked_pcrs_len : ℕ
  pub digest : Digest

-- The arrays `[u8; 100]` and `[u16; 64]` have their lengths.
pub record IsDescription (d : NsmDescription) : Type 0 where
  pub module_id_size : length d.module_id ≡ 100
  pub locked_pcrs_size : length d.locked_pcrs ≡ 64

-- `array[i] = v`, or nothing out of bounds.
unfoldable pub set? {ℓ} : {A : Type ℓ} → List A → ℕ → A → Option (List A)
set? [] i v = none
set? (x ∷ xs) zero v = some (v ∷ xs)
set? (x ∷ xs) (suc i) v = Option.map (◌∷◌ x) (set? xs i v)

unfoldable pub copy_digest : Digest → Digest
copy_digest sha256 = sha256
copy_digest sha384 = sha384
copy_digest sha512 = sha512

module _ {K : Type 0} where
  -- `array[i] = v` of Rust, which panics out of bounds.
  abbrev pub set_or_panic : {A : Type 0} → List A → ℕ → A → Cmd K (List A)
  set_or_panic xs i v = elim (set? xs i v) [ none ↦ panics index_out_of_bounds | some ys ↦ pure ys ]

  -- The loop over `locked_pcrs.iter().enumerate()`, from index `i` on.
  unfoldable pub fill_locked_pcrs : ℕ → BTreeSet → List ℕ → Cmd K (List ℕ)
  fill_locked_pcrs i [] array = pure array
  fill_locked_pcrs i (val ∷ vals) array = do
    array' ← set_or_panic array i val
    fill_locked_pcrs (suc i) vals array'

  -- `array[0..n].copy_from_slice(&src[0..n])`; both slices panic where `n` passes an end.
  unfoldable pub copy_from_slice : Bytes → Bytes → ℕ → Cmd K Bytes
  copy_from_slice array src n =
      if leb n (length array)
      then (if leb n (length src)
          then pure (take n src ++ drop n array)
          else panics index_out_of_bounds)
      else panics index_out_of_bounds

  unfoldable pub describe : NsmInfo → NsmDescription → Cmd K (ErrorCode × NsmDescription)
  describe info nsm_description = do
    locked_pcrs ← fill_locked_pcrs 0 info.locked_pcrs nsm_description.locked_pcrs
    let module_id_len = min (length nsm_description.module_id - 1) (length info.module_id)
    copied ← copy_from_slice nsm_description.module_id info.module_id module_id_len
    module_id ← set_or_panic copied module_id_len 0
    pure (
      success,
      record {
        version_major = info.version_major;
        version_minor = info.version_minor;
        version_patch = info.version_patch;
        module_id = module_id;
        module_id_len = module_id_len % 2 ^ 32;
        max_pcrs = info.max_pcrs;
        locked_pcrs = locked_pcrs;
        locked_pcrs_len = length info.locked_pcrs % 2 ^ 32;
        digest = copy_digest info.digest;
      },
    )
