-- ===== src/NsmLib/Raw.antt =====
-- The raw-pointer helpers of nsm-lib/src/lib.rs: nsm_get_vec_from_raw and nsm_get_raw_from_vec, at
-- the one element type, u8, with which the crate calls them.
use aws_nitro_enclaves_nsm_a.Base.{
  ℕ, ◌%◌, ◌^◌, Option, none, some, Bytes, min, leb, if◌then◌else◌, length, take,
}
use aws_nitro_enclaves_nsm_a.Machine.{Cmd, pure, access, ◌>>=◌, ◌>>◌, get_memory, set_memory}
use aws_nitro_enclaves_nsm_a.Machine.Memory.{Ptr, is_null, read, write}
use aws_nitro_enclaves_nsm_a.NsmIo.{ErrorCode, success, buffer_too_small}

module _ {K : Type 0} where
  -- `copy_nonoverlapping(src.as_ptr(), dst, n)`: reading past `src` is undefined behaviour too.
  unfoldable pub copy_nonoverlapping : Bytes → Ptr → ℕ → Cmd K (Unit {0})
  copy_nonoverlapping src dst n = do
    bytes ← access (if leb n (length src) then some (take n src) else none)
    m ← get_memory
    m' ← access (write m dst bytes)
    set_memory m'

  unfoldable pub nsm_get_vec_from_raw : Ptr → ℕ → Cmd K (Option Bytes)
  nsm_get_vec_from_raw p data_len =
      if is_null p
      then pure none
      else do m ← get_memory; slice ← access (read m p data_len); pure (some slice)

  unfoldable pub nsm_get_raw_from_vec : Bytes → Ptr → ℕ → Cmd K (ErrorCode × ℕ)
  unfolding copy_nonoverlapping
  nsm_get_raw_from_vec input output output_size =
      if is_null output then pure (buffer_too_small, 0) else do
        let result = if leb (length input) output_size then success else buffer_too_small
        let size = min output_size (length input % 2 ^ 32)
        copy_nonoverlapping input output size
        pure (result, size)
