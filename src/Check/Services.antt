-- ===== src/Check/Services.antt =====
-- check_single_attestation, check_attestation and check_random of nsm-test/src/bin/nsm-check.rs.
use aws_nitro_enclaves_nsm_a.Base.{
  ℕ, zero, suc, not, Option, none, some, [], Bytes, ◌==◌, length, replicate,
}
use aws_nitro_enclaves_nsm_a.Base.Ints.{ℤ}
use aws_nitro_enclaves_nsm_a.Machine.{Cmd, pure, panics, assertion_failed, ◌>>=◌, ◌>>◌}
use aws_nitro_enclaves_nsm_a.NsmIo.{Request, Response}
use aws_nitro_enclaves_nsm_a.Driver.Api.{NsmDriver}
use aws_nitro_enclaves_nsm_a.Check.Asserts.{assert, bytes_eq}

abbrev pub data_len : ℕ
data_len = 1024

-- `vec![128; DATA_LEN]`
unfoldable pub dummy_data : Bytes
dummy_data = replicate data_len 128

module _ {K : Type 0} where
  unfoldable pub expect_document : Response → Cmd K (Unit {0})
  expect_document (Response.attestation document) = assert (not (length document == 0))
  expect_document _ = panics assertion_failed

  -- The new `prev_random`.
  unfoldable pub expect_random : Bytes → Response → Cmd K Bytes
  expect_random prev_random (Response.get_random random) = do
    assert (not (length random == 0))
    assert (not (bytes_eq prev_random random))
    pure random
  expect_random prev_random _ = panics assertion_failed

module _ {K B : Type 0} (d : NsmDriver K B) (ctx : ℤ) where
  open d use {nsm_process_request}

  unfoldable pub check_single_attestation :
      (user_data nonce public_key : Option B) → Cmd K (Unit {0})
  check_single_attestation user_data nonce public_key = do
    response ← nsm_process_request ctx (Request.attestation user_data nonce public_key)
    expect_document response

  -- `byte_buf` is `ByteBuf::from` of serde_bytes.
  unfoldable pub check_attestation : (byte_buf : Bytes → B) → Cmd K (Unit {0})
  check_attestation byte_buf = do
    let buf = some (byte_buf dummy_data)
    check_single_attestation none none none
    check_single_attestation buf none none
    check_single_attestation buf buf none
    check_single_attestation buf buf buf

  -- The rounds that are left of the loop.
  unfoldable pub check_random_loop : ℕ → (prev_random : Bytes) → Cmd K (Unit {0})
  check_random_loop zero prev_random = pure tt
  check_random_loop (suc n) prev_random = do
    response ← nsm_process_request ctx Request.get_random
    random ← expect_random prev_random response
    check_random_loop n random

  unfoldable pub check_random : Cmd K (Unit {0})
  check_random = check_random_loop 16 []
