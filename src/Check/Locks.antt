-- ===== src/Check/Locks.antt =====
-- check_pcr_locks of nsm-test/src/bin/nsm-check.rs: what may be locked and extended, and when.
use aws_nitro_enclaves_nsm_a.Base.{
  ℕ, zero, suc, ◌+◌, ◌-◌, ◌^◌, not, ◌&&◌, ◌||◌, [], ◌∷◌, Bytes, leb, ◌==◌, if◌then◌else◌, length,
  replicate,
}
use aws_nitro_enclaves_nsm_a.Base.Ints.{ℤ}
use aws_nitro_enclaves_nsm_a.Machine.{Cmd, pure, panics, assertion_failed, overflow, ◌>>=◌, ◌>>◌}
use aws_nitro_enclaves_nsm_a.NsmIo.{Request, Response}
use aws_nitro_enclaves_nsm_a.Driver.Api.{NsmDriver}
use aws_nitro_enclaves_nsm_a.Check.Asserts.{assert, bytes_eq}
use aws_nitro_enclaves_nsm_a.Check.Pcrs.{Description, get_pcr_len, reserved_pcrs}

-- `let dummy_data: Vec<u8> = vec![1, 2, 3]`
abbrev pub dummy_data : Bytes
dummy_data = 1 ∷ 2 ∷ 3 ∷ []

-- The arms of the checks on a single response.
module _ {K : Type 0} where
  unfoldable pub expect_error : Response → Cmd K (Unit {0})
  expect_error (Response.error _) = pure tt
  expect_error _ = panics assertion_failed

  unfoldable pub expect_lock_pcr : Response → Cmd K (Unit {0})
  expect_lock_pcr Response.lock_pcr = pure tt
  expect_lock_pcr _ = panics assertion_failed

  unfoldable pub expect_lock_pcrs : Response → Cmd K (Unit {0})
  expect_lock_pcrs Response.lock_pcrs = pure tt
  expect_lock_pcrs _ = panics assertion_failed

  unfoldable pub expect_extended : ℕ → Response → Cmd K (Unit {0})
  expect_extended expected_pcr_len (Response.extend_pcr value) = do
    assert (length value == expected_pcr_len)
    assert (not (bytes_eq value (replicate expected_pcr_len 0)))
  expect_extended expected_pcr_len _ = panics assertion_failed

  -- `3` and `RESERVED_PCRS..=15` are empty, all else is not; every PCR is locked.
  unfoldable pub expect_described : ℕ → ℕ → Response → Cmd K (Unit {0})
  expect_described expected_pcr_len index (Response.describe_pcr lock value) = do
    let zeroed_pcr : Bytes = replicate expected_pcr_len 0
    let empty = index == 3 || leb reserved_pcrs index && leb index 15
    assert (length value == expected_pcr_len)
    assert (if empty then bytes_eq value zeroed_pcr else not (bytes_eq value zeroed_pcr))
    assert lock
  expect_described expected_pcr_len index _ = panics assertion_failed

  -- `for index in index..index + n`
  unfoldable pub for_each : (ℕ → Cmd K (Unit {0})) → (index n : ℕ) → Cmd K (Unit {0})
  for_each body index zero = pure tt
  for_each body index (suc n) = do body index; for_each body (suc index) n

  -- `for _ in 0..n`
  unfoldable pub repeat : ℕ → Cmd K (Unit {0}) → Cmd K (Unit {0})
  repeat zero body = pure tt
  repeat (suc n) body = do body; repeat n body

  -- `range += 1` on a u16 panics where it passes the range of the type, as in a debug build.
  unfoldable pub add_one_u16 : ℕ → Cmd K ℕ
  add_one_u16 range = if leb (2 ^ 16) (range + 1) then panics overflow else pure (range + 1)

module _ {K B : Type 0} (d : NsmDriver K B) (ctx : ℤ) where
  open d use {nsm_process_request}

  abbrev pub request : Request B → (Response → Cmd K (Unit {0})) → Cmd K (Unit {0})
  request q expect = nsm_process_request ctx q >>= expect

  unfoldable pub check_pcr_locks : Description → Cmd K (Unit {0})
  check_pcr_locks description = do
    let expected_pcr_len = get_pcr_len description
    let range = description.max_pcrs
    for_each (λ index. request (Request.lock_pcr index) expect_error) 0 16
    repeat 10 (
        for_each
          (λ index.
            request (Request.extend_pcr index dummy_data) (expect_extended expected_pcr_len))
          16 (description.max_pcrs - 16))
    for_each (λ index. request (Request.lock_pcr index) expect_lock_pcr) 16
        (description.max_pcrs - 16)
    request (Request.lock_pcrs range) expect_lock_pcrs
    range' ← add_one_u16 range
    request (Request.lock_pcrs range') expect_error
    for_each (λ index. request (Request.extend_pcr index dummy_data) expect_error) 0
        description.max_pcrs
    repeat 10 (
        for_each
          (λ index. request (Request.describe_pcr index) (expect_described expected_pcr_len index))
          0 description.max_pcrs)
