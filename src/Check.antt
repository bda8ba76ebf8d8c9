-- ===== src/Check.antt =====
-- nsm-test/src/bin/nsm-check.rs: the run-time test of the Rust API, over any driver. An assertion
-- that fails and an unexpected response are panics. What it prints is left out.
pub mod Asserts
pub mod Pcrs
pub mod Locks
pub mod Services
pub mod Loops
pub mod Initial
pub mod Protocol
pub mod Rules
pub mod Stages
pub mod Locking
pub mod Passing
pub mod Serving
pub mod Whole
pub mod Detecting
pub mod Sampling
use aws_nitro_enclaves_nsm_a.Base.{not, none, Bytes, ◌==◌, length}
use aws_nitro_enclaves_nsm_a.Base.Ints.{is_negative}
use aws_nitro_enclaves_nsm_a.Machine.{Cmd, ◌>>=◌, ◌>>◌}
use aws_nitro_enclaves_nsm_a.Driver.Api.{NsmDriver}
use Asserts.{assert}
use Pcrs.{get_nsm_description, check_initial_pcrs}
use Locks.{check_pcr_locks}
use Services.{check_single_attestation, check_attestation, check_random}

module _ {K B : Type 0} (d : NsmDriver K B) (byte_buf : Bytes → B) where
  unfoldable pub main : Cmd K (Unit {0})
  main = do
    ctx ← d.nsm_init
    assert (not (is_negative ctx))
    description ← get_nsm_description d ctx
    assert (description.max_pcrs == 32)
    assert (not (length description.module_id == 0))
    check_single_attestation d ctx none none none
    check_initial_pcrs d ctx description
    check_pcr_locks d ctx description
    check_attestation d ctx byte_buf
    check_random d ctx
    d.nsm_exit ctx
