-- ===== src/Driver/Api.antt =====
-- What nsm-lib and the test programs use of the driver: its three public functions, and the one
-- law that they need. Driver/Answers.antt shows that nsm-driver/src/lib.rs is such a driver.
use aws_nitro_enclaves_nsm_a.Base.{◌≡◌}
use aws_nitro_enclaves_nsm_a.Base.Ints.{ℤ}
use aws_nitro_enclaves_nsm_a.Machine.{World, Cmd, Outcome}
use aws_nitro_enclaves_nsm_a.NsmIo.{Request, Response}

-- A request is answered, whatever it is; of the caller's world only the kernel's state changes.
abbrev pub Answers : {K B : Type 0} → (ℤ → Request B → Cmd K Response) → Type 0
Answers {K} {B} process =
    (fd : ℤ) (q : Request B) (w : World K)
    → (r : Response) × (k : K) × (process fd q w ≡ Outcome.ok r (record w { kernel = k }))

pub record NsmDriver (K B : Type 0) : Type 0 where
  pub nsm_init : Cmd K ℤ
  pub nsm_exit : ℤ → Cmd K (Unit {0})
  pub nsm_process_request : ℤ → Request B → Cmd K Response
  pub answers : Answers nsm_process_request

-- The response to a request, and the world behind it.
module _ {K B : Type 0} (d : NsmDriver K B) (fd : ℤ) (q : Request B) (w : World K) where
  pub reply : Response
  reply = (d.answers fd q w).0

  unfoldable pub behind : World K
  behind = record w { kernel = (d.answers fd q w).1 }

  pub nsm_process_request-reply : d.nsm_process_request fd q w ≡ Outcome.ok reply behind
  unfolding reply behind
  nsm_process_request-reply = (d.answers fd q w).2

  pub memory-behind : behind.memory ≡ w.memory
  unfolding behind
  memory-behind = λ i. w.memory

  pub log-behind : behind.log ≡ w.log
  unfolding behind
  log-behind = λ i. w.log
