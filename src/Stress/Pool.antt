-- ===== src/Stress/Pool.antt =====
-- main of nsm-multithread.rs: the opening of the device, and, as steps that come in any order, the
-- loop that gives jobs to the pool, its threads, the signal, and the end. threadpool runs at most
-- 90 jobs at once; here any job may go on, which allows all the orders that it has.
use aws_nitro_enclaves_nsm_a.Base.{
  ℕ, ◌+◌, ◌≡◌, ◌≢◌, Bool, true, false, not, Option, none, some, List, [], ◌∷◌, Bytes, Result,
  get_elem?, set,
}
use aws_nitro_enclaves_nsm_a.Base.Ints.{ℤ, is_negative}
use aws_nitro_enclaves_nsm_a.Machine.{World, ok, Cmd, pure, unwrap_ok, ◌>>=◌, ◌>>◌}
use aws_nitro_enclaves_nsm_a.Check.Asserts.{assert}
use aws_nitro_enclaves_nsm_a.NsmIo.{Request, Response}
use aws_nitro_enclaves_nsm_a.Driver.Api.{NsmDriver}
use aws_nitro_enclaves_nsm_a.Stress.{
  ErrorCode, Thread, ret, ask, compare_exchange, attested, attestation_job, extend_pcr,
}

-- Up to the opened device. `register` is that of signal_hook for SIGTERM.
unfoldable pub begin :
    {K B : Type 0} → NsmDriver K B → (register : Cmd K (Result (Unit {0}) ℕ)) → Cmd K ℤ
begin d register = do
  registered ← register
  unwrap_ok registered
  ctx ← d.nsm_init
  assert (not (is_negative ctx))
  pure ctx

-- Where main stands: at the head of the loop, behind each of the two loads, between the two jobs,
-- at `pool.join`, or exited.
pub data Phase : Type 0 where
  looping loaded submitting joining : Phase
  exited : ℕ → Phase

-- `tasks` are the jobs given to the pool, the latest first, each as what is left of it; `seen` is
-- the history of requests and responses, which nothing reads.
pub record State (K B : Type 0) : Type 0 where
  pub world : World K
  pub term : Bool
  pub exit_code : ℕ
  pub j : ℕ
  pub tasks : List (Thread B (Unit {0}))
  pub phase : Phase
  pub seen : List (Request B × Response)

abbrev pub start : {K B : Type 0} → World K → State K B
start w = record {
  world = w;
  term = false;
  exit_code = 0;
  j = 0;
  tasks = [];
  phase = looping;
  seen = [];
}

-- Every job has come to its end.
abbrev pub AllDone : {B : Type 0} → List (Thread B (Unit {0})) → Type 0
AllDone {B} tasks = (i : ℕ) (p : Thread B (Unit {0})) → get_elem? tasks i ≡ some p → p ≡ ret tt

pub data Step {K B : Type 0} (d : NsmDriver K B) (ctx : ℤ) (byte_buf : Bytes → B)
    : State K B → State K B → Type 0 where
  signal : (s : State K B) → Step d ctx byte_buf s (record s { term = true })
  load_term :
      (s : State K B)
      → s.phase ≡ looping
      → s.term ≡ false
      → Step d ctx byte_buf s (record s { phase = loaded })
  stop_term :
      (s : State K B)
      → s.phase ≡ looping
      → s.term ≡ true
      → Step d ctx byte_buf s (record s { phase = joining })
  stop_code :
      (s : State K B)
      → s.phase ≡ loaded
      → s.exit_code ≢ 0
      → Step d ctx byte_buf s (record s { phase = joining })
  submit_attestation :
      (s : State K B)
      → s.phase ≡ loaded
      → s.exit_code ≡ 0
      → Step d ctx byte_buf s
          (record s { phase = submitting; tasks = attestation_job byte_buf ∷ s.tasks; j = s.j + 1 })
  submit_extension :
      (s : State K B)
      → s.phase ≡ submitting
      → Step d ctx byte_buf s
          (record s { phase = looping; tasks = extend_pcr s.j ∷ s.tasks; j = s.j + 1 })
  asks :
      (s : State K B) (i : ℕ) (q : Request B) (k : Response → Thread B (Unit {0})) (r : Response)
      (w : World K)
      → get_elem? s.tasks i ≡ some (ask q k)
      → d.nsm_process_request ctx q s.world ≡ ok r w
      → Step d ctx byte_buf s
          (record s { world = w; tasks = set s.tasks i (k r); seen = (q, r) ∷ s.seen })
  exchanges :
      (s : State K B) (i current new : ℕ) (k : Result ℕ ℕ → Thread B (Unit {0}))
      → get_elem? s.tasks i ≡ some (compare_exchange current new k)
      → s.exit_code ≡ current
      → Step d ctx byte_buf s
          (record s { exit_code = new; tasks = set s.tasks i (k (Result.ok s.exit_code)) })
  keeps :
      (s : State K B) (i current new : ℕ) (k : Result ℕ ℕ → Thread B (Unit {0}))
      → get_elem? s.tasks i ≡ some (compare_exchange current new k)
      → s.exit_code ≢ current
      → Step d ctx byte_buf s (record s { tasks = set s.tasks i (k (Result.err s.exit_code)) })
  exit :
      (s : State K B) (w : World K)
      → s.phase ≡ joining
      → AllDone s.tasks
      → d.nsm_exit ctx s.world ≡ ok tt w
      → Step d ctx byte_buf s (record s { phase = exited s.exit_code; world = w })

pub data Steps {K B : Type 0} (d : NsmDriver K B) (ctx : ℤ) (byte_buf : Bytes → B)
    : State K B → State K B → Type 0 where
  stay : (s : State K B) → Steps d ctx byte_buf s s
  then_step :
      (s t u : State K B)
      → Steps d ctx byte_buf s t
      → Step d ctx byte_buf t u
      → Steps d ctx byte_buf s u

-- The error that a response to an attestation request is.
unfoldable pub failure_of : {B : Type 0} → Request B → Response → Option ErrorCode
failure_of (Request.attestation _ _ _) r = elim (attested r) [
  | Result.ok _ ↦ none
  | Result.err e ↦ some e
]
failure_of _ r = none

unfoldable pub failures : {B : Type 0} → List (Request B × Response) → List ErrorCode
failures [] = []
failures ((q, r) ∷ seen) = elim (failure_of q r) [
  | none ↦ failures seen
  | some e ↦ e ∷ failures seen
]
