-- ===== src/Stress/Bounded.antt =====
-- How many steps the stress test of nsm-multithread.rs can take once main waits for the pool.
use aws_nitro_enclaves_nsm_a.Base.{
  ℕ, ◌+◌, ◌*◌, ◌≤◌, ◌≡◌, refl, ◌⊎◌, inl, inr, Bytes, Result, arith, length, length-set,
}
use aws_nitro_enclaves_nsm_a.Base.Ints.{ℤ}
use aws_nitro_enclaves_nsm_a.Machine.{World}
use aws_nitro_enclaves_nsm_a.Driver.Api.{NsmDriver}
use aws_nitro_enclaves_nsm_a.Stress.{ret, ask, compare_exchange}
use aws_nitro_enclaves_nsm_a.Stress.Pool.{joining, exited, State, start, AllDone, Step, Steps}
use aws_nitro_enclaves_nsm_a.Stress.Within.{
  AllWithin, extend_pcr-Within, attestation_job-Within, AllWithin-le, AllWithin-set, ask-goes,
  exchange-goes,
}

module _ {K B : Type 0} (d : NsmDriver K B) (ctx : ℤ) (byte_buf : Bytes → B) where
  -- A signal sets a flag; every other step is a move of main or of a job.
  unfoldable pub weight : {s t : State K B} → Step d ctx byte_buf s t → ℕ
  weight (Step.signal _) = 0
  weight _ = 1

  unfoldable pub moves : {s t : State K B} → Steps d ctx byte_buf s t → ℕ
  moves (Steps.stay _) = 0
  moves (Steps.then_step _ _ _ before step) = moves before + weight step

  -- Every job in the pool takes at most five.
  Step-AllWithin :
      (s t : State K B)
      → Step d ctx byte_buf s t
      → AllWithin (5 * length s.tasks) s.tasks
      → AllWithin (5 * length t.tasks) t.tasks
  Step-AllWithin s t (Step.signal _) h = h
  Step-AllWithin s t (Step.load_term _ _ _) h = h
  Step-AllWithin s t (Step.stop_term _ _ _) h = h
  Step-AllWithin s t (Step.stop_code _ _ _) h = h
  Step-AllWithin s t (Step.submit_attestation _ _ _) h =
      unfold AllWithin in (5, 5 * length s.tasks, omega arith, attestation_job-Within byte_buf, h)
  Step-AllWithin s t (Step.submit_extension _ _) h =
      unfold AllWithin in (2, 5 * length s.tasks, omega arith, extend_pcr-Within B s.j, h)
  Step-AllWithin s t (Step.asks _ i q k r w g _) h =
      let (n, le, h') = AllWithin-set _ s.tasks i _ (k r) (ask-goes q k r) g h in
      AllWithin-le n _ _ (omega (arith, length-set s.tasks i (k r))) h'
  Step-AllWithin s t (Step.exchanges _ i current new k g _) h =
      let x : Result ℕ ℕ = Result.ok s.exit_code in
      let (n, le, h') = AllWithin-set _ s.tasks i _ (k x) (exchange-goes current new k x) g h in
      AllWithin-le n _ _ (omega (arith, length-set s.tasks i (k x))) h'
  Step-AllWithin s t (Step.keeps _ i current new k g _) h =
      let x : Result ℕ ℕ = Result.err s.exit_code in
      let (n, le, h') = AllWithin-set _ s.tasks i _ (k x) (exchange-goes current new k x) g h in
      AllWithin-le n _ _ (omega (arith, length-set s.tasks i (k x))) h'
  Step-AllWithin s t (Step.exit _ w _ _ _) h = h

  Steps-AllWithin :
      (w : World K) (s : State K B)
      → Steps d ctx byte_buf (start w) s
      → AllWithin (5 * length s.tasks) s.tasks
  Steps-AllWithin w s (Steps.stay _) = unfold AllWithin in tt
  Steps-AllWithin w s (Steps.then_step _ t _ before step) =
      Step-AllWithin t s step (Steps-AllWithin w t before)

  -- main waits, and the jobs have `n` to do.
  IsWaiting : ℕ → State K B → Type 0
  IsWaiting n s = (s.phase ≡ joining) × AllWithin n s.tasks

  IsOver : State K B → Type 0
  IsOver s = ((c : ℕ) × (s.phase ≡ exited c)) × AllDone s.tasks

  Step-IsWaiting :
      (n : ℕ) (s t : State K B) (step : Step d ctx byte_buf s t)
      → IsWaiting n s
      → ((n' : ℕ) × (n' + weight step ≤ n) × IsWaiting n' t) ⊎ ((weight step ≡ 1) × IsOver t)
  unfolding weight IsWaiting IsOver
  Step-IsWaiting n s t (Step.signal _) (j, h) = inl (n, omega arith, (j, h))
  Step-IsWaiting n s t (Step.load_term _ e _) (j, h) = cc
  Step-IsWaiting n s t (Step.stop_term _ e _) (j, h) = cc
  Step-IsWaiting n s t (Step.stop_code _ e _) (j, h) = cc
  Step-IsWaiting n s t (Step.submit_attestation _ e _) (j, h) = cc
  Step-IsWaiting n s t (Step.submit_extension _ e) (j, h) = cc
  Step-IsWaiting n s t (Step.asks _ i q k r w g _) (j, h) =
      let (n', le, h') = AllWithin-set n s.tasks i _ (k r) (ask-goes q k r) g h in
      inl (n', omega arith, (j, h'))
  Step-IsWaiting n s t (Step.exchanges _ i current new k g _) (j, h) =
      let x : Result ℕ ℕ = Result.ok s.exit_code in
      let (n', le, h') = AllWithin-set n s.tasks i _ (k x) (exchange-goes current new k x) g h in
      inl (n', omega arith, (j, h'))
  Step-IsWaiting n s t (Step.keeps _ i current new k g _) (j, h) =
      let x : Result ℕ ℕ = Result.err s.exit_code in
      let (n', le, h') = AllWithin-set n s.tasks i _ (k x) (exchange-goes current new k x) g h in
      inl (n', omega arith, (j, h'))
  Step-IsWaiting n s t (Step.exit _ w _ all _) (j, h) = inr (refl, ((s.exit_code, refl), all))

  Step-IsOver :
      (s t : State K B) (step : Step d ctx byte_buf s t) → IsOver s → (weight step ≡ 0) × IsOver t
  unfolding weight IsOver
  Step-IsOver s t (Step.signal _) h = (refl, h)
  Step-IsOver s t (Step.load_term _ e _) ((c, e'), all) = cc
  Step-IsOver s t (Step.stop_term _ e _) ((c, e'), all) = cc
  Step-IsOver s t (Step.stop_code _ e _) ((c, e'), all) = cc
  Step-IsOver s t (Step.submit_attestation _ e _) ((c, e'), all) = cc
  Step-IsOver s t (Step.submit_extension _ e) ((c, e'), all) = cc
  Step-IsOver s t (Step.asks _ i q k r w g _) (h, all) =
      let done : ask q k ≡ ret tt = all i (ask q k) g in cc
  Step-IsOver s t (Step.exchanges _ i current new k g _) (h, all) =
      let done : compare_exchange current new k ≡ ret tt =
        all i (compare_exchange current new k) g in
      cc
  Step-IsOver s t (Step.keeps _ i current new k g _) (h, all) =
      let done : compare_exchange current new k ≡ ret tt =
        all i (compare_exchange current new k) g in
      cc
  Step-IsOver s t (Step.exit _ w e _ _) ((c, e'), all) = cc

  moves-cases :
      (n : ℕ) (s t : State K B) (steps : Steps d ctx byte_buf s t)
      → IsWaiting n s
      → ((n' : ℕ) × (n' + moves steps ≤ n) × IsWaiting n' t) ⊎ ((moves steps ≤ n + 1) × IsOver t)
  unfolding moves
  moves-cases n s t (Steps.stay _) h = inl (n, omega arith, h)
  moves-cases n s t (Steps.then_step _ u _ before step) h = elim (moves-cases n s u before h) [
    | inl (n', le, h') ↦ elim (Step-IsWaiting n' u t step h') [
      | inl (n'', le', h'') ↦ inl (n'', omega arith, h'')
      | inr (one, over) ↦ inr (omega arith, over)
    ]
    | inr (le, over) ↦
        let (none_more, over') = Step-IsOver u t step over in inr (omega arith, over')
  ]

  -- From any reachable state in which main of nsm-multithread waits for the pool, no sequence of
  -- steps, in whatever order and with whatever answers of the device, has more than 5 for each job
  -- in the pool and one for the exit, but for signals, which only set a flag that is no longer
  -- read.
  pub moves-le :
      (w : World K) (s t : State K B)
      → Steps d ctx byte_buf (start w) s
      → s.phase ≡ joining
      → (steps : Steps d ctx byte_buf s t) → moves steps ≤ 5 * length s.tasks + 1
  moves-le w s t before waits steps =
      let n = 5 * length s.tasks in
      elim (moves-cases n s t steps (unfold IsWaiting in (waits, Steps-AllWithin w s before))) [
        | inl (_, le, _) ↦ omega arith
        | inr (le, _) ↦ le
      ]
