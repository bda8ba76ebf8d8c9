-- ===== src/Stress/Settled.antt =====
-- The exit code of nsm-multithread.rs once an error has been reported.
use aws_nitro_enclaves_nsm_a.Base.{◌≡◌, refl, sym, ◌∙◌, ◌≢◌, inl, inr, Bytes}
use aws_nitro_enclaves_nsm_a.Base.Ints.{ℤ}
use aws_nitro_enclaves_nsm_a.Machine.{World}
use aws_nitro_enclaves_nsm_a.Driver.Api.{NsmDriver}
use aws_nitro_enclaves_nsm_a.Stress.{compare_exchange}
use aws_nitro_enclaves_nsm_a.Stress.Pool.{State, start, Step, Steps, failures}
use aws_nitro_enclaves_nsm_a.Stress.Jobs.{Sound}
use aws_nitro_enclaves_nsm_a.Stress.ExitCode.{Reported, Steps-Reported}

module _ {K B : Type 0} (d : NsmDriver K B) (ctx : ℤ) (byte_buf : Bytes → B) where
  Steps-trans :
      (s t u : State K B)
      → Steps d ctx byte_buf s t
      → Steps d ctx byte_buf t u
      → Steps d ctx byte_buf s u
  Steps-trans s t u before (Steps.stay _) = before
  Steps-trans s t u before (Steps.then_step _ t' _ more step) =
      Steps.then_step s t' u (Steps-trans s t t' before more) step

  exit_code-Step :
      (s t : State K B)
      → Step d ctx byte_buf s t
      → Reported s.tasks s.exit_code (failures s.seen)
      → s.exit_code ≢ 0
      → t.exit_code ≡ s.exit_code
  unfolding Sound
  exit_code-Step s t (Step.signal _) h n = refl
  exit_code-Step s t (Step.load_term _ _ _) h n = refl
  exit_code-Step s t (Step.stop_term _ _ _) h n = refl
  exit_code-Step s t (Step.stop_code _ _ _) h n = refl
  exit_code-Step s t (Step.submit_attestation _ _ _) h n = refl
  exit_code-Step s t (Step.submit_extension _ _) h n = refl
  exit_code-Step s t (Step.asks _ i q k r w g _) h n = refl
  exit_code-Step s t (Step.exchanges _ i current new k g same) h n =
      elim (h.jobs i (compare_exchange current new k) g) [
        | inl never ↦ absurd never
        | inr (e, (k', is, _), _) ↦ let zeroed : current ≡ 0 = cc in absurd (n (same ∙ zeroed))
      ]
  exit_code-Step s t (Step.keeps _ i current new k g _) h n = refl
  exit_code-Step s t (Step.exit _ w _ _ _) h n = refl

  -- From any reachable state of nsm-multithread in which the exit code is not 0, every sequence of
  -- steps leaves the exit code as it is.
  pub exit_code-Steps :
      (w : World K) (s t : State K B)
      → Steps d ctx byte_buf (start w) s
      → Steps d ctx byte_buf s t
      → s.exit_code ≢ 0
      → t.exit_code ≡ s.exit_code
  exit_code-Steps w s t before (Steps.stay _) n = refl
  exit_code-Steps w s t before (Steps.then_step _ u _ more step) n =
      let so_far = exit_code-Steps w s u before more n in
      let reported =
        (Steps-Reported d ctx byte_buf w u (Steps-trans (start w) s u before more)).0 in
      exit_code-Step u t step reported (λ z. n (sym so_far ∙ z)) ∙ so_far
