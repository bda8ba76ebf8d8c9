-- ===== src/Stress/ExitCode.antt =====
-- The exit code of nsm-multithread.rs over all the orders in which its threads run.
use aws_nitro_enclaves_nsm_a.Base.{
  ℕ, zero, suc, ◌≡◌, refl, sym, ap, subst, ◌∙◌, ◌≢◌, ◌⊎◌, inl, inr, Option, none, some, List, [],
  ◌∷◌, Bytes, Result, get_elem?, set, set-cases, get_elem?-set,
}
use aws_nitro_enclaves_nsm_a.Base.Ints.{ℤ}
use aws_nitro_enclaves_nsm_a.Machine.{World}
use aws_nitro_enclaves_nsm_a.NsmIo.{Request, Response}
use aws_nitro_enclaves_nsm_a.Driver.Api.{NsmDriver}
use aws_nitro_enclaves_nsm_a.Stress.{ErrorCode, as_i32, Thread, ret, ask, compare_exchange}
use aws_nitro_enclaves_nsm_a.Stress.Pool.{
  exited, State, start, AllDone, Step, Steps, failure_of, failures,
}
use aws_nitro_enclaves_nsm_a.Stress.Jobs.{Pending, Sound, attestation_job-Sound, extend_pcr-Sound}

abbrev pub In : ErrorCode → List ErrorCode → Type 0
In e es = (i : ℕ) × (get_elem? es i ≡ some e)

In-cons : (e e' : ErrorCode) (es : List ErrorCode) → In e es → In e (e' ∷ es)
In-cons e e' es (i, g) = (suc i, g)

as_i32-nonzero : (e : ErrorCode) → as_i32 e ≢ 0
unfolding as_i32
as_i32-nonzero ErrorCode.attestation_document_empty h = cc
as_i32-nonzero ErrorCode.attestation_invalid_response h = cc

-- The errors `es` that were seen are reported, or about to be; nothing else is.
pub record Reported {B : Type 0} (tasks : List (Thread B (Unit {0}))) (code : ℕ)
    (es : List ErrorCode) : Type 0 where
  pub jobs :
      (i : ℕ) (p : Thread B (Unit {0}))
      → get_elem? tasks i ≡ some p
      → Sound p ⊎ ((e : ErrorCode) × Pending e p × In e es)
  pub explained : (code ≡ 0) ⊎ ((e : ErrorCode) × (code ≡ as_i32 e) × In e es)
  pub caught :
      (es ≡ [])
      ⊎ (code ≢ 0)
      ⊎ ((i : ℕ) × (p : Thread B (Unit {0})) × (e : ErrorCode) × (get_elem? tasks i ≡ some p)
          × Pending e p)

module _ {B : Type 0} (tasks : List (Thread B (Unit {0}))) (code : ℕ) (es : List ErrorCode)
    (h : Reported tasks code es) where
  submit-Reported : (p : Thread B (Unit {0})) → Sound p → Reported (p ∷ tasks) code es
  submit-Reported p sound = record {
    jobs = jobs;
    explained = h.explained;
    caught = elim h.caught [
      | inl none_seen ↦ inl none_seen
      | inr (inl nonzero) ↦ inr (inl nonzero)
      | inr (inr (i, q, e, g, pending)) ↦ inr (inr (suc i, q, e, g, pending))
    ];
  }
    where
      jobs :
          (i : ℕ) (q : Thread B (Unit {0}))
          → get_elem? (p ∷ tasks) i ≡ some q
          → Sound q ⊎ ((e : ErrorCode) × Pending e q × In e es)
      jobs zero q g = let same : p ≡ q = cc in inl (subst Sound same sound)
      jobs (suc i) q g = h.jobs i q g

  -- What is left of job `i` once it has gone on.
  module _ (i : ℕ) (old new : Thread B (Unit {0})) (g : get_elem? tasks i ≡ some old) where
    gone_on-Reported :
        ((e : ErrorCode) → ¬ Pending e old) → Sound new → Reported (set tasks i new) code es
    gone_on-Reported quiet sound = record {
      jobs = λ j q g'. elim (set-cases tasks i j new q g') [
        | inl (_, same) ↦ inl (subst Sound (sym same) sound)
        | inr (_, before) ↦ h.jobs j q before
      ];
      explained = h.explained;
      caught = elim h.caught [
        | inl none_seen ↦ inl none_seen
        | inr (inl nonzero) ↦ inr (inl nonzero)
        | inr (inr (j, q, e, g', pending)) ↦ elim (get_elem?-set tasks i j new q g') [
          | inl (same, _) ↦
              let is_old : q ≡ old = cc in absurd (quiet e (subst (Pending e) is_old pending))
          | inr (_, kept) ↦ inr (inr (j, q, e, kept, pending))
        ]
      ];
    }

    failed-Reported : (e : ErrorCode) → Pending e new → Reported (set tasks i new) code (e ∷ es)
    failed-Reported e pending = record {
      jobs = λ j q g'. elim (set-cases tasks i j new q g') [
        | inl (_, same) ↦ inr (e, subst (Pending e) (sym same) pending, (0, refl))
        | inr (_, before) ↦ elim (h.jobs j q before) [
          | inl sound ↦ inl sound
          | inr (e', p, seen) ↦ inr (e', p, In-cons e' e es seen)
        ]
      ];
      explained = elim h.explained [
        | inl zeroed ↦ inl zeroed
        | inr (e', c, seen) ↦ inr (e', c, In-cons e' e es seen)
      ];
      caught = elim (get_elem?-set tasks i i new old g) [
        | inl (_, now) ↦ inr (inr (i, new, e, now, pending))
        | inr (other, _) ↦ absurd (other refl)
      ];
    }

    -- Reporting an error: the exit code is, or becomes, nonzero.
    told-Reported :
        (code' : ℕ)
        → Sound new
        → code' ≢ 0
        → (code' ≡ 0) ⊎ ((e : ErrorCode) × (code' ≡ as_i32 e) × In e es)
        → Reported (set tasks i new) code' es
    told-Reported code' sound nonzero why = record {
      jobs = λ j q g'. elim (set-cases tasks i j new q g') [
        | inl (_, same) ↦ inl (subst Sound (sym same) sound)
        | inr (_, before) ↦ h.jobs j q before
      ];
      explained = why;
      caught = inr (inl nonzero);
    }

module _ {B : Type 0} where
  ask-Pending :
      (q : Request B) (k : Response → Thread B (Unit {0})) (e : ErrorCode) → ¬ Pending e (ask q k)
  ask-Pending q k e (k', same, _) = cc

  -- An answer fails and is to be reported, or the job goes on.
  answered-cases :
      (q : Request B) (k : Response → Thread B (Unit {0})) (r : Response)
      → Sound (ask q k)
      → ((failure_of q r ≡ none) × Sound (k r))
        ⊎ ((e : ErrorCode) × (failure_of q r ≡ some e) × Pending e (k r))
  unfolding Sound
  answered-cases q k r sound = go (failure_of q r) refl (sound r)
    where
      go :
          (o : Option ErrorCode)
          → failure_of q r ≡ o
          → elim o as (λ _. Type 0) [ none ↦ Sound (k r) | some e ↦ Pending e (k r) ]
          → ((failure_of q r ≡ none) × Sound (k r))
            ⊎ ((e : ErrorCode) × (failure_of q r ≡ some e) × Pending e (k r))
      go none same s = inl (same, s)
      go (some e) same s = inr (e, same, s)

  asks-Reported :
      (tasks : List (Thread B (Unit {0}))) (code : ℕ) (seen : List (Request B × Response)) (i : ℕ)
      (q : Request B) (k : Response → Thread B (Unit {0})) (r : Response)
      → get_elem? tasks i ≡ some (ask q k)
      → Reported tasks code (failures seen)
      → Reported (set tasks i (k r)) code (failures ((q, r) ∷ seen))
  unfolding failures
  asks-Reported tasks code seen i q k r g h = elim (h.jobs i (ask q k) g) [
    | inl sound ↦ elim (answered-cases q k r sound) [
      | inl (fine, s) ↦
          rw (fine, failures)
            (gone_on-Reported tasks code (failures seen) h i (ask q k) (k r) g (ask-Pending q k) s)
      | inr (e, fails, p) ↦
          rw (fails, failures)
            (failed-Reported tasks code (failures seen) h i (ask q k) (k r) g e p)
    ]
    | inr (e, p, _) ↦ absurd (ask-Pending q k e p)
  ]

  ret-Sound : (p : Thread B (Unit {0})) → p ≡ ret tt → Sound p
  unfolding Sound
  ret-Sound p e = rw e tt

  exchange-Reported :
      (tasks : List (Thread B (Unit {0}))) (code : ℕ) (es : List ErrorCode) (i current new : ℕ)
      (k : Result ℕ ℕ → Thread B (Unit {0})) (x : Result ℕ ℕ)
      → get_elem? tasks i ≡ some (compare_exchange current new k)
      → Reported tasks code es
      → (code ≡ current → Reported (set tasks i (k x)) new es)
        × (code ≢ current → Reported (set tasks i (k x)) code es)
  unfolding Sound
  exchange-Reported tasks code es i current new k x g h =
      elim (h.jobs i (compare_exchange current new k) g) [
        | inl never ↦ absurd never
        | inr (e, (k', same, ends), seen) ↦
            let zeroed : current ≡ 0 = cc in
            let told : new ≡ as_i32 e = cc in
            let next : k ≡ k' = cc in
            let sound : Sound (k x) = ret-Sound (k x) (ap (λ f. f x) next ∙ ends x) in
            (
              λ _.
                  told-Reported tasks code es h i (compare_exchange current new k) (k x) g new sound
                    (λ z. as_i32-nonzero e (sym told ∙ z)) (inr (e, told, seen)),
              λ other.
                  told-Reported tasks code es h i (compare_exchange current new k) (k x) g code
                    sound (λ z. other (z ∙ sym zeroed)) h.explained,
            )
      ]

module _ {K B : Type 0} (d : NsmDriver K B) (ctx : ℤ) (byte_buf : Bytes → B) where
  Step-Reported :
      (s t : State K B)
      → Step d ctx byte_buf s t
      → Reported s.tasks s.exit_code (failures s.seen)
      → Reported t.tasks t.exit_code (failures t.seen)
  Step-Reported s t (Step.signal s') h = h
  Step-Reported s t (Step.load_term s' _ _) h = h
  Step-Reported s t (Step.stop_term s' _ _) h = h
  Step-Reported s t (Step.stop_code s' _ _) h = h
  Step-Reported s t (Step.submit_attestation s' _ _) h =
      submit-Reported _ _ _ h _ (attestation_job-Sound byte_buf)
  Step-Reported s t (Step.submit_extension s' _) h =
      submit-Reported _ _ _ h _ (extend_pcr-Sound B s.j)
  Step-Reported s t (Step.asks s' i q k r w g _) h =
      asks-Reported s.tasks s.exit_code s.seen i q k r g h
  Step-Reported s t (Step.exchanges s' i current new k g same) h =
      (exchange-Reported _ _ _ i current new k _ g h).0 same
  Step-Reported s t (Step.keeps s' i current new k g other) h =
      (exchange-Reported _ _ _ i current new k _ g h).1 other
  Step-Reported s t (Step.exit s' w _ _ _) h = h

  -- What main has exited with is the exit code, and no job is left.
  unfoldable pub Ended : State K B → Type 0
  Ended s = (c : ℕ) → s.phase ≡ exited c → (c ≡ s.exit_code) × AllDone s.tasks

  Step-Ended : (s t : State K B) → Step d ctx byte_buf s t → Ended s → Ended t
  unfolding Ended
  Step-Ended s t (Step.signal s') h = h
  Step-Ended s t (Step.load_term s' _ _) h = λ c e. cc
  Step-Ended s t (Step.stop_term s' _ _) h = λ c e. cc
  Step-Ended s t (Step.stop_code s' _ _) h = λ c e. cc
  Step-Ended s t (Step.submit_attestation s' _ _) h = λ c e. cc
  Step-Ended s t (Step.submit_extension s' _) h = λ c e. cc
  Step-Ended s t (Step.asks s' i q k r w g _) h =
      λ c e. let done : ask q k ≡ ret tt = (h c e).1 i (ask q k) g in cc
  Step-Ended s t (Step.exchanges s' i current new k g _) h = λ c e.
      let done : compare_exchange current new k ≡ ret tt =
        (h c e).1 i (compare_exchange current new k) g in
      cc
  Step-Ended s t (Step.keeps s' i current new k g _) h = λ c e.
      let done : compare_exchange current new k ≡ ret tt =
        (h c e).1 i (compare_exchange current new k) g in
      cc
  Step-Ended s t (Step.exit s' w _ all _) h = λ c e. (cc, all)

  pub Steps-Reported :
      (w : World K) (s : State K B)
      → Steps d ctx byte_buf (start w) s
      → Reported s.tasks s.exit_code (failures s.seen) × Ended s
  unfolding Ended failures
  Steps-Reported w s (Steps.stay _) =
      (record { jobs = λ i p g. cc; explained = inl refl; caught = inl refl }, λ c e. cc)
  Steps-Reported w s (Steps.then_step _ t _ before step) =
      let (reported, ended) = Steps-Reported w t before in
      (Step-Reported t s step reported, Step-Ended t s step ended)

  -- In whatever order main of nsm-multithread, its jobs, their requests to the device and the
  -- signal take their steps from the start, where main has exited with code c, either c is 0 and no
  -- attestation request has failed, or c is the value of the error of an attestation request that
  -- has failed: with an empty document, or with another response.
  pub exited-failures :
      (w : World K) (s : State K B) (c : ℕ)
      → Steps d ctx byte_buf (start w) s
      → s.phase ≡ exited c
      → ((c ≡ 0) × (failures s.seen ≡ []))
        ⊎ ((e : ErrorCode) × (c ≡ as_i32 e) × In e (failures s.seen))
  unfolding Ended
  exited-failures w s c steps e =
      let (reported, ended) = Steps-Reported w s steps in
      let (code, all) = ended c e in
      elim reported.explained [
        | inr (why, is, seen) ↦ inr (why, code ∙ is, seen)
        | inl zeroed ↦ elim reported.caught [
          | inl none_seen ↦ inl (code ∙ zeroed, none_seen)
          | inr (inl nonzero) ↦ absurd (nonzero zeroed)
          | inr (inr (i, p, why, g, (k, same, _))) ↦ let done : p ≡ ret tt = all i p g in cc
        ]
      ]
