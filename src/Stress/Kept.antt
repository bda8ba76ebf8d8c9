-- ===== src/Stress/Kept.antt =====
-- The PCRs of the device under the stress test of nsm-multithread.rs.
use aws_nitro_enclaves_nsm_a.Base.{
  ℕ, zero, suc, ◌≤◌, ◌<◌, ◌≡◌, refl, sym, ap, subst, ◌∙◌, inl, inr, Option, true, some, List, ◌∷◌,
  Bytes, Result, arith, length, get_elem?, set, set-cases, get_elem?-lt,
}
use aws_nitro_enclaves_nsm_a.Base.Ints.{ℤ}
use aws_nitro_enclaves_nsm_a.Machine.{World, ok}
use aws_nitro_enclaves_nsm_a.NsmIo.{Request, Response}
use aws_nitro_enclaves_nsm_a.Driver.Api.{NsmDriver}
use aws_nitro_enclaves_nsm_a.Check.Pcrs.{PcrData}
use aws_nitro_enclaves_nsm_a.Check.Protocol.{Bank, Responds, KeepsPcrs}
use aws_nitro_enclaves_nsm_a.Stress.{Thread, ask, compare_exchange}
use aws_nitro_enclaves_nsm_a.Stress.Pool.{State, start, Step, Steps}
use aws_nitro_enclaves_nsm_a.Stress.Harmless.{
  Asks, IsHarmless, attestation_job-Asks, extend_pcr-Asks,
}

-- Attestations are answered, and leave the PCRs alone.
abbrev pub AttestsOnly : {K B : Type 0} → NsmDriver K B → ℤ → (K → Bank) → Type 0
AttestsOnly {K} {B} d ctx view =
    (user_data nonce public_key : Option B) (w : World K)
    → (r : Response) × Responds d ctx view (Request.attestation user_data nonce public_key) w r
        (view w.kernel)

-- Closing the device leaves the PCRs alone.
abbrev pub ClosesOnly : {K B : Type 0} → NsmDriver K B → ℤ → (K → Bank) → Type 0
ClosesOnly {K} d ctx view =
    (w w' : World K) → d.nsm_exit ctx w ≡ ok tt w' → view w'.kernel ≡ view w.kernel

-- The first 16 PCRs are there, and locked.
abbrev pub FirstLocked : Bank → Type 0
FirstLocked bank =
    (16 ≤ length bank)
    × ((i : ℕ) (p : PcrData) → i < 16 → get_elem? bank i ≡ some p → p.lock ≡ true)

module _ {K B : Type 0} (d : NsmDriver K B) (ctx : ℤ) (byte_buf : Bytes → B) (view : K → Bank)
    (extension : Bytes → Bytes → Bytes) (most : ℕ) (keeps : KeepsPcrs d ctx view extension most)
    (room : 4 ≤ most) (attests : AttestsOnly d ctx view) (closes : ClosesOnly d ctx view)
    (bank : Bank) (first : FirstLocked bank) where
  responded-kept :
      (q : Request B) (w w' : World K) (r r' : Response)
      → Responds d ctx view q w r (view w.kernel)
      → d.nsm_process_request ctx q w ≡ ok r' w'
      → view w.kernel ≡ bank
      → view w'.kernel ≡ bank
  responded-kept q w w' r r' (k, e, v) e' h =
      let same : w' ≡ record w { kernel = k } = cc in
      ap (λ (x : World K). view x.kernel) same ∙ (v ∙ h)

  harmless-kept :
      (q : Request B) (w w' : World K) (r : Response)
      → IsHarmless q
      → d.nsm_process_request ctx q w ≡ ok r w'
      → view w.kernel ≡ bank
      → view w'.kernel ≡ bank
  harmless-kept (Request.attestation u n p) w w' r h e held =
      let (r', responds) = attests u n p w in
      responded-kept (Request.attestation u n p) w w' r' r responds e held
  harmless-kept (Request.extend_pcr i input) w w' r (low, small) e held =
      let (p, g) = get_elem?-lt bank i (omega (arith, first.0)) in
      let (c, refuses) =
        keeps.refuses_extend i p input w (rw held g) (first.1 i p low g) (omega arith) in
      responded-kept (Request.extend_pcr i input) w w' (Response.error c) r refuses e held
  harmless-kept (Request.describe_pcr i) w w' r h e held = absurd h
  harmless-kept (Request.lock_pcr i) w w' r h e held = absurd h
  harmless-kept (Request.lock_pcrs range) w w' r h e held = absurd h
  harmless-kept Request.describe_nsm w w' r h e held = absurd h
  harmless-kept Request.get_random w w' r h e held = absurd h

  AllHarmless : List (Thread B (Unit {0})) → Type 0
  AllHarmless tasks =
      (i : ℕ) (p : Thread B (Unit {0})) → get_elem? tasks i ≡ some p → Asks IsHarmless p

  AllHarmless-cons :
      (p : Thread B (Unit {0})) (tasks : List (Thread B (Unit {0})))
      → Asks IsHarmless p
      → AllHarmless tasks
      → AllHarmless (p ∷ tasks)
  unfolding AllHarmless
  AllHarmless-cons p tasks h hs zero q g = let same : p ≡ q = cc in subst (Asks IsHarmless) same h
  AllHarmless-cons p tasks h hs (suc i) q g = hs i q g

  AllHarmless-set :
      (tasks : List (Thread B (Unit {0}))) (i : ℕ) (p : Thread B (Unit {0}))
      → Asks IsHarmless p
      → AllHarmless tasks
      → AllHarmless (set tasks i p)
  unfolding AllHarmless
  AllHarmless-set tasks i p h hs j q g = elim (set-cases tasks i j p q g) [
    | inl (_, same) ↦ subst (Asks IsHarmless) (sym same) h
    | inr (_, before) ↦ hs j q before
  ]

  record Holds (s : State K B) : Type 0 where
    jobs : AllHarmless s.tasks
    held : view s.world.kernel ≡ bank

  Step-Holds : (s t : State K B) → Step d ctx byte_buf s t → Holds s → Holds t
  unfolding Asks
  Step-Holds s t (Step.signal _) h = record { jobs = h.jobs; held = h.held }
  Step-Holds s t (Step.load_term _ _ _) h = record { jobs = h.jobs; held = h.held }
  Step-Holds s t (Step.stop_term _ _ _) h = record { jobs = h.jobs; held = h.held }
  Step-Holds s t (Step.stop_code _ _ _) h = record { jobs = h.jobs; held = h.held }
  Step-Holds s t (Step.submit_attestation _ _ _) h = record {
    jobs = AllHarmless-cons _ _ (attestation_job-Asks byte_buf) h.jobs;
    held = h.held;
  }
  Step-Holds s t (Step.submit_extension _ _) h = record {
    jobs = AllHarmless-cons _ _ (extend_pcr-Asks B s.j) h.jobs;
    held = h.held;
  }
  Step-Holds s t (Step.asks _ i q k r w g e) h =
      let asked : Asks IsHarmless (ask q k) = unfold AllHarmless in h.jobs i (ask q k) g in
      record {
        jobs = AllHarmless-set s.tasks i (k r) (asked.1 r) h.jobs;
        held = harmless-kept q s.world w r asked.0 e h.held;
      }
  Step-Holds s t (Step.exchanges _ i current new k g _) h =
      let go : Asks IsHarmless (compare_exchange current new k) =
        unfold AllHarmless in h.jobs i _ g in
      record {
        jobs = AllHarmless-set s.tasks i _ (go (Result.ok s.exit_code)) h.jobs;
        held = h.held;
      }
  Step-Holds s t (Step.keeps _ i current new k g _) h =
      let go : Asks IsHarmless (compare_exchange current new k) =
        unfold AllHarmless in h.jobs i _ g in
      record {
        jobs = AllHarmless-set s.tasks i _ (go (Result.err s.exit_code)) h.jobs;
        held = h.held;
      }
  Step-Holds s t (Step.exit _ w _ _ e) h = record {
    jobs = h.jobs;
    held = closes s.world w e ∙ h.held;
  }

  Steps-Holds :
      (w : World K) (s : State K B)
      → view w.kernel ≡ bank
      → Steps d ctx byte_buf (start w) s
      → Holds s
  unfolding AllHarmless
  Steps-Holds w s held (Steps.stay _) = record { jobs = λ i p g. cc; held = held }
  Steps-Holds w s held (Steps.then_step _ t _ before step) =
      Step-Holds t s step (Steps-Holds w t held before)

-- On a device that keeps the protocol on PCRs with requests of at least 4 bytes of data, answers
-- attestations without changing PCRs, keeps them when it is closed, and starts with at least 16
-- PCRs of which the first 16 are locked: in every state that main of nsm-multithread, its jobs and
-- the signal can reach, in whatever order they take their steps, the device holds the PCRs that it
-- held at the start.
pub Steps-kept :
    {K B : Type 0} (d : NsmDriver K B) (ctx : ℤ) (byte_buf : Bytes → B) (view : K → Bank)
    (extension : Bytes → Bytes → Bytes) (most : ℕ)
    → KeepsPcrs d ctx view extension most
    → 4 ≤ most
    → AttestsOnly d ctx view
    → ClosesOnly d ctx view
    → (w : World K) (s : State K B) → FirstLocked (view w.kernel)
    → Steps d ctx byte_buf (start w) s
    → view s.world.kernel ≡ view w.kernel
Steps-kept d ctx byte_buf view extension most keeps room attests closes w s first steps =
    (Steps-Holds d ctx byte_buf view extension most keeps room attests closes (view w.kernel) first
      w s refl steps).held
