-- ===== src/Stress/Within.antt =====
-- How many requests and accesses the jobs of nsm-multithread.rs make.
use aws_nitro_enclaves_nsm_a.Base.{
  ℕ, zero, suc, ◌+◌, ◌≤◌, ◌≡◌, refl, subst, Option, some, List, [], ◌∷◌, Bytes, Result, arith,
  get_elem?, set,
}
use aws_nitro_enclaves_nsm_a.NsmIo.{Request, Response}
use aws_nitro_enclaves_nsm_a.Stress.{
  ErrorCode, Thread, ret, ask, compare_exchange, ◌>>=◌, or_return, repeat, dummy_data, extend_pcr,
  attested, check_single_attestation, check_attestation, report, attestation_job,
}

-- The thread ends within `n` requests and accesses, whatever they are answered.
unfoldable pub Within : {B A : Type 0} → ℕ → Thread B A → Type 0
Within n (ret a) = Unit {0}
Within zero (ask q k) = ⊥
Within (suc n) (ask q k) = (r : Response) → Within n (k r)
Within zero (compare_exchange current new k) = ⊥
Within (suc n) (compare_exchange current new k) = (x : Result ℕ ℕ) → Within n (k x)

-- The jobs end within `n` requests and accesses in all.
unfoldable pub AllWithin : {B : Type 0} → ℕ → List (Thread B (Unit {0})) → Type 0
AllWithin n [] = Unit {0}
AllWithin n (p ∷ ps) = (a : ℕ) × (b : ℕ) × (a + b ≤ n) × Within a p × AllWithin b ps

pub extend_pcr-Within : (B : Type 0) (j : ℕ) → Within 2 (extend_pcr {B = B} j)
unfolding Within extend_pcr repeat
extend_pcr-Within B j r r' = tt

report-Within :
    (B : Type 0) (n : ℕ) (x : Result (Unit {0}) ErrorCode) → Within {B = B} (suc n) (report x)
unfolding Within report
report-Within B n (Result.ok _) = tt
report-Within B n (Result.err e) = λ x. tt

module _ {B : Type 0} where
  or_return-Within :
      (n : ℕ) (u v p : Option B) (rest : Thread B (Result (Unit {0}) ErrorCode))
      → Within (suc n) (rest >>= report)
      → Within (suc (suc n)) (or_return (check_single_attestation u v p) rest >>= report)
  unfolding Within check_single_attestation
  or_return-Within n u v p rest h r = go (attested r)
    where
      go : (x : Result (Unit {0}) ErrorCode) → Within (suc n) (or_return (ret x) rest >>= report)
      go (Result.ok _) = h
      go (Result.err e) = report-Within B n (Result.err e)

  single-Within : (u v p : Option B) → Within 2 (check_single_attestation u v p >>= report)
  unfolding Within check_single_attestation
  single-Within u v p r = report-Within B 0 (attested r)

  pub attestation_job-Within : (byte_buf : Bytes → B) → Within 5 (attestation_job byte_buf)
  unfolding attestation_job check_attestation
  attestation_job-Within byte_buf =
      let buf = some (byte_buf dummy_data) in
      or_return-Within 3 _ _ _ _
        (or_return-Within 2 _ _ _ _ (or_return-Within 1 _ _ _ _ (single-Within buf buf buf)))

  pub AllWithin-le :
      (m n : ℕ) (ps : List (Thread B (Unit {0}))) → m ≤ n → AllWithin m ps → AllWithin n ps
  unfolding AllWithin
  AllWithin-le m n [] le h = tt
  AllWithin-le m n (p ∷ ps) le (a, b, sum, w, h) = (a, b, omega arith, w, h)

  -- A job that goes on takes one from the total.
  pub AllWithin-set :
      (n : ℕ) (ps : List (Thread B (Unit {0}))) (i : ℕ) (p p' : Thread B (Unit {0}))
      → ((a : ℕ) → Within a p → (a' : ℕ) × (a ≡ suc a') × Within a' p')
      → get_elem? ps i ≡ some p
      → AllWithin n ps
      → (n' : ℕ) × (suc n' ≤ n) × AllWithin n' (set ps i p')
  unfolding AllWithin
  AllWithin-set n [] i p p' goes g h = cc
  AllWithin-set n (q ∷ ps) zero p p' goes g (a, b, sum, w, h) =
      let same : q ≡ p = cc in
      let (a', e, w') = goes a (subst (Within a) same w) in
      (a' + b, omega arith, (a', b, omega arith, w', h))
  AllWithin-set n (q ∷ ps) (suc i) p p' goes g (a, b, sum, w, h) =
      let (b', le, h') = AllWithin-set b ps i p p' goes g h in
      (a + b', omega arith, (a, b', omega arith, w, h'))

  pub ask-goes :
      (q : Request B) (k : Response → Thread B (Unit {0})) (r : Response) (a : ℕ)
      → Within a (ask q k)
      → (a' : ℕ) × (a ≡ suc a') × Within a' (k r)
  unfolding Within
  ask-goes q k r zero h = absurd h
  ask-goes q k r (suc a) h = (a, refl, h r)

  pub exchange-goes :
      (current new : ℕ) (k : Result ℕ ℕ → Thread B (Unit {0})) (x : Result ℕ ℕ) (a : ℕ)
      → Within a (compare_exchange current new k)
      → (a' : ℕ) × (a ≡ suc a') × Within a' (k x)
  unfolding Within
  exchange-goes current new k x zero h = absurd h
  exchange-goes current new k x (suc a) h = (a, refl, h x)
