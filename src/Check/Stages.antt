-- ===== src/Check/Stages.antt =====
-- The PCRs of the device while check_pcr_locks of nsm-test/src/bin/nsm-check.rs runs.
use aws_nitro_enclaves_nsm_a.Base.{
  ℕ, zero, suc, ◌+◌, ◌-◌, ◌≤◌, ◌<◌, ◌≡◌, refl, ap, ◌∙◌, ◌≢◌, inl, inr, true, false, some, List, [],
  ◌∷◌, Bytes, arith, length, get_elem?, set, take, drop, replicate, length-set, set-cases,
}
use Prim.Native.Nat.{max}
use native.Mathlib.Nat.{add-zero, zero-add}
use mathlib.Core.Path.{subst}
use aws_nitro_enclaves_nsm_a.Check.Pcrs.{PcrData, Description, get_pcr_len}
use aws_nitro_enclaves_nsm_a.Check.Loops.{AllFrom, Filled}
use aws_nitro_enclaves_nsm_a.Check.Initial.{IsInitial}
use aws_nitro_enclaves_nsm_a.Check.Protocol.{Bank, lock_below, length-lock_below, lock_below-cases}

-- A PCR at index `j` while the check runs: those from 16 on are extended below `e`; those below
-- `l` are locked, the others are not.
pub record Facts (n e l j : ℕ) (p : PcrData) : Type 0 where
  pub sized : length p.value ≡ n
  pub filled : j < 16 → Filled (replicate n 0) j p
  pub extended : 16 ≤ j → j < e → p.value ≢ replicate n 0
  pub locked : j < l → p.lock ≡ true
  pub unlocked : l ≤ j → p.lock ≡ false

pub record Stage (n m e l : ℕ) (bank : Bank) : Type 0 where
  pub size : length bank ≡ m
  pub facts : (j : ℕ) (p : PcrData) → get_elem? bank j ≡ some p → Facts n e l j p

module _ {n m : ℕ} {bank : Bank} where
  -- Extending PCR `i`.
  pub Stage-extend :
      (e i : ℕ) (p : PcrData) (value : Bytes)
      → get_elem? bank i ≡ some p
      → 16 ≤ i
      → length value ≡ n
      → value ≢ replicate n 0
      → Stage n m (max e i) 16 bank
      → Stage n m (max e (suc i)) 16 (set bank i (record p { value = value }))
  Stage-extend e i p value g lo sized ne s = record {
    size = omega (arith, s.size, length-set bank i (record p { value = value }));
    facts = λ j q h. elim (set-cases bank i j (record p { value = value }) q h) [
      | inl (same, new) ↦
          rw (same, new)
            (let f = s.facts i p g in
              record {
                sized = sized;
                filled = λ k. absurd (omega arith);
                extended = λ a b. ne;
                locked = λ k. absurd (omega arith);
                unlocked = λ k. f.unlocked lo;
              })
      | inr (other, old) ↦
          let f = s.facts j q old in
          record {
            sized = f.sized;
            filled = f.filled;
            extended = λ a b. f.extended a (omega arith);
            locked = f.locked;
            unlocked = f.unlocked;
          }
    ];
  }

  -- Locking PCR `i`, where all below are locked.
  pub Stage-lock :
      (e i : ℕ) (p : PcrData)
      → get_elem? bank i ≡ some p
      → Stage n m e i bank
      → Stage n m e (suc i) (set bank i (record p { lock = true }))
  Stage-lock e i p g s = record {
    size = omega (arith, s.size, length-set bank i (record p { lock = true }));
    facts = λ j q h. elim (set-cases bank i j (record p { lock = true }) q h) [
      | inl (same, new) ↦
          rw (same, new)
            (let f = s.facts i p g in
              record {
                sized = f.sized;
                filled = f.filled;
                extended = f.extended;
                locked = λ k. refl;
                unlocked = λ k. absurd (omega arith);
              })
      | inr (other, old) ↦
          let f = s.facts j q old in
          record {
            sized = f.sized;
            filled = f.filled;
            extended = f.extended;
            locked = λ k. f.locked (omega arith);
            unlocked = λ k. f.unlocked (omega arith);
          }
    ];
  }

  -- Locking every PCR once more.
  pub Stage-lock_below : (e : ℕ) → Stage n m e m bank → Stage n m e m (lock_below m bank)
  Stage-lock_below e s = record {
    size = omega (arith, s.size, length-lock_below m bank);
    facts = λ j q h.
        let (old, g, v, l, u) = lock_below-cases m bank j q h in
        let f = s.facts j old g in
        record {
          sized = rw v f.sized;
          filled = rw v f.filled;
          extended = rw v f.extended;
          locked = l;
          unlocked = λ k. u k ∙ f.unlocked k;
        };
  }

-- What an index proves of the property at it.
AllFrom-get :
    (P : ℕ → PcrData → Type 0) (i j : ℕ) (ps : List PcrData) {p : PcrData}
    → AllFrom P i ps
    → get_elem? ps j ≡ some p
    → P (i + j) p
AllFrom-get P i j [] a g = cc
AllFrom-get P i zero (q ∷ ps) {p} a g = let same : q ≡ p = cc in rw add-zero (subst (P i) same a.0)
AllFrom-get P i (suc j) (q ∷ ps) a g =
    let shift : suc i + j ≡ i + suc j = omega arith in
    rw shift at (AllFrom-get P (suc i) j ps a.1 g)

get_elem?-take : (k j : ℕ) (ps : List PcrData) → j < k → get_elem? (take k ps) j ≡ get_elem? ps j
get_elem?-take zero j ps h = absurd (omega arith)
get_elem?-take (suc k) j [] h = refl
get_elem?-take (suc k) zero (p ∷ ps) h = refl
get_elem?-take (suc k) (suc j) (p ∷ ps) h = get_elem?-take k j ps (omega arith)

get_elem?-drop :
    (k j : ℕ) (ps : List PcrData) → k ≤ j → get_elem? (drop k ps) (j - k) ≡ get_elem? ps j
get_elem?-drop zero j ps h = ap (get_elem? ps) (omega arith)
get_elem?-drop (suc k) j [] h = refl
get_elem?-drop (suc k) zero (p ∷ ps) h = absurd (omega arith)
get_elem?-drop (suc k) (suc j) (p ∷ ps) h =
    let shift : suc j - suc k ≡ j - k = omega arith in
    rw shift (get_elem?-drop k j ps (omega arith))

-- Where the first check passes, the second starts.
pub IsInitial-Stage :
    (description : Description) (ps : Bank)
    → IsInitial description ps
    → Stage (get_pcr_len description) (length ps) 16 16 ps
IsInitial-Stage description ps i = record {
  size = refl;
  facts = λ j p g. record {
    sized = AllFrom-get (λ k q. length q.value ≡ get_pcr_len description) 0 j ps i.sized g;
    filled = λ h.
        let f = AllFrom-get (Filled (replicate (get_pcr_len description) 0)) 0 j ps i.filled g in
        rw zero-add at f;
    extended = λ lo hi. absurd (omega arith);
    locked = λ h.
        AllFrom-get (λ k q. q.lock ≡ true) 0 j (take 16 ps) i.locked (get_elem?-take 16 j ps h ∙ g);
    unlocked = λ h.
        AllFrom-get (λ k q. q.lock ≡ false) 16 (j - 16) (drop 16 ps) i.unlocked
          (get_elem?-drop 16 j ps h ∙ g);
  };
}
