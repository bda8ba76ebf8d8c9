-- ===== src/Check/Protocol.antt =====
-- The protocol on PCRs as nsm-io/src/lib.rs documents it and nsm-check.rs tests it, stated of a
-- driver with a device behind it: `view` shows the PCRs that the device holds.
use aws_nitro_enclaves_nsm_a.Base.{
  ℕ, zero, suc, ◌≤◌, ◌<◌, ◌≡◌, refl, true, false, some, List, [], ◌∷◌, Bytes, arith, length,
  get_elem?, set,
}
use aws_nitro_enclaves_nsm_a.Base.Ints.{ℤ}
use aws_nitro_enclaves_nsm_a.Machine.{World, ok}
use aws_nitro_enclaves_nsm_a.NsmIo.{Request, Response, ErrorCode}
use aws_nitro_enclaves_nsm_a.Driver.Api.{NsmDriver}
use aws_nitro_enclaves_nsm_a.Check.Pcrs.{PcrData}

abbrev pub Bank : Type 0
Bank = List PcrData

-- The PCRs [0..range) locked.
unfoldable pub lock_below : ℕ → Bank → Bank
lock_below range [] = []
lock_below zero (p ∷ ps) = p ∷ ps
lock_below (suc range) (p ∷ ps) = record p { lock = true } ∷ lock_below range ps

-- The request is answered by `r`, and the device holds `bank` afterwards.
abbrev pub Responds :
    {K B : Type 0} → NsmDriver K B → ℤ → (K → Bank) → Request B → World K → Response → Bank → Type 0
Responds {K} d ctx view q w r bank =
    (k : K) × (d.nsm_process_request ctx q w ≡ ok r (record w { kernel = k })) × (view k ≡ bank)

-- The request is refused by some error, and the device holds what it held.
abbrev pub Refuses : {K B : Type 0} → NsmDriver K B → ℤ → (K → Bank) → Request B → World K → Type 0
Refuses d ctx view q w =
    (e : ErrorCode) × Responds d ctx view q w (Response.error e) (view w.kernel)

-- `extension` is the digest that a PCR's value and the data given for it are turned into, and `most`
-- the number of bytes of data that a request can carry.
pub record KeepsPcrs {K B : Type 0} (d : NsmDriver K B) (ctx : ℤ) (view : K → Bank)
    (extension : Bytes → Bytes → Bytes) (most : ℕ) : Type 0 where
  pub describes :
      (i : ℕ) (p : PcrData) (w : World K)
      → get_elem? (view w.kernel) i ≡ some p
      → Responds d ctx view
          (Request.describe_pcr i)
          w
          (Response.describe_pcr p.lock p.value)
          (view w.kernel)
  pub extends :
      (i : ℕ) (p : PcrData) (input : Bytes) (w : World K)
      → get_elem? (view w.kernel) i ≡ some p
      → p.lock ≡ false
      → length input ≤ most
      → Responds d ctx view
          (Request.extend_pcr i input)
          w
          (Response.extend_pcr (extension p.value input))
          (set (view w.kernel) i (record p { value = extension p.value input }))
  pub refuses_extend :
      (i : ℕ) (p : PcrData) (input : Bytes) (w : World K)
      → get_elem? (view w.kernel) i ≡ some p
      → p.lock ≡ true
      → length input ≤ most
      → Refuses d ctx view (Request.extend_pcr i input) w
  pub locks :
      (i : ℕ) (p : PcrData) (w : World K)
      → get_elem? (view w.kernel) i ≡ some p
      → p.lock ≡ false
      → Responds d ctx view
          (Request.lock_pcr i)
          w
          Response.lock_pcr
          (set (view w.kernel) i (record p { lock = true }))
  pub refuses_lock :
      (i : ℕ) (p : PcrData) (w : World K)
      → get_elem? (view w.kernel) i ≡ some p
      → p.lock ≡ true
      → Refuses d ctx view (Request.lock_pcr i) w
  pub locks_range :
      (range : ℕ) (w : World K)
      → range ≤ length (view w.kernel)
      → Responds d ctx view
          (Request.lock_pcrs range)
          w
          Response.lock_pcrs
          (lock_below range (view w.kernel))
  pub refuses_range :
      (range : ℕ) (w : World K)
      → length (view w.kernel) < range
      → Refuses d ctx view (Request.lock_pcrs range) w

pub length-lock_below : (r : ℕ) (ps : Bank) → length (lock_below r ps) ≡ length ps
unfolding lock_below
length-lock_below r [] = refl
length-lock_below zero (p ∷ ps) = refl
length-lock_below (suc r) (p ∷ ps) = omega (arith, length-lock_below r ps)

-- A PCR of the locked bank has the value that it had, and is locked if it lies in the range.
pub lock_below-cases :
    (r : ℕ) (ps : Bank) (j : ℕ) (p : PcrData)
    → get_elem? (lock_below r ps) j ≡ some p
    → (old : PcrData) × (get_elem? ps j ≡ some old)
      × (p.value ≡ old.value)
      × (j < r → p.lock ≡ true)
      × (r ≤ j → p.lock ≡ old.lock)
unfolding lock_below
lock_below-cases r [] j p e = cc
lock_below-cases zero (q ∷ ps) j p e = (p, e, refl, (λ h. absurd (omega arith)), λ h. refl)
lock_below-cases (suc r) (q ∷ ps) zero p e =
    (q, refl, ground arith, ground arith, λ h. absurd (omega arith))
lock_below-cases (suc r) (q ∷ ps) (suc j) p e =
    let (old, e', v, l, u) = lock_below-cases r ps j p e in
    (old, e', v, (λ h. l (omega arith)), λ h. u (omega arith))
