-- ===== src/NsmLib/Ranges.antt =====
-- nsm_lock_pcrs and then nsm_describe_pcr of nsm-lib/src/lib.rs, on a device that keeps the protocol
-- on PCRs.
use aws_nitro_enclaves_nsm_a.Base.{
  ℕ, zero, suc, ◌≤◌, ◌≡◌, ap, ◌∙◌, inl, Bool, true, ◌||◌, some, [], ◌∷◌, Bytes, arith, ltb, length,
  get_elem?,
}
use aws_nitro_enclaves_nsm_a.Base.Ints.{ℤ}
use aws_nitro_enclaves_nsm_a.Machine.{World, ok}
use aws_nitro_enclaves_nsm_a.Machine.Memory.{Ptr, read}
use aws_nitro_enclaves_nsm_a.NsmIo.{Request, Response, success}
use aws_nitro_enclaves_nsm_a.Driver.Api.{NsmDriver, behind, memory-behind}
use aws_nitro_enclaves_nsm_a.Check.Pcrs.{PcrData}
use aws_nitro_enclaves_nsm_a.Check.Protocol.{Bank, lock_below, KeepsPcrs}
use aws_nitro_enclaves_nsm_a.NsmLib.{nsm_describe_pcr, nsm_lock_pcrs}
use aws_nitro_enclaves_nsm_a.NsmLib.Entry.{nsm_lock_pcrs-Grants}
use aws_nitro_enclaves_nsm_a.NsmLib.Sequences.{HasRoom, Responds-reply, described_whole}

-- A PCR behind LockPCRs: its value stays, and it is locked if it was or lies in the range.
locked_if : ℕ → ℕ → PcrData → PcrData
locked_if range i p = record p { lock = ltb i range || p.lock }

same_lock : (p : PcrData) (l l' : Bool) → l ≡ l' → record p { lock = l } ≡ record p { lock = l' }
same_lock p l l' e = ap (λ x. record p { lock = x }) e

get_elem?-lock_below :
    (range : ℕ) (b : Bank) (i : ℕ) (p : PcrData)
    → get_elem? b i ≡ some p
    → get_elem? (lock_below range b) i ≡ some (locked_if range i p)
unfolding lock_below locked_if
get_elem?-lock_below range [] i p g = cc
get_elem?-lock_below zero (q ∷ b) i p g =
    let still : p.lock ≡ (ltb i 0 || p.lock) = ground arith in
    g ∙ ap some (same_lock p p.lock _ still)
get_elem?-lock_below (suc range) (q ∷ b) zero p g =
    let same : q ≡ p = cc in
    let now : true ≡ (ltb 0 (suc range) || p.lock) = ground arith in
    ap some (ap (λ (x : PcrData). record x { lock = true }) same ∙ same_lock p true _ now)
get_elem?-lock_below (suc range) (q ∷ b) (suc i) p g =
    let shift : (ltb i range || p.lock) ≡ (ltb (suc i) (suc range) || p.lock) = ground arith in
    get_elem?-lock_below range b i p g ∙ ap some (same_lock p _ _ shift)

module _ {K B : Type 0} (d : NsmDriver K B) (fd : ℤ) (view : K → Bank)
    (extension_of : Bytes → Bytes → Bytes) (most : ℕ)
    (keeps : KeepsPcrs d fd view extension_of most) where
  -- On a device that keeps the protocol on PCRs, where the range is at most the number of its PCRs
  -- and the buffer has room for the value of a PCR: nsm_lock_pcrs returns Success with the caller's
  -- memory as it was, and nsm_describe_pcr right behind it returns Success, reports that PCR as
  -- locked exactly where it lies below the range or was locked before, and puts its old value with
  -- its length in the buffer; the device holds the old PCRs with those below the range locked.
  pub nsm_describe_pcr-nsm_lock_pcrs :
      (range i : ℕ) (pcr : PcrData) (lock : Bool) (out : Ptr) (capacity : ℕ) (w : World K)
      → range ≤ length (view w.kernel)
      → get_elem? (view w.kernel) i ≡ some pcr
      → HasRoom w.memory out capacity pcr.value
      → (w₁ w₂ : World K) × (nsm_lock_pcrs d fd range w ≡ ok success w₁)
        × (w₁.memory ≡ w.memory)
        × (nsm_describe_pcr d fd i lock out capacity w₁
            ≡ ok (success, ltb i range || pcr.lock, length pcr.value) w₂)
        × (read w₂.memory out (length pcr.value) ≡ some pcr.value)
        × (view w₂.kernel ≡ lock_below range (view w.kernel))
  unfolding locked_if
  nsm_describe_pcr-nsm_lock_pcrs range i pcr lock out capacity w inside g room =
      let q : Request B = Request.lock_pcrs range in
      let (same, held) =
        Responds-reply d fd view q w Response.lock_pcrs (lock_below range (view w.kernel))
          (keeps.locks_range range w inside) in
      let (code, e, (_, granted)) = nsm_lock_pcrs-Grants d fd range w in
      let good : code ≡ success = granted (inl same) in
      let w₁ = behind d fd q w in
      let kept : w₁.memory ≡ w.memory = memory-behind d fd q w in
      let now : get_elem? (view w₁.kernel) i ≡ some (locked_if range i pcr) =
        rw held (get_elem?-lock_below range (view w.kernel) i pcr g) in
      let (w₂, e₂, there, held₂) =
        described_whole d fd view i pcr.value (ltb i range || pcr.lock) lock (view w₁.kernel) out
          capacity w₁ (keeps.describes i (locked_if range i pcr) w₁ now) (rw kept room) in
      (w₁, w₂, rw good at e, kept, e₂, there, held₂ ∙ held)
