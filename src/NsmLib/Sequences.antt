-- ===== src/NsmLib/Sequences.antt =====
-- Calls of nsm-lib/src/lib.rs one after another, on a device that keeps the protocol on PCRs.
use aws_nitro_enclaves_nsm_a.Base.{
  ℕ, ◌^◌, ◌≤◌, ◌<◌, ◌≡◌, refl, ap, subst, ◌∙◌, ◌≢◌, inl, inr, Bool, true, false, some, Bytes, arith,
  length, take, take-all, get_elem?, set, get_elem?-set_same,
}
use aws_nitro_enclaves_nsm_a.Base.Ints.{ℤ}
use aws_nitro_enclaves_nsm_a.Machine.{World, ok}
use aws_nitro_enclaves_nsm_a.Machine.Memory.{Ptr, null, Memory, read, IsMapped}
use aws_nitro_enclaves_nsm_a.NsmIo.{Request, Response, ErrorCode, success}
use aws_nitro_enclaves_nsm_a.Driver.Api.{
  NsmDriver, reply, behind, memory-behind, nsm_process_request-reply,
}
use aws_nitro_enclaves_nsm_a.Check.Pcrs.{PcrData}
use aws_nitro_enclaves_nsm_a.Check.Protocol.{Bank, Responds, KeepsPcrs}
use aws_nitro_enclaves_nsm_a.NsmLib.{nsm_extend_pcr, nsm_describe_pcr, nsm_lock_pcr}
use aws_nitro_enclaves_nsm_a.NsmLib.Replies.{payload, IsBuffer, present, Argument, HandsOver}
use aws_nitro_enclaves_nsm_a.NsmLib.Entry.{extension, nsm_extend_pcr-HandsOver, nsm_lock_pcr-Grants}
use aws_nitro_enclaves_nsm_a.NsmLib.Outputs.{pcr_value, pcr_lock, nsm_describe_pcr-HandsOver}

-- The pointer leads to a buffer of the caller with room for the bytes.
abbrev pub HasRoom : Memory ℕ → Ptr → ℕ → Bytes → Type 0
HasRoom m out capacity v =
    (out ≢ null) × IsMapped m out capacity × (length v ≤ capacity) × (length v < 2 ^ 32)

-- A payload that fits is delivered whole.
delivered_whole :
    (v : Bytes) (out : Ptr) (capacity : ℕ) (m m' : Memory ℕ) (code : ErrorCode) (size : ℕ)
    → HasRoom m out capacity v
    → HandsOver out capacity m (payload v) code size m'
    → (code ≡ success)
      × (size ≡ length v)
      × (read m' out (length v) ≡ some v)
      × ((p : Ptr) (n : ℕ) → IsMapped m p n → IsMapped m' p n)
delivered_whole v out capacity m m' code size (valid, mapped, fits, small)
      (inl (is_null, _, _, _)) =
    absurd (valid is_null)
delivered_whole v out capacity m m' code size (valid, mapped, fits, small) (inr d) =
    let whole : size ≡ length v = omega (arith, d.sized) in
    let all : take size v ≡ v = take-all size v (omega arith) in
    (d.fits fits, whole, rw (← whole) (d.holds.delivered ∙ ap some all), d.holds.mapped)

module _ {K B : Type 0} (d : NsmDriver K B) (fd : ℤ) (view : K → Bank) where
  -- The reply is what the device responds.
  pub Responds-reply :
      (q : Request B) (w : World K) (r : Response) (bank : Bank)
      → Responds d fd view q w r bank
      → (reply d fd q w ≡ r) × (view (behind d fd q w).kernel ≡ bank)
  Responds-reply q w r bank (k, e, v) =
      let asked = nsm_process_request-reply d fd q w in
      let same : behind d fd q w ≡ record w { kernel = k } = cc in
      (cc, ap (λ (x : World K). view x.kernel) same ∙ v)

  extended_whole :
      (i : ℕ) (xs v : Bytes) (bank : Bank) (p out : Ptr) (n capacity : ℕ) (w : World K)
      → Responds d fd view (Request.extend_pcr i xs) w (Response.extend_pcr v) bank
      → Argument w.memory p n (some xs)
      → HasRoom w.memory out capacity v
      → (w' : World K) × (nsm_extend_pcr d fd i p n out capacity w ≡ ok (success, length v) w')
        × (read w'.memory out (length v) ≡ some v)
        × ((p : Ptr) (n : ℕ) → IsMapped w.memory p n → IsMapped w'.memory p n)
        × (view w'.kernel ≡ bank)
  unfolding extension
  extended_whole i xs v bank p out n capacity w responds argument room =
      let q : Request B = Request.extend_pcr i xs in
      let (same, held) = Responds-reply q w (Response.extend_pcr v) bank responds in
      let (code, size, m', e, h) =
        nsm_extend_pcr-HandsOver d fd i p n out capacity w argument (present room.0 room.1) in
      let h' = subst (λ r. HandsOver out capacity w.memory (extension r) code size m') same h in
      let (good, whole, there, mapped) =
        delivered_whole v out capacity w.memory m' code size room h' in
      (record (behind d fd q w) { memory = m' }, rw (good, whole) at e, there, mapped, held)

  pub described_whole :
      (i : ℕ) (v : Bytes) (locked lock : Bool) (bank : Bank) (out : Ptr) (capacity : ℕ)
      (w : World K)
      → Responds d fd view (Request.describe_pcr i) w (Response.describe_pcr locked v) bank
      → HasRoom w.memory out capacity v
      → (w' : World K) × (nsm_describe_pcr d fd i lock out capacity w
          ≡ ok (success, locked, length v) w')
        × (read w'.memory out (length v) ≡ some v)
        × (view w'.kernel ≡ bank)
  unfolding pcr_value pcr_lock
  described_whole i v locked lock bank out capacity w responds room =
      let q : Request B = Request.describe_pcr i in
      let (same, held) = Responds-reply q w (Response.describe_pcr locked v) bank responds in
      let (code, size, m', e, h) =
        nsm_describe_pcr-HandsOver d fd i lock out capacity w (present room.0 room.1) in
      let h' = subst (λ r. HandsOver out capacity w.memory (pcr_value r) code size m') same h in
      let flag : pcr_lock lock (reply d fd q w) ≡ locked = ap (pcr_lock lock) same in
      let (good, whole, there, mapped) =
        delivered_whole v out capacity w.memory m' code size room h' in
      (record (behind d fd q w) { memory = m' }, rw (good, whole, flag) at e, there, held)

  module _ (extension_of : Bytes → Bytes → Bytes) (most : ℕ)
      (keeps : KeepsPcrs d fd view extension_of most) where
    -- On a device that keeps the protocol on PCRs, where the PCR is not locked, the input data is
    -- readable and no longer than a request carries, and both buffers have room for the digest:
    -- nsm_extend_pcr returns Success with the digest of the old value and the data in the first
    -- buffer, and nsm_describe_pcr right behind it returns Success, reports the PCR as not locked
    -- and puts the same bytes with the same length in the second buffer; the device holds the old
    -- PCRs but for that value.
    pub nsm_describe_pcr-nsm_extend_pcr :
        (i : ℕ) (pcr : PcrData) (xs : Bytes) (p out out' : Ptr) (n capacity capacity' : ℕ)
        (lock : Bool) (w : World K)
        → get_elem? (view w.kernel) i ≡ some pcr
        → pcr.lock ≡ false
        → length xs ≤ most
        → Argument w.memory p n (some xs)
        → HasRoom w.memory out capacity (extension_of pcr.value xs)
        → HasRoom w.memory out' capacity' (extension_of pcr.value xs)
        → let v = extension_of pcr.value xs in
          (w₁ : World K) × (w₂ : World K) × (nsm_extend_pcr d fd i p n out capacity w
            ≡ ok (success, length v) w₁)
          × (read w₁.memory out (length v) ≡ some v)
          × (nsm_describe_pcr d fd i lock out' capacity' w₁ ≡ ok (success, false, length v) w₂)
          × (read w₂.memory out' (length v) ≡ some v)
          × (view w₂.kernel ≡ set (view w.kernel) i (record pcr { value = v }))
    nsm_describe_pcr-nsm_extend_pcr i pcr xs p out out' n capacity capacity' lock w g free small
          argument room room' =
        let v = extension_of pcr.value xs in
        let new : PcrData = record pcr { value = v } in
        let bank = set (view w.kernel) i new in
        let (w₁, e₁, there₁, mapped, held₁) =
          extended_whole i xs v bank p out n capacity w (keeps.extends i pcr xs w g free small)
            argument room in
        let now : get_elem? (view w₁.kernel) i ≡ some new =
          rw held₁ (get_elem?-set_same (view w.kernel) i pcr new g) in
        let (w₂, e₂, there₂, held₂) =
          described_whole i v pcr.lock lock (view w₁.kernel) out' capacity' w₁
            (keeps.describes i new w₁ now)
            (room'.0, mapped out' capacity' room'.1, room'.2, room'.3) in
        (w₁, w₂, e₁, there₁, rw free at e₂, there₂, held₂ ∙ held₁)

    -- On a device that keeps the protocol on PCRs, where the PCR is not locked, the input data is
    -- readable and no longer than a request carries, and the output pointer is null or leads to
    -- enough mapped memory: nsm_lock_pcr returns Success and has locked that PCR and changed no
    -- other, and the device answers the ExtendPCR request of nsm_extend_pcr right behind it by an
    -- error, whose code nsm_extend_pcr returns with the caller's length as given, no PCR changed
    -- and the caller's memory as it was before both calls.
    pub nsm_extend_pcr-nsm_lock_pcr :
        (i : ℕ) (pcr : PcrData) (xs : Bytes) (p out : Ptr) (n capacity : ℕ) (w : World K)
        → get_elem? (view w.kernel) i ≡ some pcr
        → pcr.lock ≡ false
        → length xs ≤ most
        → Argument w.memory p n (some xs)
        → IsBuffer w.memory out capacity
        → (w₁ : World K) × (w₂ : World K) × (code : ErrorCode) × (nsm_lock_pcr d fd i w
            ≡ ok success w₁)
          × (view w₁.kernel ≡ set (view w.kernel) i (record pcr { lock = true }))
          × (reply d fd (Request.extend_pcr i xs) w₁ ≡ Response.error code)
          × (nsm_extend_pcr d fd i p n out capacity w₁ ≡ ok (code, capacity) w₂)
          × (view w₂.kernel ≡ view w₁.kernel)
          × (w₂.memory ≡ w.memory)
    unfolding extension
    nsm_extend_pcr-nsm_lock_pcr i pcr xs p out n capacity w g free small argument buffer =
        let q : Request B = Request.lock_pcr i in
        let q' : Request B = Request.extend_pcr i xs in
        let locked : PcrData = record pcr { lock = true } in
        let (same, held) =
          Responds-reply q w Response.lock_pcr (set (view w.kernel) i locked)
            (keeps.locks i pcr w g free) in
        let (code, e, (_, granted)) = nsm_lock_pcr-Grants d fd i w in
        let good : code ≡ success = granted (inl same) in
        let w₁ = behind d fd q w in
        let kept : w₁.memory ≡ w.memory = memory-behind d fd q w in
        let now : get_elem? (view w₁.kernel) i ≡ some locked =
          rw held (get_elem?-set_same (view w.kernel) i pcr locked g) in
        let (c, refuses) = keeps.refuses_extend i locked xs w₁ now refl small in
        let (same', held') = Responds-reply q' w₁ (Response.error c) (view w₁.kernel) refuses in
        let (code', size, m', e', h) =
          nsm_extend_pcr-HandsOver d fd i p n out capacity w₁ (rw kept argument) (rw kept buffer) in
        let h' =
          subst (λ r. HandsOver out capacity w₁.memory (extension r) code' size m') same' h in
        (
          w₁,
          record (behind d fd q' w₁) { memory = m' },
          c,
          rw good at e,
          held,
          same',
          rw (h'.0, h'.1) at e',
          held',
          h'.2 ∙ kept,
        )
