-- ===== src/Stack.antt =====
-- nsm-test/src/bin/nsm-check.rs over nsm-driver/src/lib.rs over a device: the parts put together. The
-- device is a function on requests, and the kernel carries its requests and responses as bytes.
use aws_nitro_enclaves_nsm_a.Base.{
  ℕ, ◌≤◌, ◌<◌, ◌≡◌, ap, ◌∙◌, ◌≢◌, false, true, some, Option, Bytes, Result, arith, ltb, length,
  get_elem?, set, replicate,
}
use aws_nitro_enclaves_nsm_a.Base.Ints.{ℤ, is_negative}
use aws_nitro_enclaves_nsm_a.Machine.{World, ok}
use aws_nitro_enclaves_nsm_a.NsmIo.{Request, Response, ErrorCode, NsmInfo, Cbor}
use aws_nitro_enclaves_nsm_a.Driver.{
  nsm_request_max_size, Os, nsm_init, nsm_exit, nsm_process_request,
}
use aws_nitro_enclaves_nsm_a.Driver.Answers.{Encodes, StaysInBounds, nsm_driver}
use aws_nitro_enclaves_nsm_a.Driver.Refinement.{
  Device, Serves, transported, nsm_process_request-transported,
}
use aws_nitro_enclaves_nsm_a.Check.{main}
use aws_nitro_enclaves_nsm_a.Check.Pcrs.{PcrData, get_pcr_len}
use aws_nitro_enclaves_nsm_a.Check.Initial.{IsInitial}
use aws_nitro_enclaves_nsm_a.Check.Locks.{dummy_data}
use aws_nitro_enclaves_nsm_a.Check.Protocol.{Bank, lock_below, Responds, KeepsPcrs}
use aws_nitro_enclaves_nsm_a.Check.Serving.{description_at, reporting, IsMade, ServesAll}
use aws_nitro_enclaves_nsm_a.Check.Whole.{main-Passes}

-- The device answers `q` by `r`, and holds `bank` afterwards.
abbrev pub Gives :
    {B S : Type 0} → Device B S → (S → Bank) → Request B → S → Response → Bank → Type 0
Gives handle pcrs q s r bank = ((handle q s).0 ≡ r) × (pcrs (handle q s).1 ≡ bank)

abbrev pub Rejects : {B S : Type 0} → Device B S → (S → Bank) → Request B → S → Type 0
Rejects handle pcrs q s = (e : ErrorCode) × Gives handle pcrs q s (Response.error e) (pcrs s)

-- The protocol of Check/Protocol.antt, with the rest of what nsm-check.rs wants, of the device itself.
pub record HandlesAll {B S : Type 0} (handle : Device B S) (pcrs : S → Bank)
    (extension : Bytes → Bytes → Bytes) (most : ℕ) (byte_buf : Bytes → B) (info : NsmInfo)
    (last : S → Bytes) : Type 0 where
  pub describes_pcr :
      (i : ℕ) (p : PcrData) (s : S)
      → get_elem? (pcrs s) i ≡ some p
      → Gives handle pcrs (Request.describe_pcr i) s (Response.describe_pcr p.lock p.value) (pcrs s)
  pub extends :
      (i : ℕ) (p : PcrData) (input : Bytes) (s : S)
      → get_elem? (pcrs s) i ≡ some p
      → p.lock ≡ false
      → length input ≤ most
      → let v = extension p.value input in
        Gives handle pcrs
          (Request.extend_pcr i input)
          s
          (Response.extend_pcr v)
          (set (pcrs s) i (record p { value = v }))
  pub rejects_extend :
      (i : ℕ) (p : PcrData) (input : Bytes) (s : S)
      → get_elem? (pcrs s) i ≡ some p
      → p.lock ≡ true
      → length input ≤ most
      → Rejects handle pcrs (Request.extend_pcr i input) s
  pub locks :
      (i : ℕ) (p : PcrData) (s : S)
      → get_elem? (pcrs s) i ≡ some p
      → p.lock ≡ false
      → Gives handle pcrs
          (Request.lock_pcr i)
          s
          Response.lock_pcr
          (set (pcrs s) i (record p { lock = true }))
  pub rejects_lock :
      (i : ℕ) (p : PcrData) (s : S)
      → get_elem? (pcrs s) i ≡ some p
      → p.lock ≡ true
      → Rejects handle pcrs (Request.lock_pcr i) s
  pub locks_range :
      (range : ℕ) (s : S)
      → range ≤ length (pcrs s)
      → Gives handle pcrs (Request.lock_pcrs range) s Response.lock_pcrs (lock_below range (pcrs s))
  pub rejects_range :
      (range : ℕ) (s : S)
      → length (pcrs s) < range
      → Rejects handle pcrs (Request.lock_pcrs range) s
  pub describes :
      (s : S)
      → Gives handle pcrs Request.describe_nsm s
          (Response.describe_nsm (reporting info (pcrs s)))
          (pcrs s)
  pub attests :
      (user_data nonce public_key : Option B) (s : S)
      → IsMade byte_buf user_data
      → IsMade byte_buf nonce
      → IsMade byte_buf public_key
      → (document : Bytes) × (length document ≢ 0)
        × Gives handle pcrs
            (Request.attestation user_data nonce public_key)
            s
            (Response.attestation document)
            (pcrs s)
  pub draws :
      (s : S)
      → (random : Bytes) × (length random ≢ 0)
        × (random ≢ last s)
        × Gives handle pcrs Request.get_random s (Response.get_random random) (pcrs s)
        × (last (handle Request.get_random s).1 ≡ random)

-- A request that nsm-check.rs makes, or one of its kind: data for a PCR has at most `most` bytes.
abbrev pub IsModest : {B : Type 0} → ℕ → (Bytes → B) → Request B → Type 0
IsModest most byte_buf (Request.extend_pcr i input) = length input ≤ most
IsModest most byte_buf (Request.attestation u n p) =
    IsMade byte_buf u × IsMade byte_buf n × IsMade byte_buf p
IsModest most byte_buf _ = Unit {0}

module _ {K B C S : Type 0} (lib : Cbor B C) (os : Os K) (fd : ℤ) (view : K → S)
    (handle : Device B S) (pcrs : S → Bank) (extension : Bytes → Bytes → Bytes) (info : NsmInfo)
    (last : S → Bytes) (most : ℕ) (byte_buf : Bytes → B) (encodes : Encodes lib)
    (bounds : StaysInBounds os)
    (serves : (q : Request B) (b : Bytes) (k : K)
      → lib.request_to_vec q ≡ Result.ok b
      → length b ≤ nsm_request_max_size
      → Serves lib os fd view handle q b k)
    (fits : (q : Request B)
      → IsModest most byte_buf q
      → length (encodes q).0 ≤ nsm_request_max_size)
    (handles : HandlesAll handle pcrs extension most byte_buf info last) where
  -- A modest request reaches the device, and its response comes back.
  carried :
      (q : Request B) (w : World K)
      → IsModest most byte_buf q
      → (k : K) × (nsm_process_request lib os fd q w
          ≡ ok (handle q (view w.kernel)).0 (record w { kernel = k }))
        × (view k ≡ (handle q (view w.kernel)).1)
  unfolding transported
  carried q w modest =
      let small : ltb nsm_request_max_size (length (encodes q).0) ≡ false =
        let h = fits q modest in ground arith in
      let (k, e, v) = nsm_process_request-transported lib os fd view handle encodes serves q w in
      (k, rw small at e, rw small at v)

  carried-Responds :
      (q : Request B) (w : World K) (r : Response) (bank : Bank)
      → IsModest most byte_buf q
      → Gives handle pcrs q (view w.kernel) r bank
      → Responds (nsm_driver lib os encodes bounds) fd (λ k. pcrs (view k)) q w r bank
  unfolding nsm_driver
  carried-Responds q w r bank modest (same, held) =
      let (k, e, v) = carried q w modest in (k, rw same at e, ap pcrs v ∙ held)

  nsm_driver-KeepsPcrs :
      KeepsPcrs (nsm_driver lib os encodes bounds) fd (λ k. pcrs (view k)) extension most
  nsm_driver-KeepsPcrs = record {
    describes = λ i p w g.
        carried-Responds (Request.describe_pcr i) w _ _ tt
          (handles.describes_pcr i p (view w.kernel) g);
    extends = λ i p input w g free small.
        carried-Responds (Request.extend_pcr i input) w _ _ small
          (handles.extends i p input (view w.kernel) g free small);
    refuses_extend = λ i p input w g locked small.
        let (e, gives) = handles.rejects_extend i p input (view w.kernel) g locked small in
        (e, carried-Responds (Request.extend_pcr i input) w _ _ small gives);
    locks = λ i p w g free.
        carried-Responds (Request.lock_pcr i) w _ _ tt (handles.locks i p (view w.kernel) g free);
    refuses_lock = λ i p w g locked.
        let (e, gives) = handles.rejects_lock i p (view w.kernel) g locked in
        (e, carried-Responds (Request.lock_pcr i) w _ _ tt gives);
    locks_range = λ range w h.
        carried-Responds (Request.lock_pcrs range) w _ _ tt
          (handles.locks_range range (view w.kernel) h);
    refuses_range = λ range w h.
        let (e, gives) = handles.rejects_range range (view w.kernel) h in
        (e, carried-Responds (Request.lock_pcrs range) w _ _ tt gives);
  }

  nsm_driver-ServesAll :
      ServesAll
        (nsm_driver lib os encodes bounds)
        fd
        (λ k. pcrs (view k))
        extension
        most
        byte_buf
        info
        (λ k. last (view k))
  unfolding nsm_driver
  nsm_driver-ServesAll = record {
    pcrs = nsm_driver-KeepsPcrs;
    describes =
        λ w. carried-Responds Request.describe_nsm w _ _ tt (handles.describes (view w.kernel));
    attests = λ u n p w hu hn hp.
        let (document, full, gives) = handles.attests u n p (view w.kernel) hu hn hp in
        (document, full, carried-Responds (Request.attestation u n p) w _ _ (hu, hn, hp) gives);
    draws = λ w.
        let (random, full, fresh, (same, held), drawn) = handles.draws (view w.kernel) in
        let (k, e, v) = carried Request.get_random w tt in
        (random, full, fresh, (k, rw same at e, ap pcrs v ∙ held, ap last v ∙ drawn));
  }

  -- Where request_to_vec encodes every request, the kernel does not report a response longer than
  -- its memory, the kernel and the encoding carry every request that fits to the device behind the
  -- descriptor and its response back, and the requests of nsm-check fit: on a device that handles
  -- PCRs by their protocol, with 32 of them, in the state that check_initial_pcrs wants, whose
  -- digests of the dummy data have the digest's length and are not zero, that reports in every
  -- state the number of its PCRs and those that are locked then, with a module id that is not
  -- empty, attests the requests of check_attestation with documents that are not empty and draws
  -- random bytes that are not empty and not those of the draw before, main of nsm-check over
  -- nsm-driver runs to its end once nsm_init has opened the device: no assertion stops it, it ends
  -- as nsm_exit does, nothing but the kernel's state has changed before nsm_exit, and the device
  -- has all 32 PCRs locked.
  pub main-nsm_driver :
      (w₀ w₁ : World K)
      → nsm_init os w₀ ≡ ok fd w₁
      → is_negative fd ≡ false
      → length dummy_data ≤ most
      → ((v : Bytes)
          → length (extension v dummy_data)
            ≡ get_pcr_len (description_at info (pcrs (view w₁.kernel))))
      → ((v : Bytes)
          → extension v dummy_data
            ≢ replicate (get_pcr_len (description_at info (pcrs (view w₁.kernel)))) 0)
      → IsInitial (description_at info (pcrs (view w₁.kernel))) (pcrs (view w₁.kernel))
      → length (pcrs (view w₁.kernel)) ≡ 32
      → length info.module_id ≢ 0
      → (k : K) × (main (nsm_driver lib os encodes bounds) byte_buf w₀
          ≡ nsm_exit os fd (record w₁ { kernel = k }))
        × (length (pcrs (view k)) ≡ 32)
        × ((j : ℕ) (p : PcrData) → get_elem? (pcrs (view k)) j ≡ some p → p.lock ≡ true)
  unfolding nsm_driver
  main-nsm_driver w₀ w₁ opened valid room sized filled initial held named =
      main-Passes (nsm_driver lib os encodes bounds) fd (λ k. pcrs (view k)) extension most byte_buf
        info (λ k. last (view k)) nsm_driver-ServesAll w₀ w₁ opened valid room sized filled initial
        held named
