-- ===== src/NsmLib/Clients.antt =====
-- Any sequence of calls that a C program makes of nsm-lib/src/lib.rs: what happens to its memory.
use mathlib.Core.Option
use aws_nitro_enclaves_nsm_a.Base.{
  ℕ, ◌≡◌, refl, ◌∙◌, ◌≢◌, inl, inr, List, [], ◌∷◌, none, some, Option, Bytes, arith, ◌==◌,
  Bool-cases,
}
use aws_nitro_enclaves_nsm_a.Base.Ints.{ℤ, is_negative}
use aws_nitro_enclaves_nsm_a.Machine.{World, Cmd, ok, pure, ◌>>◌}
use aws_nitro_enclaves_nsm_a.Machine.Memory.{Ptr, Memory, IsMapped, read-IsMapped}
use aws_nitro_enclaves_nsm_a.NsmIo.{Request, Response, ErrorCode}
use aws_nitro_enclaves_nsm_a.Driver.Api.{NsmDriver, reply, behind, log-behind}
use aws_nitro_enclaves_nsm_a.NsmLib.{
  nsm_extend_pcr, nsm_describe_pcr, nsm_lock_pcr, nsm_lock_pcrs, nsm_get_attestation_doc,
  nsm_get_random,
}
use aws_nitro_enclaves_nsm_a.NsmLib.Replies.{
  Reply, payload, refused, unexpected, IsBuffer, absent, present, Argument, omitted, given,
  HandsOver,
}
use aws_nitro_enclaves_nsm_a.NsmLib.Entry.{
  extension, nsm_extend_pcr-null, nsm_extend_pcr-HandsOver, nsm_get_attestation_doc-HandsOver,
  nsm_lock_pcr-Grants, nsm_lock_pcrs-Grants,
}
use aws_nitro_enclaves_nsm_a.NsmLib.Outputs.{
  pcr_value, Draws, nsm_describe_pcr-HandsOver, nsm_get_random-Draws, nsm_get_random_invalid,
}
use aws_nitro_enclaves_nsm_a.NsmLib.Calls.{
  Call, IsSafe, Outside, IsSpared, Intact, Asked, Asked-trans, Asked-behind, AreSafe, AreSparing,
  AreSafe-mapped,
}

-- Memory `m'` is `m` but for the output buffer, and nothing is unmapped.
record Leaves (out : Ptr) (capacity : ℕ) (m m' : Memory ℕ) : Type 0 where
  mapped : (p : Ptr) (n : ℕ) → IsMapped m p n → IsMapped m' p n
  spared : (q : Ptr) → Outside q out capacity → m' q ≡ m q

Leaves-same : (out : Ptr) (capacity : ℕ) (m m' : Memory ℕ) → m' ≡ m → Leaves out capacity m m'
Leaves-same out capacity m m' e = record { mapped = λ p n h. rw e h; spared = λ q o. rw e }

HandsOver-Leaves :
    (out : Ptr) (capacity : ℕ) (m m' : Memory ℕ) (r : Reply) (code : ErrorCode) (size : ℕ)
    → HandsOver out capacity m r code size m'
    → Leaves out capacity m m'
HandsOver-Leaves out capacity m m' (payload xs) code size (inl (_, _, _, e)) =
    Leaves-same out capacity m m' e
HandsOver-Leaves out capacity m m' (payload xs) code size (inr d) = record {
  mapped = d.holds.mapped;
  spared = λ q o. d.holds.outside q (let s = d.sized in ground arith);
}
HandsOver-Leaves out capacity m m' (refused err) code size (_, _, e) =
    Leaves-same out capacity m m' e
HandsOver-Leaves out capacity m m' unexpected code size (_, _, e) = Leaves-same out capacity m m' e

Draws-Leaves :
    (out : Ptr) (capacity : ℕ) (m m' : Memory ℕ) (r : Response) (code : ErrorCode) (size : ℕ)
    → Draws out capacity m r code size m'
    → Leaves out capacity m m'
Draws-Leaves out capacity m m' (Response.get_random xs) code size (_, sized, h) = record {
  mapped = h.mapped;
  spared = λ q o. h.outside q (ground arith);
}
Draws-Leaves out capacity m m' (Response.error err) code size (_, _, e) =
    Leaves-same out capacity m m' e
Draws-Leaves out capacity m m' _ code size (_, _, e) = Leaves-same out capacity m m' e

-- An input buffer holds some bytes, or is not there.
Argument-IsBuffer :
    (m : Memory ℕ) (p : Ptr) (n : ℕ) → IsBuffer m p n → (o : Option Bytes) × Argument m p n o
Argument-IsBuffer m p n (absent e) = (none, omitted e)
Argument-IsBuffer m p n (present valid mapped) =
    let (xs, e, _) = read-IsMapped n m p mapped in (some xs, given valid e)

module _ {K B : Type 0} (d : NsmDriver K B) (byte_buf : Bytes → B) (fd : ℤ) where
  -- The call; what it returns is up to the caller.
  unfoldable pub run : Call → Cmd K (Unit {0})
  run (Call.extend_pcr index p n out capacity) =
      nsm_extend_pcr d fd index p n out capacity >> pure tt
  run (Call.describe_pcr index lock out capacity) =
      nsm_describe_pcr d fd index lock out capacity >> pure tt
  run (Call.lock_pcr index) = nsm_lock_pcr d fd index >> pure tt
  run (Call.lock_pcrs range) = nsm_lock_pcrs d fd range >> pure tt
  run (Call.get_attestation_doc u un n nn k kn out capacity) =
      nsm_get_attestation_doc d byte_buf fd u un n nn k kn out capacity >> pure tt
  run (Call.get_random out capacity) = nsm_get_random d fd out capacity >> pure tt

  unfoldable pub run_all : List Call → Cmd K (Unit {0})
  run_all [] = pure tt
  run_all (c ∷ cs) = run c >> run_all cs

  abbrev Goes : (Ptr → Type 0) → World K → World K → Type 0
  Goes P w w' = Intact P w w' × Asked d fd w.kernel w'.kernel

  -- A call behind whose one request the memory is changed in the output buffer at most.
  asked-Goes :
      (q : Request B) (out : Ptr) (capacity : ℕ) (w : World K) (m' : Memory ℕ)
      → Leaves out capacity w.memory m'
      → Goes (λ a. Outside a out capacity) w (record (behind d fd q w) { memory = m' })
  asked-Goes q out capacity w m' h =
      ((h.mapped, h.spared, log-behind d fd q w), Asked-behind d fd q w)

  -- A call that makes no request, or leaves the memory.
  same-Goes : (P : Ptr → Type 0) (w : World K) → Goes P w w
  same-Goes P w = ((λ p n h. h, λ q h. refl, refl), Asked.none_asked w.kernel)

  behind-Goes : (P : Ptr → Type 0) (q : Request B) (w : World K) → Goes P w (behind d fd q w)
  unfolding behind
  behind-Goes P q w = ((λ p n h. h, λ a h. refl, refl), Asked-behind d fd q w)

  run-Goes :
      (c : Call) (w : World K)
      → IsSafe w.memory c
      → (w' : World K) × (run c w ≡ ok tt w') × Goes (λ q. IsSpared q c) w w'
  unfolding run
  run-Goes (Call.extend_pcr index p n out capacity) w (absent e, b) =
      (w, rw (e, nsm_extend_pcr-null d fd index n out capacity w), same-Goes _ w)
  run-Goes (Call.extend_pcr index p n out capacity) w (present valid mapped, b) =
      let (xs, e, _) = read-IsMapped n w.memory p mapped in
      let q : Request B = Request.extend_pcr index xs in
      let (code, size, m', done, h) =
        nsm_extend_pcr-HandsOver d fd index p n out capacity w (given valid e) b in
      (
        record (behind d fd q w) { memory = m' },
        rw done,
        asked-Goes q out capacity w m'
            (HandsOver-Leaves out capacity w.memory m' (extension (reply d fd q w)) code size h),
      )
  run-Goes (Call.describe_pcr index lock out capacity) w b =
      let q : Request B = Request.describe_pcr index in
      let (code, size, m', done, h) = nsm_describe_pcr-HandsOver d fd index lock out capacity w b in
      (
        record (behind d fd q w) { memory = m' },
        rw done,
        asked-Goes q out capacity w m'
            (HandsOver-Leaves out capacity w.memory m' (pcr_value (reply d fd q w)) code size h),
      )
  run-Goes (Call.lock_pcr index) w h =
      let (code, done, _) = nsm_lock_pcr-Grants d fd index w in
      (behind d fd (Request.lock_pcr index) w, rw done, behind-Goes _ _ w)
  run-Goes (Call.lock_pcrs range) w h =
      let (code, done, _) = nsm_lock_pcrs-Grants d fd range w in
      (behind d fd (Request.lock_pcrs range) w, rw done, behind-Goes _ _ w)
  run-Goes (Call.get_attestation_doc u un n nn k kn out capacity) w (a, a', a'', b) =
      let (o, arg) = Argument-IsBuffer w.memory u un a in
      let (o', arg') = Argument-IsBuffer w.memory n nn a' in
      let (o'', arg'') = Argument-IsBuffer w.memory k kn a'' in
      let (code, size, m', done, h) =
        nsm_get_attestation_doc-HandsOver d fd byte_buf u n k un nn kn out capacity w arg arg' arg''
          b in
      let wrap = Option.map byte_buf in
      let q : Request B = Request.attestation (wrap o) (wrap o') (wrap o'') in
      (
        record (behind d fd q w) { memory = m' },
        rw done,
        asked-Goes q out capacity w m' (HandsOver-Leaves out capacity w.memory m' _ code size h),
      )
  run-Goes (Call.get_random out capacity) w (absent e) =
      (w, rw (nsm_get_random_invalid d fd out capacity w (inr (inl e))), same-Goes _ w)
  run-Goes (Call.get_random out capacity) w (present valid mapped) =
      elim (Bool-cases (is_negative fd)) [
        | inl negative ↦
            (w, rw (nsm_get_random_invalid d fd out capacity w (inl negative)), same-Goes _ w)
        | inr open_fd ↦ elim (Bool-cases (capacity == 0)) [
          | inl empty ↦ (
            w,
            rw (nsm_get_random_invalid d fd out capacity w (inr (inr (ground arith)))),
            same-Goes _ w,
          )
          | inr some_room ↦
              let room : capacity ≢ 0 = ground arith in
              let q : Request B = Request.get_random in
              let (code, size, m', done, h) =
                nsm_get_random-Draws d fd out capacity w open_fd valid room mapped in
              (
                record (behind d fd q w) { memory = m' },
                rw done,
                asked-Goes q out capacity w m'
                    (Draws-Leaves out capacity w.memory m' (reply d fd q w) code size h),
              )
        ]
      ]

  -- On any driver, for any sequence of calls of nsm_extend_pcr, nsm_describe_pcr, nsm_lock_pcr,
  -- nsm_lock_pcrs, nsm_get_attestation_doc and nsm_get_random in which every pointer is null or
  -- leads to as much mapped memory at the start as the call says: whatever the device answers, all
  -- calls return without a panic or undefined behaviour, mapped memory stays mapped, every address
  -- outside the output buffers of the calls keeps its byte, and the log is as it was; of the kernel
  -- only requests on the descriptor have changed the state.
  pub run_all-Intact :
      (cs : List Call) (w : World K)
      → AreSafe w.memory cs
      → (w' : World K) × (run_all cs w ≡ ok tt w')
        × Intact (AreSparing cs) w w'
        × Asked d fd w.kernel w'.kernel
  unfolding run_all
  run_all-Intact [] w h =
      let (intact, asked) = same-Goes (AreSparing []) w in (w, refl, intact, asked)
  run_all-Intact (c ∷ cs) w (h, hs) =
      let (w₁, e, ((mapped, spared, log), asked)) = run-Goes c w h in
      let (w₂, e', (mapped', spared', log'), asked') =
        run_all-Intact cs w₁ (AreSafe-mapped w.memory w₁.memory mapped cs hs) in
      (
        w₂,
        rw (e, e'),
        (
          λ p n there. mapped' p n (mapped p n there),
          λ q (s, ss). spared' q ss ∙ spared q s,
          log' ∙ log,
        ),
        Asked-trans d fd w.kernel w₁.kernel w₂.kernel asked asked',
      )
