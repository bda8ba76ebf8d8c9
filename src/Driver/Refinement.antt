-- ===== src/Driver/Refinement.antt =====
-- nsm-driver/src/lib.rs as a transport: where the kernel carries bytes to a device and back, the
-- driver's requests are the device's own steps, in the order in which they are made.
use aws_nitro_enclaves_nsm_a.Base.{
  ◌≤◌, ◌≡◌, refl, List, [], ◌∷◌, Bytes, some, Result, arith, inl, inr, ltb, length, Bool-cases,
  if◌then◌else◌,
}
use aws_nitro_enclaves_nsm_a.Base.Ints.{ℤ, pos}
use aws_nitro_enclaves_nsm_a.Machine.{World, Outcome, Cmd, pure, ◌>>=◌}
use aws_nitro_enclaves_nsm_a.NsmIo.{Request, Response, error, Cbor, input_too_large}
use aws_nitro_enclaves_nsm_a.Driver.{
  nsm_request_max_size, as_slice, NsmMessage, Os, nsm_process_request,
}
use aws_nitro_enclaves_nsm_a.Driver.Answers.{Encodes, sent, code}

-- A device: its states, and how it handles a request.
abbrev pub Device : Type 0 → Type 0 → Type 0
Device B S = Request B → S → Response × S

-- The kernel's `ioctl` on `fd` hands the request to the device, whose state `view` shows, and puts
-- the encoding of its response into the message.
pub record Serves {K B C S : Type 0} (lib : Cbor B C) (os : Os K) (fd : ℤ) (view : K → S)
    (handle : Device B S) (q : Request B) (b : Bytes) (k : K) : Type 0 where
  pub message : NsmMessage
  pub kernel : K
  pub slice : Bytes
  pub succeeds : os.ioctl fd (code os) (sent b) k ≡ (pos 0, message, kernel)
  pub in_place : as_slice message.response ≡ some slice
  pub encoded : lib.response_from_slice slice ≡ Result.ok (handle q (view k)).0
  pub steps : view kernel ≡ (handle q (view k)).1

-- A client that makes requests one after another and keeps the responses.
unfoldable pub process_all :
    {K B : Type 0} → (Request B → Cmd K Response) → List (Request B) → Cmd K (List Response)
process_all process [] = pure []
process_all process (q ∷ qs) = do r ← process q; rs ← process_all process qs; pure (r ∷ rs)

module _ {K B C S : Type 0} (lib : Cbor B C) (os : Os K) (fd : ℤ) (view : K → S)
    (handle : Device B S) where
  -- The driver as a device: a request whose encoding passes the limit is refused on the spot.
  unfoldable pub transported : Encodes lib → Device B S
  transported encodes q s =
      if ltb nsm_request_max_size (length (encodes q).0)
      then (error input_too_large, s)
      else handle q s

  pub run_device : Encodes lib → List (Request B) → S → List Response × S
  unfolding transported
  run_device encodes [] s = ([], s)
  run_device encodes (q ∷ qs) s =
      let (r, s') = transported encodes q s in
      let (rs, s'') = run_device encodes qs s' in (r ∷ rs, s'')

  module _ (encodes : Encodes lib)
      (serves : (q : Request B) (b : Bytes) (k : K)
        → lib.request_to_vec q ≡ Result.ok b
        → length b ≤ nsm_request_max_size
        → Serves lib os fd view handle q b k) where
    pub nsm_process_request-transported :
        (q : Request B) (w : World K)
        → (k : K) × (nsm_process_request lib os fd q w
            ≡ Outcome.ok (transported encodes q (view w.kernel)).0 (record w { kernel = k }))
          × (view k ≡ (transported encodes q (view w.kernel)).1)
    unfolding nsm_process_request transported
    nsm_process_request-transported q w =
        let (b, e) = encodes q in
        elim (Bool-cases (ltb nsm_request_max_size (length (encodes q).0))) [
          | inl large ↦ (w.kernel, rw ((encodes q).1, large), rw large)
          | inr small ↦
              let s : Serves lib os fd view handle q (encodes q).0 w.kernel =
                serves q (encodes q).0 w.kernel (encodes q).1 (ground arith) in
              (
                s.kernel,
                rw ((encodes q).1, small, s.succeeds, s.in_place, s.encoded),
                rw small s.steps,
              )
        ]

    -- Where serde_cbor encodes every request and the kernel carries each request that fits to a
    -- device and the encoded response back, the driver run on any list of requests returns the
    -- responses of the device run on that list, and leaves the device in the state of that run; a
    -- request whose encoding passes the limit is answered InputTooLarge and does not reach the
    -- device.
    pub process_all-run_device :
        (qs : List (Request B)) (w : World K)
        → (k : K) × (process_all (nsm_process_request lib os fd) qs w
            ≡ Outcome.ok (run_device encodes qs (view w.kernel)).0 (record w { kernel = k }))
          × (view k ≡ (run_device encodes qs (view w.kernel)).1)
    unfolding process_all run_device
    process_all-run_device [] w = (w.kernel, refl, refl)
    process_all-run_device (q ∷ qs) w =
        let (k, e, v) = nsm_process_request-transported q w in
        let (k', e', v') = process_all-run_device qs (record w { kernel = k }) in
        (k', rw (e, e', v), rw v at v')
