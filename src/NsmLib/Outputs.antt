-- ===== src/NsmLib/Outputs.antt =====
-- nsm_describe_pcr and nsm_get_random of nsm-lib/src/lib.rs: what reaches the caller's variables.
use aws_nitro_enclaves_nsm_a.Base.{
  ℕ, ◌≤◌, ◌≡◌, refl, ◌≢◌, ◌⊎◌, Bool, true, false, ◌||◌, ◌==◌, min, length, take, arith,
}
use aws_nitro_enclaves_nsm_a.Base.Ints.{ℤ, is_negative}
use aws_nitro_enclaves_nsm_a.Machine.{World, ok}
use aws_nitro_enclaves_nsm_a.Machine.Memory.{
  Ptr, null, Memory, IsMapped, IsMapped-le, is_null, overlay,
}
use aws_nitro_enclaves_nsm_a.NsmIo.{
  Request, Response, ErrorCode, success, invalid_argument, invalid_response,
}
use aws_nitro_enclaves_nsm_a.Driver.Api.{NsmDriver, reply, behind, nsm_process_request-reply}
use aws_nitro_enclaves_nsm_a.NsmLib.{described, nsm_describe_pcr, drawn, nsm_get_random}
use aws_nitro_enclaves_nsm_a.NsmLib.Delivery.{Holds, overlay-Holds, copy_nonoverlapping-overlay}
use aws_nitro_enclaves_nsm_a.NsmLib.Replies.{
  Reply, payload, refused, unexpected, IsBuffer, HandsOver, Ends, nsm_get_raw_from_vec-HandsOver,
}

-- The value of a DescribePCR response.
unfoldable pub pcr_value : Response → Reply
pcr_value (Response.describe_pcr lock pcr) = payload pcr
pcr_value (Response.error err) = refused err
pcr_value _ = unexpected

-- The caller's lock variable afterwards.
unfoldable pub pcr_lock : Bool → Response → Bool
pcr_lock lock (Response.describe_pcr lock' pcr) = lock'
pcr_lock lock _ = lock

-- Random bytes: as many as there are and fit, and always a success.
abbrev pub Draws : Ptr → ℕ → Memory ℕ → Response → ErrorCode → ℕ → Memory ℕ → Type 0
Draws buf capacity m (Response.get_random random) code size m' =
    (code ≡ success) × (size ≡ min capacity (length random)) × Holds random buf size m m'
Draws buf capacity m (Response.error err) code size m' = (code ≡ err) × (size ≡ capacity) × (m' ≡ m)
Draws buf capacity m _ code size m' = (code ≡ invalid_response) × (size ≡ capacity) × (m' ≡ m)

module _ {K : Type 0} where
  described-HandsOver :
      (lock : Bool) (out : Ptr) (capacity : ℕ) (w : World K)
      → IsBuffer w.memory out capacity
      → (r : Response)
      → (code : ErrorCode) × (size : ℕ) × (m' : Memory ℕ) × (described lock out capacity r w
          ≡ ok (code, pcr_lock lock r, size) (record w { memory = m' }))
        × HandsOver out capacity w.memory (pcr_value r) code size m'
  unfolding described pcr_value pcr_lock
  described-HandsOver lock out capacity w buffer (Response.describe_pcr lock' pcr) =
      let (code, size, m', e, h) = nsm_get_raw_from_vec-HandsOver pcr out capacity w buffer in
      (code, size, m', rw e, h)
  described-HandsOver lock out capacity w buffer (Response.error err) =
      (err, capacity, w.memory, refl, (refl, refl, refl))
  described-HandsOver lock out capacity w buffer _ =
      (invalid_response, capacity, w.memory, refl, (refl, refl, refl))

  drawn-Draws :
      (buf : Ptr) (capacity : ℕ) (w : World K)
      → IsMapped w.memory buf capacity
      → (r : Response) → Ends (drawn buf capacity r w) w (Draws buf capacity w.memory r)
  unfolding drawn
  drawn-Draws buf capacity w v (Response.get_random random) =
      let size = min capacity (length random) in
      let held = overlay-Holds random buf size w.memory (omega arith) in
      let bounded : size ≤ length random = omega arith in
      let inside : IsMapped w.memory buf size = IsMapped-le w.memory buf capacity (omega arith) v in
      (
        success,
        size,
        overlay w.memory buf (take size random),
        rw (copy_nonoverlapping-overlay random buf size w bounded inside),
        (refl, refl, held),
      )
  drawn-Draws buf capacity w v (Response.error err) =
      (err, capacity, w.memory, refl, (refl, refl, refl))
  drawn-Draws buf capacity w v _ = (invalid_response, capacity, w.memory, refl, (refl, refl, refl))

module _ {K B : Type 0} (d : NsmDriver K B) (fd : ℤ) where
  -- With an output pointer that is null or leads to enough mapped memory, nsm_describe_pcr makes
  -- the one request DescribePCR and returns: the caller's lock variable is the response's lock for
  -- a DescribePCR response, also where the value does not fit, and is untouched otherwise; the PCR
  -- value goes to the buffer within its bounds, an error becomes the code, any other response is
  -- InvalidResponse, and in the last two cases length and memory stay as they were.
  pub nsm_describe_pcr-HandsOver :
      (index : ℕ) (lock : Bool) (out : Ptr) (capacity : ℕ) (w : World K)
      → IsBuffer w.memory out capacity
      → let q = Request.describe_pcr index in
        let r = reply d fd q w in
        (code : ErrorCode) × (size : ℕ) × (m' : Memory ℕ) × (nsm_describe_pcr d fd index lock out
            capacity w
          ≡ ok (code, pcr_lock lock r, size) (record (behind d fd q w) { memory = m' }))
        × HandsOver out capacity w.memory (pcr_value r) code size m'
  unfolding nsm_describe_pcr
  nsm_describe_pcr-HandsOver index lock out capacity w b =
      let q = Request.describe_pcr index in
      rw (nsm_process_request-reply d fd q w) (
        unfold behind in described-HandsOver lock out capacity (behind d fd q w) b (reply d fd q w))

  -- With a negative descriptor, a null buffer or an empty one, nsm_get_random returns
  -- InvalidArgument with the length as given, makes no request and changes nothing.
  pub nsm_get_random_invalid :
      (buf : Ptr) (buf_len : ℕ) (w : World K)
      → (is_negative fd ≡ true) ⊎ (buf ≡ null) ⊎ (buf_len ≡ 0)
      → nsm_get_random d fd buf buf_len w ≡ ok (invalid_argument, buf_len) w
  unfolding nsm_get_random
  nsm_get_random_invalid buf buf_len w h = ground arith

  -- With a non-negative descriptor and a buffer that is not null, not empty and mapped,
  -- nsm_get_random makes the one request GetRandom and returns: random bytes give Success, the
  -- smaller of the buffer's length and their number as the new length, and that many of them in the
  -- buffer with no other address changed; an error becomes the code, any other response is
  -- InvalidResponse, and then length and memory stay as they were.
  pub nsm_get_random-Draws :
      (buf : Ptr) (buf_len : ℕ) (w : World K)
      → is_negative fd ≡ false
      → buf ≢ null
      → buf_len ≢ 0
      → IsMapped w.memory buf buf_len
      → let q = Request.get_random in
        Ends
          (nsm_get_random d fd buf buf_len w)
          (behind d fd q w)
          (Draws buf buf_len w.memory (reply d fd q w))
  unfolding nsm_get_random
  nsm_get_random-Draws buf buf_len w open_fd valid some_room v =
      let guard : (is_negative fd || is_null buf || buf_len == 0) ≡ false = ground arith in
      rw (guard, nsm_process_request-reply d fd Request.get_random w)
        (unfold behind in
          drawn-Draws buf buf_len (behind d fd Request.get_random w) v
            (reply d fd Request.get_random w))
