-- ===== src/NsmLib/Delivery.antt =====
-- What nsm_get_raw_from_vec and nsm_get_vec_from_raw of nsm-lib/src/lib.rs do with the caller's
-- memory: bounds, contents, and what they leave alone.
use aws_nitro_enclaves_nsm_a.Base.{
  ℕ, ◌+◌, ◌%◌, ◌^◌, ◌≤◌, ◌<◌, ◌≡◌, refl, ◌≢◌, ◌⊎◌, true, false, none, some, Bytes, arith, min, leb,
  ◌==◌, if◌then◌else◌, length, take, length-take,
}
use aws_nitro_enclaves_nsm_a.Machine.{World, ok}
use aws_nitro_enclaves_nsm_a.Machine.Memory.{
  Ptr, null, Memory, read, IsMapped, write, overlay, write-overlay, IsMapped-le, overlay_outside,
  read-overlay, IsMapped-overlay,
}
use aws_nitro_enclaves_nsm_a.NsmIo.{ErrorCode, success, buffer_too_small}
use aws_nitro_enclaves_nsm_a.NsmLib.Raw.{
  copy_nonoverlapping, nsm_get_vec_from_raw, nsm_get_raw_from_vec,
}

-- `m'` is `m` with the first `size` of the bytes at `out`, and no other change.
pub record Holds (input : Bytes) (out : Ptr) (size : ℕ) (m m' : Memory ℕ) : Type 0 where
  pub delivered : read m' out size ≡ some (take size input)
  pub outside : (q : Ptr) → (q < out) ⊎ (out + size ≤ q) → m' q ≡ m q
  pub mapped : (p : Ptr) (n : ℕ) → IsMapped m p n → IsMapped m' p n

-- The result of handing `input` over to a buffer of `capacity` bytes at `out`.
pub record Delivered (input : Bytes) (out : Ptr) (capacity : ℕ) (m m' : Memory ℕ) (code : ErrorCode)
    (size : ℕ) : Type 0 where
  pub sized : size ≡ min capacity (length input % 2 ^ 32)
  pub fits : length input ≤ capacity → code ≡ success
  pub cut : capacity < length input → code ≡ buffer_too_small
  pub holds : Holds input out size m m'

module _ {K : Type 0} where
  -- Copying `n` bytes of `src` to mapped memory.
  pub copy_nonoverlapping-overlay :
      (src : Bytes) (dst : Ptr) (n : ℕ) (w : World K)
      → n ≤ length src
      → IsMapped w.memory dst n
      → copy_nonoverlapping src dst n w
        ≡ ok tt (record w { memory = overlay w.memory dst (take n src) })
  unfolding copy_nonoverlapping
  copy_nonoverlapping-overlay src dst n w h v =
      let e : length (take n src) ≡ n = omega (arith, length-take n src) in
      let inside : leb n (length src) ≡ true = ground arith in
      let written : write w.memory dst (take n src) ≡ some (overlay w.memory dst (take n src)) =
        write-overlay (take n src) w.memory dst (rw e v) in
      rw (inside, written)

pub overlay-Holds :
    (src : Bytes) (dst : Ptr) (n : ℕ) (m : Memory ℕ)
    → n ≤ length src
    → Holds src dst n m (overlay m dst (take n src))
overlay-Holds src dst n m h =
    let e : length (take n src) ≡ n = omega (arith, length-take n src) in
    record {
      delivered = rw e at (read-overlay (take n src) m dst);
      outside = λ q o. overlay_outside (take n src) m dst q (rw e o);
      mapped = λ p k v. IsMapped-overlay (take n src) m dst p k v;
    }

module _ {K : Type 0} where
  -- With no buffer nothing is written, and the length comes back as 0.
  pub nsm_get_raw_from_vec-null :
      (input : Bytes) (capacity : ℕ) (w : World K)
      → nsm_get_raw_from_vec input null capacity w ≡ ok (buffer_too_small, 0) w
  unfolding nsm_get_raw_from_vec
  nsm_get_raw_from_vec-null input capacity w = refl

  -- With an output pointer that is not null and leads to as much mapped memory as the given size,
  -- nsm_get_raw_from_vec returns without undefined behaviour: the new size is the smaller of the
  -- given size and the input's length taken to 32 bits, that many bytes of the input stand at the
  -- pointer, no other address changes, no memory is unmapped, and the code is Success when the
  -- input fits and BufferTooSmall when it does not.
  pub nsm_get_raw_from_vec-Delivered :
      (input : Bytes) (out : Ptr) (capacity : ℕ) (w : World K)
      → out ≢ null
      → IsMapped w.memory out capacity
      → (code : ErrorCode) × (size : ℕ) × (m' : Memory ℕ) × (nsm_get_raw_from_vec input out capacity
            w
          ≡ ok (code, size) (record w { memory = m' }))
        × Delivered input out capacity w.memory m' code size
  unfolding nsm_get_raw_from_vec
  nsm_get_raw_from_vec-Delivered input out capacity w ne v =
      let size = min capacity (length input % 2 ^ 32) in
      let small : size ≤ length input = omega arith in
      let valid : (out == null) ≡ false = ground arith in
      (
        (if leb (length input) capacity then success else buffer_too_small),
        size,
        overlay w.memory out (take size input),
        rw (
          valid,
          copy_nonoverlapping-overlay input out size w small
              (IsMapped-le w.memory out capacity (omega arith) v),
        ),
        record {
          sized = refl;
          fits = ground arith;
          cut = ground arith;
          holds = overlay-Holds input out size w.memory small;
        },
      )

  -- A null pointer gives no vector; no memory is read.
  pub nsm_get_vec_from_raw-null : (n : ℕ) (w : World K) → nsm_get_vec_from_raw null n w ≡ ok none w
  unfolding nsm_get_vec_from_raw
  nsm_get_vec_from_raw-null n w = refl

  pub nsm_get_vec_from_raw-read :
      (p : Ptr) (n : ℕ) (w : World K) {xs : Bytes}
      → p ≢ null
      → read w.memory p n ≡ some xs
      → nsm_get_vec_from_raw p n w ≡ ok (some xs) w
  unfolding nsm_get_vec_from_raw
  nsm_get_vec_from_raw-read p n w ne e =
      let valid : (p == null) ≡ false = ground arith in rw (valid, e)
