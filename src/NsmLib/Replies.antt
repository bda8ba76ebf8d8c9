-- ===== src/NsmLib/Replies.antt =====
-- What a C caller of nsm-lib/src/lib.rs may rely on: the answer of the device, seen as a payload, a
-- refusal or something unexpected, and how each kind reaches the caller's variables and memory.
use aws_nitro_enclaves_nsm_a.Base.{ℕ, ◌≡◌, refl, ◌≢◌, ◌⊎◌, inl, inr, Option, none, some, Bytes}
use aws_nitro_enclaves_nsm_a.Machine.{World, Outcome, ok}
use aws_nitro_enclaves_nsm_a.Machine.Memory.{Ptr, null, Memory, read, IsMapped}
use aws_nitro_enclaves_nsm_a.NsmIo.{ErrorCode, invalid_response, buffer_too_small}
use aws_nitro_enclaves_nsm_a.NsmLib.Raw.{nsm_get_vec_from_raw, nsm_get_raw_from_vec}
use aws_nitro_enclaves_nsm_a.NsmLib.Delivery.{
  Delivered, nsm_get_raw_from_vec-null, nsm_get_raw_from_vec-Delivered, nsm_get_vec_from_raw-null,
  nsm_get_vec_from_raw-read,
}

pub data Reply : Type 0 where
  payload : Bytes → Reply
  refused : ErrorCode → Reply
  unexpected : Reply

-- The pointer is null, or leads to that many bytes.
pub data IsBuffer (m : Memory ℕ) (p : Ptr) (n : ℕ) : Type 0 where
  absent : p ≡ null → IsBuffer m p n
  present : p ≢ null → IsMapped m p n → IsBuffer m p n

-- The bytes that an input pointer and length stand for.
pub data Argument (m : Memory ℕ) (p : Ptr) (n : ℕ) : Option Bytes → Type 0 where
  omitted : p ≡ null → Argument m p n none
  given : {xs : Bytes} → p ≢ null → read m p n ≡ some xs → Argument m p n (some xs)

-- What is left in the caller's length and memory behind each kind of reply: a payload goes to the
-- buffer, or is lost where there is none; otherwise neither changes.
abbrev pub HandsOver : Ptr → ℕ → Memory ℕ → Reply → ErrorCode → ℕ → Memory ℕ → Type 0
HandsOver out capacity m (payload input) code size m' =
    ((out ≡ null) × (code ≡ buffer_too_small) × (size ≡ 0) × (m' ≡ m))
    ⊎ Delivered input out capacity m m' code size
HandsOver out capacity m (refused err) code size m' = (code ≡ err) × (size ≡ capacity) × (m' ≡ m)
HandsOver out capacity m unexpected code size m' =
    (code ≡ invalid_response) × (size ≡ capacity) × (m' ≡ m)

-- A run that returns a code and a length, and changes nothing of `w` but its memory.
abbrev pub Ends :
    {K : Type 0}
    → Outcome K (ErrorCode × ℕ)
    → World K
    → (ErrorCode → ℕ → Memory ℕ → Type 0)
    → Type 0
Ends run w P =
    (code : ErrorCode) × (size : ℕ) × (m' : Memory ℕ) × (run
      ≡ ok (code, size) (record w { memory = m' }))
    × P code size m'

module _ {K : Type 0} where
  pub nsm_get_raw_from_vec-HandsOver :
      (input : Bytes) (out : Ptr) (capacity : ℕ) (w : World K)
      → IsBuffer w.memory out capacity
      → Ends
          (nsm_get_raw_from_vec input out capacity w)
          w
          (HandsOver out capacity w.memory (payload input))
  nsm_get_raw_from_vec-HandsOver input out capacity w (absent e) = (
    buffer_too_small,
    0,
    w.memory,
    rw e (nsm_get_raw_from_vec-null input capacity w),
    inl (e, refl, refl, refl),
  )
  nsm_get_raw_from_vec-HandsOver input out capacity w (present ne v) =
      let (code, size, m', e, h) = nsm_get_raw_from_vec-Delivered input out capacity w ne v in
      (code, size, m', e, inr h)

  pub nsm_get_vec_from_raw-Argument :
      (p : Ptr) (n : ℕ) (w : World K) {o : Option Bytes}
      → Argument w.memory p n o
      → nsm_get_vec_from_raw p n w ≡ ok o w
  nsm_get_vec_from_raw-Argument p n w (omitted e) = rw e (nsm_get_vec_from_raw-null n w)
  nsm_get_vec_from_raw-Argument p n w (given ne e) = nsm_get_vec_from_raw-read p n w ne e
