-- ===== src/NsmLib/Calls.antt =====
-- The calls that a C program makes of nsm-lib/src/lib.rs, and what its pointers must lead to.
use aws_nitro_enclaves_nsm_a.Base.{refl, ℕ, ◌+◌, ◌<◌, ◌≤◌, ◌≡◌, ◌⊎◌, Bool, List, [], ◌∷◌}
use aws_nitro_enclaves_nsm_a.Base.Ints.{ℤ}
use aws_nitro_enclaves_nsm_a.NsmIo.{Request, Response}
use aws_nitro_enclaves_nsm_a.Driver.Api.{NsmDriver, reply, behind, nsm_process_request-reply}
use aws_nitro_enclaves_nsm_a.Machine.{ok, World}
use aws_nitro_enclaves_nsm_a.Machine.Memory.{Ptr, Memory, IsMapped}
use aws_nitro_enclaves_nsm_a.NsmLib.Replies.{IsBuffer, absent, present}

-- A call that hands over pointers, or locks; each buffer is an address with a length.
pub data Call : Type 0 where
  extend_pcr : (index : ℕ) (p : Ptr) (n : ℕ) (out : Ptr) (capacity : ℕ) → Call
  describe_pcr : (index : ℕ) (lock : Bool) (out : Ptr) (capacity : ℕ) → Call
  lock_pcr : (index : ℕ) → Call
  lock_pcrs : (range : ℕ) → Call
  get_attestation_doc :
      (u : Ptr) (un : ℕ) (n : Ptr) (nn : ℕ) (k : Ptr) (kn : ℕ) (out : Ptr) (capacity : ℕ) → Call
  get_random : (out : Ptr) (capacity : ℕ) → Call

-- Every pointer that is not null leads to as much mapped memory as the call says.
abbrev pub IsSafe : Memory ℕ → Call → Type 0
IsSafe m (Call.extend_pcr _ p n out capacity) = IsBuffer m p n × IsBuffer m out capacity
IsSafe m (Call.describe_pcr _ _ out capacity) = IsBuffer m out capacity
IsSafe m (Call.lock_pcr _) = Unit {0}
IsSafe m (Call.lock_pcrs _) = Unit {0}
IsSafe m (Call.get_attestation_doc u un n nn k kn out capacity) =
    IsBuffer m u un × IsBuffer m n nn × IsBuffer m k kn × IsBuffer m out capacity
IsSafe m (Call.get_random out capacity) = IsBuffer m out capacity

abbrev pub Outside : Ptr → Ptr → ℕ → Type 0
Outside q out capacity = (q < out) ⊎ (out + capacity ≤ q)

-- The address is not in the output buffer of the call.
abbrev pub IsSpared : Ptr → Call → Type 0
IsSpared q (Call.extend_pcr _ _ _ out capacity) = Outside q out capacity
IsSpared q (Call.describe_pcr _ _ out capacity) = Outside q out capacity
IsSpared q (Call.lock_pcr _) = Unit {0}
IsSpared q (Call.lock_pcrs _) = Unit {0}
IsSpared q (Call.get_attestation_doc _ _ _ _ _ _ out capacity) = Outside q out capacity
IsSpared q (Call.get_random out capacity) = Outside q out capacity

-- A buffer stays one.
IsBuffer-mapped :
    (m m' : Memory ℕ)
    → ((p : Ptr) (n : ℕ) → IsMapped m p n → IsMapped m' p n)
    → (p : Ptr) (n : ℕ) → IsBuffer m p n
    → IsBuffer m' p n
IsBuffer-mapped m m' keeps p n (absent e) = absent e
IsBuffer-mapped m m' keeps p n (present valid mapped) = present valid (keeps p n mapped)

-- Mapped memory stays mapped, the addresses in `P` keep their bytes, and the log is as it was.
abbrev pub Intact : {K : Type 0} → (Ptr → Type 0) → World K → World K → Type 0
Intact P w w' =
    ((p : Ptr) (n : ℕ) → IsMapped w.memory p n → IsMapped w'.memory p n)
    × ((q : Ptr) → P q → w'.memory q ≡ w.memory q)
    × (w'.log ≡ w.log)

-- All calls are safe, and the address is in the output buffer of none.
abbrev pub AreSafe : Memory ℕ → List Call → Type 0
AreSafe m [] = Unit {0}
AreSafe m (c ∷ cs) = IsSafe m c × AreSafe m cs

abbrev pub AreSparing : List Call → Ptr → Type 0
AreSparing [] q = Unit {0}
AreSparing (c ∷ cs) q = IsSpared q c × AreSparing cs q

IsSafe-mapped :
    (m m' : Memory ℕ)
    → ((p : Ptr) (n : ℕ) → IsMapped m p n → IsMapped m' p n)
    → (c : Call) → IsSafe m c
    → IsSafe m' c
IsSafe-mapped m m' keeps (Call.extend_pcr _ p n out capacity) (a, b) =
    (IsBuffer-mapped m m' keeps p n a, IsBuffer-mapped m m' keeps out capacity b)
IsSafe-mapped m m' keeps (Call.describe_pcr _ _ out capacity) b =
    IsBuffer-mapped m m' keeps out capacity b
IsSafe-mapped m m' keeps (Call.lock_pcr _) h = h
IsSafe-mapped m m' keeps (Call.lock_pcrs _) h = h
IsSafe-mapped m m' keeps (Call.get_attestation_doc u un n nn k kn out capacity) (a, a', a'', b) = (
  IsBuffer-mapped m m' keeps u un a,
  IsBuffer-mapped m m' keeps n nn a',
  IsBuffer-mapped m m' keeps k kn a'',
  IsBuffer-mapped m m' keeps out capacity b,
)
IsSafe-mapped m m' keeps (Call.get_random out capacity) b =
    IsBuffer-mapped m m' keeps out capacity b

pub AreSafe-mapped :
    (m m' : Memory ℕ)
    → ((p : Ptr) (n : ℕ) → IsMapped m p n → IsMapped m' p n)
    → (cs : List Call) → AreSafe m cs
    → AreSafe m' cs
AreSafe-mapped m m' keeps [] h = h
AreSafe-mapped m m' keeps (c ∷ cs) (h, hs) =
    (IsSafe-mapped m m' keeps c h, AreSafe-mapped m m' keeps cs hs)

-- From one state of the kernel to another by requests on the descriptor.
pub data Asked {K B : Type 0} (d : NsmDriver K B) (fd : ℤ) : K → K → Type 0 where
  none_asked : (k : K) → Asked d fd k k
  then_asked :
      (k k' : K) (q : Request B) (w w' : World K) (r : Response)
      → Asked d fd k w.kernel
      → d.nsm_process_request fd q w ≡ ok r w'
      → w'.kernel ≡ k'
      → Asked d fd k k'

module _ {K B : Type 0} (d : NsmDriver K B) (fd : ℤ) where
  pub Asked-trans : (k₁ k₂ k₃ : K) → Asked d fd k₁ k₂ → Asked d fd k₂ k₃ → Asked d fd k₁ k₃
  Asked-trans k₁ k₂ k₃ before (Asked.none_asked _) = before
  Asked-trans k₁ k₂ k₃ before (Asked.then_asked _ _ q w w' r more e same) =
      Asked.then_asked k₁ k₃ q w w' r (Asked-trans k₁ k₂ w.kernel before more) e same

  pub Asked-behind : (q : Request B) (w : World K) → Asked d fd w.kernel (behind d fd q w).kernel
  Asked-behind q w =
      Asked.then_asked w.kernel (behind d fd q w).kernel q w (behind d fd q w) (reply d fd q w)
        (Asked.none_asked w.kernel) (nsm_process_request-reply d fd q w) refl
