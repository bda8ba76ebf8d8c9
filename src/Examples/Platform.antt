-- ===== src/Examples/Platform.antt =====
-- A platform small enough to compute: every request is encoded by a tag and its numbers, and a
-- device that counts its requests sits behind descriptor 3.
use aws_nitro_enclaves_nsm_a.Base.{
  ℕ, suc, ◌≤◌, ◌≡◌, refl, true, [], ◌∷◌, Bytes, some, Result, arith, leb, ◌==◌, if◌then◌else◌,
  length, take-all,
}
use aws_nitro_enclaves_nsm_a.Base.Ints.{ℤ, pos, negsuc}
use aws_nitro_enclaves_nsm_a.Machine.{World}
use aws_nitro_enclaves_nsm_a.NsmIo.{Request, Response, invalid_operation, sha384, NsmInfo, Cbor}
use aws_nitro_enclaves_nsm_a.Driver.{io_vec, as_slice, NsmMessage, Os}
use aws_nitro_enclaves_nsm_a.Driver.Answers.{Encodes, StaysInBounds, sent, nsm_driver}
use aws_nitro_enclaves_nsm_a.Driver.Api.{NsmDriver}
use aws_nitro_enclaves_nsm_a.Driver.Refinement.{Device, Serves}

abbrev pub encode : Request Bytes → Bytes
encode (Request.describe_pcr i) = 0 ∷ i ∷ []
encode (Request.extend_pcr i xs) = 1 ∷ i ∷ xs
encode (Request.lock_pcr i) = 2 ∷ i ∷ []
encode (Request.lock_pcrs r) = 3 ∷ r ∷ []
encode Request.describe_nsm = 4 ∷ []
encode (Request.attestation u n p) = 5 ∷ []
encode Request.get_random = 6 ∷ []

abbrev pub info : NsmInfo
info = record {
  version_major = 1;
  version_minor = 2;
  version_patch = 3;
  module_id = 65 ∷ 66 ∷ [];
  max_pcrs = 32;
  locked_pcrs = 0 ∷ 3 ∷ [];
  digest = sha384;
}

abbrev decode : ℕ → Bytes → Result Response (Unit {0})
decode tag xs =
    if tag == 0
    then Result.ok (Response.describe_pcr true xs)
    else if tag == 1
    then Result.ok (Response.extend_pcr xs)
    else if tag == 2
    then Result.ok Response.lock_pcr
    else if tag == 3
    then Result.ok (Response.error invalid_operation)
    else if tag == 4
    then Result.ok (Response.describe_nsm info)
    else if tag == 5
    then Result.ok (Response.attestation xs)
    else if tag == 6
    then Result.ok (Response.get_random xs)
    else Result.err tt

abbrev decode_bytes : Bytes → Result Response (Unit {0})
decode_bytes [] = Result.err tt
decode_bytes (tag ∷ xs) = decode tag xs

-- The device works on the bytes of the request; `n` is the number of requests before.
abbrev respond : Bytes → ℕ → Bytes
respond [] n = []
respond (tag ∷ []) n = tag ∷ n ∷ 8 ∷ []
respond (tag ∷ i ∷ xs) n = tag ∷ i ∷ xs

-- The same device on requests.
abbrev pub handle : Device Bytes ℕ
handle (Request.describe_pcr i) n = (Response.describe_pcr true (i ∷ []), suc n)
handle (Request.extend_pcr i xs) n = (Response.extend_pcr (i ∷ xs), suc n)
handle (Request.lock_pcr i) n = (Response.lock_pcr, suc n)
handle (Request.lock_pcrs r) n = (Response.error invalid_operation, suc n)
handle Request.describe_nsm n = (Response.describe_nsm info, suc n)
handle (Request.attestation u v p) n = (Response.attestation (n ∷ 8 ∷ []), suc n)
handle Request.get_random n = (Response.get_random (n ∷ 8 ∷ []), suc n)

abbrev pub cbor : Cbor Bytes (Unit {0})
cbor = record {
  request_to_vec = λ q. Result.ok (encode q);
  response_from_slice = decode_bytes;
  doc_to_vec = λ doc. Result.ok (1 ∷ []);
  doc_from_slice = λ b. Result.err tt;
}

-- Descriptor 3 is the device; any other is an error.
abbrev ioctl : ℤ → ℕ → NsmMessage → ℕ → ℤ × NsmMessage × ℕ
ioctl (pos fd) c m n =
    if fd == 3
    then (pos 0, record m { response = io_vec (respond m.request.base n) }, suc n)
    else (negsuc 0, m, n)
ioctl (negsuc fd) c m n = (negsuc 0, m, n)

abbrev pub os : Os ℕ
os = record {
  request_code_readwrite = λ magic nr size. size;
  size_of_message = 32;
  ioctl = ioctl;
  errno_last = λ n. 9;
  emsgsize = 90;
  open_file = λ options path n. (Result.ok (pos 3), n);
  close = λ fd n. (Result.ok tt, n);
}

abbrev pub encodes : Encodes cbor
encodes q = (encode q, refl)

pub bounds : StaysInBounds os
bounds (pos fd) c m n h = ground arith
bounds (negsuc fd) c m n h = h

pub as_slice-io_vec : (b : Bytes) → as_slice (io_vec b) ≡ some b
as_slice-io_vec b =
    let inside : leb (length b) (length b) ≡ true = ground arith in
    rw (inside, take-all (length b) b (omega arith))

serves_request :
    (q : Request Bytes) (n : ℕ)
    → (decode_bytes (respond (encode q) n) ≡ Result.ok (handle q n).0) × (suc n ≡ (handle q n).1)
serves_request (Request.describe_pcr i) n = (refl, refl)
serves_request (Request.extend_pcr i xs) n = (refl, refl)
serves_request (Request.lock_pcr i) n = (refl, refl)
serves_request (Request.lock_pcrs r) n = (refl, refl)
serves_request Request.describe_nsm n = (refl, refl)
serves_request (Request.attestation u v p) n = (refl, refl)
serves_request Request.get_random n = (refl, refl)

pub serves :
    (q : Request Bytes) (b : Bytes) (n : ℕ)
    → cbor.request_to_vec q ≡ Result.ok b
    → length b ≤ 0x1000
    → Serves cbor os (pos 3) (λ k. k) handle q b n
serves q b n e h = record {
  message = record (sent b) { response = io_vec (respond b n) };
  kernel = suc n;
  slice = respond b n;
  succeeds = refl;
  in_place = as_slice-io_vec (respond b n);
  encoded = let same : encode q ≡ b = cc in rw (← same) (serves_request q n).0;
  steps = (serves_request q n).1;
}

-- The crate's driver on this platform.
unfoldable pub driver : NsmDriver ℕ Bytes
unfolding nsm_driver
driver = nsm_driver cbor os encodes bounds

-- A caller whose whole memory is mapped and holds sevens; 5 requests have been made.
abbrev pub world : World ℕ
world = record { kernel = 5; memory = λ p. some 7; log = [] }
