-- ===== src/Examples/Stacked.antt =====
-- nsm-check.rs over the driver on a platform small enough to compute: the device of
-- Examples/Hardware.antt behind descriptor 3, and an encoding of its requests and responses by a tag.
use aws_nitro_enclaves_nsm_a.Base.{
  ℕ, suc, ◌≤◌, ◌≡◌, refl, ap, inl, inr, true, false, none, some, [], ◌∷◌, Bytes, Result, arith, leb,
  ◌==◌, if◌then◌else◌, length, get_elem?, Option-cases, Bool-cases,
}
use aws_nitro_enclaves_nsm_a.Base.Ints.{ℤ, pos, negsuc}
use aws_nitro_enclaves_nsm_a.Machine.{World, LogLine}
use aws_nitro_enclaves_nsm_a.NsmIo.{
  Request, Response, ErrorCode, invalid_index, read_only_index, Cbor,
}
use aws_nitro_enclaves_nsm_a.Driver.{io_vec, NsmMessage, Os, nsm_init, nsm_exit}
use aws_nitro_enclaves_nsm_a.Driver.Answers.{Encodes, StaysInBounds, sent, nsm_driver}
use aws_nitro_enclaves_nsm_a.Driver.Refinement.{Serves}
use aws_nitro_enclaves_nsm_a.Check.{main}
use aws_nitro_enclaves_nsm_a.Check.Pcrs.{PcrData, get_pcr_len}
use aws_nitro_enclaves_nsm_a.Check.Protocol.{Bank}
use aws_nitro_enclaves_nsm_a.Stack.{HandlesAll, IsModest, main-nsm_driver}
use aws_nitro_enclaves_nsm_a.Examples.Bank.{extension, handle}
use aws_nitro_enclaves_nsm_a.Examples.Hardware.{info, bank, serve, held, last_drawn, bank-IsInitial}
use aws_nitro_enclaves_nsm_a.Examples.Platform.{encode, as_slice-io_vec}

abbrev head : Bytes → ℕ
head [] = 0
head (x ∷ xs) = x

abbrev tail : Bytes → Bytes
tail [] = []
tail (x ∷ xs) = xs

-- The device does not look at what is to be attested.
abbrev decode_tag : ℕ → Bytes → Request Bytes
decode_tag tag xs =
    if tag == 0
    then Request.describe_pcr (head xs)
    else if tag == 1
    then Request.extend_pcr (head xs) (tail xs)
    else if tag == 2
    then Request.lock_pcr (head xs)
    else if tag == 3
    then Request.lock_pcrs (head xs)
    else if tag == 4
    then Request.describe_nsm
    else if tag == 5
    then Request.attestation none none none
    else Request.get_random

abbrev decode_request : Bytes → Request Bytes
decode_request b = decode_tag (head b) (tail b)

abbrev encode_error : ErrorCode → Bytes
encode_error ErrorCode.invalid_index = 7 ∷ []
encode_error _ = 8 ∷ []

abbrev encode_response : Response → Bytes
encode_response (Response.describe_pcr lock value) = (if lock then 9 else 0) ∷ value
encode_response (Response.extend_pcr value) = 1 ∷ value
encode_response Response.lock_pcr = 2 ∷ []
encode_response Response.lock_pcrs = 3 ∷ []
encode_response (Response.describe_nsm i) = 4 ∷ i.max_pcrs ∷ i.locked_pcrs
encode_response (Response.attestation document) = 5 ∷ document
encode_response (Response.get_random random) = 6 ∷ random
encode_response (Response.error e) = encode_error e

abbrev response_of : ℕ → Bytes → Result Response (Unit {0})
response_of tag xs =
    if tag == 0
    then Result.ok (Response.describe_pcr false xs)
    else if tag == 1
    then Result.ok (Response.extend_pcr xs)
    else if tag == 2
    then Result.ok Response.lock_pcr
    else if tag == 3
    then Result.ok Response.lock_pcrs
    else if tag == 4
    then Result.ok
        (Response.describe_nsm (record info { max_pcrs = head xs; locked_pcrs = tail xs }))
    else if tag == 5
    then Result.ok (Response.attestation xs)
    else if tag == 6
    then Result.ok (Response.get_random xs)
    else if tag == 7
    then Result.ok (Response.error invalid_index)
    else if tag == 8
    then Result.ok (Response.error read_only_index)
    else Result.ok (Response.describe_pcr true xs)

abbrev decode_response : Bytes → Result Response (Unit {0})
decode_response b = response_of (head b) (tail b)

abbrev cbor : Cbor Bytes (Unit {0})
cbor = record {
  request_to_vec = λ q. Result.ok (encode q);
  response_from_slice = decode_response;
  doc_to_vec = λ doc. Result.ok (1 ∷ []);
  doc_from_slice = λ b. Result.err tt;
}

abbrev encodes : Encodes cbor
encodes q = (encode q, refl)

abbrev answer_message : NsmMessage → Bank × ℕ → ℤ × NsmMessage × (Bank × ℕ)
answer_message m s =
    let (r, s') = serve (decode_request m.request.base) s in
    (pos 0, record m { response = io_vec (encode_response r) }, s')

abbrev ioctl : ℤ → ℕ → NsmMessage → Bank × ℕ → ℤ × NsmMessage × (Bank × ℕ)
ioctl (pos fd) c m s = if fd == 3 then answer_message m s else (negsuc 0, m, s)
ioctl (negsuc fd) c m s = (negsuc 0, m, s)

abbrev os : Os (Bank × ℕ)
os = record {
  request_code_readwrite = λ magic nr size. size;
  size_of_message = 32;
  ioctl = ioctl;
  errno_last = λ s. 9;
  emsgsize = 90;
  open_file = λ options path s. (Result.ok (pos 3), s);
  close = λ fd s. (Result.ok tt, s);
}

bounds : StaysInBounds os
bounds (pos fd) c m s h = ground arith
bounds (negsuc fd) c m s h = h

-- The bytes of a request say to the device what the request says.
understood : (q : Request Bytes) (s : Bank × ℕ) → serve (decode_request (encode q)) s ≡ serve q s
understood (Request.describe_pcr i) s = refl
understood (Request.extend_pcr i xs) s = refl
understood (Request.lock_pcr i) s = refl
understood (Request.lock_pcrs r) s = refl
understood Request.describe_nsm s = refl
understood (Request.attestation u v p) s = refl
understood Request.get_random s = refl

returned :
    (q : Request Bytes) (s : Bank × ℕ)
    → decode_response (encode_response (serve q s).0) ≡ Result.ok (serve q s).0
returned (Request.describe_pcr i) s = elim (Option-cases (get_elem? s.0 i)) [
  | inl e ↦ rw (e, handle)
  | inr (p, e) ↦ elim (Bool-cases p.lock) [ inl l ↦ rw (e, l, handle) | inr l ↦ rw (e, l, handle) ]
]
returned (Request.extend_pcr i xs) s = elim (Option-cases (get_elem? s.0 i)) [
  | inl e ↦ rw (e, handle)
  | inr (p, e) ↦ elim (Bool-cases p.lock) [ inl l ↦ rw (e, l, handle) | inr l ↦ rw (e, l, handle) ]
]
returned (Request.lock_pcr i) s = elim (Option-cases (get_elem? s.0 i)) [
  | inl e ↦ rw (e, handle)
  | inr (p, e) ↦ elim (Bool-cases p.lock) [ inl l ↦ rw (e, l, handle) | inr l ↦ rw (e, l, handle) ]
]
returned (Request.lock_pcrs r) s = elim (Bool-cases (leb r (length s.0))) [
  | inl l ↦ rw l
  | inr l ↦ rw l
]
returned Request.describe_nsm s = refl
returned (Request.attestation u v p) s = refl
returned Request.get_random s = refl

serves :
    (q : Request Bytes) (b : Bytes) (s : Bank × ℕ)
    → cbor.request_to_vec q ≡ Result.ok b
    → length b ≤ 0x1000
    → Serves cbor os (pos 3) (λ k. k) serve q b s
serves q b s e h =
    let same : encode q ≡ b = cc in
    let now : serve (decode_request b) s ≡ serve q s = rw (← same) (understood q s) in
    record {
      message = record (sent b) { response = io_vec (encode_response (serve q s).0) };
      kernel = (serve q s).1;
      slice = encode_response (serve q s).0;
      succeeds =
          ap
            (λ (x : Response × (Bank × ℕ)).
              (pos 0, record (sent b) { response = io_vec (encode_response x.0) }, x.1))
            now;
      in_place = as_slice-io_vec (encode_response (serve q s).0);
      encoded = returned q s;
      steps = refl;
    }

fits : (q : Request Bytes) → IsModest 3000 (λ b. b) q → length (encode q) ≤ 0x1000
fits (Request.describe_pcr i) h = omega arith
fits (Request.extend_pcr i xs) h = omega arith
fits (Request.lock_pcr i) h = omega arith
fits (Request.lock_pcrs r) h = omega arith
fits Request.describe_nsm h = omega arith
fits (Request.attestation u v p) h = omega arith
fits Request.get_random h = omega arith

serve-HandlesAll : HandlesAll serve held extension 3000 (λ b. b) info last_drawn
serve-HandlesAll = record {
  describes_pcr = λ i p s g. (rw (g, handle), rw (g, handle));
  extends = λ i p input s g l small. (rw (g, l, handle), rw (g, l, handle));
  rejects_extend =
      λ i p input s g l small. (read_only_index, (rw (g, l, handle), rw (g, l, handle)));
  locks = λ i p s g l. (rw (g, l, handle), rw (g, l, handle));
  rejects_lock = λ i p s g l. (read_only_index, (rw (g, l, handle), rw (g, l, handle)));
  locks_range =
      λ r s h. let inside : leb r (length (held s)) ≡ true = ground arith in (rw inside, rw inside);
  rejects_range = λ r s h.
      let outside : leb r (length (held s)) ≡ false = ground arith in
      (invalid_index, (rw outside, rw outside));
  describes = λ s. (refl, refl);
  attests = λ u n p s hu hn hp. (1 ∷ [], (λ e. cc), (refl, refl));
  draws = λ s. (
    suc s.1 ∷ [],
    (λ e. cc),
    (λ e. let same : suc s.1 ≡ s.1 = cc in omega arith),
    (refl, refl),
    refl,
  );
}

-- The device is closed, and then open.
abbrev closed : World (Bank × ℕ)
closed = record { kernel = (bank, 0); memory = λ p. none; log = [] }

abbrev opened : World (Bank × ℕ)
opened = record { kernel = (bank, 0); memory = λ p. none; log = LogLine.opened ∷ [] }

main-nsm_driver_example :
    (k : Bank × ℕ) × (main (nsm_driver cbor os encodes bounds) (λ b. b) closed
      ≡ nsm_exit os (pos 3) (record opened { kernel = k }))
    × (length (held k) ≡ 32)
    × ((j : ℕ) (p : PcrData) → get_elem? (held k) j ≡ some p → p.lock ≡ true)
main-nsm_driver_example =
    main-nsm_driver cbor os (pos 3) (λ k. k) serve held extension info last_drawn 3000 (λ b. b)
      encodes bounds serves fits serve-HandlesAll closed opened (unfold nsm_init in refl) refl
      (omega arith) (unfold get_pcr_len in λ v. refl) (unfold get_pcr_len in λ v e. cc)
      bank-IsInitial refl (λ e. cc)
