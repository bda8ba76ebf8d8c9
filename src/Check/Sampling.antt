-- ===== src/Check/Sampling.antt =====
-- check_random and check_attestation of nsm-test/src/bin/nsm-check.rs over any driver: which replies
-- they accept.
use aws_nitro_enclaves_nsm_a.Base.{
  ℕ, zero, suc, ◌≡◌, refl, ap, subst, ◌≢◌, ◌⊎◌, inl, inr, Option, none, some, List, [], ◌∷◌, Bytes,
  arith, ◌==◌, length, replicate, Bool-cases, ==→eq,
}
use aws_nitro_enclaves_nsm_a.Base.Ints.{ℤ}
use aws_nitro_enclaves_nsm_a.Machine.{World, Panic, ok, panic, Cmd, assertion_failed, ◌>>◌}
use aws_nitro_enclaves_nsm_a.NsmIo.{Request, Response}
use aws_nitro_enclaves_nsm_a.Driver.Api.{NsmDriver, reply, behind, nsm_process_request-reply}
use aws_nitro_enclaves_nsm_a.Check.Asserts.{bytes_eq-cases}
use aws_nitro_enclaves_nsm_a.Check.Services.{
  dummy_data, expect_document, expect_random, check_single_attestation, check_attestation,
  check_random_loop, check_random,
}

-- The command passes, and ends in `w'`, exactly where the property holds; else it panics.
abbrev pub Accepts : {K : Type 0} → Type 0 → Cmd K (Unit {0}) → World K → World K → Type 0
Accepts {K} P run w w' =
    (P × (run w ≡ ok tt w')) ⊎ ((¬ P) × (p : Panic) × (w'' : World K) × (run w ≡ panic p w''))

-- The reply is these random bytes; they are not empty, and not those of the draw before.
abbrev pub IsFresh : Bytes → Response → Bytes → Type 0
IsFresh prev r random = (r ≡ Response.get_random random) × (length random ≢ 0) × (prev ≢ random)

abbrev pub AreFresh : Bytes → List Response → Type 0
AreFresh prev [] = Unit {0}
AreFresh prev (r ∷ rs) = (random : Bytes) × IsFresh prev r random × AreFresh random rs

-- An attestation whose document is not empty.
abbrev pub Attests : Response → Type 0
Attests r = (document : Bytes) × (r ≡ Response.attestation document) × (length document ≢ 0)

module _ {K B : Type 0} (d : NsmDriver K B) (ctx : ℤ) where
  -- The replies to requests made one after another, and the world behind them.
  unfoldable pub replies : List (Request B) → World K → List Response
  replies [] w = []
  replies (q ∷ qs) w = reply d ctx q w ∷ replies qs (behind d ctx q w)

  unfoldable pub behind_all : List (Request B) → World K → World K
  behind_all [] w = w
  behind_all (q ∷ qs) w = behind_all qs (behind d ctx q w)

module _ {B : Type 0} where
  -- GetRandom, as often.
  abbrev pub random_requests : ℕ → List (Request B)
  random_requests zero = []
  random_requests (suc n) = Request.get_random ∷ random_requests n

-- Four requests: with nothing, with user data, with a nonce too, and with all three.
abbrev pub attestation_requests : {B : Type 0} → Option B → List (Request B)
attestation_requests buf =
    Request.attestation none none none
    ∷ Request.attestation buf none none
    ∷ Request.attestation buf buf none
    ∷ Request.attestation buf buf buf
    ∷ []

abbrev pub AllAttest : List Response → Type 0
AllAttest [] = Unit {0}
AllAttest (r ∷ rs) = Attests r × AllAttest rs

module _ {K : Type 0} where
  expect_random-cases :
      (prev : Bytes) (r : Response) (w : World K)
      → ((random : Bytes) × IsFresh prev r random × (expect_random prev r w ≡ ok random w))
        ⊎ (((random : Bytes) → ¬ IsFresh prev r random)
            × ((p : Panic) × (expect_random prev r w ≡ panic p w)))
  unfolding expect_random
  expect_random-cases prev (Response.get_random random) w = elim (Bool-cases (length random == 0)) [
    | inl empty ↦ inr (
      (λ r' (same, full, _).
          let e : random ≡ r' = cc in
          full (omega (arith, ap length e, ==→eq (length random) 0 empty))),
      (assertion_failed, rw empty),
    )
    | inr full ↦ elim (bytes_eq-cases prev random) [
      | inl (e, same) ↦ inr ((λ r' (same', _, other). other (cc)), (assertion_failed, rw (full, e)))
      | inr (e, other) ↦ inl (random, (refl, ground arith, other), rw (full, e))
    ]
  ]
  expect_random-cases prev (Response.describe_pcr lock value) w =
      inr ((λ r' (same, _, _). cc), (assertion_failed, refl))
  expect_random-cases prev _ w = inr ((λ r' (same, _, _). cc), (assertion_failed, refl))

  expect_document-cases : (r : Response) (w : World K) → Accepts (Attests r) (expect_document r) w w
  unfolding expect_document
  expect_document-cases (Response.attestation document) w =
      elim (Bool-cases (length document == 0)) [
        | inl empty ↦ inr (
          (λ (document', same, full).
              let e : document ≡ document' = cc in
              full (omega (arith, ap length e, ==→eq (length document) 0 empty))),
          assertion_failed,
          w,
          rw empty,
        )
        | inr full ↦ inl ((document, refl, ground arith), rw full)
      ]
  expect_document-cases (Response.describe_pcr lock value) w =
      inr ((λ (_, same, _). cc), assertion_failed, w, refl)
  expect_document-cases _ w = inr ((λ (_, same, _). cc), assertion_failed, w, refl)

  -- One acceptance behind another.
  Accepts-then :
      (P Q : Type 0) (m n : Cmd K (Unit {0})) (w w' w'' : World K)
      → Accepts P m w w'
      → Accepts Q n w' w''
      → Accepts (P × Q) (m >> n) w w''
  Accepts-then P Q m n w w' w'' (inl (p, e)) (inl (q, e')) = inl ((p, q), rw (e, e'))
  Accepts-then P Q m n w w' w'' (inl (p, e)) (inr (nq, r, v, e')) =
      inr ((λ h. nq h.1), r, v, rw (e, e'))
  Accepts-then P Q m n w w' w'' (inr (np, r, v, e)) _ = inr ((λ h. np h.0), r, v, rw e)

  Accepts-unit :
      (P : Type 0) (m : Cmd K (Unit {0})) (w w' : World K)
      → Accepts P m w w'
      → Accepts (P × Unit {0}) m w w'
  Accepts-unit P m w w' (inl (p, e)) = inl ((p, tt), e)
  Accepts-unit P m w w' (inr (np, r, v, e)) = inr ((λ h. np h.0), r, v, e)

module _ {K B : Type 0} (d : NsmDriver K B) (ctx : ℤ) where
  check_random_loop-Accepts :
      (n : ℕ) (prev : Bytes) (w : World K)
      → let qs = random_requests n in
        Accepts
          (AreFresh prev (replies d ctx qs w))
          (check_random_loop d ctx n prev)
          w
          (behind_all d ctx qs w)
  unfolding check_random_loop replies behind_all
  check_random_loop-Accepts zero prev w = inl (tt, refl)
  check_random_loop-Accepts (suc n) prev w =
      let q : Request B = Request.get_random in
      let w₁ = behind d ctx q w in
      let asked = nsm_process_request-reply d ctx q w in
      elim (expect_random-cases prev (reply d ctx q w) w₁) [
        | inr (stale, (p, e)) ↦
            inr ((λ (random', fresh, _). stale random' fresh), p, w₁, rw (asked, e))
        | inl (random, fresh, e) ↦ elim (check_random_loop-Accepts n random w₁) [
          | inl (more, e') ↦ inl ((random, fresh, more), rw (asked, e, e'))
          | inr (stale, p, w', e') ↦ inr (
            (λ (random', (same, _, _), more).
                let drawn : random' ≡ random = cc (same, fresh.0) in
                stale (subst (λ x. AreFresh x (replies d ctx (random_requests n) w₁)) drawn more)),
            p,
            w',
            rw (asked, e, e'),
          )
        ]
      ]

  -- On any driver, check_random makes 16 requests GetRandom, each in the world that the one before
  -- leaves, and passes exactly where every reply is random bytes that are not empty and differ from
  -- those of the reply before; in every other case it panics.
  pub check_random-AreFresh :
      (w : World K)
      → let qs = random_requests 16 in
        Accepts (AreFresh [] (replies d ctx qs w)) (check_random d ctx) w (behind_all d ctx qs w)
  unfolding check_random
  check_random-AreFresh w = check_random_loop-Accepts 16 [] w

  check_single_attestation-Accepts :
      (user_data nonce public_key : Option B) (w : World K)
      → let q = Request.attestation user_data nonce public_key in
        Accepts
          (Attests (reply d ctx q w))
          (check_single_attestation d ctx user_data nonce public_key)
          w
          (behind d ctx q w)
  unfolding check_single_attestation
  check_single_attestation-Accepts u n p w =
      let q = Request.attestation u n p in
      rw (nsm_process_request-reply d ctx q w)
        (expect_document-cases (reply d ctx q w) (behind d ctx q w))

  four-Accepts :
      (buf : Option B) (w : World K)
      → let qs = attestation_requests buf in
        let check = check_single_attestation d ctx in
        Accepts
          (AllAttest (replies d ctx qs w))
          (check none none none
            >> (check buf none none >> (check buf buf none >> check buf buf buf)))
          w
          (behind_all d ctx qs w)
  unfolding replies behind_all
  four-Accepts buf w =
      let q₁ : Request B = Request.attestation none none none in
      let q₂ : Request B = Request.attestation buf none none in
      let q₃ : Request B = Request.attestation buf buf none in
      let q₄ : Request B = Request.attestation buf buf buf in
      let c₁ = check_single_attestation d ctx none none none in
      let c₂ = check_single_attestation d ctx buf none none in
      let c₃ = check_single_attestation d ctx buf buf none in
      let c₄ = check_single_attestation d ctx buf buf buf in
      let w₁ = behind d ctx q₁ w in
      let w₂ = behind d ctx q₂ w₁ in
      let w₃ = behind d ctx q₃ w₂ in
      let w₄ = behind d ctx q₄ w₃ in
      let last =
        Accepts-unit (Attests (reply d ctx q₄ w₃)) c₄ w₃ w₄
          (check_single_attestation-Accepts buf buf buf w₃) in
      Accepts-then _ _ c₁ (c₂ >> (c₃ >> c₄)) w w₁ w₄
        (check_single_attestation-Accepts none none none w)
        (Accepts-then _ _ c₂ (c₃ >> c₄) w₁ w₂ w₄ (check_single_attestation-Accepts buf none none w₁)
          (Accepts-then _ _ c₃ c₄ w₂ w₃ w₄ (check_single_attestation-Accepts buf buf none w₂) last))

  -- On any driver, check_attestation passes exactly where the four attestation requests, with
  -- nothing, with user data of 1024 bytes 128, with a nonce too and with all three, made one after
  -- another, are all answered by a document that is not empty, and then it has made just these; in
  -- every other case it panics.
  pub check_attestation-AllAttest :
      (byte_buf : Bytes → B) (w : World K)
      → let qs = attestation_requests (some (byte_buf (replicate 1024 128))) in
        Accepts
          (AllAttest (replies d ctx qs w))
          (check_attestation d ctx byte_buf)
          w
          (behind_all d ctx qs w)
  unfolding check_attestation dummy_data
  check_attestation-AllAttest byte_buf w = four-Accepts (some (byte_buf (replicate 1024 128))) w
