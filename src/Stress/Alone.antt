-- ===== src/Stress/Alone.antt =====
-- Jobs of nsm-multithread.rs that run alone.
use aws_nitro_enclaves_nsm_a.Base.{
  ℕ, ◌+◌, ◌%◌, ◌≤◌, ◌<◌, ◌≡◌, ◌∙◌, true, false, some, Bytes, arith, Result, ◌==◌, length, get_elem?,
  get_elem?-lt,
}
use aws_nitro_enclaves_nsm_a.Base.Ints.{ℤ}
use aws_nitro_enclaves_nsm_a.Machine.{World, Cmd, ok, and_then}
use aws_nitro_enclaves_nsm_a.NsmIo.{Request, Response, ErrorCode}
use aws_nitro_enclaves_nsm_a.Driver.Api.{NsmDriver}
use aws_nitro_enclaves_nsm_a.Check.Pcrs.{PcrData}
use aws_nitro_enclaves_nsm_a.Check.Protocol.{Bank, KeepsPcrs, Refuses}
use aws_nitro_enclaves_nsm_a.Stress.{
  Thread, ret, ask, compare_exchange, repeat, extend_pcr, pcr_of, data_of,
}

module _ {K B : Type 0} (d : NsmDriver K B) (ctx : ℤ) where
  -- The value, with the exit code left.
  unfoldable pub run : {A : Type 0} → Thread B A → ℕ → Cmd K (A × ℕ)
  run (ret a) exit_code w = ok (a, exit_code) w
  run (ask q k) exit_code w = and_then (d.nsm_process_request ctx q w) λ r. run (k r) exit_code
  run (compare_exchange current new k) exit_code w = elim (exit_code == current) [
    | true ↦ run (k (Result.ok exit_code)) new w
    | false ↦ run (k (Result.err exit_code)) exit_code w
  ]

module _ {K B : Type 0} (d : NsmDriver K B) (ctx : ℤ) (view : K → Bank)
    (extension : Bytes → Bytes → Bytes) (most : ℕ) where
  -- The request of the job is for one of the first 16 PCRs, and is refused.
  remaining-refused :
      (j : ℕ) (w : World K)
      → KeepsPcrs d ctx view extension most
      → 4 ≤ most
      → 16 ≤ length (view w.kernel)
      → ((i : ℕ) (p : PcrData) → i < 16 → get_elem? (view w.kernel) i ≡ some p → p.lock ≡ true)
      → Refuses d ctx view (Request.extend_pcr (j % 16) (data_of j)) w
  remaining-refused j w keeps room enough locked =
      let below : j % 16 < 16 = omega arith in
      let (p, g) = get_elem?-lt (view w.kernel) (j % 16) (omega arith) in
      keeps.refuses_extend (j % 16) p (data_of j) w g (locked (j % 16) p below g)
        (unfold data_of in room)

  -- On a device that keeps the protocol on PCRs with requests of at least 4 bytes of data, has at
  -- least 16 of them and has the first 16 locked, extend_pcr of nsm-multithread for any j, run
  -- alone, makes two requests ExtendPCR, both for the PCR j modulo 16 with the four bytes of j, the
  -- device answers each by an error and holds the PCRs that it held, and the job comes to its end
  -- behind them with the exit code as it was.
  pub extend_pcr-refused :
      (j exit_code : ℕ) (w : World K)
      → KeepsPcrs d ctx view extension most
      → 4 ≤ most
      → 16 ≤ length (view w.kernel)
      → ((i : ℕ) (p : PcrData) → i < 16 → get_elem? (view w.kernel) i ≡ some p → p.lock ≡ true)
      → let q = Request.extend_pcr (j % 16) (data_of j) in
        (e₁ e₂ : ErrorCode) × (k₁ k₂ : K) × (d.nsm_process_request ctx q w
          ≡ ok (Response.error e₁) (record w { kernel = k₁ }))
        × (d.nsm_process_request ctx q (record w { kernel = k₁ })
            ≡ ok (Response.error e₂) (record w { kernel = k₂ }))
        × (run d ctx (extend_pcr {B = B} j) exit_code w
            ≡ ok (tt, exit_code) (record w { kernel = k₂ }))
        × (view k₁ ≡ view w.kernel)
        × (view k₂ ≡ view w.kernel)
  unfolding run extend_pcr repeat pcr_of
  extend_pcr-refused j c w keeps room enough locked =
      let same : (16 + j) % 16 ≡ j % 16 = omega arith in
      let (r₁, (k₁, e₁, v₁)) = remaining-refused j w keeps room enough locked in
      let (r₂, (k₂, e₂, v₂)) =
        remaining-refused j (record w { kernel = k₁ }) keeps room (rw v₁ enough) (rw v₁ locked) in
      (r₁, r₂, k₁, k₂, e₁, e₂, rw (same, e₁, e₂), v₁, v₂ ∙ v₁)
