-- ===== src/NsmLib/Session.antt =====
-- A C program from nsm_lib_init to nsm_lib_exit of nsm-lib/src/lib.rs, over nsm-driver/src/lib.rs.
use aws_nitro_enclaves_nsm_a.Base.{ℕ, ◌≡◌, refl, ap, sym, ◌∙◌, inl, inr, false, List, ◌∷◌, Bytes}
use aws_nitro_enclaves_nsm_a.Base.Ints.{ℤ, is_negative}
use aws_nitro_enclaves_nsm_a.Machine.{World, LogLine, ok}
use aws_nitro_enclaves_nsm_a.Machine.Memory.{Ptr, Memory}
use aws_nitro_enclaves_nsm_a.NsmIo.{Cbor}
use aws_nitro_enclaves_nsm_a.Driver.{Os}
use aws_nitro_enclaves_nsm_a.Driver.Answers.{Encodes, StaysInBounds, nsm_driver}
use aws_nitro_enclaves_nsm_a.Driver.Session.{
  Descriptors, CloseLine, nsm_init-cases, nsm_exit-Closed, nsm_process_request-leaves,
}
use aws_nitro_enclaves_nsm_a.NsmLib.{nsm_lib_init, nsm_lib_exit}
use aws_nitro_enclaves_nsm_a.NsmLib.Calls.{Call, AreSafe, AreSparing, Asked}
use aws_nitro_enclaves_nsm_a.NsmLib.Clients.{run_all, run_all-Intact}

module _ {K B C : Type 0} (os : Os K) (fds : K → List ℤ) (laws : Descriptors os fds)
    (lib : Cbor B C) (encodes : Encodes lib) (bounds : StaysInBounds os)
    (byte_buf : Bytes → B) where
  -- Requests leave the descriptors.
  Asked-leaves :
      (fd : ℤ) (k k' : K) → Asked (nsm_driver lib os encodes bounds) fd k k' → fds k' ≡ fds k
  unfolding nsm_driver
  Asked-leaves fd k k' (Asked.none_asked _) = refl
  Asked-leaves fd k k' (Asked.then_asked _ _ q w w' r before e same) =
      let (r', k₁, e', left) = nsm_process_request-leaves os fds laws lib encodes bounds fd q w in
      let now : record w { kernel = k₁ } ≡ w' = cc in
      let end : k₁ ≡ k' = ap (λ (x : World K). x.kernel) now ∙ same in
      ap fds (sym end) ∙ left ∙ Asked-leaves fd k w.kernel before

  -- Over nsm-driver, where request_to_vec encodes every request, the kernel does not report a
  -- response longer than its memory, and open, ioctl and close act on the descriptors as
  -- documented: where nsm_lib_init has returned a descriptor that is not negative, any sequence of
  -- the six calls with pointers, each null or leading to as much mapped memory as its call says,
  -- returns with the descriptor still open besides those from before, and nsm_lib_exit behind it
  -- returns and leaves the descriptors from before, the log with two lines more, the last saying
  -- how the device was closed, and every address outside the output buffers with its byte.
  pub nsm_lib_exit-nsm_lib_init :
      (w w₁ : World K) (fd : ℤ) (cs : List Call)
      → nsm_lib_init (nsm_driver lib os encodes bounds) w ≡ ok fd w₁
      → is_negative fd ≡ false
      → AreSafe w.memory cs
      → (w₂ w₃ : World K) × (run_all (nsm_driver lib os encodes bounds) byte_buf fd cs w₁
          ≡ ok tt w₂)
        × (nsm_lib_exit (nsm_driver lib os encodes bounds) fd w₂ ≡ ok tt w₃)
        × (fds w₂.kernel ≡ fd ∷ fds w.kernel)
        × (fds w₃.kernel ≡ fds w.kernel)
        × ((line : LogLine) × CloseLine fd line × (w₃.log ≡ line ∷ LogLine.opened ∷ w.log))
        × ((q : Ptr) → AreSparing cs q → w₃.memory q ≡ w.memory q)
  unfolding nsm_driver nsm_lib_init nsm_lib_exit
  nsm_lib_exit-nsm_lib_init w w₁ fd cs e valid safe = elim (nsm_init-cases os fds laws w) [
    | inl (_, v, failed, _, _, _) ↦ absurd (let h = valid in cc)
    | inr (fd', v, (there, _, more, log, memory)) ↦
        let same : v ≡ w₁ = cc in
        let named : fd' ≡ fd = cc in
        let held₁ = rw (same, named) at more in
        let log₁ = rw same at log in
        let memory₁ = rw same at memory in
        let (w₂, ran, (_, spared, log₂), asked) =
          run_all-Intact (nsm_driver lib os encodes bounds) byte_buf fd cs w₁ (rw memory₁ safe) in
        let held₂ = Asked-leaves fd w₁.kernel w₂.kernel asked ∙ held₁ in
        let (w₃, (closes, left, (line, says, last), kept)) =
          nsm_exit-Closed os fds laws fd (fds w.kernel) w₂ held₂ in
        (
          w₂,
          w₃,
          ran,
          closes,
          held₂,
          left,
          (line, says, last ∙ ap (λ (x : List LogLine). line ∷ x) (log₂ ∙ log₁)),
          λ q out.
              ap (λ (m : Memory ℕ). m q) kept ∙ spared q out ∙ ap (λ (m : Memory ℕ). m q) memory₁,
        )
  ]
