-- ===== src/Stress/Session.antt =====
-- The descriptor that main of nsm-multithread.rs opens over nsm-driver/src/lib.rs, over all the orders
-- in which its jobs run.
use aws_nitro_enclaves_nsm_a.Base.{
  ℕ, ◌≡◌, refl, ap, sym, subst, ◌∙◌, ◌⊎◌, inl, inr, List, ◌∷◌, Bytes, Result, Result-cases,
}
use aws_nitro_enclaves_nsm_a.Base.Ints.{ℤ}
use aws_nitro_enclaves_nsm_a.Machine.{World, LogLine, ok, Cmd}
use aws_nitro_enclaves_nsm_a.NsmIo.{Request, Response, Cbor}
use aws_nitro_enclaves_nsm_a.Driver.{Os}
use aws_nitro_enclaves_nsm_a.Driver.Answers.{Encodes, StaysInBounds, nsm_driver}
use aws_nitro_enclaves_nsm_a.Driver.Session.{
  Descriptors, CloseLine, nsm_init-cases, nsm_exit-Closed, nsm_process_request-leaves,
}
use aws_nitro_enclaves_nsm_a.Stress.{ask, ret}
use aws_nitro_enclaves_nsm_a.Stress.Pool.{exited, State, start, begin, Step, Steps}
use aws_nitro_enclaves_nsm_a.Stress.ExitCode.{Ended, Steps-Reported}

-- What registering a handler of a signal does to the world.
abbrev pub registering : {K : Type 0} → (K → Result (Unit {0}) ℕ × K) → Cmd K (Result (Unit {0}) ℕ)
registering register w = let (result, k) = register w.kernel in ok result (record w { kernel = k })

-- The descriptor is open, and one line in the log says so.
abbrev pub OpenIn : {K : Type 0} → (K → List ℤ) → World K → ℤ → World K → Type 0
OpenIn fds w ctx v =
    (fds v.kernel ≡ ctx ∷ fds w.kernel) × (v.log ≡ LogLine.opened ∷ w.log) × (v.memory ≡ w.memory)

-- The descriptors are those from before main, and a second line says how the device was closed.
abbrev pub ClosedIn : {K : Type 0} → (K → List ℤ) → World K → ℤ → World K → Type 0
ClosedIn fds w ctx v =
    (fds v.kernel ≡ fds w.kernel)
    × ((line : LogLine) × CloseLine ctx line × (v.log ≡ line ∷ LogLine.opened ∷ w.log))
    × (v.memory ≡ w.memory)

abbrev pub HasExited : {K B : Type 0} → State K B → Type 0
HasExited s = (c : ℕ) × (s.phase ≡ exited c)

module _ {K B C : Type 0} (os : Os K) (fds : K → List ℤ) (laws : Descriptors os fds)
    (lib : Cbor B C) (encodes : Encodes lib) (bounds : StaysInBounds os) (byte_buf : Bytes → B)
    (register : K → Result (Unit {0}) ℕ × K) (quiet : (k : K) → fds (register k).1 ≡ fds k) where
  begin-OpenIn :
      (w w₁ : World K) (ctx : ℤ)
      → begin (nsm_driver lib os encodes bounds) (registering register) w ≡ ok ctx w₁
      → OpenIn fds w ctx w₁
  unfolding begin nsm_driver
  begin-OpenIn w w₁ ctx e = elim (Result-cases (register w.kernel).0) [
    | inr (_, failed) ↦ absurd (let h = rw (failed, begin) at e in cc)
    | inl (_, registered) ↦
        let v : World K = record w { kernel = (register w.kernel).1 } in
        elim (nsm_init-cases os fds laws v) [
          | inl (_, v₁, none_there, _, _, _) ↦
              absurd (let h = rw (registered, none_there, begin) at e in cc)
          | inr (fd, v₁, (there, valid, more, log, memory)) ↦
              let h = rw (registered, there, valid, begin) at e in
              let same : v₁ ≡ w₁ = cc in
              let named : fd ≡ ctx = cc in
              subst (OpenIn fds w ctx) same
                (rw (← named) (more ∙ ap (λ (x : List ℤ). fd ∷ x) (quiet w.kernel)), log, memory)
        ]
  ]

  asks-OpenIn :
      (w v v' : World K) (ctx : ℤ) (q : Request B) (r : Response)
      → (nsm_driver lib os encodes bounds).nsm_process_request ctx q v ≡ ok r v'
      → OpenIn fds w ctx v
      → OpenIn fds w ctx v'
  unfolding nsm_driver
  asks-OpenIn w v v' ctx q r e (held, log, memory) =
      let (r', k, e', same) = nsm_process_request-leaves os fds laws lib encodes bounds ctx q v in
      let now : record v { kernel = k } ≡ v' = cc in
      subst (OpenIn fds w ctx) now (same ∙ held, log, memory)

  exit-ClosedIn :
      (w v v' : World K) (ctx : ℤ)
      → (nsm_driver lib os encodes bounds).nsm_exit ctx v ≡ ok tt v'
      → OpenIn fds w ctx v
      → ClosedIn fds w ctx v'
  unfolding nsm_driver
  exit-ClosedIn w v v' ctx e (held, log, memory) =
      let (v₁, (e', left, (line, says, last), kept)) =
        nsm_exit-Closed os fds laws ctx (fds w.kernel) v held in
      let now : v₁ ≡ v' = cc in
      subst (ClosedIn fds w ctx) now
        (left, (line, says, last ∙ ap (λ (x : List LogLine). line ∷ x) log), kept ∙ memory)

  -- Until main exits the descriptor is open, and then it is closed.
  Has : World K → ℤ → State K B → Type 0
  Has w ctx s =
      ((¬ HasExited s) × OpenIn fds w ctx s.world) ⊎ (HasExited s × ClosedIn fds w ctx s.world)

  -- Main goes on.
  goes-Has :
      (w : World K) (ctx : ℤ) (s t : State K B)
      → t.world ≡ s.world
      → ¬ HasExited s
      → ¬ HasExited t
      → Has w ctx s
      → Has w ctx t
  unfolding Has
  goes-Has w ctx s t same from to h = elim h [
    | inl (_, open_in) ↦ inl (to, subst (OpenIn fds w ctx) (sym same) open_in)
    | inr (over, _) ↦ absurd (from over)
  ]

  Step-Has :
      (w : World K) (ctx : ℤ) (s t : State K B)
      → Step (nsm_driver lib os encodes bounds) ctx byte_buf s t
      → Ended (nsm_driver lib os encodes bounds) ctx byte_buf s
      → Has w ctx s
      → Has w ctx t
  unfolding Ended Has
  Step-Has w ctx s t (Step.signal _) ended h = h
  Step-Has w ctx s t (Step.load_term _ at _) ended h =
      goes-Has w ctx s t refl (λ (c, e). cc) (λ (c, e). cc) h
  Step-Has w ctx s t (Step.stop_term _ at _) ended h =
      goes-Has w ctx s t refl (λ (c, e). cc) (λ (c, e). cc) h
  Step-Has w ctx s t (Step.stop_code _ at _) ended h =
      goes-Has w ctx s t refl (λ (c, e). cc) (λ (c, e). cc) h
  Step-Has w ctx s t (Step.submit_attestation _ at _) ended h =
      goes-Has w ctx s t refl (λ (c, e). cc) (λ (c, e). cc) h
  Step-Has w ctx s t (Step.submit_extension _ at) ended h =
      goes-Has w ctx s t refl (λ (c, e). cc) (λ (c, e). cc) h
  Step-Has w ctx s t (Step.asks _ i q k r w' g e) ended h = elim h [
    | inl (running, open_in) ↦ inl (running, asks-OpenIn w s.world w' ctx q r e open_in)
    | inr ((c, over), _) ↦
        absurd (let done : ask q k ≡ ret tt = (ended c over).1 i (ask q k) g in cc)
  ]
  Step-Has w ctx s t (Step.exchanges _ _ _ _ _ _ _) ended h = h
  Step-Has w ctx s t (Step.keeps _ _ _ _ _ _ _) ended h = h
  Step-Has w ctx s t (Step.exit _ w' at _ e) ended h = elim h [
    | inl (running, open_in) ↦ inr ((s.exit_code, refl), exit-ClosedIn w s.world w' ctx e open_in)
    | inr ((c, over), _) ↦ absurd cc
  ]

  Steps-Has :
      (w : World K) (ctx : ℤ) (w₁ : World K) (s : State K B)
      → OpenIn fds w ctx w₁
      → Steps (nsm_driver lib os encodes bounds) ctx byte_buf (start w₁) s
      → Has w ctx s
  unfolding Has
  Steps-Has w ctx w₁ s begun (Steps.stay _) = inl (λ (c, over). cc, begun)
  Steps-Has w ctx w₁ s begun (Steps.then_step _ t _ before step) =
      let (_, ended) = Steps-Reported (nsm_driver lib os encodes bounds) ctx byte_buf w₁ t before in
      Step-Has w ctx t s step ended (unfold Has in Steps-Has w ctx w₁ t begun before)

  -- Over nsm-driver, where request_to_vec encodes every request, the kernel does not report a
  -- response longer than its memory, open, ioctl and close act on the descriptors as documented and
  -- registering the signal leaves them: once main of nsm-multithread has begun with a descriptor,
  -- in every state that it, its jobs and the signal can reach in whatever order, either main has
  -- not exited, the descriptor is open besides those from before main and the log has one line
  -- more, or main has exited, the open descriptors are those from before main and the log has two
  -- lines more, the second saying how the device was closed; the caller's memory is as it was.
  pub nsm_exit-begin :
      (w w₁ : World K) (ctx : ℤ) (s : State K B)
      → begin (nsm_driver lib os encodes bounds) (registering register) w ≡ ok ctx w₁
      → Steps (nsm_driver lib os encodes bounds) ctx byte_buf (start w₁) s
      → ((¬ HasExited s) × OpenIn fds w ctx s.world) ⊎ (HasExited s × ClosedIn fds w ctx s.world)
  unfolding Has
  nsm_exit-begin w w₁ ctx s e steps = Steps-Has w ctx w₁ s (begin-OpenIn w w₁ ctx e) steps
