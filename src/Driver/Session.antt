-- ===== src/Driver/Session.antt =====
-- nsm_init and nsm_exit of nsm-driver/src/lib.rs around any requests: the descriptors of the process
-- and the log.
use aws_nitro_enclaves_nsm_a.Base.{
  ℕ, ◌≡◌, refl, ap, sym, ◌∙◌, ◌⊎◌, inl, inr, false, true, List, [], ◌∷◌, Result, Result-cases,
}
use aws_nitro_enclaves_nsm_a.Base.Ints.{ℤ, negsuc, is_negative}
use aws_nitro_enclaves_nsm_a.Machine.{World, Outcome, LogLine}
use aws_nitro_enclaves_nsm_a.NsmIo.{Request, Response, Cbor}
use aws_nitro_enclaves_nsm_a.Driver.{
  dev_file, NsmMessage, Os, OpenOptions, nsm_init, nsm_exit, nsm_process_request,
}
use aws_nitro_enclaves_nsm_a.Driver.Answers.{
  Encodes, StaysInBounds, Exchange, rejected, failed, answered, nsm_process_request-Exchange,
}
use aws_nitro_enclaves_nsm_a.Driver.Refinement.{process_all}

-- What the manual pages of open, ioctl and close say of the open descriptors, the latest first:
-- `open` gives a non-negative one or fails and leaves them, `ioctl` leaves them, and `close`
-- releases the one that it is given, also where it reports an error.
pub record Descriptors {K : Type 0} (os : Os K) (fds : K → List ℤ) : Type 0 where
  pub opens :
      (options : OpenOptions) (k : K) (fd : ℤ)
      → (os.open_file options dev_file k).0 ≡ Result.ok fd
      → (is_negative fd ≡ false) × (fds (os.open_file options dev_file k).1 ≡ fd ∷ fds k)
  pub fails :
      (options : OpenOptions) (k : K) (e : ℕ)
      → (os.open_file options dev_file k).0 ≡ Result.err e
      → fds (os.open_file options dev_file k).1 ≡ fds k
  pub leaves :
      (fd : ℤ) (code : ℕ) (message : NsmMessage) (k : K)
      → fds (os.ioctl fd code message k).2 ≡ fds k
  pub releases : (fd : ℤ) (k : K) (rest : List ℤ) → fds k ≡ fd ∷ rest → fds (os.close fd k).1 ≡ rest

-- The device did not open: one line says so, and the result is -1.
abbrev pub Failed : {K : Type 0} → Os K → (K → List ℤ) → World K → Type 0
Failed {K} os fds w =
    (e : ℕ) × (w₁ : World K) × (nsm_init os w ≡ Outcome.ok (negsuc 0) w₁)
    × (fds w₁.kernel ≡ fds w.kernel)
    × (w₁.log ≡ LogLine.failed_to_open e ∷ w.log)
    × (w₁.memory ≡ w.memory)

-- The device is open: one line says so, and there is one descriptor more.
abbrev pub Opened : {K : Type 0} → Os K → (K → List ℤ) → World K → ℤ → World K → Type 0
Opened os fds w fd w₁ =
    (nsm_init os w ≡ Outcome.ok fd w₁)
    × (is_negative fd ≡ false)
    × (fds w₁.kernel ≡ fd ∷ fds w.kernel)
    × (w₁.log ≡ LogLine.opened ∷ w.log)
    × (w₁.memory ≡ w.memory)

abbrev pub CloseLine : ℤ → LogLine → Type 0
CloseLine fd line = (line ≡ LogLine.closed fd) ⊎ ((e : ℕ) × (line ≡ LogLine.failed_to_close fd e))

-- The device is closed: one line says how, and the descriptor is gone.
abbrev pub Closed : {K : Type 0} → Os K → (K → List ℤ) → List ℤ → ℤ → World K → World K → Type 0
Closed os fds rest fd w₂ w₃ =
    (nsm_exit os fd w₂ ≡ Outcome.ok tt w₃)
    × (fds w₃.kernel ≡ rest)
    × ((line : LogLine) × CloseLine fd line × (w₃.log ≡ line ∷ w₂.log))
    × (w₃.memory ≡ w₂.memory)

module _ {K : Type 0} (os : Os K) (fds : K → List ℤ) (laws : Descriptors os fds) where
  pub nsm_init-cases :
      (w : World K) → Failed os fds w ⊎ ((fd : ℤ) × (w₁ : World K) × Opened os fds w fd w₁)
  unfolding nsm_init
  nsm_init-cases w =
      let options : OpenOptions = record { read = true; write = true } in
      elim (Result-cases (os.open_file options dev_file w.kernel).0) [
        | inl (fd, e) ↦
            let (valid, more) = laws.opens options w.kernel fd e in
            inr (
              fd,
              record w {
                kernel = (os.open_file options dev_file w.kernel).1;
                log = LogLine.opened ∷ w.log;
              },
              (rw (e, nsm_init), valid, more, refl, refl),
            )
        | inr (c, e) ↦ inl (
          c,
          record w {
            kernel = (os.open_file options dev_file w.kernel).1;
            log = LogLine.failed_to_open c ∷ w.log;
          },
          rw (e, nsm_init),
          laws.fails options w.kernel c e,
          refl,
          refl,
        )
      ]

  pub nsm_exit-Closed :
      (fd : ℤ) (rest : List ℤ) (w₂ : World K)
      → fds w₂.kernel ≡ fd ∷ rest
      → (w₃ : World K) × Closed os fds rest fd w₂ w₃
  unfolding nsm_exit
  nsm_exit-Closed fd rest w₂ held = elim (Result-cases (os.close fd w₂.kernel).0) [
    | inl (x, e) ↦ (
      record w₂ { kernel = (os.close fd w₂.kernel).1; log = LogLine.closed fd ∷ w₂.log },
      (
        rw (e, nsm_exit),
        laws.releases fd w₂.kernel rest held,
        (LogLine.closed fd, inl refl, refl),
        refl,
      ),
    )
    | inr (c, e) ↦ (
      record w₂ { kernel = (os.close fd w₂.kernel).1; log = LogLine.failed_to_close fd c ∷ w₂.log },
      (
        rw (e, nsm_exit),
        laws.releases fd w₂.kernel rest held,
        (LogLine.failed_to_close fd c, inr (c, refl), refl),
        refl,
      ),
    )
  ]

  module _ {B C : Type 0} (lib : Cbor B C) (encodes : Encodes lib) (bounds : StaysInBounds os) where
    Exchange-leaves :
        (fd : ℤ) (q : Request B) (k k' : K) (r : Response)
        → Exchange lib os fd q k r k'
        → fds k' ≡ fds k
    Exchange-leaves fd q k k' r (rejected b _ _ _ same) = ap fds same
    Exchange-leaves fd q k k' r (failed b status message _ _ i _ _ _) =
        ap (λ (x : ℤ × NsmMessage × K). fds x.2) (sym i) ∙ laws.leaves fd _ _ k
    Exchange-leaves fd q k k' r (answered b slice message _ _ i _ _) =
        ap (λ (x : ℤ × NsmMessage × K). fds x.2) (sym i) ∙ laws.leaves fd _ _ k

    -- A request is answered, and leaves the descriptors, the log and the memory.
    pub nsm_process_request-leaves :
        (fd : ℤ) (q : Request B) (w : World K)
        → (r : Response) × (k : K) × (nsm_process_request lib os fd q w
            ≡ Outcome.ok r (record w { kernel = k }))
          × (fds k ≡ fds w.kernel)
    nsm_process_request-leaves fd q w =
        let (r, k, e, x) = nsm_process_request-Exchange lib os encodes bounds fd q w in
        (r, k, e, Exchange-leaves fd q w.kernel k r x)

    process_all-leaves :
        (fd : ℤ) (qs : List (Request B)) (w : World K)
        → (rs : List Response) × (k : K) × (process_all (nsm_process_request lib os fd) qs w
            ≡ Outcome.ok rs (record w { kernel = k }))
          × (fds k ≡ fds w.kernel)
    unfolding process_all
    process_all-leaves fd [] w = ([], w.kernel, refl, refl)
    process_all-leaves fd (q ∷ qs) w =
        let (r, k, e, same) = nsm_process_request-leaves fd q w in
        let (rs, k', e', held) = process_all-leaves fd qs (record w { kernel = k }) in
        (r ∷ rs, k', rw (e, e'), held ∙ same)

    -- Where request_to_vec encodes every request, the kernel does not report a response longer than
    -- its memory, and open, ioctl and close act on the descriptors as documented: nsm_init either
    -- returns -1 with one line in the log and no descriptor more, or returns a descriptor that is
    -- not negative and is open, with one line in the log; and then, whatever requests are made,
    -- each is answered without touching the log or the caller's memory, and nsm_exit leaves the
    -- descriptors that were open before nsm_init and adds one line to the log, whether close
    -- reports an error or not.
    pub nsm_exit-nsm_init :
        (w : World K)
        → Failed os fds w
          ⊎ ((fd : ℤ) × (w₁ : World K) × Opened os fds w fd w₁
              × ((qs : List (Request B))
                  → (rs : List Response) × (k : K) × (w₃ : World K) × (process_all
                        (nsm_process_request lib os fd)
                        qs
                        w₁
                      ≡ Outcome.ok rs (record w₁ { kernel = k }))
                    × Closed os fds (fds w.kernel) fd (record w₁ { kernel = k }) w₃))
    nsm_exit-nsm_init w = elim (nsm_init-cases w) [
      | inl failed_to_open ↦ inl failed_to_open
      | inr (fd, w₁, opened) ↦ inr (
        fd,
        w₁,
        opened,
        λ qs.
            let (rs, k, e, held) = process_all-leaves fd qs w₁ in
            let (w₃, closed) =
              nsm_exit-Closed fd (fds w.kernel) (record w₁ { kernel = k }) (held ∙ opened.2) in
            (rs, k, w₃, e, closed),
      )
    ]
