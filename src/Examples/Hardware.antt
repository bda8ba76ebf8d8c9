-- ===== src/Examples/Hardware.antt =====
-- The whole of nsm-check.rs on a device with 32 PCRs, which numbers its draws of random bytes.
use aws_nitro_enclaves_nsm_a.Base.{
  ◌≤◌, ◌≢◌, ◌⊎◌, ℕ, suc, ◌≡◌, refl, true, false, none, some, [], ◌∷◌, ◌++◌, Bytes, arith, length,
  get_elem?, set, leb, replicate, inl, inr,
}
use aws_nitro_enclaves_nsm_a.Base.Ints.{pos}
use aws_nitro_enclaves_nsm_a.Machine.{World, Panic, ok, panic}
use aws_nitro_enclaves_nsm_a.NsmIo.{
  Request, Response, NsmInfo, sha256, invalid_index, read_only_index,
}
use aws_nitro_enclaves_nsm_a.Driver.Api.{NsmDriver}
use aws_nitro_enclaves_nsm_a.Check.{main}
use aws_nitro_enclaves_nsm_a.Check.Asserts.{bytes_eq}
use aws_nitro_enclaves_nsm_a.Check.Pcrs.{
  PcrData, get_pcr_len, range_from, check_reserved, check_empty, check_locks, pcr_data_of,
  describe_pcrs, check_initial_pcrs,
}
use aws_nitro_enclaves_nsm_a.Check.Initial.{IsInitial, check_initial_pcrs-IsInitial}
use aws_nitro_enclaves_nsm_a.Check.Protocol.{Bank, KeepsPcrs, lock_below}
use aws_nitro_enclaves_nsm_a.Check.Locks.{check_pcr_locks}
use aws_nitro_enclaves_nsm_a.Check.Rules.{Passes}
use aws_nitro_enclaves_nsm_a.Check.Passing.{check_pcr_locks-Passes}
use aws_nitro_enclaves_nsm_a.Check.Serving.{description_from, reporting, ServesAll}
use aws_nitro_enclaves_nsm_a.Check.Whole.{main-Passes}
use aws_nitro_enclaves_nsm_a.Examples.Bank.{ones, extension, full, empty, handle}

abbrev pub info : NsmInfo
info = record {
  version_major = 1;
  version_minor = 0;
  version_patch = 0;
  module_id = 65 ∷ [];
  max_pcrs = 32;
  locked_pcrs = range_from 0 16;
  digest = sha256;
}

abbrev pub bank : Bank
bank =
    full
    ∷ full
    ∷ full
    ∷ empty
    ∷ full
    ∷ (replicate 11 empty ++ replicate 16 (record { lock = false; value = replicate 32 0 }))

-- The PCRs, and the number of draws.
abbrev pub serve : Request Bytes → Bank × ℕ → Response × (Bank × ℕ)
serve Request.describe_nsm (b, n) = (Response.describe_nsm (reporting info b), (b, n))
serve (Request.attestation _ _ _) (b, n) = (Response.attestation (1 ∷ []), (b, n))
serve Request.get_random (b, n) = (Response.get_random (suc n ∷ []), (b, suc n))
serve q (b, n) = let (r, b') = handle q b in (r, (b', n))

abbrev pub device : NsmDriver (Bank × ℕ) Bytes
device = record {
  nsm_init = ok (pos 3);
  nsm_exit = λ fd. ok tt;
  nsm_process_request =
      λ fd q w. ok (serve q w.kernel).0 (record w { kernel = (serve q w.kernel).1 });
  answers = λ fd q w. ((serve q w.kernel).0, (serve q w.kernel).1, refl);
}

abbrev pub held : Bank × ℕ → Bank
held s = s.0

abbrev pub last_drawn : Bank × ℕ → Bytes
last_drawn s = s.1 ∷ []

pub device-KeepsPcrs : KeepsPcrs device (pos 3) held extension 3000
device-KeepsPcrs = record {
  describes = λ i p w g. (w.kernel, rw (g, handle), refl);
  extends = λ i p input w g l _.
      ((set (held w.kernel) i (record p { value = ones }), w.kernel.1), rw (g, l, handle), refl);
  refuses_extend = λ i p input w g l _. (read_only_index, (w.kernel, rw (g, l, handle), refl));
  locks = λ i p w g l.
      ((set (held w.kernel) i (record p { lock = true }), w.kernel.1), rw (g, l, handle), refl);
  refuses_lock = λ i p w g l. (read_only_index, (w.kernel, rw (g, l, handle), refl));
  locks_range = λ r w h.
      let inside : leb r (length (held w.kernel)) ≡ true = ground arith in
      ((lock_below r (held w.kernel), w.kernel.1), rw inside, refl);
  refuses_range = λ r w h.
      let outside : leb r (length (held w.kernel)) ≡ false = ground arith in
      (invalid_index, (w.kernel, rw outside, refl));
}

pub device-ServesAll : ServesAll device (pos 3) held extension 3000 (λ b. b) info last_drawn
device-ServesAll = record {
  pcrs = device-KeepsPcrs;
  describes = λ w. (w.kernel, refl, refl);
  attests = λ u n p w hu hn hp. (1 ∷ [], (λ e. cc), (w.kernel, refl, refl));
  draws = λ w. (
    suc w.kernel.1 ∷ [],
    (λ e. cc),
    (λ e. let same : suc w.kernel.1 ≡ w.kernel.1 = cc in omega arith),
    ((held w.kernel, suc w.kernel.1), refl, refl, refl),
  );
}

abbrev pub start : World (Bank × ℕ)
start = record { kernel = (bank, 0); memory = λ p. none; log = [] }

initial_passes : check_initial_pcrs device (pos 3) (description_from info) start ≡ ok tt start
unfolding check_initial_pcrs describe_pcrs pcr_data_of check_reserved check_empty check_locks
    get_pcr_len bytes_eq
initial_passes = refl

check_initial_pcrs-IsInitial_example :
    (IsInitial (description_from info) bank
      × ((k : Bank × ℕ) × (check_initial_pcrs device (pos 3) (description_from info) start
            ≡ ok tt (record start { kernel = k }))
          × (held k ≡ bank)))
    ⊎ ((¬ IsInitial (description_from info) bank)
        × ((p : Panic) × (w' : World (Bank × ℕ)) × (check_initial_pcrs device
                (pos 3)
                (description_from info)
                start
              ≡ panic p w')))
check_initial_pcrs-IsInitial_example =
    check_initial_pcrs-IsInitial device (pos 3) held device-KeepsPcrs.describes
      (description_from info) start refl

pub bank-IsInitial : IsInitial (description_from info) bank
bank-IsInitial =
    elim (check_initial_pcrs-IsInitial device (pos 3) held device-KeepsPcrs.describes
      (description_from info) start refl) [
        | inl (i, _) ↦ i
        | inr (_, (p, w', e)) ↦ cc initial_passes
      ]

check_pcr_locks-Passes_example :
    Passes (check_pcr_locks device (pos 3) (description_from info)) start λ k.
      (length (held k) ≡ 32)
      × ((j : ℕ) (p : PcrData)
          → get_elem? (held k) j ≡ some p
          → (p.lock ≡ true)
            × (16 ≤ j → p.value ≢ replicate (get_pcr_len (description_from info)) 0))
check_pcr_locks-Passes_example =
    check_pcr_locks-Passes device (pos 3) held extension 3000 (description_from info) start
      device-KeepsPcrs (omega arith) (unfold get_pcr_len in λ v. refl)
      (unfold get_pcr_len in λ v e. cc) bank-IsInitial refl (omega arith)

main-Passes_example :
    (k : Bank × ℕ) × (main device (λ b. b) start ≡ ok tt (record start { kernel = k }))
    × (length (held k) ≡ 32)
    × ((j : ℕ) (p : PcrData) → get_elem? (held k) j ≡ some p → p.lock ≡ true)
main-Passes_example =
    main-Passes device (pos 3) held extension 3000 (λ b. b) info last_drawn device-ServesAll start
      start refl refl (omega arith) (unfold get_pcr_len in λ v. refl)
      (unfold get_pcr_len in λ v e. cc) bank-IsInitial refl (λ e. cc)
