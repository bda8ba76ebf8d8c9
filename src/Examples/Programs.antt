-- ===== src/Examples/Programs.antt =====
-- A C program that makes six calls on the platform of Examples/Platform.antt, and, between nsm_lib_init
-- and nsm_lib_exit, on that of Examples/Sessions.antt, where every request fails.
use aws_nitro_enclaves_nsm_a.Driver.{nsm_init}
use aws_nitro_enclaves_nsm_a.Driver.Answers.{nsm_driver}
use aws_nitro_enclaves_nsm_a.Driver.Session.{CloseLine}
use aws_nitro_enclaves_nsm_a.Machine.Memory.{Ptr}
use aws_nitro_enclaves_nsm_a.NsmLib.{nsm_lib_init, nsm_lib_exit}
use aws_nitro_enclaves_nsm_a.NsmLib.Session.{nsm_lib_exit-nsm_lib_init}
use aws_nitro_enclaves_nsm_a.Examples.Sessions.{os, descriptors, bounds}
use aws_nitro_enclaves_nsm_a.Base.{some, ℕ, ◌≡◌, refl, false, List, [], ◌∷◌, arith}
use aws_nitro_enclaves_nsm_a.Base.Ints.{ℤ, pos}
use aws_nitro_enclaves_nsm_a.Machine.{LogLine, World, ok}
use aws_nitro_enclaves_nsm_a.NsmLib.Replies.{absent, present}
use aws_nitro_enclaves_nsm_a.NsmLib.Calls.{Asked, Call, Intact, AreSafe, AreSparing}
use aws_nitro_enclaves_nsm_a.NsmLib.Clients.{run_all, run_all-Intact}
use aws_nitro_enclaves_nsm_a.Examples.Platform.{cbor, encodes, driver, world}

abbrev program : List Call
program =
    Call.extend_pcr 16 100 2 200 3
    ∷ Call.describe_pcr 16 false 200 3
    ∷ Call.lock_pcr 16
    ∷ Call.lock_pcrs 17
    ∷ Call.get_attestation_doc 0 9 100 2 0 0 300 3
    ∷ Call.get_random 200 3
    ∷ []

program-AreSafe : AreSafe world.memory program
program-AreSafe =
    let two = present (omega arith) (refl, (refl, tt)) in
    let three = present (omega arith) (refl, (refl, (refl, tt))) in
    (
      (two, three),
      (
        three,
        (
          tt,
          (
            tt,
            (
              (absent refl, two, absent refl, present (omega arith) (refl, (refl, (refl, tt)))),
              (three, tt),
            ),
          ),
        ),
      ),
    )

run_all-Intact_example :
    (w' : World ℕ) × (run_all driver (λ b. b) (pos 3) program world ≡ ok tt w')
    × Intact (AreSparing program) world w'
    × Asked driver (pos 3) world.kernel w'.kernel
run_all-Intact_example = run_all-Intact driver (λ b. b) (pos 3) program world program-AreSafe

abbrev before : World (List ℤ)
before = record { kernel = pos 0 ∷ []; memory = λ p. some 7; log = [] }

abbrev opened : World (List ℤ)
opened = record { kernel = pos 3 ∷ pos 0 ∷ []; memory = λ p. some 7; log = LogLine.opened ∷ [] }

nsm_lib_exit-nsm_lib_init_example :
    (w₂ w₃ : World (List ℤ)) × (run_all
        (nsm_driver cbor os encodes bounds)
        (λ b. b)
        (pos 3)
        program
        opened
      ≡ ok tt w₂)
    × (nsm_lib_exit (nsm_driver cbor os encodes bounds) (pos 3) w₂ ≡ ok tt w₃)
    × (w₂.kernel ≡ pos 3 ∷ pos 0 ∷ [])
    × (w₃.kernel ≡ pos 0 ∷ [])
    × ((line : LogLine) × CloseLine (pos 3) line × (w₃.log ≡ line ∷ LogLine.opened ∷ []))
    × ((q : Ptr) → AreSparing program q → w₃.memory q ≡ some 7)
unfolding nsm_driver nsm_lib_init nsm_init
nsm_lib_exit-nsm_lib_init_example =
    nsm_lib_exit-nsm_lib_init os (λ k. k) descriptors cbor encodes bounds (λ b. b) before opened
      (pos 3) program refl refl program-AreSafe
