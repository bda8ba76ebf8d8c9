-- ===== src/Examples/Transport.antt =====
-- The driver's theorems on the platform of Examples/Platform.antt.
use aws_nitro_enclaves_nsm_a.Base.{ℕ, ◌≡◌, refl, List, [], ◌∷◌, Bytes}
use aws_nitro_enclaves_nsm_a.Base.Ints.{pos, negsuc}
use aws_nitro_enclaves_nsm_a.Machine.{Outcome}
use aws_nitro_enclaves_nsm_a.NsmIo.{Request, Response, internal_error}
use aws_nitro_enclaves_nsm_a.Driver.{nsm_process_request}
use aws_nitro_enclaves_nsm_a.Driver.Answers.{Exchange, nsm_process_request-Exchange}
use aws_nitro_enclaves_nsm_a.Driver.Refinement.{process_all, run_device, process_all-run_device}
use aws_nitro_enclaves_nsm_a.Examples.Platform.{cbor, os, encodes, bounds, handle, serves, world}

-- A lock goes through.
lock_goes_through :
    nsm_process_request cbor os (pos 3) (Request.lock_pcr 20) world
    ≡ Outcome.ok Response.lock_pcr (record world { kernel = 6 })
unfolding nsm_process_request
lock_goes_through = refl

-- On a descriptor that is not open the error in errno is an internal error.
closed_descriptor :
    nsm_process_request cbor os (negsuc 0) Request.get_random world
    ≡ Outcome.ok (Response.error internal_error) world
unfolding nsm_process_request
closed_descriptor = refl

nsm_process_request-Exchange_example :
    (r : Response) × (k : ℕ) × (nsm_process_request cbor os (pos 3) (Request.lock_pcr 20) world
      ≡ Outcome.ok r (record world { kernel = k }))
    × Exchange cbor os (pos 3) (Request.lock_pcr 20) 5 r k
nsm_process_request-Exchange_example =
    nsm_process_request-Exchange cbor os encodes bounds (pos 3) (Request.lock_pcr 20) world

abbrev requests : List (Request Bytes)
requests = Request.lock_pcr 20 ∷ Request.lock_pcrs 4 ∷ Request.extend_pcr 21 (1 ∷ 2 ∷ []) ∷ []

process_all-run_device_example :
    (k : ℕ) × (process_all (nsm_process_request cbor os (pos 3)) requests world
      ≡ Outcome.ok
          (run_device cbor os (pos 3) (λ k. k) handle encodes requests 5).0
          (record world { kernel = k }))
    × (k ≡ (run_device cbor os (pos 3) (λ k. k) handle encodes requests 5).1)
process_all-run_device_example =
    process_all-run_device cbor os (pos 3) (λ k. k) handle encodes serves requests world
