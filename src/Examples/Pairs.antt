-- ===== src/Examples/Pairs.antt =====
-- The theorems on calls one after another, on the device of Examples/Hardware.antt: a caller whose
-- whole memory is mapped and holds sevens, with buffers of 32 bytes at 200 and 300.
use aws_nitro_enclaves_nsm_a.Base.{
  ℕ, zero, suc, ◌≡◌, refl, true, false, some, [], ◌∷◌, arith, set, replicate,
}
use aws_nitro_enclaves_nsm_a.Base.Ints.{pos}
use aws_nitro_enclaves_nsm_a.Machine.{World, ok}
use aws_nitro_enclaves_nsm_a.Machine.Memory.{read, IsMapped}
use aws_nitro_enclaves_nsm_a.NsmIo.{Request, Response, ErrorCode, success}
use aws_nitro_enclaves_nsm_a.Driver.Api.{reply}
use aws_nitro_enclaves_nsm_a.Check.Pcrs.{PcrData}
use aws_nitro_enclaves_nsm_a.Check.Protocol.{Bank, lock_below}
use aws_nitro_enclaves_nsm_a.NsmLib.{nsm_extend_pcr, nsm_describe_pcr, nsm_lock_pcr, nsm_lock_pcrs}
use aws_nitro_enclaves_nsm_a.NsmLib.Replies.{present, Argument, given}
use aws_nitro_enclaves_nsm_a.NsmLib.Sequences.{
  nsm_describe_pcr-nsm_extend_pcr, nsm_extend_pcr-nsm_lock_pcr,
}
use aws_nitro_enclaves_nsm_a.NsmLib.Ranges.{nsm_describe_pcr-nsm_lock_pcrs}
use aws_nitro_enclaves_nsm_a.Examples.Hardware.{device, held, bank, device-KeepsPcrs}
use aws_nitro_enclaves_nsm_a.Examples.Bank.{ones, extension}

abbrev caller : World (Bank × ℕ)
caller = record { kernel = (bank, 0); memory = λ p. some 7; log = [] }

abbrev free : PcrData
free = record { lock = false; value = replicate 32 0 }

input : Argument caller.memory 100 3 (some (7 ∷ 7 ∷ 7 ∷ []))
unfolding read
input = given (omega arith) refl

mapped : (n k : ℕ) → IsMapped caller.memory n k
mapped n zero = tt
mapped n (suc k) = (refl, mapped (suc n) k)

nsm_describe_pcr-nsm_extend_pcr_example :
    (w₁ : World (Bank × ℕ)) × (w₂ : World (Bank × ℕ)) × (nsm_extend_pcr device
        (pos 3)
        16
        100
        3
        200
        32
        caller
      ≡ ok (success, 32) w₁)
    × (read w₁.memory 200 32 ≡ some ones)
    × (nsm_describe_pcr device (pos 3) 16 true 300 32 w₁ ≡ ok (success, false, 32) w₂)
    × (read w₂.memory 300 32 ≡ some ones)
    × (held w₂.kernel ≡ set bank 16 (record free { value = ones }))
nsm_describe_pcr-nsm_extend_pcr_example =
    nsm_describe_pcr-nsm_extend_pcr device (pos 3) held extension 3000 device-KeepsPcrs 16 free
      (7 ∷ 7 ∷ 7 ∷ []) 100 200 300 3 32 32 true caller refl refl (omega arith) input
      (omega arith, mapped 200 32, omega arith, omega arith)
      (omega arith, mapped 300 32, omega arith, omega arith)

nsm_extend_pcr-nsm_lock_pcr_example :
    (w₁ : World (Bank × ℕ)) × (w₂ : World (Bank × ℕ)) × (code : ErrorCode) × (nsm_lock_pcr device
        (pos 3)
        16
        caller
      ≡ ok success w₁)
    × (held w₁.kernel ≡ set bank 16 (record free { lock = true }))
    × (reply device (pos 3) (Request.extend_pcr 16 (7 ∷ 7 ∷ 7 ∷ [])) w₁ ≡ Response.error code)
    × (nsm_extend_pcr device (pos 3) 16 100 3 200 32 w₁ ≡ ok (code, 32) w₂)
    × (held w₂.kernel ≡ held w₁.kernel)
    × (w₂.memory ≡ caller.memory)
nsm_extend_pcr-nsm_lock_pcr_example =
    nsm_extend_pcr-nsm_lock_pcr device (pos 3) held extension 3000 device-KeepsPcrs 16 free
      (7 ∷ 7 ∷ 7 ∷ []) 100 200 3 32 caller refl refl (omega arith) input
      (present (omega arith) (mapped 200 32))

nsm_describe_pcr-nsm_lock_pcrs_example :
    (w₁ w₂ : World (Bank × ℕ)) × (nsm_lock_pcrs device (pos 3) 17 caller ≡ ok success w₁)
    × (w₁.memory ≡ caller.memory)
    × (nsm_describe_pcr device (pos 3) 16 false 200 32 w₁ ≡ ok (success, true, 32) w₂)
    × (read w₂.memory 200 32 ≡ some (replicate 32 0))
    × (held w₂.kernel ≡ lock_below 17 bank)
nsm_describe_pcr-nsm_lock_pcrs_example =
    nsm_describe_pcr-nsm_lock_pcrs device (pos 3) held extension 3000 device-KeepsPcrs 17 16 free
      false 200 32 caller (omega arith) refl (omega arith, mapped 200 32, omega arith, omega arith)
