-- ===== src/Examples/Bank.antt =====
-- PCRs that answer the requests on them as the protocol wants it; the digest of anything is 32 ones.
use aws_nitro_enclaves_nsm_a.Base.{
  true, none, some, Bytes, leb, if◌then◌else◌, length, get_elem?, set, replicate,
}
use aws_nitro_enclaves_nsm_a.NsmIo.{
  Request, Response, invalid_index, read_only_index, invalid_operation,
}
use aws_nitro_enclaves_nsm_a.Check.Pcrs.{PcrData}
use aws_nitro_enclaves_nsm_a.Check.Protocol.{Bank, lock_below}

abbrev pub ones : Bytes
ones = replicate 32 1

abbrev pub extension : Bytes → Bytes → Bytes
extension v input = ones

abbrev pub full : PcrData
full = record { lock = true; value = ones }

abbrev pub empty : PcrData
empty = record { lock = true; value = replicate 32 0 }

abbrev pub handle : Request Bytes → Bank → Response × Bank
handle (Request.describe_pcr i) b = elim (get_elem? b i) [
  | none ↦ (Response.error invalid_index, b)
  | some p ↦ (Response.describe_pcr p.lock p.value, b)
]
handle (Request.extend_pcr i xs) b = elim (get_elem? b i) [
  | none ↦ (Response.error invalid_index, b)
  | some p ↦ if p.lock then (Response.error read_only_index, b) else (
    Response.extend_pcr (extension p.value xs),
    set b i (record p { value = extension p.value xs }),
  )
]
handle (Request.lock_pcr i) b = elim (get_elem? b i) [
  | none ↦ (Response.error invalid_index, b)
  | some p ↦
      if p.lock
      then (Response.error read_only_index, b)
      else (Response.lock_pcr, set b i (record p { lock = true }))
]
handle (Request.lock_pcrs r) b =
    if leb r (length b)
    then (Response.lock_pcrs, lock_below r b)
    else (Response.error invalid_index, b)
handle _ b = (Response.error invalid_operation, b)
