-- ===== src/NsmIo/RoundTrip.antt =====
-- Documents of nsm-io/src/lib.rs made by `new`, encoded and decoded again.
use mathlib.Core.Option
use aws_nitro_enclaves_nsm_a.Base.{ℕ, ◌≡◌, refl, List, map, Option, Result, Bytes}
use aws_nitro_enclaves_nsm_a.Machine.{World, Outcome}
use aws_nitro_enclaves_nsm_a.NsmIo.{Digest, AttestationDoc, Cbor}
use aws_nitro_enclaves_nsm_a.NsmIo.BTree.{BTreeMap, lookup, IsMap}
use aws_nitro_enclaves_nsm_a.NsmIo.Document.{
  new, serialize_pcrs-wrap_values, wrap_values-IsMap, lookup-wrap_values, to_binary, from_binary,
}

module _ {B : Type 0} (byte_buf : Bytes → B) (module_id : Bytes) (digest : Digest) (timestamp : ℕ)
    (pcrs : BTreeMap Bytes) (certificate : Bytes) (cabundle : List Bytes)
    (user_data nonce public_key : Option Bytes) where
  -- The document carries what it was made of: each PCR under its index, in rising order.
  pub record Carries (doc : AttestationDoc B) : Type 0 where
    pub ordered : IsMap doc.pcrs
    pub entries : (i : ℕ) → lookup i doc.pcrs ≡ Option.map byte_buf (lookup i pcrs)
    pub chain : (doc.certificate ≡ byte_buf certificate) × (doc.cabundle ≡ map byte_buf cabundle)
    pub extras :
        (doc.user_data ≡ Option.map byte_buf user_data)
        × (doc.nonce ≡ Option.map byte_buf nonce)
        × (doc.public_key ≡ Option.map byte_buf public_key)
    pub stamp : (doc.module_id ≡ module_id) × (doc.digest ≡ digest) × (doc.timestamp ≡ timestamp)

  abbrev pub made : AttestationDoc B
  made =
      new byte_buf module_id digest timestamp pcrs certificate cabundle user_data nonce public_key

  pub new-Carries : IsMap pcrs → Carries made
  unfolding new
  new-Carries sorted =
      let same = serialize_pcrs-wrap_values byte_buf pcrs sorted in
      record {
        ordered = rw same (wrap_values-IsMap byte_buf pcrs sorted);
        entries = λ i. rw same (lookup-wrap_values byte_buf i pcrs);
        chain = (refl, refl);
        extras = (refl, refl, refl);
        stamp = (refl, refl, refl);
      }

  -- For a document made by AttestationDoc::new from PCRs in rising order, where serde_cbor encodes
  -- it and decodes that encoding to it, to_binary returns without panic, from_binary of its result
  -- is a document that carries each PCR under its index in rising order and every other argument in
  -- its own field, and to_binary of that document gives the same bytes.
  pub from_binary-new :
      {K C : Type 0} (lib : Cbor B C) (bin : Bytes) (w : World K)
      → IsMap pcrs
      → lib.doc_to_vec made ≡ Result.ok bin
      → lib.doc_from_slice bin ≡ Result.ok made
      → (doc : AttestationDoc B) × (to_binary lib made w ≡ Outcome.ok bin w)
        × (from_binary lib bin ≡ Result.ok doc)
        × (to_binary lib doc w ≡ Outcome.ok bin w)
        × Carries doc
  unfolding to_binary from_binary
  from_binary-new lib bin w sorted e e' =
      (made, rw e, rw (e', from_binary), rw e, new-Carries sorted)
