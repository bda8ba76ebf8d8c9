-- ===== src/NsmIo/Document.antt =====
-- AttestationDoc::new, to_binary and from_binary of nsm-io/src/lib.rs.
use mathlib.Core.List.{append_assoc}
use mathlib.Core.Option
use aws_nitro_enclaves_nsm_a.Base.{
  ℕ, ◌<◌, ◌≡◌, refl, ◌∙◌, List, [], ◌∷◌, ◌++◌, map, Option, arith, Result, ok, err, Bytes,
}
use aws_nitro_enclaves_nsm_a.Machine.{Cmd, unwrap_ok}
use aws_nitro_enclaves_nsm_a.NsmIo.{Digest, AttestationDoc, Error, cbor, Cbor}
use aws_nitro_enclaves_nsm_a.NsmIo.BTree.{
  BTreeMap, insert, lookup, Above, IsMap, Below, insert-append,
}

-- `byte_buf` is `ByteBuf::from` of serde_bytes.
module _ {B : Type 0} (byte_buf : Bytes → B) where
  -- The loop that fills `pcrs_serialized`.
  pub serialize_pcrs : BTreeMap Bytes → BTreeMap B → BTreeMap B
  serialize_pcrs [] pcrs_serialized = pcrs_serialized
  serialize_pcrs ((i, pcr) ∷ pcrs) pcrs_serialized =
      serialize_pcrs pcrs (insert i (byte_buf pcr) pcrs_serialized)

  unfoldable pub new :
      (module_id : Bytes) (digest : Digest) (timestamp : ℕ) (pcrs : BTreeMap Bytes)
      (certificate : Bytes) (cabundle : List Bytes) (user_data nonce public_key : Option Bytes)
      → AttestationDoc B
  unfolding serialize_pcrs
  new module_id digest timestamp pcrs certificate cabundle user_data nonce public_key = record {
    module_id = module_id;
    digest = digest;
    timestamp = timestamp;
    pcrs = serialize_pcrs pcrs [];
    cabundle = map byte_buf cabundle;
    certificate = byte_buf certificate;
    user_data = Option.map byte_buf user_data;
    nonce = Option.map byte_buf nonce;
    public_key = Option.map byte_buf public_key;
  }

  -- The entries with each value wrapped.
  abbrev pub wrap_values : BTreeMap Bytes → BTreeMap B
  wrap_values [] = []
  wrap_values ((i, pcr) ∷ pcrs) = (i, byte_buf pcr) ∷ wrap_values pcrs

  Below-append : (m : BTreeMap B) (j k : ℕ) (b : B) → Below m j → j < k → Below (m ++ (j, b) ∷ []) k
  Below-append [] j k b h lt = (lt, tt)
  Below-append ((i, c) ∷ m) j k b h lt = (omega arith, Below-append m j k b h.1 lt)

  serialize_pcrs-append :
      (j : ℕ) (pcr : Bytes) (pcrs : BTreeMap Bytes) (m : BTreeMap B)
      → Below m j
      → Above j pcrs
      → serialize_pcrs ((j, pcr) ∷ pcrs) m ≡ m ++ wrap_values ((j, pcr) ∷ pcrs)
  unfolding serialize_pcrs
  serialize_pcrs-append j pcr [] m b a = insert-append j (byte_buf pcr) m b
  serialize_pcrs-append j pcr ((k, p) ∷ pcrs) m b a = rw (insert-append j (byte_buf pcr) m b) (
      serialize_pcrs-append k p pcrs (m ++ (j, byte_buf pcr) ∷ [])
        (Below-append m j k (byte_buf pcr) b a.0) a.1
      ∙ append_assoc m ((j, byte_buf pcr) ∷ []) (wrap_values ((k, p) ∷ pcrs)))

  pub serialize_pcrs-wrap_values :
      (pcrs : BTreeMap Bytes) → IsMap pcrs → serialize_pcrs pcrs [] ≡ wrap_values pcrs
  serialize_pcrs-wrap_values [] h = unfold serialize_pcrs in refl
  serialize_pcrs-wrap_values ((j, p) ∷ pcrs) h = serialize_pcrs-append j p pcrs [] tt h

  Above-wrap_values : (n : ℕ) (pcrs : BTreeMap Bytes) → Above n pcrs → Above n (wrap_values pcrs)
  Above-wrap_values n [] h = tt
  Above-wrap_values n ((j, p) ∷ pcrs) h = (h.0, Above-wrap_values j pcrs h.1)

  pub wrap_values-IsMap : (pcrs : BTreeMap Bytes) → IsMap pcrs → IsMap (wrap_values pcrs)
  wrap_values-IsMap [] h = tt
  wrap_values-IsMap ((j, p) ∷ pcrs) h = Above-wrap_values j pcrs h

  pub lookup-wrap_values :
      (i : ℕ) (pcrs : BTreeMap Bytes)
      → lookup i (wrap_values pcrs) ≡ Option.map byte_buf (lookup i pcrs)
  unfolding lookup
  lookup-wrap_values i [] = refl
  lookup-wrap_values i ((j, p) ∷ pcrs) = ground (arith, lookup-wrap_values i pcrs)

module _ {K B C : Type 0} (lib : Cbor B C) where
  -- `to_vec(self).unwrap()`: a document that cannot be encoded is a panic.
  unfoldable pub to_binary : AttestationDoc B → Cmd K Bytes
  to_binary doc = unwrap_ok (lib.doc_to_vec doc)

unfoldable pub from_binary : {B C : Type 0} → Cbor B C → Bytes → Result (AttestationDoc B) (Error C)
from_binary lib bin = elim (lib.doc_from_slice bin) [ ok doc ↦ ok doc | err e ↦ err (cbor e) ]
