-- ===== src/Examples/Documents.antt =====
-- The document of the repository's own test, made, encoded and decoded.
use aws_nitro_enclaves_nsm_a.Base.{◌≡◌, refl, [], ◌∷◌, none, some, Result, Bytes, arith, replicate}
use aws_nitro_enclaves_nsm_a.Machine.{Outcome}
use aws_nitro_enclaves_nsm_a.NsmIo.{sha256, AttestationDoc, Cbor}
use aws_nitro_enclaves_nsm_a.NsmIo.BTree.{BTreeMap, insert}
use aws_nitro_enclaves_nsm_a.NsmIo.Document.{new, to_binary, from_binary}
use aws_nitro_enclaves_nsm_a.NsmIo.RoundTrip.{Carries, from_binary-new}
use aws_nitro_enclaves_nsm_a.Examples.Platform.{world}

abbrev pcrs : BTreeMap Bytes
pcrs = (1, 1 ∷ 2 ∷ 3 ∷ []) ∷ (2, 4 ∷ 5 ∷ 6 ∷ []) ∷ (3, 7 ∷ 8 ∷ 9 ∷ []) ∷ []

-- The entries inserted one after another are that map.
pcrs_inserted :
    insert 2 (4 ∷ 5 ∷ 6 ∷ []) (insert 3 (7 ∷ 8 ∷ 9 ∷ []) (insert 1 (1 ∷ 2 ∷ 3 ∷ []) [])) ≡ pcrs
unfolding insert
pcrs_inserted = refl

abbrev doc1 : AttestationDoc Bytes
doc1 =
    new (λ b. b) (97 ∷ 98 ∷ 99 ∷ 100 ∷ []) sha256 1234 pcrs (replicate 10 42) []
      (some (replicate 10 255)) none none

-- A codec that knows this document.
abbrev lib : Cbor Bytes (Unit {0})
lib = record {
  request_to_vec = λ q. Result.err tt;
  response_from_slice = λ b. Result.err tt;
  doc_to_vec = λ doc. Result.ok (9 ∷ []);
  doc_from_slice = λ b. Result.ok doc1;
}

from_binary-new_example :
    (doc : AttestationDoc Bytes) × (to_binary lib doc1 world ≡ Outcome.ok (9 ∷ []) world)
    × (from_binary lib (9 ∷ []) ≡ Result.ok doc)
    × (to_binary lib doc world ≡ Outcome.ok (9 ∷ []) world)
    × Carries
        (λ b. b)
        (97 ∷ 98 ∷ 99 ∷ 100 ∷ [])
        sha256
        1234
        pcrs
        (replicate 10 42)
        []
        (some (replicate 10 255))
        none
        none
        doc
from_binary-new_example =
    from_binary-new (λ b. b) (97 ∷ 98 ∷ 99 ∷ 100 ∷ []) sha256 1234 pcrs (replicate 10 42) []
      (some (replicate 10 255)) none none lib (9 ∷ []) world (omega arith) refl refl
