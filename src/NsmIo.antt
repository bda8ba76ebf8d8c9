-- ===== src/NsmIo.antt =====
-- nsm-io/src/lib.rs: the requests and responses of a NitroSecureModule, its error codes, and the
-- attestation document. `ByteBuf` of serde_bytes is the parameter `B`; the CBOR library is `Cbor`.
pub mod BTree
pub mod Document
pub mod RoundTrip
use aws_nitro_enclaves_nsm_a.Base.{ℕ, Bool, List, Option, Result, Bytes}
use BTree.{BTreeMap, BTreeSet}

-- The library's error. An I/O error is the system's number for it, `C` is the CBOR library's error.
pub data Error (C : Type 0) : Type 0 where
  io : ℕ → Error C
  cbor : C → Error C

-- `From<IoError>` and `From<CborError>`.
abbrev pub from_io : {C : Type 0} → ℕ → Error C
from_io error = Error.io error

abbrev pub from_cbor : {C : Type 0} → C → Error C
from_cbor error = Error.cbor error

pub data ErrorCode : Type 0 where
  success : ErrorCode
  invalid_argument : ErrorCode
  invalid_index : ErrorCode
  invalid_response : ErrorCode
  read_only_index : ErrorCode
  invalid_operation : ErrorCode
  buffer_too_small : ErrorCode
  input_too_large : ErrorCode
  internal_error : ErrorCode

-- An index is a u16, a number below 2 ^ 16.
pub data Request (B : Type 0) : Type 0 where
  describe_pcr : ℕ → Request B
  extend_pcr : ℕ → Bytes → Request B
  lock_pcr : ℕ → Request B
  lock_pcrs : ℕ → Request B
  describe_nsm : Request B
  attestation : (user_data nonce public_key : Option B) → Request B
  get_random : Request B

pub data Digest : Type 0 where
  sha256 sha384 sha512 : Digest

-- The fields of `Response::DescribeNSM`; a `String` is its UTF-8 bytes.
pub record NsmInfo : Type 0 where
  pub version_major : ℕ
  pub version_minor : ℕ
  pub version_patch : ℕ
  pub module_id : Bytes
  pub max_pcrs : ℕ
  pub locked_pcrs : BTreeSet
  pub digest : Digest

pub data Response : Type 0 where
  describe_pcr : Bool → Bytes → Response
  extend_pcr : Bytes → Response
  lock_pcr : Response
  lock_pcrs : Response
  describe_nsm : NsmInfo → Response
  attestation : Bytes → Response
  get_random : Bytes → Response
  error : ErrorCode → Response

pub record AttestationDoc (B : Type 0) : Type 0 where
  pub module_id : Bytes
  pub digest : Digest
  pub timestamp : ℕ
  pub pcrs : BTreeMap B
  pub certificate : B
  pub cabundle : List B
  pub public_key : Option B
  pub user_data : Option B
  pub nonce : Option B

-- What the crates call of serde_cbor, with `serialize` and `deserialize` derived for the types above.
pub record Cbor (B C : Type 0) : Type 0 where
  pub request_to_vec : Request B → Result Bytes C
  pub response_from_slice : Bytes → Result Response C
  pub doc_to_vec : AttestationDoc B → Result Bytes C
  pub doc_from_slice : Bytes → Result (AttestationDoc B) C
