-- ===== src/Common.antt =====
-- crates/common/src: the messages of the protocol, and the check of filenames with its paths.
pub mod FilePath
pub mod Filename
use verifiable_storage.Prelude.{ℕ, Bool, List}
use verifiable_storage.Prelude.Text.{Str}

pub record DownloadRequest : Type 0 where
  pub filename : Str
  pub batch_id : Str
  pub signature : Str
  pub timestamp : ℕ
  pub client_id : Str

pub record ProofNodeJson : Type 0 where
  pub hash : Str
  pub is_left : Bool

pub record DownloadResponse : Type 0 where
  pub filename : Str
  pub file_content : Str
  pub merkle_proof : List ProofNodeJson
