-- ===== src/Storage/Pool.antt =====
-- Many calls of `store_file_and_update_tree` of crates/storage/src/database.rs at one time, each to a
-- batch to which no other call runs, as a client uploads the files of a batch one after another. The
-- parts of the calls interleave, and any call may fail at any part.
pub mod Frame
pub mod Phases
pub mod Settled
pub mod Finish
use verifiable_storage.Prelude.{◌≡◌, Bool, true, false, if◌then◌else◌}
use verifiable_storage.Prelude.Result.{ok}
use verifiable_storage.Prelude.Text.{Bytes, Str}
use verifiable_storage.Prelude.Dict.{str_eq, pair_eq, pair_beq}
use verifiable_storage.Crates.{Crates}
use verifiable_storage.Storage.Tables.{Tables, BatchKey, store_public_key}
use verifiable_storage.Storage.Trees.{calm}
use verifiable_storage.Storage.Store.{IsAllowed}
use verifiable_storage.Storage.Race.{File, Phase, started, stored, finished, hashed, Step}

abbrev pub key_of : File → BatchKey
key_of f = (f.client_id, f.batch_id)

-- What the calls to a batch have come to: none runs, and no call has failed after its file was stored
-- (`idle`) or one has (`broken`), or one runs, which has found the batch idle (`true`) or broken.
pub data Status : Type 0 where
  idle broken : Status
  running : Bool → File → Phase → Status

abbrev pub before : Bool → Status
before true = idle
before false = broken

-- A call that comes to its end has repaired the batch.
abbrev pub after : Bool → File → Phase → Status
after clean f finished = idle
after clean f started = running clean f started
after clean f stored = running clean f stored
after clean f (hashed hashes) = running clean f (hashed hashes)

-- A call that fails in its first transaction has changed nothing.
abbrev pub lost : Bool → Phase → Status
lost clean started = before clean
lost clean stored = broken
lost clean (hashed hashes) = broken
lost clean finished = broken

pub record Pool : Type 0 where
  pub tables : Tables
  pub status : BatchKey → Status

-- The pool where the batch has another status.
abbrev pub set_status : BatchKey → Status → (BatchKey → Status) → BatchKey → Status
set_status b s status d = if pair_beq b d then s else status d

abbrev pub pool : Tables → (BatchKey → Status) → Pool
pool t status = record { tables = t; status = status }

module _ ⦃K : Crates⦄ (collation : Str → Str → Bool) where
  pub data Turn : Pool → Pool → Type 0 where
    -- A call whose file the tables allow a row for begins, where no other runs.
    begin :
        {t : Tables} {status : BatchKey → Status} (clean : Bool) (f : File)
        → IsAllowed t f.client_id f.batch_id f.filename
        → status (key_of f) ≡ before clean
        → Turn (pool t status) (pool t (set_status (key_of f) (running clean f started) status))
    -- A call takes its next part.
    advance :
        {t t' : Tables} {status : BatchKey → Status} (clean : Bool) (f : File) {p p' : Phase}
        → status (key_of f) ≡ running clean f p
        → Step collation f p t p' t'
        → Turn (pool t status) (pool t' (set_status (key_of f) (after clean f p') status))
    -- A call fails.
    fail :
        {t : Tables} {status : BatchKey → Status} (clean : Bool) (f : File) {p : Phase}
        → status (key_of f) ≡ running clean f p
        → Turn (pool t status) (pool t (set_status (key_of f) (lost clean p) status))
    -- A client is registered.
    register :
        {t t' : Tables} {status : BatchKey → Status} (client_id : Str) (public_key : Bytes)
        → store_public_key client_id public_key (calm t) ≡ (ok tt, calm t')
        → Turn (pool t status) (pool t' status)

  pub data Turns (P : Pool) : Pool → Type 0 where
    stay : Turns P P
    turn : {Q R : Pool} → Turns P Q → Turn Q R → Turns P R
