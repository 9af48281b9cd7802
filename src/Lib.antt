-- ===== src/Lib.antt =====
-- A model of verifiable-storage: a server keeps the files of its clients, grouped in batches, and
-- proves with Merkle trees that it returns what was uploaded; the client keeps only the root hash
-- of a batch.
--
-- The parts and their files:
-- Merkle: crates/merkle-tree/src/lib.rs and proof.rs. `MerkleTree` and its operations have the
--   names of the source; the loop of `from_leaf_hashes` is `grow`, by recursion on an accessibility
--   proof for the length of the level, its body `next_level`. The climb of `compute_root` is
--   `climb_path`, the loop of `generate_proof` is `proof_path`. `Inputs` has all that is hashed for a
--   tree and for a proof.
-- Crypto: crates/crypto/src/lib.rs. A signing key is its 32 bytes. The key file of
--   `load_or_generate_keypair` is its text, and the random bytes are an argument.
-- Crates: the functions of sha2, hex, base64, ed25519_dalek, hkdf and aes_gcm as the fields of a
--   record that every definition takes, and what they document as `IsLawful`.
-- Common: crates/common/src/lib.rs and file_utils.rs. `FilePath` is the part of std::path that
--   the program uses, on texts.
-- Storage: crates/storage/src/lib.rs (the trait, a record of operations on a state of its own)
--   and database.rs with database/queries.rs and schema.rs (the tables as association lists, each
--   query a step that may fail, a transaction that takes the tables back on an error). `Race` has
--   the parts of two uploads as steps that interleave, `Pool` those of many uploads with their
--   failures, at most one to a batch. `Schema` has the creation of the tables over a `Catalog` of
--   those that are there, `Connect` the connection with its retries, where `retry_overflows` says
--   whether a delay overflows, at which a build with checks for it panics. `Valid` has the
--   invariant of the tables. `Metadata` and `Filesystem` are filesystem/metadata.rs and
--   filesystem.rs, on a `Disk`, with serde_json as the parameter `Json`; `Filesystem.Batch` is
--   what a batch is to its client, which the files of a directory hold (`IsBatch`), and so do the
--   tables (`HoldsBatch` in `Batches`). `Directory` has the files of a directory in a new batch,
--   `Histories` uploads in different orders.
-- Server: bin/server/src/auth.rs, constants.rs, proof.rs and handlers/. A handler is state passing
--   over any storage; an error carries its status. `Reach` has the states of a server that handles
--   any requests one after another. `Config` and `Start` are config.rs and main.rs up to the address to
--   bind to, with the backend that it initializes (crates/storage/src/backend.rs); clap gives the values
--   on the command line. `App` has the services of main.rs by their paths, and handlers/health.rs.
-- Disk: the calls of std::fs and tokio::fs, on an association list of the files by their paths. The
--   list `outcomes` says what comes of each: it works, it fails with nothing done, or, if it writes,
--   it breaks after some bytes, which are then the file. `Path::exists` is false where its call of
--   stat fails. `Changes` has what code may change on any such disk.
-- Client: bin/client/src/download.rs, upload.rs, keypair.rs, config.rs and main.rs. The server is any
--   function from requests to answers; environment, clock and random bytes are arguments.
-- Protocol: the client's requests against the server's handlers, over any storage that does its part
--   (`Forms`, `Download`), over the database, and in `Files` and `Stores` over the file system storage.
--   `Remote` is the server as a request meets it: the route, the handler, and the client's reading of
--   the response.
--   `Session` has whole runs of the client's commands, one after another, from main of
--   bin/client/src/main.rs to the database and back.
-- Prelude: results, state passing, texts with their encoding, numbers as texts, sorting and association
--   lists.
-- Tests: a stand-in for the crates that satisfies `IsLawful`, runs, and the theorems at data.
--
-- Integers: the natural numbers are native. The arithmetic that may leave u64 is that of
-- `validate_timestamp` and `calculate_retry_delay`, whose remainders are written out, as in a build
-- that does not check for overflow; for the delay, the start of the server is modelled with such
-- checks as well. Indices and lengths of lists stay below the lengths that fit in memory. A `[u8; 32]` is a list of bytes; where
-- its length matters it is a hypothesis or follows from `IsLawful`. The only fuel is that
-- of the digits of a number as a text (`to_string`), for which the number itself is enough.
--
-- Not modelled: the parsing of command lines by clap, the socket and the limits of the web
-- framework, logging, the report of a proof that the client prints, and the tests under tests/e2e,
-- which are input and output. The framework's parser of multipart forms is a parameter, `accepts`,
-- and its answers to paths without a service are errors. The calls on files are those of one
-- process, so that the lock of a batch is free; directories and permissions are not recorded.
-- Handlers do not interleave at their `await` points, but for the uploads of `Race` and `Pool`: a
-- handler runs to its end, with failing requests to the database as the list `outages`; an error
-- of serde_json between the tree and the JSON of its column, which changes nothing, counts as such
-- a failure. The order of names in the database is a parameter, `collation`. A table that is there
-- is taken to have the columns and keys of schema.rs.
pub mod Prelude
pub mod Disk
pub mod Crates
pub mod Merkle
pub mod Common
pub mod Crypto
pub mod Storage
pub mod Server
pub mod Client
pub mod Protocol
pub mod Tests
