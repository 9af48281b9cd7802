-- ===== src/Server/Proof.antt =====
-- bin/server/src/proof.rs
use verifiable_storage.Prelude.{
  ℕ, suc, Option, none, some, List, [], ◌∷◌, map, nat_beq, length, ◌==◌, if◌then◌else◌,
}
use verifiable_storage.Prelude.Result
use verifiable_storage.Prelude.Result.{ok_or}
use verifiable_storage.Prelude.Text.{Str}
use verifiable_storage.Prelude.Sort.{str_leb, sort}
use verifiable_storage.Prelude.Exec.{Exec, ◌>>=◌, ◌>>◌, lift, require, map_err}
use verifiable_storage.Crates.{Crates}
use verifiable_storage.Merkle.{MerkleProof, ProofNode, num_leaves}
use verifiable_storage.Merkle
use verifiable_storage.Common.{ProofNodeJson}
use verifiable_storage.Storage.{Storage}
use verifiable_storage.Server.Errors.{
  HttpError, handle_server_error, handle_not_found, storage, merkle, file_not_found, tree_not_found,
  tree_out_of_sync,
}

-- `iter().position(|name| name == filename)`
unfoldable pub position : Str → List Str → Option ℕ
position filename [] = none
position filename (name ∷ names) =
    if name == filename then some 0 else mathlib.Core.Option.map suc (position filename names)

-- `filenames` is sorted in a copy; the order of the strings is that of Rust.
unfoldable pub generate_proof :
    (S : Storage) → Str → Str → List Str → Str → Exec HttpError S.State MerkleProof
unfolding position num_leaves handle_server_error handle_not_found
generate_proof S client_id batch_id filenames filename = do
  let sorted_filenames = sort str_leb filenames
  stored ← map_err (λ e. handle_server_error (storage e)) (S.load_merkle_tree client_id batch_id)
  tree ← lift (ok_or (handle_server_error tree_not_found) stored)
  require (nat_beq (num_leaves tree) (length sorted_filenames))
      (handle_server_error tree_out_of_sync)
  file_index ← lift (ok_or (handle_not_found file_not_found) (position filename sorted_filenames))
  lift
      (Result.map_err (λ e. handle_server_error (merkle e)) (Merkle.generate_proof tree file_index))

module _ ⦃K : Crates⦄ where
  unfoldable pub node_to_json : ProofNode → ProofNodeJson
  node_to_json p = record { hash = K.hex_encode p.hash; is_left = p.is_left }

  unfoldable pub proof_to_json : MerkleProof → List ProofNodeJson
  unfolding node_to_json
  proof_to_json proof = map node_to_json proof.path
