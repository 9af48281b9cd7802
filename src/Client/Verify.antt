-- ===== src/Client/Verify.antt =====
-- bin/client/src/download.rs: the decoding of a proof and its comparison with the root hash.
use verifiable_storage.Prelude.{ℕ, List, [], ◌∷◌, length, nat_beq, ◌==◌}
use verifiable_storage.Prelude.Result.{Result, ok, ◌>>=◌, ◌>>◌, ok_or, map_err, guard}
use verifiable_storage.Prelude.Text.{Bytes, Str, trim}
use verifiable_storage.Crates.{Crates}
use verifiable_storage.Merkle.{ProofNode, compute_root}
use verifiable_storage.Common.{ProofNodeJson, DownloadResponse}
use verifiable_storage.Client.{
  ClientError, decode_hex_failed, invalid_hex_length, root_mismatch, merkle_failed,
}

module _ ⦃K : Crates⦄ where
  unfoldable pub hex_decode_array : ℕ → Str → Result ClientError Bytes
  hex_decode_array n s = do
    bytes ← ok_or decode_hex_failed (K.hex_decode (trim s))
    guard (nat_beq (length bytes) n) invalid_hex_length
    ok bytes

  -- `map` and `collect`, which stops at the first error.
  unfoldable pub convert_proof_to_nodes : List ProofNodeJson → Result ClientError (List ProofNode)
  convert_proof_to_nodes [] = ok []
  convert_proof_to_nodes (p ∷ proof_json) = do
    hash ← hex_decode_array 32 p.hash
    nodes ← convert_proof_to_nodes proof_json
    ok (record { hash = hash; is_left = p.is_left } ∷ nodes)

  unfoldable pub verify_merkle_proof :
      DownloadResponse → Bytes → Str → Result ClientError (Unit {0})
  verify_merkle_proof result file_hash root_hash = do
    proof_nodes ← convert_proof_to_nodes result.merkle_proof
    computed_root ←
        map_err merkle_failed
          (compute_root (record { leaf_index = 0; leaf_hash = file_hash; path = proof_nodes }))
    expected_root ← hex_decode_array 32 root_hash
    guard (computed_root == expected_root) root_mismatch
