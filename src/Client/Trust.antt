-- ===== src/Client/Trust.antt =====
-- What the client may conclude from a proof that it has verified.
use mathlib.Core.List.{Memᴰ}
use verifiable_storage.Prelude.{
  ℕ, ◌≡◌, refl, ap, ◌∙◌, subst, ◌⊎◌, some, List, [], ◌∷◌, arith, length, All, ==_iff, map,
}
use verifiable_storage.Prelude.Result.{ok, ok_inj, >>=-eq-ok, ok_or, map_err}
use verifiable_storage.Prelude.Text.{Bytes, Str, trim}
use verifiable_storage.Crates.{Crates, IsLawful}
use verifiable_storage.Crypto.{hash_leaf}
use verifiable_storage.Crypto.Laws.{hash_leaf-eq-hash_data}
use verifiable_storage.Merkle.{MerkleTree, ProofNode, MerkleProof, compute_root, from_data}
use verifiable_storage.Merkle.Inputs.{tree_inputs, proof_inputs, Collision}
use verifiable_storage.Merkle.Soundness.{compute_root_sound}
use verifiable_storage.Common.{ProofNodeJson, DownloadResponse}
use verifiable_storage.Client.{merkle_failed}
use verifiable_storage.Client.Verify.{hex_decode_array, convert_proof_to_nodes, verify_merkle_proof}
use verifiable_storage.Server.Proof.{node_to_json, proof_to_json}

module _ ⦃K : Crates⦄ where
  hex_decode_array-len : (n : ℕ) (s : Str) (b : Bytes) → hex_decode_array n s ≡ ok b → length b ≡ n
  unfolding hex_decode_array
  hex_decode_array-len n s b h =
      let (c, e, rest) = >>=-eq-ok (ok_or _ (K.hex_decode (trim s))) _ h in ground arith

  convert_proof_to_nodes-len :
      (proof : List ProofNodeJson) (nodes : List ProofNode)
      → convert_proof_to_nodes proof ≡ ok nodes
      → All (λ (n : ProofNode). length n.hash ≡ 32) nodes
  unfolding convert_proof_to_nodes
  convert_proof_to_nodes-len [] nodes h =
      subst (All (λ (n : ProofNode). length n.hash ≡ 32)) (ok_inj h) tt
  convert_proof_to_nodes-len (p ∷ proof) nodes h =
      let (hash, e, rest) = >>=-eq-ok (hex_decode_array 32 p.hash) _ h in
      let (tail, e', rest') = >>=-eq-ok (convert_proof_to_nodes proof) _ rest in
      subst (All (λ (n : ProofNode). length n.hash ≡ 32)) (ok_inj rest')
        (hex_decode_array-len 32 p.hash hash e, convert_proof_to_nodes-len proof tail e')

  abbrev proof_with : List ProofNode → Bytes → MerkleProof
  proof_with nodes h = record { leaf_index = 0; leaf_hash = h; path = nodes }

  -- What a verified answer has shown.
  pub record Verified (result : DownloadResponse) (file_hash : Bytes) (root_hash : Str)
      : Type 0 where
    pub nodes : List ProofNode
    pub root : Bytes
    pub decoded : convert_proof_to_nodes result.merkle_proof ≡ ok nodes
    pub expected : hex_decode_array 32 root_hash ≡ ok root
    pub computed : compute_root (proof_with nodes file_hash) ≡ ok root

  verify_merkle_proof-Verified :
      (result : DownloadResponse) (file_hash : Bytes) (root_hash : Str)
      → verify_merkle_proof result file_hash root_hash ≡ ok tt
      → Verified result file_hash root_hash
  unfolding verify_merkle_proof
  verify_merkle_proof-Verified result file_hash root_hash h =
      let (nodes, e, h₁) = >>=-eq-ok (convert_proof_to_nodes result.merkle_proof) _ h in
      let (computed, e₁, h₂) =
        >>=-eq-ok (map_err merkle_failed (compute_root (proof_with nodes file_hash))) _ h₁ in
      let (root, e₂, h₃) = >>=-eq-ok (hex_decode_array 32 root_hash) _ h₂ in
      record {
        nodes = nodes;
        root = root;
        decoded = e;
        expected = e₂;
        computed = ground (arith, (==_iff computed root).0);
      }

  module _ (L : IsLawful K) where
    pub hex_decode_array-hex_encode :
        (n : ℕ) (b : Bytes) → length b ≡ n → hex_decode_array n (K.hex_encode b) ≡ ok b
    unfolding hex_decode_array
    hex_decode_array-hex_encode n b len = rw (L.hex_trim b, L.hex_round b) (ground arith)

    decoded_root : (b c : Bytes) → hex_decode_array 32 (K.hex_encode b) ≡ ok c → c ≡ b
    unfolding hex_decode_array
    decoded_root b c h =
        let e : K.hex_decode (trim (K.hex_encode b)) ≡ some b = rw (L.hex_trim b) (L.hex_round b) in
        ground arith

    -- What the client knows of a content whose proof it has accepted: it is one of the items, or
    -- the tree and the check of this answer's proof have hashed two byte strings with one digest.
    pub record IsTrusted (items : List Bytes) (t : MerkleTree) (result : DownloadResponse)
        (content : Bytes) : Type 0 where
      pub nodes : List ProofNode
      pub decoded : convert_proof_to_nodes result.merkle_proof ≡ ok nodes
      pub genuine :
          Memᴰ content items
          ⊎ Collision
              (tree_inputs items t)
              (proof_inputs content (proof_with nodes (hash_leaf content)))

    -- If the client accepts an answer against the root of a tree over `items`, then the content
    -- that it has hashed is one of the items, or there is such a collision.
    pub verify_merkle_proof_sound :
        (items : List Bytes) (t : MerkleTree) (result : DownloadResponse) (content : Bytes)
        → from_data items ≡ ok t
        → verify_merkle_proof result (hash_leaf content) (K.hex_encode t.root) ≡ ok tt
        → IsTrusted items t result content
    verify_merkle_proof_sound items t result content made h =
        let v = verify_merkle_proof-Verified result (hash_leaf content) (K.hex_encode t.root) h in
        let same : v.root ≡ t.root = decoded_root t.root v.root v.expected in
        record {
          nodes = v.nodes;
          decoded = v.decoded;
          genuine =
              compute_root_sound L items t content (proof_with v.nodes (hash_leaf content)) made
                (hash_leaf-eq-hash_data content)
                (convert_proof_to_nodes-len result.merkle_proof v.nodes v.decoded)
                (v.computed ∙ ap ok same);
        }

    nodes_round :
        (nodes : List ProofNode)
        → All (λ (n : ProofNode). length n.hash ≡ 32) nodes
        → convert_proof_to_nodes (map node_to_json nodes) ≡ ok nodes
    unfolding convert_proof_to_nodes node_to_json
    nodes_round [] lens = refl
    nodes_round (n ∷ nodes) lens =
        rw (hex_decode_array-hex_encode 32 n.hash lens.0, nodes_round nodes lens.1)

    -- The client decodes the nodes that the server encoded.
    pub convert_proof_to_nodes-proof_to_json :
        (p : MerkleProof)
        → All (λ (n : ProofNode). length n.hash ≡ 32) p.path
        → convert_proof_to_nodes (proof_to_json p) ≡ ok p.path
    unfolding proof_to_json
    convert_proof_to_nodes-proof_to_json p lens = nodes_round p.path lens
