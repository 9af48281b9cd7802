-- ===== src/Tests/Trees.antt =====
-- The Merkle trees of a few items, and the theorems about trees and proofs at them.
use mathlib.Core.List.{Memᴰ}
use verifiable_storage.Prelude.{
  ◌*◌, ◌^◌, ◌<◌, ◌≤◌, ◌≡◌, ◌⊎◌, refl, List, [], ◌∷◌, ◌++◌, arith, true, false, length,
}
use verifiable_storage.Prelude.Result.{ok, err}
use verifiable_storage.Prelude.Text.{Bytes}
use verifiable_storage.Merkle.{
  MerkleTree, MerkleProof, empty_data, invalid_leaf_index, from_leaf_hashes, from_data,
  generate_proof, compute_root, hash_data, hash_pair, next_level,
}
use verifiable_storage.Merkle.Tower.{IsTreeOf, from_leaf_hashes-IsTreeOf}
use verifiable_storage.Merkle.Proofs.{Proves, generate_proof_lem}
use verifiable_storage.Merkle.Inputs.{tree_inputs, proof_inputs, Collision}
use verifiable_storage.Merkle.Soundness.{compute_root_sound}
use verifiable_storage.Merkle.Roots.{generate_proof-depth, from_leaf_hashes-repeat}
use verifiable_storage.Tests.ToyCrates.{toy_crates, toy_crates-IsLawful, digest}

abbrev pub items : List Bytes
items = (1 ∷ 2 ∷ []) ∷ (3 ∷ []) ∷ (4 ∷ 5 ∷ []) ∷ []

abbrev first : Bytes
first = hash_data (1 ∷ 2 ∷ [])

abbrev second : Bytes
second = hash_data (3 ∷ [])

abbrev third : Bytes
third = hash_data (4 ∷ 5 ∷ [])

abbrev pair12 : Bytes
pair12 = hash_pair first second

abbrev pair33 : Bytes
pair33 = hash_pair third third

abbrev hashes : List Bytes
hashes = first ∷ second ∷ third ∷ []

abbrev pub tree : MerkleTree
tree = record {
  root = hash_pair pair12 pair33;
  leaves = hashes;
  levels = hashes ∷ (pair12 ∷ pair33 ∷ []) ∷ (hash_pair pair12 pair33 ∷ []) ∷ [];
}

-- As in the test `test_from_leaf_hashes_three`.
pub made : from_leaf_hashes hashes ≡ ok tree
unfolding from_leaf_hashes next_level
made = refl

pub made_from_data : from_data items ≡ ok tree
unfolding from_data next_level
made_from_data = refl

-- As in the tests `test_empty_data` and `test_invalid_leaf_index`.
empty : (from_data [] ≡ err empty_data) × (generate_proof tree 10 ≡ err (invalid_leaf_index 10))
unfolding from_data generate_proof
empty = (refl, refl)

abbrev pub proof : MerkleProof
proof = record {
  leaf_index = 2;
  leaf_hash = third;
  path = record { hash = third; is_left = false } ∷ record { hash = pair12; is_left = true } ∷ [];
}

proof_of_third : generate_proof tree 2 ≡ ok proof
unfolding generate_proof
proof_of_third = refl

root_of_proof : compute_root proof ≡ ok tree.root
unfolding compute_root
root_of_proof = refl

from_leaf_hashes-IsTreeOf_example :
    (t : MerkleTree) × (from_leaf_hashes hashes ≡ ok t) × IsTreeOf hashes t
from_leaf_hashes-IsTreeOf_example = from_leaf_hashes-IsTreeOf hashes (omega arith)

generate_proof_lem_example :
    ((2 < length hashes) × ((p : MerkleProof) × (generate_proof tree 2 ≡ ok p) × Proves tree 2 p))
    ⊎ ((length hashes ≤ 2) × (generate_proof tree 2 ≡ err (invalid_leaf_index 2)))
generate_proof_lem_example = generate_proof_lem hashes tree 2 made

generate_proof-depth_example : (3 ≤ 2 ^ length proof.path) × (2 ^ length proof.path < 2 * 3)
generate_proof-depth_example =
    generate_proof-depth hashes tree 2 proof made (omega arith) proof_of_third

abbrev repeated : MerkleTree
repeated = record tree {
  leaves = hashes ++ (third ∷ []);
  levels = (hashes ++ (third ∷ [])) ∷ (pair12 ∷ pair33 ∷ []) ∷ (hash_pair pair12 pair33 ∷ []) ∷ [];
}

made_repeated : from_leaf_hashes (first ∷ second ∷ third ∷ third ∷ []) ≡ ok repeated
unfolding from_leaf_hashes next_level
made_repeated = refl

from_leaf_hashes-repeat_example : tree.root ≡ repeated.root
from_leaf_hashes-repeat_example =
    from_leaf_hashes-repeat (first ∷ second ∷ []) third tree repeated (omega arith) (omega arith)
      made made_repeated

compute_root_sound_example :
    Memᴰ (4 ∷ 5 ∷ []) items ⊎ Collision (tree_inputs items tree) (proof_inputs (4 ∷ 5 ∷ []) proof)
compute_root_sound_example =
    compute_root_sound toy_crates-IsLawful items tree (4 ∷ 5 ∷ []) proof made_from_data refl
      (unfold hash_data hash_pair digest in (refl, (refl, tt))) root_of_proof
