-- ===== src/Merkle.antt =====
-- crates/merkle-tree/src/lib.rs and proof.rs: the tree, its proofs and the root of a proof.
pub mod Tower
pub mod Proofs
pub mod Inputs
pub mod Soundness
pub mod Roots
pub mod Widths
use mathlib.Core.Logic.{dite}
use mathlib.Core.WellFounded.{Acc}
use native.Mathlib.Decide.{dec_lt}
use verifiable_storage.Prelude.{
  ℕ, suc, ◌+◌, ◌-◌, ◌/◌, ◌%◌, ◌<◌, ◌≤◌, ◌≡◌, List, [], ◌∷◌, ◌++◌, map, Bool, true, false, arith,
  length, nat_beq, ltb, if◌then◌else◌, Shorter, Shorter-wf,
}
use verifiable_storage.Prelude.Result.{Result, ok, err, ◌>>=◌, index}
use verifiable_storage.Prelude.Text.{Bytes}
use verifiable_storage.Crates.{Crates}

pub data MerkleTreeError : Type 0 where
  empty_data : MerkleTreeError
  invalid_leaf_index : ℕ → MerkleTreeError

pub record MerkleTree : Type 0 where
  pub root : Bytes
  pub leaves : List Bytes
  pub levels : List (List Bytes)

pub record ProofNode : Type 0 where
  pub hash : Bytes
  pub is_left : Bool

pub record MerkleProof : Type 0 where
  pub leaf_index : ℕ
  pub leaf_hash : Bytes
  pub path : List ProofNode

unfoldable pub root_hash : MerkleTree → Bytes
root_hash t = t.root

unfoldable pub num_leaves : MerkleTree → ℕ
num_leaves t = length t.leaves

module _ ⦃K : Crates⦄ where
  unfoldable pub hash_data : Bytes → Bytes
  hash_data data' = K.sha256 (0x00 ∷ data')

  unfoldable pub hash_pair : Bytes → Bytes → Bytes
  hash_pair left right = K.sha256 (0x01 ∷ (left ++ right))

  -- The inner loop of the two constructors: pairs of nodes, the odd last one with itself.
  unfoldable pub next_level : List Bytes → List Bytes
  next_level [] = []
  next_level (x ∷ []) = hash_pair x x ∷ []
  next_level (x ∷ y ∷ rest) = hash_pair x y ∷ next_level rest

  pub length-next_level-le : (l : List Bytes) → length (next_level l) ≤ length l
  unfolding next_level
  length-next_level-le [] = omega arith
  length-next_level-le (x ∷ []) = omega arith
  length-next_level-le (x ∷ y ∷ rest) = omega (arith, length-next_level-le rest)

  pub next_level-Shorter : (l : List Bytes) → 1 < length l → Shorter (next_level l) l
  unfolding next_level
  next_level-Shorter [] h = omega arith
  next_level-Shorter (x ∷ []) h = omega arith
  next_level-Shorter (x ∷ y ∷ rest) h = omega (arith, length-next_level-le rest)

  -- The `while` loop, on the current level and the levels pushed before.
  unfoldable pub grow :
      (current : List Bytes)
      → List (List Bytes)
      → Acc Shorter current
      → List (List Bytes) × List Bytes
  unfolding dec_lt
  grow current levels (Acc.intro _ smaller) =
      dite (dec_lt 1 (length current))
        (λ h.
          let next = next_level current in
          grow next (levels ++ (next ∷ [])) (smaller next (next_level-Shorter current h)))
        (λ _. (levels, current))

  -- The constructors end by reading `current_level[0]`.
  unfoldable pub build : List Bytes → Result MerkleTreeError MerkleTree
  unfolding grow Shorter-wf
  build leaves = do
    let grown = grow leaves (leaves ∷ []) (Shorter-wf.apply leaves)
    root ← index grown.1 0
    ok (record { root = root; leaves = leaves; levels = grown.0 })

  unfoldable pub from_leaf_hashes : List Bytes → Result MerkleTreeError MerkleTree
  unfolding build
  from_leaf_hashes [] = err empty_data
  from_leaf_hashes (h ∷ hs) = build (h ∷ hs)

  unfoldable pub from_data : List Bytes → Result MerkleTreeError MerkleTree
  unfolding build hash_data
  from_data [] = err empty_data
  from_data (d ∷ ds) = build (map hash_data (d ∷ ds))

  -- The node above `current` on a proof's path.
  unfoldable pub climb : Bytes → ProofNode → Bytes
  climb current node =
      if node.is_left then hash_pair node.hash current else hash_pair current node.hash

  unfoldable pub climb_path : Bytes → List ProofNode → Bytes
  unfolding climb
  climb_path current [] = current
  climb_path current (node ∷ path) = climb_path (climb current node) path

  unfoldable pub compute_root : MerkleProof → Result MerkleTreeError Bytes
  unfolding climb_path
  compute_root proof = ok (climb_path proof.leaf_hash proof.path)

unfoldable pub sibling_index : ℕ → ℕ
sibling_index i = if nat_beq (i % 2) 0 then i + 1 else i - 1

-- The body of the loop of `generate_proof`.
unfoldable pub proof_node : List Bytes → ℕ → Result MerkleTreeError ProofNode
unfolding sibling_index
proof_node level i =
    if ltb (sibling_index i) (length level)
    then (do
      h ← index level (sibling_index i)
      ok (record { hash = h; is_left = ltb (sibling_index i) i }))
    else (do h ← index level i; ok (record { hash = h; is_left = false }))

-- The loop, over all levels but the last.
unfoldable pub proof_path : List (List Bytes) → ℕ → Result MerkleTreeError (List ProofNode)
unfolding proof_node
proof_path [] i = ok []
proof_path (level ∷ []) i = ok []
proof_path (level ∷ above ∷ levels) i = do
  node ← proof_node level i
  path ← proof_path (above ∷ levels) (i / 2)
  ok (node ∷ path)

unfoldable pub generate_proof : MerkleTree → ℕ → Result MerkleTreeError MerkleProof
unfolding proof_path num_leaves
generate_proof tree leaf_index =
    if ltb leaf_index (length tree.leaves)
    then (do
      path ← proof_path tree.levels leaf_index
      leaf_hash ← index tree.leaves leaf_index
      ok (record { leaf_index = leaf_index; leaf_hash = leaf_hash; path = path }))
    else err (invalid_leaf_index leaf_index)
