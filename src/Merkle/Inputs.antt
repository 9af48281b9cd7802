-- ===== src/Merkle/Inputs.antt =====
-- The byte strings that a tree's constructor and a proof's check give to SHA-256
-- (crates/merkle-tree/src/lib.rs and proof.rs), and collisions between the two.
use mathlib.Core.List.{Memᴰ}
use verifiable_storage.Prelude.{
  ◌≡◌, ◌≢◌, refl, ap, ◌⊎◌, inl, inr, List, [], ◌∷◌, ◌++◌, map, if◌then◌else◌, ==-cases, Bool-cases,
}
use verifiable_storage.Prelude.Text.{Bytes}
use verifiable_storage.Crates.{Crates}
use verifiable_storage.Merkle.{MerkleTree, ProofNode, MerkleProof, hash_pair, next_level, climb}

-- What the nodes above a level are the digests of.
unfoldable pub pair_inputs : List Bytes → List Bytes
pair_inputs [] = []
pair_inputs (x ∷ []) = (0x01 ∷ (x ++ x)) ∷ []
pair_inputs (x ∷ y ∷ rest) = (0x01 ∷ (x ++ y)) ∷ pair_inputs rest

-- The same for all levels: no node is above the last.
unfoldable pub level_inputs : List (List Bytes) → List Bytes
unfolding pair_inputs
level_inputs [] = []
level_inputs (level ∷ []) = []
level_inputs (level ∷ above ∷ levels) = pair_inputs level ++ level_inputs (above ∷ levels)

-- All that is hashed for a tree of these items.
unfoldable pub tree_inputs : List Bytes → MerkleTree → List Bytes
unfolding level_inputs
tree_inputs items t = map (λ (d : Bytes). 0x00 ∷ d) items ++ level_inputs t.levels

unfoldable pub climb_input : Bytes → ProofNode → Bytes
climb_input current node =
    if node.is_left then 0x01 ∷ (node.hash ++ current) else 0x01 ∷ (current ++ node.hash)

module _ ⦃K : Crates⦄ where
  unfoldable pub climb_inputs : Bytes → List ProofNode → List Bytes
  unfolding climb_input climb
  climb_inputs current [] = []
  climb_inputs current (node ∷ path) =
      climb_input current node ∷ climb_inputs (climb current node) path

  -- All that is hashed for the leaf of `d` and the path of the proof.
  unfoldable pub proof_inputs : Bytes → MerkleProof → List Bytes
  unfolding climb_inputs
  proof_inputs d proof = (0x00 ∷ d) ∷ climb_inputs proof.leaf_hash proof.path

  -- The nodes above a level are these digests.
  next_level-pair_inputs : (l : List Bytes) → next_level l ≡ map K.sha256 (pair_inputs l)
  unfolding next_level hash_pair pair_inputs
  next_level-pair_inputs [] = refl
  next_level-pair_inputs (x ∷ []) = refl
  next_level-pair_inputs (x ∷ y ∷ rest) =
      ap (λ (l : List Bytes). hash_pair x y ∷ l) (next_level-pair_inputs rest)

  climb-climb_input : (h : Bytes) (n : ProofNode) → climb h n ≡ K.sha256 (climb_input h n)
  unfolding climb hash_pair climb_input
  climb-climb_input h n = elim (Bool-cases n.is_left) [ inl e ↦ rw e refl | inr e ↦ rw e refl ]

  -- Two different byte strings, one of each list, with one digest.
  pub record Collision (ours theirs : List Bytes) : Type 0 where
    pub left : Bytes
    pub right : Bytes
    pub hashed_left : Memᴰ left ours
    pub hashed_right : Memᴰ right theirs
    pub differ : left ≢ right
    pub same : K.sha256 left ≡ K.sha256 right

  -- One digest: one input, or a collision.
  pub sha256_cases :
      {ours theirs : List Bytes} (a b : Bytes)
      → Memᴰ a ours
      → Memᴰ b theirs
      → K.sha256 a ≡ K.sha256 b
      → (a ≡ b) ⊎ Collision ours theirs
  sha256_cases a b m n e = elim (==-cases a b) [
    | inl p ↦ inl p
    | inr differ ↦ inr (record {
      left = a;
      right = b;
      hashed_left = m;
      hashed_right = n;
      differ = differ;
      same = e;
    })
  ]
