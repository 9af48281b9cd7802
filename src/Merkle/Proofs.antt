-- ===== src/Merkle/Proofs.antt =====
-- `generate_proof` and `compute_root`: every leaf has a proof, and the proof leads to the root.
use native.Mathlib.Decide.{dec_lt}
use verifiable_storage.Prelude.{
  ℕ, zero, suc, ◌/◌, ◌<◌, ◌≤◌, ◌≡◌, refl, ap, ◌∙◌, sym, subst, ◌⊎◌, inl, inr, List, [], ◌∷◌, some,
  arith, length, get_elem?, get_elem?_lt, false, true,
}
use verifiable_storage.Prelude.Result.{ok, err}
use verifiable_storage.Prelude.Text.{Bytes}
use verifiable_storage.Crates.{Crates}
use verifiable_storage.Merkle.{
  MerkleTree, invalid_leaf_index, ProofNode, MerkleProof, next_level, climb, climb_path,
  compute_root, sibling_index, proof_node, proof_path, generate_proof, from_leaf_hashes,
}
use verifiable_storage.Merkle.Tower.{IsTower, IsTreeOf, IsTreeOf-of_ok}

module _ ⦃K : Crates⦄ where
  -- The proof node of place `i`, and what it makes of the hash there.
  record Sibling (level : List Bytes) (i : ℕ) (h : Bytes) : Type 0 where
    node : ProofNode
    result : proof_node level i ≡ ok node
    above : get_elem? (next_level level) (i / 2) ≡ some (climb h node)

  left_of : (x y : Bytes) (rest : List Bytes) → Sibling (x ∷ y ∷ rest) 0 x
  unfolding proof_node next_level climb
  left_of x y rest = record {
    node = record { hash = y; is_left = false };
    result = ground arith;
    above = refl;
  }

  right_of : (x y : Bytes) (rest : List Bytes) → Sibling (x ∷ y ∷ rest) 1 y
  unfolding proof_node next_level climb
  right_of x y rest = record {
    node = record { hash = x; is_left = true };
    result = ground arith;
    above = refl;
  }

  last_alone : (x : Bytes) → Sibling (x ∷ []) 0 x
  unfolding proof_node next_level climb
  last_alone x = record {
    node = record { hash = x; is_left = false };
    result = ground arith;
    above = refl;
  }

  sibling_index-suc : (i : ℕ) → sibling_index (suc (suc i)) ≡ suc (suc (sibling_index i))
  unfolding sibling_index
  sibling_index-suc i = ground arith

  proof_node-cons :
      (x y : Bytes) (rest : List Bytes) (i : ℕ)
      → proof_node (x ∷ y ∷ rest) (suc (suc i)) ≡ proof_node rest i
  unfolding proof_node
  proof_node-cons x y rest i = ground (arith, sibling_index-suc i)

  half_suc : (i : ℕ) → suc (suc i) / 2 ≡ suc (i / 2)
  half_suc i = omega arith

  sibling :
      (level : List Bytes) (i : ℕ) (h : Bytes) → get_elem? level i ≡ some h → Sibling level i h
  unfolding next_level
  sibling [] i h e = absurd (cc)
  sibling (x ∷ []) zero h e = subst (Sibling (x ∷ []) 0) (cc) (last_alone x)
  sibling (x ∷ []) (suc i) h e = absurd (cc)
  sibling (x ∷ y ∷ rest) zero h e = subst (Sibling (x ∷ y ∷ rest) 0) (cc) (left_of x y rest)
  sibling (x ∷ y ∷ rest) (suc zero) h e = subst (Sibling (x ∷ y ∷ rest) 1) (cc) (right_of x y rest)
  sibling (x ∷ y ∷ rest) (suc (suc i)) h e =
      let s = sibling rest i h e in
      record {
        node = s.node;
        result = proof_node-cons x y rest i ∙ s.result;
        above = rw half_suc s.above;
      }

  -- A path of the right kind: it is what the loop collects, and it leads from `h` to `root`.
  record Leads (levels : List (List Bytes)) (i : ℕ) (h root : Bytes) : Type 0 where
    path : List ProofNode
    result : proof_path levels i ≡ ok path
    climbs : climb_path h path ≡ root
    length_eq : suc (length path) ≡ length levels

  leads :
      (level : List Bytes) (above : List (List Bytes)) (root : Bytes) (i : ℕ) (h : Bytes)
      → IsTower level above root
      → get_elem? level i ≡ some h
      → Leads (level ∷ above) i h root
  unfolding proof_path climb_path
  leads level [] root zero h t e = record {
    path = [];
    result = refl;
    climbs = cc (ap (λ (l : List Bytes). get_elem? l 0) t);
    length_eq = refl;
  }
  leads level [] root (suc i) h t e = absurd (cc (ap (λ (l : List Bytes). get_elem? l (suc i)) t))
  leads level (l ∷ ls) root i h t e =
      let s = sibling level i h e in
      let rest = leads l ls root (i / 2) (climb h s.node) t.2 (rw t.1 s.above) in
      record {
        path = s.node ∷ rest.path;
        result = rw (s.result, rest.result);
        climbs = rest.climbs;
        length_eq = ap suc rest.length_eq;
      }

  -- A proof for leaf `i` of `t`: it names the leaf and computes to the root of the tree.
  pub record Proves (t : MerkleTree) (i : ℕ) (p : MerkleProof) : Type 0 where
    pub index_eq : p.leaf_index ≡ i
    pub leaf_eq : get_elem? t.leaves i ≡ some p.leaf_hash
    pub root_eq : compute_root p ≡ ok t.root
    pub length_eq : suc (length p.path) ≡ length t.levels

  pub generate_proof-Proves :
      (leaves : List Bytes) (t : MerkleTree) (i : ℕ)
      → IsTreeOf leaves t
      → i < length leaves
      → (p : MerkleProof) × (generate_proof t i ≡ ok p) × Proves t i p
  unfolding generate_proof compute_root
  generate_proof-Proves leaves t i tree lt =
      let (h, e) = get_elem?_lt leaves i lt in
      let found : get_elem? t.leaves i ≡ some h =
        ap (λ (l : List Bytes). get_elem? l i) tree.leaves_eq ∙ e in
      let l = leads leaves tree.above t.root i h tree.tower e in
      let small : i < length t.leaves = rw tree.leaves_eq lt in
      (
        record { leaf_index = i; leaf_hash = h; path = l.path },
        rw (tree.levels_eq, l.result, found) (ground arith),
        record {
          index_eq = refl;
          leaf_eq = found;
          root_eq = ap ok l.climbs;
          length_eq = l.length_eq ∙ ap length (sym tree.levels_eq);
        },
      )

  -- For a tree that `from_leaf_hashes` returned, `generate_proof` fails exactly at the indices
  -- that are no leaf, and gives at the others, without a panic, a proof that computes to the root.
  pub generate_proof_lem :
      (leaves : List Bytes) (t : MerkleTree) (i : ℕ)
      → from_leaf_hashes leaves ≡ ok t
      → ((i < length leaves) × ((p : MerkleProof) × (generate_proof t i ≡ ok p) × Proves t i p))
        ⊎ ((length leaves ≤ i) × (generate_proof t i ≡ err (invalid_leaf_index i)))
  generate_proof_lem leaves t i made =
      let tree = IsTreeOf-of_ok leaves t made in
      elim (dec_lt i (length leaves)) [
        | yes lt ↦ inl (lt, generate_proof-Proves leaves t i tree lt)
        | no ge ↦
            let wrong : length t.leaves ≤ i = rw tree.leaves_eq (omega arith) in
            inr (omega arith, unfold generate_proof in ground arith)
      ]
