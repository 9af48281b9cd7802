-- ===== src/Merkle/Widths.antt =====
-- Every hash on the path of a proof has 32 bytes, if the leaves have.
use verifiable_storage.Prelude.{
  ℕ, zero, suc, ◌/◌, ◌≡◌, ap, ◌∙◌, sym, subst, List, [], ◌∷◌, arith, length, All, ltb, Bool-cases,
  inl, inr,
}
use verifiable_storage.Prelude.Result.{ok, ok_inj, >>=-eq-ok, index}
use verifiable_storage.Prelude.Text.{Bytes}
use verifiable_storage.Crates.{Crates, IsLawful}
use verifiable_storage.Merkle.{
  MerkleTree, MerkleTreeError, MerkleProof, ProofNode, hash_pair, next_level, sibling_index,
  proof_node, proof_path, generate_proof,
}
use verifiable_storage.Merkle.Tower.{IsTower, IsTreeOf}

abbrev pub Is32 : Bytes → Type 0
Is32 h = length h ≡ 32

abbrev pub Nodes32 : List ProofNode → Type 0
Nodes32 = All (λ (n : ProofNode). Is32 n.hash)

index-Is32 :
    (level : List Bytes) (i : ℕ) (h : Bytes)
    → All Is32 level
    → index {E = MerkleTreeError} level i ≡ ok h
    → Is32 h
index-Is32 [] i h a e = absurd (cc)
index-Is32 (x ∷ level) zero h a e = ap length (sym (ok_inj e)) ∙ a.0
index-Is32 (x ∷ level) (suc i) h a e = index-Is32 level i h a.1 e

proof_node-Is32 :
    (level : List Bytes) (i : ℕ) (n : ProofNode)
    → All Is32 level
    → proof_node level i ≡ ok n
    → Is32 n.hash
unfolding proof_node
proof_node-Is32 level i n a e = elim (Bool-cases (ltb (sibling_index i) (length level))) [
  | inl c ↦
      let (h, found, e') = >>=-eq-ok (index level (sibling_index i)) _ (rw c at e) in
      ap (λ (m : ProofNode). length m.hash) (sym (ok_inj e'))
      ∙ index-Is32 level (sibling_index i) h a found
  | inr c ↦
      let (h, found, e') = >>=-eq-ok (index level i) _ (rw c at e) in
      ap (λ (m : ProofNode). length m.hash) (sym (ok_inj e')) ∙ index-Is32 level i h a found
]

proof_path-Nodes32 :
    (levels : List (List Bytes)) (i : ℕ) (path : List ProofNode)
    → All (All Is32) levels
    → proof_path levels i ≡ ok path
    → Nodes32 path
unfolding proof_path
proof_path-Nodes32 [] i path a e = subst Nodes32 (ok_inj e) tt
proof_path-Nodes32 (l ∷ []) i path a e = subst Nodes32 (ok_inj e) tt
proof_path-Nodes32 (l ∷ m ∷ levels) i path a e =
    let (n, found, e₁) = >>=-eq-ok (proof_node l i) _ e in
    let (rest, more, e₂) = >>=-eq-ok (proof_path (m ∷ levels) (i / 2)) _ e₁ in
    subst Nodes32 (ok_inj e₂)
      (proof_node-Is32 l i n a.0 found, proof_path-Nodes32 (m ∷ levels) (i / 2) rest a.1 more)

module _ ⦃K : Crates⦄ (L : IsLawful K) where
  next_level-Is32 : (level : List Bytes) → All Is32 (next_level level)
  unfolding next_level hash_pair
  next_level-Is32 [] = tt
  next_level-Is32 (x ∷ []) = (L.sha256_len _, tt)
  next_level-Is32 (x ∷ y ∷ rest) = (L.sha256_len _, next_level-Is32 rest)

  tower-Is32 :
      (level : List Bytes) (above : List (List Bytes)) (root : Bytes)
      → All Is32 level
      → IsTower level above root
      → All (All Is32) (level ∷ above) × Is32 root
  tower-Is32 level [] root a t = ((a, tt), (subst (All Is32) t a).0)
  tower-Is32 level (l ∷ ls) root a t =
      let rest = tower-Is32 l ls root (subst (All Is32) (sym t.1) (next_level-Is32 level)) t.2 in
      ((a, rest.0), rest.1)

  -- The widths of the hashes of a proof, and of the root.
  pub generate_proof-Nodes32 :
      (leaves : List Bytes) (t : MerkleTree) (i : ℕ) (p : MerkleProof)
      → IsTreeOf leaves t
      → All Is32 leaves
      → generate_proof t i ≡ ok p
      → Nodes32 p.path × Is32 t.root
  unfolding generate_proof
  generate_proof-Nodes32 leaves t i p tree a e =
      let widths = tower-Is32 leaves tree.above t.root a tree.tower in
      elim (Bool-cases (ltb i (length t.leaves))) [
        | inl c ↦
            let (path, found, e₁) = >>=-eq-ok (proof_path t.levels i) _ (rw c at e) in
            let (leaf, _, e₂) = >>=-eq-ok (index t.leaves i) _ e₁ in
            (
              subst Nodes32 (ap (λ (q : MerkleProof). q.path) (ok_inj e₂))
                  (proof_path-Nodes32 t.levels i path (rw tree.levels_eq widths.0) found),
              widths.1,
            )
        | inr c ↦ absurd (ground arith)
      ]
