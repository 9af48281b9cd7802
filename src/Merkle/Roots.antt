-- ===== src/Merkle/Roots.antt =====
-- Bounds on the depth of a tree, and two leaf lists with one root.
use native.Mathlib.Nat.{pow-suc}
use verifiable_storage.Prelude.{
  ℕ, ◌+◌, ◌*◌, ◌%◌, ◌^◌, ◌<◌, ◌≤◌, ◌≡◌, refl, ap, ◌∙◌, sym, subst, List, [], ◌∷◌, ◌++◌, arith,
  length, length-append,
}
use verifiable_storage.Prelude.Result.{ok, ok_inj}
use verifiable_storage.Prelude.Text.{Bytes}
use verifiable_storage.Crates.{Crates}
use verifiable_storage.Merkle.{
  MerkleTree, MerkleProof, hash_pair, next_level, generate_proof, from_leaf_hashes,
}
use verifiable_storage.Merkle.Tower.{IsTower, IsTreeOf-of_ok, IsTower-root_eq}
use verifiable_storage.Merkle.Proofs.{generate_proof-Proves}

module _ ⦃K : Crates⦄ where
  -- Half as many, rounded up.
  length-next_level :
      (l : List Bytes)
      → (length l ≤ 2 * length (next_level l)) × (2 * length (next_level l) ≤ length l + 1)
  unfolding next_level
  length-next_level [] = omega arith
  length-next_level (x ∷ []) = omega arith
  length-next_level (x ∷ y ∷ rest) = omega (arith, length-next_level rest)

  -- From two leaves on, by the number of levels above the next.
  tower_depth :
      (level l : List Bytes) (ls : List (List Bytes)) (root : Bytes)
      → IsTower level (l ∷ ls) root
      → (2 ^ length ls < length level) × (length level ≤ 2 * 2 ^ length ls)
  tower_depth level l [] root t =
      omega (arith, length-next_level level, ap length t.1, ap length t.2)
  tower_depth level l (m ∷ ms) root t = omega (
    arith,
    pow-suc 2 (length ms),
    length-next_level level,
    ap length t.1,
    tower_depth l m ms root t.2,
  )

  above_depth :
      (level : List Bytes) (above : List (List Bytes)) (root : Bytes)
      → IsTower level above root
      → (length level ≤ 2 ^ length above) × (2 ^ length above < 2 * length level)
  above_depth level [] root t = omega (arith, ap length t)
  above_depth level (l ∷ ls) root t =
      omega (arith, pow-suc 2 (length ls), tower_depth level l ls root t)

  -- A proof for one of n leaves has k nodes with n ≤ 2 ^ k < 2 * n: it is as long as the binary
  -- logarithm of n, rounded up.
  pub generate_proof-depth :
      (leaves : List Bytes) (t : MerkleTree) (i : ℕ) (p : MerkleProof)
      → from_leaf_hashes leaves ≡ ok t
      → i < length leaves
      → generate_proof t i ≡ ok p
      → (length leaves ≤ 2 ^ length p.path) × (2 ^ length p.path < 2 * length leaves)
  generate_proof-depth leaves t i p made lt gen =
      let tree = IsTreeOf-of_ok leaves t made in
      let (q, e, proves) = generate_proof-Proves leaves t i tree lt in
      let same : q ≡ p = ok_inj (sym e ∙ gen) in
      let len : length p.path ≡ length tree.above = omega (
        arith,
        proves.length_eq,
        ap length tree.levels_eq,
        ap (λ (r : MerkleProof). length r.path) same,
      ) in
      rw len (above_depth leaves tree.above t.root tree.tower)

  next_level-repeat :
      (xs : List Bytes) (x : Bytes)
      → length xs % 2 ≡ 0
      → next_level (xs ++ (x ∷ x ∷ [])) ≡ next_level (xs ++ (x ∷ []))
  unfolding next_level
  next_level-repeat [] x h = refl
  next_level-repeat (y ∷ []) x h = absurd (omega arith)
  next_level-repeat (y ∷ z ∷ xs) x h =
      ap (◌∷◌ (hash_pair y z)) (next_level-repeat xs x (omega arith))

  same_next :
      (level level' : List Bytes) (above above' : List (List Bytes)) (root root' : Bytes)
      → 1 < length level
      → 1 < length level'
      → next_level level ≡ next_level level'
      → IsTower level above root
      → IsTower level' above' root'
      → root ≡ root'
  same_next level level' [] above' root root' n n' e t t' = absurd (omega (arith, ap length t))
  same_next level level' (l ∷ ls) [] root root' n n' e t t' = absurd (omega (arith, ap length t'))
  same_next level level' (l ∷ ls) (m ∷ ms) root root' n n' e t t' =
      IsTower-root_eq l ls ms root root' t.2
        (subst (λ k. IsTower k ms root') (t'.1 ∙ sym e ∙ sym t.1) t'.2)

  -- The root does not tell how many leaves there are: where the number of leaves is odd and more
  -- than one, the same leaves with the last one twice have the same root.
  pub from_leaf_hashes-repeat :
      (xs : List Bytes) (x : Bytes) (t u : MerkleTree)
      → 0 < length xs
      → length xs % 2 ≡ 0
      → from_leaf_hashes (xs ++ (x ∷ [])) ≡ ok t
      → from_leaf_hashes (xs ++ (x ∷ x ∷ [])) ≡ ok u
      → t.root ≡ u.root
  from_leaf_hashes-repeat xs x t u more even made made' =
      let a = IsTreeOf-of_ok (xs ++ (x ∷ [])) t made in
      let b = IsTreeOf-of_ok (xs ++ (x ∷ x ∷ [])) u made' in
      same_next (xs ++ (x ∷ [])) (xs ++ (x ∷ x ∷ [])) a.above b.above t.root u.root
        (omega (arith, length-append xs (x ∷ []))) (omega (arith, length-append xs (x ∷ x ∷ [])))
        (sym (next_level-repeat xs x even)) a.tower b.tower
