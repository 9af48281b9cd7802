-- ===== src/Merkle/Soundness.antt =====
-- What a root commits to: a proof that computes to the root of a tree is for one of the tree's
-- items, or two different byte strings, one hashed for the tree and one for the proof, have one
-- SHA-256 digest.
use mathlib.Core.List.{Memᴰ}
use mathlib.Core.List.Memᴰ
use verifiable_storage.Prelude.{
  ◌≡◌, refl, ap, ◌∙◌, sym, subst, ◌⊎◌, inl, inr, List, [], ◌∷◌, ◌++◌, map, arith, length, All,
  Bool-cases,
}
use verifiable_storage.Prelude.Result.{ok, ok_inj}
use verifiable_storage.Prelude.Text.{Bytes}
use verifiable_storage.Crates.{Crates, IsLawful, IsByte}
use verifiable_storage.Merkle.{
  MerkleTree, ProofNode, MerkleProof, hash_data, hash_pair, next_level, climb, climb_path,
  compute_root, from_data,
}
use verifiable_storage.Merkle.Inputs.{
  pair_inputs, level_inputs, tree_inputs, climb_input, climb_inputs, proof_inputs, Collision,
  sha256_cases,
}
use verifiable_storage.Merkle.Tower.{IsTower, IsTreeOf-of_ok, from_data-eq}

-- All of the one list is in the other.
abbrev IsWithin : List Bytes → List Bytes → Type 0
IsWithin xs ys = (i : Bytes) → Memᴰ i xs → Memᴰ i ys

append_inj :
    (as' bs cs ds : Bytes) → length as' ≡ length cs → as' ++ bs ≡ cs ++ ds → (as' ≡ cs) × (bs ≡ ds)
append_inj [] bs [] ds n e = (refl, e)
append_inj [] bs (c ∷ cs) ds n e = absurd (omega arith)
append_inj (a ∷ as') bs [] ds n e = absurd (omega arith)
append_inj (a ∷ as') bs (c ∷ cs) ds n e =
    let (p, q) = append_inj as' bs cs ds (omega arith) (cc) in let head_eq : a ≡ c = cc in (cc, q)

module _ ⦃K : Crates⦄ where
  -- The values that a tree of these items has at its nodes, where `ours` is all that is hashed.
  data Node (items ours : List Bytes) : Bytes → Type 0 where
    leaf : (v d : Bytes) → Memᴰ d items → Memᴰ (0x00 ∷ d) ours → v ≡ hash_data d → Node items ours v
    inner :
        (v x y : Bytes)
        → Node items ours x
        → Node items ours y
        → Memᴰ (0x01 ∷ (x ++ y)) ours
        → v ≡ hash_pair x y
        → Node items ours v

  leaves_Node :
      (items ours ds : List Bytes)
      → IsWithin ds items
      → IsWithin (map (λ (d : Bytes). 0x00 ∷ d) ds) ours
      → All (Node items ours) (map hash_data ds)
  leaves_Node items ours [] h k = tt
  leaves_Node items ours (d ∷ ds) h k = (
    leaf (hash_data d) d (h d (Memᴰ.head refl)) (k (0x00 ∷ d) (Memᴰ.head refl)) refl,
    leaves_Node items ours ds (λ e m. h e (Memᴰ.tail m)) (λ e m. k e (Memᴰ.tail m)),
  )

  next_level_Node :
      (items ours level : List Bytes)
      → IsWithin (pair_inputs level) ours
      → All (Node items ours) level
      → All (Node items ours) (next_level level)
  unfolding next_level pair_inputs
  next_level_Node items ours [] k h = tt
  next_level_Node items ours (x ∷ []) k h =
      (inner (hash_pair x x) x x h.0 h.0 (k (0x01 ∷ (x ++ x)) (Memᴰ.head refl)) refl, tt)
  next_level_Node items ours (x ∷ y ∷ rest) k h = (
    inner (hash_pair x y) x y h.0 h.1.0 (k (0x01 ∷ (x ++ y)) (Memᴰ.head refl)) refl,
    next_level_Node items ours rest (λ i m. k i (Memᴰ.tail m)) h.1.1,
  )

  root_Node :
      (items ours level : List Bytes) (above : List (List Bytes)) (root : Bytes)
      → IsTower level above root
      → IsWithin (level_inputs (level ∷ above)) ours
      → All (Node items ours) level
      → Node items ours root
  unfolding level_inputs
  root_Node items ours level [] root t k h = (subst (All (Node items ours)) t h).0
  root_Node items ours level (l ∷ ls) root t k h =
      root_Node items ours l ls root t.2 (λ i m. k i (Memᴰ.append_right (pair_inputs level) m))
        (subst (All (Node items ours)) (sym t.1) (
          next_level_Node items ours level (λ i m. k i (Memᴰ.append_left (level_inputs (l ∷ ls)) m))
            h))

  -- The root of a tree is such a value.
  from_data_Node :
      (items : List Bytes) (t : MerkleTree)
      → from_data items ≡ ok t
      → Node items (tree_inputs items t) t.root
  unfolding tree_inputs
  from_data_Node items t made =
      let tree = IsTreeOf-of_ok (map hash_data items) t (sym (from_data-eq items) ∙ made) in
      let leaf_inputs = map (λ (d : Bytes). 0x00 ∷ d) items in
      root_Node items (tree_inputs items t) (map hash_data items) tree.above t.root tree.tower
        (λ i m.
          Memᴰ.append_right leaf_inputs
            (subst (λ ls. Memᴰ i (level_inputs ls)) (sym tree.levels_eq) m))
        (leaves_Node items (tree_inputs items t) items (λ e m. m)
          (λ i m. Memᴰ.append_left (level_inputs t.levels) m))

  module _ (L : IsLawful K) where
    Node-len : {items ours : List Bytes} {v : Bytes} → Node items ours v → length v ≡ 32
    unfolding hash_data hash_pair
    Node-len (leaf v d m k e) = ap length e ∙ L.sha256_len _
    Node-len (inner v x y nx ny k e) = ap length e ∙ L.sha256_len _

    climb-len : (h : Bytes) (n : ProofNode) → length (climb h n) ≡ 32
    unfolding climb hash_pair
    climb-len h n =
        ground (arith, L.sha256_len (0x01 ∷ (n.hash ++ h)), L.sha256_len (0x01 ∷ (h ++ n.hash)))

    module _ (items ours theirs : List Bytes) where
      -- The item of a leaf that is the digest of `d` is `d`.
      at_leaf :
          (d v : Bytes)
          → Memᴰ (0x00 ∷ d) theirs
          → Node items ours v
          → v ≡ hash_data d
          → Memᴰ d items ⊎ Collision ours theirs
      unfolding hash_data hash_pair
      at_leaf d v k (leaf _ e m i p) q = elim (sha256_cases (0x00 ∷ e) (0x00 ∷ d) i k (sym p ∙ q)) [
        | inl same ↦ inl (Memᴰ.cast (cc) m)
        | inr c ↦ inr c
      ]
      at_leaf d v k (inner _ x y nx ny i p) q =
          elim (sha256_cases (0x01 ∷ (x ++ y)) (0x00 ∷ d) i k (sym p ∙ q)) [
            | inl same ↦ absurd (cc)
            | inr c ↦ inr c
          ]

      -- Both hashes under a node of the tree are nodes of the tree.
      pair_Node :
          (a b v : Bytes)
          → length a ≡ 32
          → Memᴰ (0x01 ∷ (a ++ b)) theirs
          → Node items ours v
          → v ≡ hash_pair a b
          → (Node items ours a × Node items ours b) ⊎ Collision ours theirs
      unfolding hash_data hash_pair
      pair_Node a b v n k (leaf _ d m i p) q =
          elim (sha256_cases (0x00 ∷ d) (0x01 ∷ (a ++ b)) i k (sym p ∙ q)) [
            | inl same ↦ absurd (cc)
            | inr c ↦ inr c
          ]
      pair_Node a b v n k (inner _ x y nx ny i p) q =
          elim (sha256_cases (0x01 ∷ (x ++ y)) (0x01 ∷ (a ++ b)) i k (sym p ∙ q)) [
            | inl same ↦
                let (e, f) = append_inj x y a b (Node-len nx ∙ sym n) (cc) in
                inl (subst (Node items ours) e nx, subst (Node items ours) f ny)
            | inr c ↦ inr c
          ]

      climb_Node :
          (h : Bytes) (n : ProofNode)
          → length h ≡ 32
          → length n.hash ≡ 32
          → Memᴰ (climb_input h n) theirs
          → Node items ours (climb h n)
          → Node items ours h ⊎ Collision ours theirs
      unfolding climb climb_input
      climb_Node h n lh ln k node = elim (Bool-cases n.is_left) [
        | inl e ↦ elim (pair_Node n.hash h (climb h n) ln (rw e at k) node (rw e)) [
          | inl (_, below) ↦ inl below
          | inr c ↦ inr c
        ]
        | inr e ↦ elim (pair_Node h n.hash (climb h n) lh (rw e at k) node (rw e)) [
          | inl (below, _) ↦ inl below
          | inr c ↦ inr c
        ]
      ]

      climb_path_Node :
          (h root : Bytes) (path : List ProofNode)
          → length h ≡ 32
          → All (λ (n : ProofNode). length n.hash ≡ 32) path
          → IsWithin (climb_inputs h path) theirs
          → climb_path h path ≡ root
          → Node items ours root
          → Node items ours h ⊎ Collision ours theirs
      unfolding climb_path climb_inputs
      climb_path_Node h root [] lh lp k e node = inl (subst (Node items ours) (sym e) node)
      climb_path_Node h root (n ∷ path) lh lp k e node =
          elim (climb_path_Node (climb h n) root path (climb-len h n) lp.1
            (λ i m. k i (Memᴰ.tail m)) e node) [
              | inl above ↦ climb_Node h n lh lp.0 (k (climb_input h n) (Memᴰ.head refl)) above
              | inr c ↦ inr c
            ]

    -- Whatever the path, if a proof with the leaf hash of `d` computes to the root of the tree of
    -- `items`, and each hash of its path has 32 bytes, then `d` is one of the items, or there is a
    -- collision: two different byte strings with one digest, one of them hashed for the tree and one
    -- for this leaf and path.
    pub compute_root_sound :
        (items : List Bytes) (t : MerkleTree) (d : Bytes) (p : MerkleProof)
        → from_data items ≡ ok t
        → p.leaf_hash ≡ hash_data d
        → All (λ (n : ProofNode). length n.hash ≡ 32) p.path
        → compute_root p ≡ ok t.root
        → Memᴰ d items ⊎ Collision (tree_inputs items t) (proof_inputs d p)
    unfolding compute_root hash_data proof_inputs
    compute_root_sound items t d p made leaf_eq lens root_eq =
        let ours = tree_inputs items t in
        let theirs = proof_inputs d p in
        let len : length p.leaf_hash ≡ 32 = ap length leaf_eq ∙ L.sha256_len (0x00 ∷ d) in
        elim (climb_path_Node items ours theirs p.leaf_hash t.root p.path len lens
          (λ i m. Memᴰ.tail m) (ok_inj root_eq) (from_data_Node items t made)) [
            | inl node ↦ at_leaf items ours theirs d p.leaf_hash (Memᴰ.head refl) node leaf_eq
            | inr c ↦ inr c
          ]

    Node-IsByte : (items ours : List Bytes) (h : Bytes) → Node items ours h → All IsByte h
    unfolding hash_data hash_pair
    Node-IsByte items ours h (leaf v d m k e) = rw e (L.sha256_bytes _)
    Node-IsByte items ours h (inner v x y nx ny k e) = rw e (L.sha256_bytes _)

    pub root-IsByte :
        (items : List Bytes) (t : MerkleTree) → from_data items ≡ ok t → All IsByte t.root
    root-IsByte items t made =
        Node-IsByte items (tree_inputs items t) t.root (from_data_Node items t made)
