-- ===== src/Merkle/Tower.antt =====
-- The shape of the levels that the constructors of a tree build.
use mathlib.Core.Logic.{dif_pos, dif_neg}
use mathlib.Core.WellFounded.{Acc}
use native.Mathlib.Decide.{dec_lt}
use native.Mathlib.Bridge.{le_prop}
use mathlib.Core.List.{append_assoc, append-nil}
use verifiable_storage.Prelude.{
  ◌<◌, ◌≡◌, refl, ap, ◌∙◌, sym, subst, List, [], ◌∷◌, ◌++◌, map, arith, length, Shorter, Shorter-wf,
  length-map,
}
use verifiable_storage.Prelude.Result.{ok, ok_inj}
use verifiable_storage.Prelude.Text.{Bytes}
use verifiable_storage.Crates.{Crates}
use verifiable_storage.Merkle.{
  MerkleTree, next_level, next_level-Shorter, grow, build, from_leaf_hashes, from_data, hash_data,
}

module _ ⦃K : Crates⦄ where
  -- From `level` upwards every level is made of the pairs below it, and the last is the root.
  abbrev pub IsTower : List Bytes → List (List Bytes) → Bytes → Type 0
  IsTower level [] root = level ≡ root ∷ []
  IsTower level (above ∷ levels) root =
      (1 < length level) × (above ≡ next_level level) × IsTower above levels root

  -- What the constructors give for these leaves.
  pub record IsTreeOf (leaves : List Bytes) (t : MerkleTree) : Type 0 where
    pub leaves_eq : t.leaves ≡ leaves
    pub above : List (List Bytes)
    pub levels_eq : t.levels ≡ leaves ∷ above
    pub tower : IsTower leaves above t.root

  next_level-ne-nil : (l : List Bytes) → 0 < length l → 0 < length (next_level l)
  unfolding next_level
  next_level-ne-nil [] h = h
  next_level-ne-nil (x ∷ []) h = omega arith
  next_level-ne-nil (x ∷ y ∷ rest) h = omega arith

  singleton : (l : List Bytes) → 0 < length l → ¬ (1 < length l) → (x : Bytes) × (l ≡ x ∷ [])
  singleton [] h k = absurd (omega arith)
  singleton (x ∷ []) h k = (x, refl)
  singleton (x ∷ y ∷ l) h k = absurd (k (omega arith))

  record Grown (current : List Bytes) (levels : List (List Bytes)) (w : Acc Shorter current)
      : Type 0 where
    above : List (List Bytes)
    root : Bytes
    result : grow current levels w ≡ (levels ++ above, root ∷ [])
    tower : IsTower current above root

  grow_Grown :
      (current : List Bytes) (levels : List (List Bytes)) (w : Acc Shorter current)
      → 0 < length current
      → Grown current levels w
  unfolding grow
  grow_Grown current levels (Acc.intro _ smaller) nonempty = elim (dec_lt 1 (length current)) [
    | yes h ↦
        let next = next_level current in
        let ih =
          grow_Grown next (levels ++ (next ∷ [])) (smaller next (next_level-Shorter current h))
            (next_level-ne-nil current nonempty) in
        record {
          above = next ∷ ih.above;
          root = ih.root;
          result = rw (dif_pos _ le_prop h) (
              ih.result
              ∙ ap (λ (ls : List (List Bytes)). (ls, ih.root ∷ []))
                  (append_assoc levels (next ∷ []) ih.above));
          tower = (h, refl, ih.tower);
        }
    | no h ↦
        let (root, e) = singleton current nonempty h in
        record {
          above = [];
          root = root;
          result =
              rw (dif_neg _ h) (rw (append-nil levels) (ap (λ (c : List Bytes). (levels, c)) e));
          tower = e;
        }
  ]

  -- The last level has one node, so `current_level[0]` does not panic.
  build-IsTreeOf :
      (leaves : List Bytes)
      → 0 < length leaves
      → (t : MerkleTree) × (build leaves ≡ ok t) × IsTreeOf leaves t
  unfolding build
  build-IsTreeOf leaves nonempty =
      let g = grow_Grown leaves (leaves ∷ []) (Shorter-wf.apply leaves) nonempty in
      (
        record { root = g.root; leaves = leaves; levels = leaves ∷ g.above },
        rw g.result,
        record { leaves_eq = refl; above = g.above; levels_eq = refl; tower = g.tower },
      )

  -- On any leaf hashes but none, `from_leaf_hashes` returns, without a panic, a tree of them.
  pub from_leaf_hashes-IsTreeOf :
      (hashes : List Bytes)
      → 0 < length hashes
      → (t : MerkleTree) × (from_leaf_hashes hashes ≡ ok t) × IsTreeOf hashes t
  unfolding from_leaf_hashes
  from_leaf_hashes-IsTreeOf [] h = elim h [ ]
  from_leaf_hashes-IsTreeOf (x ∷ xs) h = build-IsTreeOf (x ∷ xs) h

  pub from_data-eq : (items : List Bytes) → from_data items ≡ from_leaf_hashes (map hash_data items)
  unfolding from_data from_leaf_hashes
  from_data-eq [] = refl
  from_data-eq (d ∷ ds) = refl

  pub from_data-IsTreeOf :
      (items : List Bytes)
      → 0 < length items
      → (t : MerkleTree) × (from_data items ≡ ok t) × IsTreeOf (map hash_data items) t
  from_data-IsTreeOf items h =
      rw from_data-eq (
        from_leaf_hashes-IsTreeOf (map hash_data items) (omega (arith, length-map hash_data items)))

  -- Every tree that `from_leaf_hashes` returns is a tree of its leaves.
  pub IsTreeOf-of_ok :
      (hashes : List Bytes) (t : MerkleTree) → from_leaf_hashes hashes ≡ ok t → IsTreeOf hashes t
  IsTreeOf-of_ok [] t h = absurd (unfold from_leaf_hashes in cc h)
  IsTreeOf-of_ok (x ∷ xs) t h =
      let (t', e, tree) = from_leaf_hashes-IsTreeOf (x ∷ xs) (omega arith) in
      subst (IsTreeOf (x ∷ xs)) (ok_inj (sym e ∙ h)) tree

  -- Two towers over one level have one root.
  pub IsTower-root_eq :
      (level : List Bytes) (ls ms : List (List Bytes)) (r s : Bytes)
      → IsTower level ls r
      → IsTower level ms s
      → r ≡ s
  IsTower-root_eq level [] [] r s h k = cc
  IsTower-root_eq level [] (m ∷ ms) r s h k = absurd (omega (arith, ap length h))
  IsTower-root_eq level (l ∷ ls) [] r s h k = absurd (omega (arith, ap length k))
  IsTower-root_eq level (l ∷ ls) (m ∷ ms) r s h k =
      IsTower-root_eq l ls ms r s h.2 (subst (λ l. IsTower l ms s) (k.1 ∙ sym h.1) k.2)
