-- ===== src/Server/Serve.antt =====
-- bin/server/src/proof.rs: the proof that the server gives for a file, over any storage.
use verifiable_storage.Prelude.{
  ℕ, suc, ◌<◌, ◌≡◌, refl, ap, ◌∙◌, sym, true, Option, some, List, [], ◌∷◌, arith, length, get_elem?,
  nat_beq, ◌==◌, ==_iff, Bool-cases, inl, inr,
}
use verifiable_storage.Prelude.Result.{ok}
use verifiable_storage.Prelude.Text.{Bytes, Str}
use verifiable_storage.Prelude.Sort.{str_leb, sort, sort_of_IsAscending, IsAscending}
use verifiable_storage.Prelude.Order.{has_name}
use verifiable_storage.Prelude.Dict.{str_eq, pair_eq, pair_beq, lookup}
use verifiable_storage.Crates.{Crates, IsLawful}
use verifiable_storage.Crypto.{hash_leaf}
use verifiable_storage.Merkle.{MerkleTree, MerkleProof, compute_root, num_leaves, from_leaf_hashes}
use verifiable_storage.Merkle.Tower.{IsTreeOf-of_ok}
use verifiable_storage.Merkle.Proofs.{generate_proof-Proves}
use verifiable_storage.Merkle.Widths.{Is32, Nodes32, generate_proof-Nodes32}
use verifiable_storage.Storage.Tables.{FileKey, BatchKey, names_of}
use verifiable_storage.Storage.{Storage}
use verifiable_storage.Storage.Leaves.{LeavesOf, length-LeavesOf, leaf_at, leaves-Is32}
use verifiable_storage.Server.Proof.{position, generate_proof}

record Placed (f : Str) (names : List Str) : Type 0 where
  place : ℕ
  found : position f names ≡ some place
  there : get_elem? names place ≡ some f
  below : place < length names

position-has_name : (f : Str) (names : List Str) → has_name names f ≡ true → Placed f names
unfolding position has_name
position-has_name f [] h = absurd (cc)
position-has_name f (n ∷ names) h = elim (Bool-cases (n == f)) [
  | inl e ↦ record {
    place = 0;
    found = rw e;
    there = ap some ((==_iff n f).0 e);
    below = omega arith;
  }
  | inr e ↦
      let rest = position-has_name f names (rw e at h) in
      record {
        place = suc rest.place;
        found = rw (e, rest.found);
        there = rest.there;
        below = omega (arith, rest.below);
      }
]

pub has_name-names_of :
    (b : BatchKey) (f : Str) (x : Bytes) (files : List (FileKey × Bytes))
    → lookup (b, f) files ≡ some x
    → has_name (names_of b files) f ≡ true
unfolding has_name names_of lookup
has_name-names_of b f x [] h = absurd (cc)
has_name-names_of b f x (((c, n), y) ∷ files) h =
    let rest = has_name-names_of b f x files in
    elim (Bool-cases (pair_beq c b)) [
      | inl same ↦ elim (Bool-cases (n == f)) [
        | inl e ↦ rw (same, e) refl
        | inr e ↦ rw (same, e) (rest (rw (same, e) at h))
      ]
      | inr other ↦ rw other (rest (rw other at h))
    ]

module _ ⦃K : Crates⦄ where
  -- A proof of content `x` against the root of `tree`, with hashes of 32 bytes.
  pub record IsProofOf (tree : MerkleTree) (x : Bytes) (p : MerkleProof) : Type 0 where
    pub leaf_eq : p.leaf_hash ≡ hash_leaf x
    pub root_eq : compute_root p ≡ ok tree.root
    pub widths : Nodes32 p.path
    pub root_width : Is32 tree.root

  -- In any state of any storage: where the tree that it loads is the one of the contents under some names
  -- in order, the server's proof for one of the names is for the content under it and leads to the root
  -- of the tree.
  pub generate_proof-of_LeavesOf :
      IsLawful K
      → (S : Storage) (s : S.State) (c b : Str) (content_of : Str → Option Bytes) (names : List Str)
        (hashes : List Bytes) (tree : MerkleTree) (f : Str) (x : Bytes)
      → S.load_merkle_tree c b s ≡ (ok (some tree), s)
      → LeavesOf content_of names hashes
      → from_leaf_hashes hashes ≡ ok tree
      → IsAscending str_leb names
      → has_name names f ≡ true
      → content_of f ≡ some x
      → (p : MerkleProof) × (generate_proof S c b names f s ≡ (ok p, s)) × IsProofOf tree x p
  unfolding generate_proof num_leaves
  generate_proof-of_LeavesOf L S s c b content_of names hashes tree f x loaded leaves built
        ascending named stored =
      let at_place = position-has_name f names named in
      let i = at_place.place in
      let sorted : sort str_leb names ≡ names = sort_of_IsAscending str_leb names ascending in
      let is_tree = IsTreeOf-of_ok hashes tree built in
      let same_length = length-LeavesOf content_of names hashes leaves in
      let in_tree : i < length hashes = omega (arith, at_place.below, same_length) in
      let count : nat_beq (num_leaves tree) (length names) ≡ true =
        rw (is_tree.leaves_eq, same_length) (ground arith) in
      let (p, made, proves) = generate_proof-Proves hashes tree i is_tree in_tree in
      let (y, stored', hashed) = leaf_at content_of names hashes i f leaves at_place.there in
      let same : y ≡ x = cc in
      let leaf : get_elem? hashes i ≡ some p.leaf_hash =
        ap (λ (l : List Bytes). get_elem? l i) (sym is_tree.leaves_eq) ∙ proves.leaf_eq in
      let widths =
        generate_proof-Nodes32 L hashes tree i p is_tree
          (leaves-Is32 content_of L names hashes leaves) made in
      (
        p,
        rw (loaded, sorted, count, at_place.found, made) refl,
        record {
          leaf_eq = (cc);
          root_eq = proves.root_eq;
          widths = widths.0;
          root_width = widths.1;
        },
      )
