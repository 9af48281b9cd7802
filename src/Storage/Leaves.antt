-- ===== src/Storage/Leaves.antt =====
-- The leaf hashes of crates/storage: the hashes of the contents under a list of names.
use verifiable_storage.Prelude.{
  ℕ, zero, suc, ◌≡◌, refl, ap, ◌∙◌, Option, some, List, [], ◌∷◌, length, All, get_elem?,
}
use verifiable_storage.Prelude.Text.{Bytes, Str}
use verifiable_storage.Crates.{Crates, IsLawful}
use verifiable_storage.Crypto.{hash_leaf}
use verifiable_storage.Merkle.Widths.{Is32}

module _ ⦃K : Crates⦄ (content_of : Str → Option Bytes) where
  abbrev pub LeavesOf : List Str → List Bytes → Type 0
  LeavesOf [] [] = Unit
  LeavesOf [] (h ∷ hashes) = ⊥
  LeavesOf (n ∷ names) [] = ⊥
  LeavesOf (n ∷ names) (h ∷ hashes) =
      ((x : Bytes) × (content_of n ≡ some x) × (h ≡ hash_leaf x)) × LeavesOf names hashes

  pub length-LeavesOf :
      (names : List Str) (hashes : List Bytes)
      → LeavesOf names hashes
      → length hashes ≡ length names
  length-LeavesOf [] [] l = refl
  length-LeavesOf [] (h ∷ hashes) l = absurd l
  length-LeavesOf (n ∷ names) [] l = absurd l
  length-LeavesOf (n ∷ names) (h ∷ hashes) l = ap suc (length-LeavesOf names hashes l.1)

  pub leaf_at :
      (names : List Str) (hashes : List Bytes) (i : ℕ) (f : Str)
      → LeavesOf names hashes
      → get_elem? names i ≡ some f
      → (x : Bytes) × (content_of f ≡ some x) × (get_elem? hashes i ≡ some (hash_leaf x))
  leaf_at [] [] i f l e = absurd (cc)
  leaf_at [] (h ∷ hashes) i f l e = absurd l
  leaf_at (n ∷ names) [] i f l e = absurd l
  leaf_at (n ∷ names) (h ∷ hashes) zero f ((x, stored, made), rest) e = (x, (cc), (cc))
  leaf_at (n ∷ names) (h ∷ hashes) (suc i) f l e = leaf_at names hashes i f l.1 e

  pub leaves-Is32 :
      IsLawful K
      → (names : List Str) (hashes : List Bytes) → LeavesOf names hashes
      → All Is32 hashes
  unfolding hash_leaf
  leaves-Is32 L [] [] l = tt
  leaves-Is32 L [] (h ∷ hashes) l = absurd l
  leaves-Is32 L (n ∷ names) [] l = absurd l
  leaves-Is32 L (n ∷ names) (h ∷ hashes) l =
      (ap length l.0.2 ∙ L.sha256_len _, leaves-Is32 L names hashes l.1)
