-- ===== src/Prelude/Sort.antt =====
-- The order of Rust strings and `sort`. Strings compare by their UTF-8 bytes, which is the order of
-- their scalar values.
use mathlib.Core.Path.{◌≡◌, refl, ap, ◌∙◌}
use mathlib.Core.Bool.{Bool, true, false}
use mathlib.Core.List.{List, [], ◌∷◌}
use mathlib.Core.Logic.{inl, inr}
use Prim.Native.Nat.{suc}
use native.Mathlib.Omega.{arith}
use verifiable_storage.Prelude.Tests.{ltb, nat_beq, if◌then◌else◌, Bool-cases}
use verifiable_storage.Prelude.Lists.{length, All}
use verifiable_storage.Prelude.Text.{Str}

unfoldable pub str_leb : Str → Str → Bool
str_leb [] t = true
str_leb (a ∷ s) [] = false
str_leb (a ∷ s) (b ∷ t) = if ltb a b then true else if nat_beq a b then str_leb s t else false

module _ {ℓ} {A : Type ℓ} (le : A → A → Bool) where
  unfoldable pub insert_sorted : A → List A → List A
  insert_sorted x [] = x ∷ []
  insert_sorted x (y ∷ ys) = if le x y then x ∷ y ∷ ys else y ∷ insert_sorted x ys

  unfoldable pub sort : List A → List A
  unfolding insert_sorted
  sort [] = []
  sort (x ∷ xs) = insert_sorted x (sort xs)

  -- Each element is at most the next.
  abbrev pub IsAscending : List A → Type 0
  IsAscending [] = Unit
  IsAscending (x ∷ []) = Unit
  IsAscending (x ∷ y ∷ ys) = (le x y ≡ true) × IsAscending (y ∷ ys)

  -- Sorting what is sorted changes nothing.
  pub sort_of_IsAscending : (xs : List A) → IsAscending xs → sort xs ≡ xs
  unfolding sort
  sort_of_IsAscending [] h = refl
  sort_of_IsAscending (x ∷ []) h = refl
  sort_of_IsAscending (x ∷ y ∷ ys) h = rw (sort_of_IsAscending (y ∷ ys) h.1, h.0)

  length-insert_sorted : (x : A) (xs : List A) → length (insert_sorted x xs) ≡ suc (length xs)
  unfolding insert_sorted
  length-insert_sorted x [] = refl
  length-insert_sorted x (y ∷ ys) = ground (arith, length-insert_sorted x ys)

  pub length-sort : (xs : List A) → length (sort xs) ≡ length xs
  unfolding sort
  length-sort [] = refl
  length-sort (x ∷ xs) = length-insert_sorted x (sort xs) ∙ ap suc (length-sort xs)

module _ {ℓ κ} {A : Type ℓ} (le : A → A → Bool) (P : A → Type κ) where
  pub insert_sorted-All : (x : A) (xs : List A) → P x → All P xs → All P (insert_sorted le x xs)
  unfolding insert_sorted
  insert_sorted-All x [] p ps = (p, tt)
  insert_sorted-All x (y ∷ ys) p ps = elim (Bool-cases (le x y)) [
    | inl e ↦ rw e (p, ps)
    | inr e ↦ rw e (ps.0, insert_sorted-All x ys p ps.1)
  ]

  -- What holds of all elements holds of all elements of the sorted list.
  pub sort-All : (xs : List A) → All P xs → All P (sort le xs)
  unfolding sort
  sort-All [] ps = tt
  sort-All (x ∷ xs) ps = insert_sorted-All x (sort le xs) ps.0 (sort-All xs ps.1)
