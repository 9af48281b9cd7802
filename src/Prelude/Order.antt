-- ===== src/Prelude/Order.antt =====
-- Sorted lists: what `sort` gives is ascending, and `contains` does not see the order.
use mathlib.Core.Path.{◌≡◌, refl, ap, ◌∙◌}
use mathlib.Core.Logic.{inl, inr}
use mathlib.Core.Bool.{Bool, true, false, ◌||◌}
use mathlib.Core.List.{List, [], ◌∷◌}
use native.Mathlib.Omega.{arith}
use verifiable_storage.Prelude.Tests.{◌==◌, Bool-cases}
use verifiable_storage.Prelude.Text.{Str}
use verifiable_storage.Prelude.Sort.{str_leb, insert_sorted, sort, IsAscending}

-- Of two strings one is at most the other.
pub str_leb_total : (s t : Str) → str_leb s t ≡ false → str_leb t s ≡ true
unfolding str_leb
str_leb_total [] t h = absurd (cc)
str_leb_total (a ∷ s) [] h = refl
str_leb_total (a ∷ s) (b ∷ t) h = ground (arith, str_leb_total s t)

module _ {ℓ} {A : Type ℓ} (le : A → A → Bool)
    (total : (x y : A) → le x y ≡ false → le y x ≡ true) where
  insert_sorted-IsAscending :
      (x : A) (xs : List A) → IsAscending le xs → IsAscending le (insert_sorted le x xs)
  unfolding insert_sorted
  insert_sorted-IsAscending x [] h = tt
  insert_sorted-IsAscending x (y ∷ []) h = elim (Bool-cases (le x y)) [
    | inl e ↦ rw e (e, tt)
    | inr e ↦ rw e (total x y e, tt)
  ]
  insert_sorted-IsAscending x (y ∷ z ∷ ys) h =
      let rest = insert_sorted-IsAscending x (z ∷ ys) h.1 in
      elim (Bool-cases (le x y)) [
        | inl e ↦ rw e (e, h)
        | inr e ↦ elim (Bool-cases (le x z)) [
          | inl e' ↦ rw (e, e') (total x y e, (e', h.1))
          | inr e' ↦ rw (e, e') (h.0, rw e' at rest)
        ]
      ]

  pub sort-IsAscending : (xs : List A) → IsAscending le (sort le xs)
  unfolding sort
  sort-IsAscending [] = tt
  sort-IsAscending (x ∷ xs) = insert_sorted-IsAscending x (sort le xs) (sort-IsAscending xs)

-- `names.contains(&name)`
unfoldable pub has_name : List Str → Str → Bool
has_name [] name = false
has_name (n ∷ names) name = n == name || has_name names name

module _ (le : Str → Str → Bool) where
  has_name-insert_sorted :
      (x : Str) (xs : List Str) (name : Str)
      → has_name (insert_sorted le x xs) name ≡ (x == name || has_name xs name)
  unfolding has_name insert_sorted
  has_name-insert_sorted x [] name = refl
  has_name-insert_sorted x (y ∷ ys) name = ground (arith, has_name-insert_sorted x ys name)

  pub has_name-sort : (xs : List Str) (name : Str) → has_name (sort le xs) name ≡ has_name xs name
  unfolding has_name sort
  has_name-sort [] name = refl
  has_name-sort (x ∷ xs) name =
      has_name-insert_sorted x (sort le xs) name ∙ ap (λ b. x == name || b) (has_name-sort xs name)
