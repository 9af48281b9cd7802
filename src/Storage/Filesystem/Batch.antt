-- ===== src/Storage/Filesystem/Batch.antt =====
-- What a batch is to its client: files by their names, in the order of the names, where a second file
-- of one name takes the place of the first.
use verifiable_storage.Prelude.{
  ◌≡◌, refl, ap, ◌∙◌, sym, inl, inr, Bool, true, false, ◌||◌, Option, some, List, [], ◌∷◌, ◌++◌,
  map, arith, if◌then◌else◌, Bool-cases, ◌==◌, ==_iff,
}
use verifiable_storage.Prelude.Text.{Bytes, Str}
use verifiable_storage.Prelude.Sort.{str_leb, insert_sorted, sort, IsAscending}
use verifiable_storage.Prelude.Order.{has_name, str_leb_total, sort-IsAscending}
use verifiable_storage.Prelude.Dict.{str_eq, lookup, insert, lookup-insert}
use verifiable_storage.Storage.Metadata.{
  string, array, item_leb, has_item, push_name, as_str, strings_of,
}

abbrev pub Batch : Type 0
Batch = List (Str × Bytes)

abbrev pub names : Batch → List Str
names v = map (λ (p : Str × Bytes). p.0) v

abbrev pub by_name : Str × Bytes → Str × Bytes → Bool
by_name p q = str_leb p.0 q.0

unfoldable pub put : Str → Bytes → Batch → Batch
put f x v = if has_name (names v) f then insert f x v else sort by_name (v ++ ((f, x) ∷ []))

-- Files put one after another.
abbrev pub put_all : List (Str × Bytes) → Batch → Batch
put_all [] v = v
put_all ((f, x) ∷ uploads) v = put_all uploads (put f x v)

pub str_leb_refl : (s : Str) → str_leb s s ≡ true
unfolding str_leb
str_leb_refl [] = refl
str_leb_refl (c ∷ s) = ground (arith, str_leb_refl s)

lookup-insert_sorted :
    (g f : Str) (x : Bytes) (v : Batch)
    → lookup g (insert_sorted by_name (f, x) v) ≡ (if f == g then some x else lookup g v)
unfolding insert_sorted lookup
lookup-insert_sorted g f x [] = refl
lookup-insert_sorted g f x ((h, y) ∷ v) =
    ground (arith, lookup-insert_sorted g f x v, str_leb_refl f, ==_iff f g, ==_iff h g, ==_iff f h)

lookup-sort : (g : Str) (v : Batch) → lookup g (sort by_name v) ≡ lookup g v
unfolding sort lookup
lookup-sort g [] = refl
lookup-sort g ((f, x) ∷ v) =
    lookup-insert_sorted g f x (sort by_name v)
    ∙ ap (λ (o : Option Bytes). if f == g then some x else o) (lookup-sort g v)

pub lookup-append :
    (g f : Str) (x : Bytes) (v : Batch)
    → has_name (names v) f ≡ false
    → lookup g (v ++ ((f, x) ∷ [])) ≡ (if f == g then some x else lookup g v)
unfolding lookup has_name
lookup-append g f x [] new = refl
lookup-append g f x ((h, y) ∷ v) new =
    ground (arith, lookup-append g f x v, ==_iff f g, ==_iff h g, ==_iff h f)

pub lookup-put :
    (g f : Str) (x : Bytes) (v : Batch)
    → lookup g (put f x v) ≡ (if f == g then some x else lookup g v)
unfolding put
lookup-put g f x v = elim (Bool-cases (has_name (names v) f)) [
  | inl old ↦ rw old (lookup-insert f g x v)
  | inr new ↦ rw new (lookup-sort g (v ++ ((f, x) ∷ [])) ∙ lookup-append g f x v new)
]

module _ {A B : Type 0} (le : A → A → Bool) (le' : B → B → Bool) (f : A → B)
    (same : (x y : A) → le' (f x) (f y) ≡ le x y) where
  map-insert_sorted :
      (x : A) (xs : List A) → map f (insert_sorted le x xs) ≡ insert_sorted le' (f x) (map f xs)
  unfolding insert_sorted
  map-insert_sorted x [] = refl
  map-insert_sorted x (y ∷ ys) = ground (arith, same x y, map-insert_sorted x ys)

  pub map-sort : (xs : List A) → map f (sort le xs) ≡ sort le' (map f xs)
  unfolding sort
  map-sort [] = refl
  map-sort (x ∷ xs) = map-insert_sorted x (sort le xs) ∙ ap (insert_sorted le' (f x)) (map-sort xs)

map-append : {A B : Type 0} (f : A → B) (xs ys : List A) → map f (xs ++ ys) ≡ map f xs ++ map f ys
map-append f [] ys = refl
map-append f (x ∷ xs) ys = ap (◌∷◌ (f x)) (map-append f xs ys)

names-insert :
    (f : Str) (x : Bytes) (v : Batch) → has_name (names v) f ≡ true → names (insert f x v) ≡ names v
unfolding has_name insert
names-insert f x [] h = absurd (cc)
names-insert f x ((g, y) ∷ v) h = ground (arith, names-insert f x v, ==_iff g f)

-- The names after a file is put.
abbrev pub put_name : Str → List Str → List Str
put_name f ns = if has_name ns f then ns else sort str_leb (ns ++ (f ∷ []))

pub names-put : (f : Str) (x : Bytes) (v : Batch) → names (put f x v) ≡ put_name f (names v)
unfolding put
names-put f x v = elim (Bool-cases (has_name (names v) f)) [
  | inl old ↦ rw old (names-insert f x v old)
  | inr new ↦ rw new (
      map-sort by_name str_leb (λ p. p.0) (λ p q. refl) (v ++ ((f, x) ∷ []))
      ∙ ap (sort str_leb) (map-append (λ p. p.0) v ((f, x) ∷ [])))
]

-- The names of a batch are in order, whatever files are put.
pub put-IsAscending :
    (f : Str) (x : Bytes) (v : Batch)
    → IsAscending str_leb (names v)
    → IsAscending str_leb (names (put f x v))
put-IsAscending f x v h = rw (names-put f x v) (elim (Bool-cases (has_name (names v) f)) [
  | inl old ↦ rw old h
  | inr new ↦ rw new (sort-IsAscending str_leb str_leb_total (names v ++ (f ∷ [])))
])

item_leb-string : (s t : Str) → item_leb (string s) (string t) ≡ str_leb s t
unfolding item_leb
item_leb-string s t = refl

has_item-string : (ns : List Str) (f : Str) → has_item (map string ns) f ≡ has_name ns f
unfolding has_item has_name
has_item-string [] f = refl
has_item-string (n ∷ ns) f = ap (λ b. n == f || b) (has_item-string ns f)

-- The metadata of the names take up a name as the batch does.
pub push_name-string :
    (f : Str) (ns : List Str)
    → push_name f (array (map string ns)) ≡ array (map string (put_name f ns))
unfolding push_name
push_name-string f ns = rw (has_item-string ns f) (elim (Bool-cases (has_name ns f)) [
  | inl old ↦ rw old refl
  | inr new ↦ rw new (
      ap array (
        sym (
          map-sort str_leb item_leb string item_leb-string (ns ++ (f ∷ []))
          ∙ ap (sort item_leb) (map-append string ns (f ∷ [])))))
])

pub strings_of-string : (ns : List Str) → strings_of (map string ns) ≡ ns
unfolding strings_of as_str
strings_of-string [] = refl
strings_of-string (n ∷ ns) = ap (◌∷◌ n) (strings_of-string ns)
