-- ===== src/Storage/Strict.antt =====
-- Batches of crates/storage in the order of their names, no name twice.
use verifiable_storage.Prelude.{
  ◌≡◌, ◌≢◌, refl, sym, ◌∙◌, inl, inr, true, false, none, some, [], ◌∷◌, ◌++◌, arith, All,
  Bool-cases, ==_iff, ◌==◌, subst,
}
use verifiable_storage.Prelude.Text.{Bytes, Str}
use verifiable_storage.Prelude.Sort.{str_leb, insert_sorted, sort, insert_sorted-All, sort-All}
use verifiable_storage.Prelude.Order.{has_name, str_leb_total}
use verifiable_storage.Prelude.Dict.{str_eq, lookup, insert}
use verifiable_storage.Storage.Batches.{str_leb_trans, str_leb_antisym}
use verifiable_storage.Storage.Filesystem.Batch.{Batch, names, put, by_name, str_leb_refl}
use verifiable_storage.Storage.Directory.{IsStrict}

-- The file has another name.
abbrev pub Other : Str → Str × Bytes → Type 0
Other name p = name ≢ p.0

-- No two files have one name.
abbrev pub Differ : Batch → Type 0
Differ [] = Unit
Differ (p ∷ v) = All (Other p.0) v × Differ v

-- What is above the first of some files in order is above all of them.
above-All :
    (p q : Str × Bytes) (v : Batch)
    → str_leb p.0 q.0 ≡ true
    → All (λ (r : Str × Bytes). str_leb r.0 q.0 ≡ false) v
    → All (λ (r : Str × Bytes). str_leb r.0 p.0 ≡ false) v
above-All p q [] h all = tt
above-All p q (r ∷ v) h all =
    (ground (arith, str_leb_trans r.0 p.0 q.0, all.0), above-All p q v h all.1)

insert_sorted-IsStrict :
    (p : Str × Bytes) (v : Batch)
    → All (Other p.0) v
    → IsStrict v
    → IsStrict (insert_sorted by_name p v)
unfolding insert_sorted
insert_sorted-IsStrict p [] other strict = (tt, tt)
insert_sorted-IsStrict p (q ∷ v) other strict = elim (Bool-cases (str_leb p.0 q.0)) [
  | inl below ↦ rw below (
    (
      elim (Bool-cases (str_leb q.0 p.0)) [
        | inl e ↦ absurd (other.0 (str_leb_antisym p.0 q.0 below e))
        | inr e ↦ e
      ],
      above-All p q v below strict.0,
    ),
    strict,
  )
  | inr above ↦ rw above (
    insert_sorted-All by_name (λ r. str_leb r.0 q.0 ≡ false) p v above strict.0,
    insert_sorted-IsStrict p v other.1 strict.1,
  )
]

pub sort-IsStrict : (v : Batch) → Differ v → IsStrict (sort by_name v)
unfolding sort
sort-IsStrict [] d = tt
sort-IsStrict (p ∷ v) d =
    insert_sorted-IsStrict p (sort by_name v) (sort-All by_name (Other p.0) v d.0)
      (sort-IsStrict v d.1)

above-Other :
    (p : Str × Bytes) (f : Str) (x : Bytes) (v : Batch)
    → All (λ (q : Str × Bytes). str_leb q.0 p.0 ≡ false) v
    → p.0 ≢ f
    → All (Other p.0) (v ++ ((f, x) ∷ []))
above-Other p f x [] all other = (other, tt)
above-Other p f x (q ∷ v) all other =
    (λ same. let leb = str_leb_refl p.0 in cc, above-Other p f x v all.1 other)

-- A name that is not there differs from all.
new-Differ :
    (f : Str) (x : Bytes) (v : Batch)
    → has_name (names v) f ≡ false
    → IsStrict v
    → Differ (v ++ ((f, x) ∷ []))
unfolding has_name
new-Differ f x [] new strict = (tt, tt)
new-Differ f x (p ∷ v) new strict = (
  above-Other p f x v strict.0 λ same. ground (arith, ==_iff p.0 f),
  new-Differ f x v (ground arith) strict.1,
)

insert-All :
    (P : Str → Type 0) (f : Str) (x : Bytes) (v : Batch)
    → P f
    → All (λ (p : Str × Bytes). P p.0) v
    → All (λ (p : Str × Bytes). P p.0) (insert f x v)
unfolding insert
insert-All P f x [] h all = (h, tt)
insert-All P f x (p ∷ v) h all = elim (Bool-cases (p.0 == f)) [
  | inl here ↦ rw here (h, all.1)
  | inr other ↦ rw other (all.0, insert-All P f x v h all.1)
]

has_name-All :
    (P : Str → Type 0) (f : Str) (v : Batch)
    → has_name (names v) f ≡ true
    → All (λ (p : Str × Bytes). P p.0) v
    → P f
unfolding has_name
has_name-All P f [] h all = absurd (cc)
has_name-All P f (p ∷ v) h all = elim (Bool-cases (p.0 == f)) [
  | inl here ↦ subst P ((==_iff p.0 f).0 here) all.0
  | inr other ↦ has_name-All P f v (ground arith) all.1
]

insert-IsStrict :
    (f : Str) (x : Bytes) (v : Batch)
    → has_name (names v) f ≡ true
    → IsStrict v
    → IsStrict (insert f x v)
unfolding insert has_name
insert-IsStrict f x [] old strict = (tt, tt)
insert-IsStrict f x (p ∷ v) old strict = elim (Bool-cases (p.0 == f)) [
  | inl here ↦ rw here (
    subst (λ name. All (λ (q : Str × Bytes). str_leb q.0 name ≡ false) v) ((==_iff p.0 f).0 here)
        strict.0,
    strict.1,
  )
  | inr other ↦ rw other (
    insert-All (λ name. str_leb name p.0 ≡ false) f x v
        (has_name-All (λ name. str_leb name p.0 ≡ false) f v (ground arith) strict.0) strict.0,
    insert-IsStrict f x v (ground arith) strict.1,
  )
]

pub put-IsStrict : (f : Str) (x : Bytes) (v : Batch) → IsStrict v → IsStrict (put f x v)
unfolding put
put-IsStrict f x v strict = elim (Bool-cases (has_name (names v) f)) [
  | inl old ↦ rw old (insert-IsStrict f x v old strict)
  | inr new ↦ rw new (sort-IsStrict (v ++ ((f, x) ∷ [])) (new-Differ f x v new strict))
]

-- What is found has a name of the batch.
lookup-All :
    (P : Str → Type 0) (name : Str) (x : Bytes) (v : Batch)
    → lookup name v ≡ some x
    → All (λ (p : Str × Bytes). P p.0) v
    → P name
unfolding lookup
lookup-All P name x [] h all = absurd (cc)
lookup-All P name x (p ∷ v) h all = elim (Bool-cases (p.0 == name)) [
  | inl here ↦ subst P ((==_iff p.0 name).0 here) all.0
  | inr other ↦ lookup-All P name x v (ground arith) all.1
]

-- The first names of two batches in which the same is found.
first_eq :
    (p q : Str × Bytes) (v w : Batch)
    → IsStrict (p ∷ v)
    → IsStrict (q ∷ w)
    → ((name : Str) → lookup name (p ∷ v) ≡ lookup name (q ∷ w))
    → p ≡ q
unfolding lookup
first_eq (f, x) (g, y) v w strict strict' same =
    let at_f = same f in
    let at_g = same g in
    elim (Bool-cases (f == g)) [
      | inl here ↦ ground (arith, ==_iff f g, ==_iff f f, ==_iff g g)
      | inr other ↦
          let above : str_leb f g ≡ false =
            lookup-All (λ name. str_leb name g ≡ false) f x w
              (ground (arith, ==_iff f g, ==_iff g f, ==_iff f f)) strict'.0 in
          let below : str_leb g f ≡ false =
            lookup-All (λ name. str_leb name f ≡ false) g y v
              (ground (arith, ==_iff f g, ==_iff g f, ==_iff g g)) strict.0 in
          absurd (ground (arith, str_leb_total f g))
    ]

above-lookup :
    (name : Str) (v : Batch)
    → All (λ (q : Str × Bytes). str_leb q.0 name ≡ false) v
    → lookup name v ≡ none
unfolding lookup
above-lookup name [] above = refl
above-lookup name ((g, y) ∷ v) above =
    ground (arith, above-lookup name v above.1, above.0, ==_iff g name, str_leb_refl name)

rest_eq :
    (p : Str × Bytes) (v w : Batch)
    → IsStrict (p ∷ v)
    → IsStrict (p ∷ w)
    → ((name : Str) → lookup name (p ∷ v) ≡ lookup name (p ∷ w))
    → (name : Str) → lookup name v ≡ lookup name w
unfolding lookup
rest_eq p v w strict strict' same name = elim (Bool-cases (p.0 == name)) [
  | inl here ↦
      let e = (==_iff p.0 name).0 here in
      subst (λ n. lookup n v ≡ lookup n w) e
        (above-lookup p.0 v strict.0 ∙ sym (above-lookup p.0 w strict'.0))
  | inr other ↦ let both = same name in ground arith
]

-- Batches in order in which the same is found under each name are one.
pub IsStrict-eq :
    (v w : Batch) → IsStrict v → IsStrict w → ((name : Str) → lookup name v ≡ lookup name w) → v ≡ w
unfolding lookup
IsStrict-eq [] [] strict strict' same = refl
IsStrict-eq [] (q ∷ w) strict strict' same =
    absurd (let e = same q.0 in ground (arith, ==_iff q.0 q.0))
IsStrict-eq (p ∷ v) [] strict strict' same =
    absurd (let e = same p.0 in ground (arith, ==_iff p.0 p.0))
IsStrict-eq (p ∷ v) (q ∷ w) strict strict' same =
    let first = first_eq p q v w strict strict' same in
    let also : IsStrict (p ∷ w) = subst (λ r. IsStrict (r ∷ w)) (sym first) strict' in
    let found : (name : Str) → lookup name (p ∷ v) ≡ lookup name (p ∷ w) =
      subst (λ r. (name : Str) → lookup name (p ∷ v) ≡ lookup name (r ∷ w)) (sym first) same in
    let rest = IsStrict-eq v w strict.1 strict'.1 (rest_eq p v w strict also found) in cc
