-- ===== src/Prelude/Result.antt =====
-- Results of fallible code: Rust's `Result`, with the panics of indexing and `unwrap` beside it.
use Prim.Native.Nat.{ℕ}
use mathlib.Core.Path.{◌≡◌, refl}
use mathlib.Core.Bool.{Bool, true, false}
use mathlib.Core.Option.{Option, none, some}
use mathlib.Core.List.{List}
use verifiable_storage.Prelude.Lists.{get_elem?}

pub data Result {ℓ κ} (E : Type ℓ) (A : Type κ) : Type (ℓ ⊔ κ) where
  ok : A → Result E A
  err : E → Result E A
  panic : Result E A

infixl 5 ◌>>=◌ ◌>>◌
abbrev pub ◌>>=◌ {ℓ κ μ} :
    {E : Type ℓ} {A : Type κ} {B : Type μ} → Result E A → (A → Result E B) → Result E B
ok a >>= f = f a
err e >>= f = err e
panic >>= f = panic

abbrev pub ◌>>◌ {ℓ κ} : {E : Type ℓ} {B : Type κ} → Result E (Unit {0}) → Result E B → Result E B
m >> k = m >>= λ _. k

module _ {ℓ κ} {E : Type ℓ} {A : Type κ} where
  -- `ok_or_else`
  abbrev pub ok_or : E → Option A → Result E A
  ok_or e none = err e
  ok_or e (some a) = ok a

  -- `.map_err(f)`
  abbrev pub map_err {μ} : {F : Type μ} → (E → F) → Result E A → Result F A
  map_err f (ok a) = ok a
  map_err f (err e) = err (f e)
  map_err f panic = panic

  -- `xs[i]`, which panics out of bounds.
  abbrev unwrap : Option A → Result E A
  unwrap none = panic
  unwrap (some a) = ok a

  abbrev pub index : List A → ℕ → Result E A
  index xs i = unwrap (get_elem? xs i)

  pub ok_inj : {a b : A} → ◌≡◌ {A = Result E A} (ok a) (ok b) → a ≡ b
  ok_inj h = cc

  pub map_err-ok {μ} :
      {F : Type μ} (f : E → F) (r : Result E A) {a : A} → map_err f r ≡ ok a → r ≡ ok a
  map_err-ok f (ok b) h = cc
  map_err-ok f (err e) h = absurd (cc)
  map_err-ok f panic h = absurd (cc)

  pub ok_or-ok : (e : E) (o : Option A) (a : A) → ok_or e o ≡ ok a → o ≡ some a
  ok_or-ok e none a h = absurd (cc)
  ok_or-ok e (some b) a h = cc

  -- Inversion of a successful bind, for proofs where the parts stay shut.
  pub >>=-eq-ok {μ} :
      {V : Type μ} (first : Result E A) (next : A → Result E V) {result : V}
      → (first >>= next) ≡ ok result
      → (mid : A) × (first ≡ ok mid) × (next mid ≡ ok result)
  >>=-eq-ok panic next given = absurd (cc)
  >>=-eq-ok (err e) next given = absurd (cc)
  >>=-eq-ok (ok mid) next given = (mid, refl, given)

abbrev pub guard {ℓ} : {E : Type ℓ} → Bool → E → Result E (Unit {0})
guard true e = ok tt
guard false e = err e
