-- ===== src/Prelude/Exec.antt =====
-- Code that changes a state and may fail. What was written before a failure stays written, so the
-- state comes back beside the error too.
use mathlib.Core.Path.{◌≡◌, refl}
use mathlib.Core.Bool.{Bool, true, false}
use verifiable_storage.Prelude.Result
use verifiable_storage.Prelude.Result.{Result, ok, err, panic}

abbrev pub Exec : Type 0 → Type 0 → Type 0 → Type 0
Exec E S A = S → Result E A × S

module _ {E S A B : Type 0} where
  abbrev pub continue : Result E A × S → (A → Exec E S B) → Result E B × S
  continue (ok a, s) f = f a s
  continue (err e, s) f = (err e, s)
  continue (panic, s) f = (panic, s)

  infixl 5 ◌>>=◌ ◌>>◌
  abbrev pub ◌>>=◌ : Exec E S A → (A → Exec E S B) → Exec E S B
  ◌>>=◌ m f s = continue (m s) f

  abbrev pub ◌>>◌ : Exec E S A → Exec E S B → Exec E S B
  ◌>>◌ m k s = continue (m s) (λ _. k)

module _ {E S A : Type 0} where
  abbrev pub pure : A → Exec E S A
  pure a s = (ok a, s)

  abbrev pub raise : E → Exec E S A
  raise e s = (err e, s)

  abbrev pub lift : Result E A → Exec E S A
  lift r s = (r, s)

  -- `.map_err(f)` on a call that may change the state.
  abbrev pub map_err : {F : Type 0} → (E → F) → Exec E S A → Exec F S A
  map_err f m s = let (r, s') = m s in (Result.map_err f r, s')

abbrev pub require : {E S : Type 0} → Bool → E → Exec E S (Unit {0})
require true e s = (ok tt, s)
require false e s = (err e, s)

-- Inversions of code that has succeeded, for proofs where the parts stay shut: the rest of a proof
-- may use what each step has given.
module _ {E S A B P : Type 0} where
  continue-ok :
      (r : Result E A × S) (f : A → Exec E S B) {s' : S} {b : B}
      → continue r f ≡ (ok b, s')
      → ((a : A) (t : S) → r ≡ (ok a, t) → f a t ≡ (ok b, s') → P)
      → P
  continue-ok (ok a, t) f h k = k a t refl h
  continue-ok (err e, t) f h k = absurd (cc)
  continue-ok (panic, t) f h k = absurd (cc)

  pub >>=-ok :
      (m : Exec E S A) (f : A → Exec E S B) {s s' : S} {b : B}
      → (m >>= f) s ≡ (ok b, s')
      → ((a : A) (t : S) → m s ≡ (ok a, t) → f a t ≡ (ok b, s') → P)
      → P
  >>=-ok m f {s} h k = continue-ok (m s) f h k

  pub lift-ok :
      (r : Result E A) (f : A → Exec E S B) {s s' : S} {b : B}
      → (lift r >>= f) s ≡ (ok b, s')
      → ((a : A) → r ≡ ok a → f a s ≡ (ok b, s') → P)
      → P
  lift-ok (ok a) f h k = k a refl h
  lift-ok (err e) f h k = absurd (cc)
  lift-ok panic f h k = absurd (cc)

module _ {E S B P : Type 0} where
  pub require-ok :
      (c : Bool) (e : E) (m : Exec E S B) {s s' : S} {b : B}
      → (require c e >> m) s ≡ (ok b, s')
      → (c ≡ true → m s ≡ (ok b, s') → P)
      → P
  require-ok true e m h k = k refl h
  require-ok false e m h k = absurd (cc)
