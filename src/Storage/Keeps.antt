-- ===== src/Storage/Keeps.antt =====
-- What every operation of the database keeps of its tables, also where requests fail.
use verifiable_storage.Prelude.{
  ◌≡◌, refl, sym, subst, Bool, true, false, ◌⊎◌, inl, inr, List, [], ◌∷◌,
}
use verifiable_storage.Prelude.Result.{Result, ok, err, panic}
use verifiable_storage.Prelude.Exec.{Exec, continue, ◌>>=◌, ◌>>◌, lift, require, map_err}
use verifiable_storage.Storage.{StorageError}
use verifiable_storage.Storage.Tables.{Tables, Db, answer, query}
use verifiable_storage.Storage.Database.{transaction, settle, nothing}

-- What a request has done to the tables: nothing, or what it does where it succeeds.
data Done {A : Type 0} (g : Tables → Result StorageError (A × Tables)) (t t' : Tables)
    : Type 0 where
  unchanged : t' ≡ t → Done g t t'
  changed : (a : A) → g t ≡ ok (a, t') → Done g t t'

Result-cases :
    {A : Type 0} (r : Result StorageError A)
    → ((a : A) × (r ≡ ok a)) ⊎ (((e : StorageError) × (r ≡ err e)) ⊎ (r ≡ panic))
Result-cases (ok a) = inl (a, refl)
Result-cases (err e) = inr (inl (e, refl))
Result-cases panic = inr (inr refl)

answer-Done :
    {A : Type 0} (o : Bool) (rest : List Bool) (g : Tables → Result StorageError (A × Tables))
    (t : Tables)
    → Done g t (answer o rest g t).1.tables
answer-Done true rest g t = unchanged refl
answer-Done false rest g t = elim (Result-cases (g t)) [
  | inl ((a, t'), e) ↦ rw (e, answer) (changed a e)
  | inr (inl (x, e)) ↦ rw (e, answer) (unchanged refl)
  | inr (inr e) ↦ rw (e, answer) (unchanged refl)
]

query-Done :
    {A : Type 0} (g : Tables → Result StorageError (A × Tables)) (t : Tables) (outages : List Bool)
    → Done g t (query g (record { tables = t; outages = outages })).1.tables
unfolding query
query-Done g t [] = answer-Done false [] g t
query-Done g t (o ∷ rest) = answer-Done o rest g t

Done-keeps :
    {A : Type 0} (P : Tables → Type 0) (g : Tables → Result StorageError (A × Tables))
    (t t' : Tables)
    → ((u u' : Tables) (a : A) → P u → g u ≡ ok (a, u') → P u')
    → Done g t t'
    → P t
    → P t'
Done-keeps P g t t' h (unchanged e) p = subst P (sym e) p
Done-keeps P g t t' h (changed a e) p = h t t' a p e

settle-keeps :
    (P : Tables → Type 0) (before : Db) (o : Result StorageError (Unit {0}) × Db)
    → P before.tables
    → P o.1.tables
    → P (settle before o).1.tables
settle-keeps P before (ok a, s) h k = k
settle-keeps P before (err e, s) h k = h
settle-keeps P before (panic, s) h k = h

module _ (P : Tables → Type 0) where
  -- If `P` holds before, it holds after, whatever the result is.
  abbrev pub Keeps : {E A : Type 0} → Exec E Db A → Type 0
  Keeps m = (s : Db) → P s.tables → P (m s).1.tables

  module _ {E A B : Type 0} where
    continue-Keeps :
        (o : Result E A × Db) (f : A → Exec E Db B)
        → P o.1.tables
        → ((a : A) → o.0 ≡ ok a → Keeps (f a))
        → P (continue o f).1.tables
    continue-Keeps (ok a, t) f h k = k a refl t h
    continue-Keeps (err e, t) f h k = h
    continue-Keeps (panic, t) f h k = h

    pub >>=-Keeps :
        (m : Exec E Db A) (f : A → Exec E Db B)
        → Keeps m
        → ((a : A) → Keeps (f a))
        → Keeps (m >>= f)
    >>=-Keeps m f h k s p = continue-Keeps (m s) f (h s p) (λ a _. k a)

    -- The rest of a computation may use the value that a result has given.
    pub lift-Keeps :
        (r : Result E A) (f : A → Exec E Db B)
        → ((a : A) → r ≡ ok a → Keeps (f a))
        → Keeps (lift r >>= f)
    lift-Keeps r f k s p = continue-Keeps (r, s) f p k

    -- The same for a computation in which only the value that it gives is known.
    pub fact-Keeps :
        (m : Exec E Db A) (f : A → Exec E Db B) (Q : A → Type 0)
        → Keeps m
        → ((s : Db) (a : A) → (m s).0 ≡ ok a → Q a)
        → ((a : A) → Q a → Keeps (f a))
        → Keeps (m >>= f)
    fact-Keeps m f Q h q k s p = continue-Keeps (m s) f (h s p) (λ a e. k a (q s a e))

  pub require-Keeps :
      {E B : Type 0} (c : Bool) (e : E) (m : Exec E Db B) → Keeps m → Keeps (require c e >> m)
  require-Keeps true e m h s p = h s p
  require-Keeps false e m h s p = p

  pub map_err-Keeps : {E F A : Type 0} (g : E → F) (m : Exec E Db A) → Keeps m → Keeps (map_err g m)
  map_err-Keeps g m h = h

  pub query-Keeps :
      {A : Type 0} (g : Tables → Result StorageError (A × Tables))
      → ((t t' : Tables) (a : A) → P t → g t ≡ ok (a, t') → P t')
      → Keeps (query g)
  query-Keeps g h s p =
      Done-keeps P g s.tables (query g s).1.tables h (query-Done g s.tables s.outages) p

  -- A request that only reads.
  pub read-Keeps : {A : Type 0} (f : Tables → A) → Keeps (query {A = A} (λ t. ok (f t, t)))
  read-Keeps f = query-Keeps (λ t. ok (f t, t)) (λ t t' a p e. subst P (cc) p)

  -- A transaction takes the tables back where its body fails.
  pub transaction-Keeps :
      (body : Exec StorageError Db (Unit {0})) → Keeps body → Keeps (transaction body)
  unfolding transaction
  transaction-Keeps body h s p = settle-keeps P s (continue (nothing s) (λ _. body >> nothing)) p (
      >>=-Keeps nothing (λ _. body >> nothing) (read-Keeps (λ _. tt))
        (λ _. >>=-Keeps body (λ _. nothing) h (λ _. read-Keeps (λ _. tt))) s p)
