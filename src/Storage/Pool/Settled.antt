-- ===== src/Storage/Pool/Settled.antt =====
-- A batch to which no call runs, and to which none has failed with its file stored, has the tree of its
-- files, whatever calls to other batches do meanwhile.
use verifiable_storage.Prelude.{◌≡◌, refl, subst, Bool, true, false, []}
use verifiable_storage.Prelude.Result.{ok}
use verifiable_storage.Prelude.Text.{Bytes, Str}
use verifiable_storage.Prelude.Dict.{str_eq, insert}
use verifiable_storage.Crates.{Crates}
use verifiable_storage.Storage.Tables.{Tables, BatchKey, store_public_key, check, fits}
use verifiable_storage.Storage.Trees.{calm}
use verifiable_storage.Storage.Success.{query-ok}
use verifiable_storage.Storage.Valid.{check-ok}
use verifiable_storage.Storage.Race.{File, Phase, started, stored, finished, hashed}
use verifiable_storage.Storage.Pool.{
  key_of, Status, idle, running, before, after, lost, Pool, pool, Turn, begin, advance, fail,
  register, Turns, stay, turn,
}
use verifiable_storage.Storage.Pool.Frame.{SameBatch-refl, with_client-SameBatch}
use verifiable_storage.Storage.Pool.Phases.{
  IsSettled, InPhase, Fits, AllFit, Fits-SameBatch, set_status-AllFit, Step-Stepped,
}

module _ ⦃K : Crates⦄ (collation : Str → Str → Bool) where
  -- What is known of a batch while a call to it runs.
  pub running-InPhase :
      (t : Tables) (b : BatchKey) (st : Status) (clean : Bool) (f : File) (p : Phase)
      → st ≡ running clean f p
      → Fits collation t b st
      → InPhase collation t clean f b p
  running-InPhase t b st clean f p e h = (subst (Fits collation t b) e h).1

  before-IsSettled :
      (t : Tables) (b : BatchKey) (st : Status) (clean : Bool)
      → st ≡ before clean
      → Fits collation t b st
      → clean ≡ true
      → IsSettled collation t b
  before-IsSettled t b st true e h c = subst (Fits collation t b) e h
  before-IsSettled t b st false e h c = absurd (cc)

  lost-Fits :
      (t : Tables) (f : File) (clean : Bool) (p : Phase)
      → InPhase collation t clean f (key_of f) p
      → Fits collation t (key_of f) (lost clean p)
  lost-Fits t f true started h = h.0 refl
  lost-Fits t f false started h = tt
  lost-Fits t f clean stored h = tt
  lost-Fits t f clean (hashed hashes) h = tt
  lost-Fits t f clean finished h = absurd h

  registered_eq :
      (t t' : Tables) (c : Str) (k : Bytes)
      → store_public_key c k (calm t) ≡ (ok tt, calm t')
      → record t { clients = insert c k t.clients } ≡ t'
  unfolding store_public_key
  registered_eq t t' c k e =
      let change = λ (u : Tables). record u { clients = insert c k u.clients } in
      (check-ok (fits c) (change t) t' tt
        (query-ok (λ u. check (fits c) (change u)) t [] tt (calm t') e)).1

  pub Turn-AllFit : {P Q : Pool} → AllFit collation P → Turn collation P Q → AllFit collation Q
  Turn-AllFit all (begin {t = t} {status = status} clean f a e) =
      set_status-AllFit collation t t status (key_of f) (running clean f started)
        (λ d _. SameBatch-refl d t) all
        (refl, (before-IsSettled t (key_of f) (status (key_of f)) clean e (all (key_of f)), a))
  Turn-AllFit all (advance {t = t} {t' = t'} {status = status} clean f {p = p} {p' = p'} e step) =
      let known = running-InPhase t (key_of f) (status (key_of f)) clean f p e (all (key_of f)) in
      let done = Step-Stepped collation clean f known step in
      set_status-AllFit collation t t' status (key_of f) (after clean f p') done.frame all done.fits
  Turn-AllFit all (fail {t = t} {status = status} clean f {p = p} e) =
      set_status-AllFit collation t t status (key_of f) (lost clean p) (λ d _. SameBatch-refl d t)
        all
        (lost-Fits t f clean p
          (running-InPhase t (key_of f) (status (key_of f)) clean f p e (all (key_of f))))
  Turn-AllFit all (register {t = t} {t' = t'} {status = status} c k e) = λ d.
      subst (λ u. Fits collation u d (status d)) (registered_eq t t' c k e)
        (Fits-SameBatch collation d t (record t { clients = insert c k t.clients }) (status d)
          (with_client-SameBatch t d c k) (all d))

  pub Turns-AllFit : {P Q : Pool} → AllFit collation P → Turns collation P Q → AllFit collation Q
  Turns-AllFit all stay = all
  Turns-AllFit all (turn turns last) = Turn-AllFit (Turns-AllFit all turns) last

  -- Many calls at one time, at most one to each batch, from tables whose batches are settled, with any
  -- interleaving and any failures: in every state, a batch to which no call runs and to which none has
  -- failed with its file stored since the last success has the tree of its files, or neither tree nor
  -- files.
  pub Turns-IsSettled :
      (t : Tables) (P : Pool) (b : BatchKey)
      → ((d : BatchKey) → IsSettled collation t d)
      → Turns collation (pool t (λ _. idle)) P
      → P.status b ≡ idle
      → IsSettled collation P.tables b
  Turns-IsSettled t P b settled turns e =
      subst (Fits collation P.tables b) e (Turns-AllFit settled turns b)
