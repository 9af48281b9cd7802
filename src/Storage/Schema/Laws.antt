-- ===== src/Storage/Schema/Laws.antt =====
-- What the creation of the tables keeps and guarantees.
use verifiable_storage.Prelude.{
  ◌≡◌, ◌≢◌, refl, ◌∙◌, subst, Bool, true, false, Option, none, some, List, [], ◌∷◌, if◌then◌else◌,
  Option-cases, inl, inr,
}
use verifiable_storage.Prelude.Result.{Result, ok, err, panic}
use verifiable_storage.Prelude.Exec.{Exec, continue, ◌>>◌}
use verifiable_storage.Storage.{StorageError}
use verifiable_storage.Storage.Schema.{
  Catalog, Setup, has, rows, execute, execute_with, answer_setup, create_if_missing, created,
  create_clients_table, create_batches_table, create_files_table, create_merkle_trees_table,
  create_indexes, initialize,
}

-- The rows are kept, and a table that is there stays.
pub record Kept {A : Type 0} (o o' : Option (List A)) : Type 0 where
  pub rows_eq : rows o' ≡ rows o
  pub stays : has o ≡ true → has o' ≡ true

Kept-refl : {A : Type 0} (o : Option (List A)) → Kept o o
Kept-refl o = record { rows_eq = refl; stays = λ h. h }

Kept-trans : {A : Type 0} {o p q : Option (List A)} → Kept o p → Kept p q → Kept o q
Kept-trans g h = record {
  rows_eq = h.rows_eq ∙ g.rows_eq;
  stays = λ there. h.stays (g.stays there);
}

Kept-created : {A : Type 0} (o : Option (List A)) → Kept o (some (rows o))
Kept-created o = record { rows_eq = refl; stays = λ h. refl }

pub record Grown (c c' : Catalog) : Type 0 where
  pub clients : Kept c.clients c'.clients
  pub batches : Kept c.batches c'.batches
  pub files : Kept c.files c'.files
  pub merkle_trees : Kept c.merkle_trees c'.merkle_trees
  pub batches_index : c.batches_index ≡ true → c'.batches_index ≡ true

pub Grown-refl : (c : Catalog) → Grown c c
Grown-refl c = record {
  clients = Kept-refl c.clients;
  batches = Kept-refl c.batches;
  files = Kept-refl c.files;
  merkle_trees = Kept-refl c.merkle_trees;
  batches_index = λ h. h;
}

pub Grown-trans : {c d e : Catalog} → Grown c d → Grown d e → Grown c e
Grown-trans g h = record {
  clients = Kept-trans g.clients h.clients;
  batches = Kept-trans g.batches h.batches;
  files = Kept-trans g.files h.files;
  merkle_trees = Kept-trans g.merkle_trees h.merkle_trees;
  batches_index = λ there. h.batches_index (g.batches_index there);
}

-- What the code has come to: what there was is kept, and nothing panics.
pub record Fair (c : Catalog) (o : Result StorageError (Unit {0}) × Setup) : Type 0 where
  pub grown : Grown c o.1.catalog
  pub no_panic : o.0 ≢ panic

-- The code is fair, whether it succeeds or fails.
abbrev pub Grows : Exec StorageError Setup (Unit {0}) → Type 0
Grows m = (s : Setup) → Fair s.catalog (m s)

continue-Fair :
    (c : Catalog) (o : Result StorageError (Unit {0}) × Setup)
    (k : Exec StorageError Setup (Unit {0}))
    → Fair c o
    → Grows k
    → Fair c (continue o (λ _. k))
continue-Fair c (ok a, s) k g h = record {
  grown = Grown-trans g.grown (h s).grown;
  no_panic = (h s).no_panic;
}
continue-Fair c (err e, s) k g h = record { grown = g.grown; no_panic = λ p. cc }
continue-Fair c (panic, s) k g h = absurd (g.no_panic refl)

pub >>-Grows : (m k : Exec StorageError Setup (Unit {0})) → Grows m → Grows k → Grows (m >> k)
>>-Grows m k g h s = continue-Fair s.catalog (m s) k (g s) h

-- A statement whose change keeps what there is.
execute-Grows :
    (f : Catalog → Option Catalog)
    → ((c c' : Catalog) → f c ≡ some c' → Grown c c')
    → Grows (execute f)
unfolding execute
execute-Grows f h s = by_outages s.outages s.catalog
  where
    by_result : (c : Catalog) (rest : List Bool) → Fair c (execute_with f (false ∷ rest) c)
    by_result c rest = elim (Option-cases (f c)) [
      | inl e ↦ rw (e, answer_setup) (record { grown = Grown-refl c; no_panic = λ p. cc })
      | inr (c', e) ↦ rw (e, answer_setup) (record { grown = h c c' e; no_panic = λ p. cc })
    ]

    by_outages : (outages : List Bool) (c : Catalog) → Fair c (execute_with f outages c)
    by_outages [] c = by_result c []
    by_outages (true ∷ rest) c = record { grown = Grown-refl c; no_panic = λ p. cc }
    by_outages (false ∷ rest) c = by_result c rest

-- A table that is created where it is missing keeps its rows.
pub created-eq :
    {A : Type 0} (there : Bool) (change : Option (List A) → Catalog) (o : Option (List A))
    (c' : Catalog)
    → created change (create_if_missing there o) ≡ some c'
    → change (some (rows o)) ≡ c'
created-eq there change (some r) c' e = cc
created-eq true change none c' e = cc
created-eq false change none c' e = absurd (cc)

create_clients_table-Grows : Grows create_clients_table
unfolding create_clients_table
create_clients_table-Grows = execute-Grows _ λ c c' e.
    subst (Grown c) (created-eq true (λ t. record c { clients = t }) c.clients c' e) (record {
      clients = Kept-created c.clients;
      batches = Kept-refl c.batches;
      files = Kept-refl c.files;
      merkle_trees = Kept-refl c.merkle_trees;
      batches_index = λ h. h;
    })

create_batches_table-Grows : Grows create_batches_table
unfolding create_batches_table
create_batches_table-Grows = execute-Grows _ λ c c' e.
    subst (Grown c) (created-eq (has c.clients) (λ t. record c { batches = t }) c.batches c' e)
      (record {
        clients = Kept-refl c.clients;
        batches = Kept-created c.batches;
        files = Kept-refl c.files;
        merkle_trees = Kept-refl c.merkle_trees;
        batches_index = λ h. h;
      })

create_files_table-Grows : Grows create_files_table
unfolding create_files_table
create_files_table-Grows = execute-Grows _ λ c c' e.
    subst (Grown c) (created-eq (has c.batches) (λ t. record c { files = t }) c.files c' e)
      (record {
        clients = Kept-refl c.clients;
        batches = Kept-refl c.batches;
        files = Kept-created c.files;
        merkle_trees = Kept-refl c.merkle_trees;
        batches_index = λ h. h;
      })

create_merkle_trees_table-Grows : Grows create_merkle_trees_table
unfolding create_merkle_trees_table
create_merkle_trees_table-Grows = execute-Grows _ λ c c' e.
    subst (Grown c)
      (created-eq (has c.batches) (λ t. record c { merkle_trees = t }) c.merkle_trees c' e)
      (record {
        clients = Kept-refl c.clients;
        batches = Kept-refl c.batches;
        files = Kept-refl c.files;
        merkle_trees = Kept-created c.merkle_trees;
        batches_index = λ h. h;
      })

-- A statement that needs a table, and then makes its change.
pub needs-eq :
    (there : Bool) (d c' : Catalog)
    → (if there then some d else none) ≡ some c'
    → (there ≡ true) × (d ≡ c')
needs-eq true d c' e = (refl, cc)
needs-eq false d c' e = absurd (cc)

pub create_indexes-Grows : Grows create_indexes
unfolding create_indexes
create_indexes-Grows =
    >>-Grows _ _
      (execute-Grows _ λ c c' e.
        subst (Grown c) (needs-eq (has c.batches) (record c { batches_index = true }) c' e).1
          (record {
            clients = Kept-refl c.clients;
            batches = Kept-refl c.batches;
            files = Kept-refl c.files;
            merkle_trees = Kept-refl c.merkle_trees;
            batches_index = λ h. refl;
          }))
      (execute-Grows _ λ c c' e.
        subst (Grown c) (needs-eq (has c.files) (record c { files_index = true }) c' e).1 (record {
          clients = Kept-refl c.clients;
          batches = Kept-refl c.batches;
          files = Kept-refl c.files;
          merkle_trees = Kept-refl c.merkle_trees;
          batches_index = λ h. h;
        }))

-- What comes after each table.
abbrev pub after_files : Exec StorageError Setup (Unit {0})
after_files = create_merkle_trees_table >> create_indexes

abbrev pub after_batches : Exec StorageError Setup (Unit {0})
after_batches = create_files_table >> after_files

abbrev pub after_clients : Exec StorageError Setup (Unit {0})
after_clients = create_batches_table >> after_batches

pub after_files-Grows : Grows after_files
after_files-Grows =
    >>-Grows create_merkle_trees_table create_indexes create_merkle_trees_table-Grows
      create_indexes-Grows

pub after_batches-Grows : Grows after_batches
after_batches-Grows =
    >>-Grows create_files_table after_files create_files_table-Grows after_files-Grows

pub after_clients-Grows : Grows after_clients
after_clients-Grows =
    >>-Grows create_batches_table after_batches create_batches_table-Grows after_batches-Grows

-- Whatever statements fail, every row is kept and nothing panics.
pub initialize-Grows : Grows initialize
unfolding initialize
initialize-Grows =
    >>-Grows create_clients_table after_clients create_clients_table-Grows after_clients-Grows

-- A statement that succeeds has made its change.
pub execute-ok :
    (f : Catalog → Option Catalog) (s s' : Setup)
    → execute f s ≡ (ok tt, s')
    → f s.catalog ≡ some s'.catalog
unfolding execute
execute-ok f s s' h = by_outages s.outages s.catalog h
  where
    by_result :
        (c : Catalog) (rest : List Bool)
        → execute_with f (false ∷ rest) c ≡ (ok tt, s')
        → f c ≡ some s'.catalog
    by_result c rest h = elim (Option-cases (f c)) [ inl e ↦ absurd (cc) | inr (c', e) ↦ cc ]

    by_outages :
        (outages : List Bool) (c : Catalog)
        → execute_with f outages c ≡ (ok tt, s')
        → f c ≡ some s'.catalog
    by_outages [] c h = by_result c [] h
    by_outages (true ∷ rest) c h = absurd (cc)
    by_outages (false ∷ rest) c h = by_result c rest h
