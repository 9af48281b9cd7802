-- ===== src/Storage/Schema/Complete.antt =====
-- After the creation of the tables has succeeded all of them are there, and it succeeds while no request
-- fails.
use verifiable_storage.Prelude.{◌≡◌, refl, ap, ◌∙◌, sym, subst, true, Option, none, some, List, []}
use verifiable_storage.Prelude.Result.{Result, ok}
use verifiable_storage.Prelude.Exec.{Exec, >>=-ok}
use verifiable_storage.Storage.{StorageError}
use verifiable_storage.Storage.Schema.{
  Catalog, Setup, has, rows, execute, answer_setup, create_if_missing, created,
  create_clients_table, create_batches_table, create_files_table, create_merkle_trees_table,
  create_indexes, initialize,
}
use verifiable_storage.Storage.Schema.Laws.{
  Grown, Grows, created-eq, needs-eq, execute-ok, after_files, after_batches, after_clients,
  after_files-Grows, after_batches-Grows, after_clients-Grows, create_indexes-Grows,
}

-- All tables and indexes are there.
pub record IsComplete (c : Catalog) : Type 0 where
  pub clients : has c.clients ≡ true
  pub batches : has c.batches ≡ true
  pub files : has c.files ≡ true
  pub merkle_trees : has c.merkle_trees ≡ true
  pub batches_index : c.batches_index ≡ true
  pub files_index : c.files_index ≡ true

-- Code that has come to an end has kept what there was.
ended :
    (m : Exec StorageError Setup (Unit {0})) (s s' : Setup)
    → Grows m
    → m s ≡ (ok tt, s')
    → Grown s.catalog s'.catalog
ended m s s' g h =
    subst (λ (o : Result StorageError (Unit {0}) × Setup). Grown s.catalog o.1.catalog) h
      (g s).grown

has_clients : (s s' : Setup) → create_clients_table s ≡ (ok tt, s') → has s'.catalog.clients ≡ true
unfolding create_clients_table
has_clients s s' h =
    subst (λ (c : Catalog). has c.clients ≡ true)
      (created-eq true (λ t. record (s.catalog) { clients = t }) s.catalog.clients s'.catalog
        (execute-ok _ s s' h))
      refl

has_batches : (s s' : Setup) → create_batches_table s ≡ (ok tt, s') → has s'.catalog.batches ≡ true
unfolding create_batches_table
has_batches s s' h =
    subst (λ (c : Catalog). has c.batches ≡ true)
      (created-eq (has s.catalog.clients) (λ t. record (s.catalog) { batches = t })
        s.catalog.batches s'.catalog (execute-ok _ s s' h))
      refl

has_files : (s s' : Setup) → create_files_table s ≡ (ok tt, s') → has s'.catalog.files ≡ true
unfolding create_files_table
has_files s s' h =
    subst (λ (c : Catalog). has c.files ≡ true)
      (created-eq (has s.catalog.batches) (λ t. record (s.catalog) { files = t }) s.catalog.files
        s'.catalog (execute-ok _ s s' h))
      refl

has_merkle_trees :
    (s s' : Setup) → create_merkle_trees_table s ≡ (ok tt, s') → has s'.catalog.merkle_trees ≡ true
unfolding create_merkle_trees_table
has_merkle_trees s s' h =
    subst (λ (c : Catalog). has c.merkle_trees ≡ true)
      (created-eq (has s.catalog.batches) (λ t. record (s.catalog) { merkle_trees = t })
        s.catalog.merkle_trees s'.catalog (execute-ok _ s s' h))
      refl

has_indexes :
    (s s' : Setup)
    → create_indexes s ≡ (ok tt, s')
    → (s'.catalog.batches_index ≡ true) × (s'.catalog.files_index ≡ true)
unfolding create_indexes
has_indexes s s' h = >>=-ok (execute _) _ {s = s} h λ _ t first second.
    let e =
      (needs-eq (has s.catalog.batches) (record (s.catalog) { batches_index = true }) t.catalog
        (execute-ok _ s t first)).1 in
    let e' =
      (needs-eq (has t.catalog.files) (record (t.catalog) { files_index = true }) s'.catalog
        (execute-ok _ t s' second)).1 in
    (
      ap (λ (c : Catalog). c.batches_index) (sym e')
          ∙ ap (λ (c : Catalog). c.batches_index) (sym e),
      ap (λ (c : Catalog). c.files_index) (sym e'),
    )

pub initialize-IsComplete : (s s' : Setup) → initialize s ≡ (ok tt, s') → IsComplete s'.catalog
unfolding initialize
initialize-IsComplete s s' h =
    >>=-ok create_clients_table (λ _. after_clients) {s = s} h
      λ _ s₁ e₁ h₁.
        >>=-ok create_batches_table (λ _. after_batches) {s = s₁} h₁
          λ _ s₂ e₂ h₂.
            >>=-ok create_files_table (λ _. after_files) {s = s₂} h₂
              λ _ s₃ e₃ h₃.
                >>=-ok create_merkle_trees_table (λ _. create_indexes) {s = s₃} h₃
                  λ _ s₄ e₄ h₄.
                    let indexes = has_indexes s₄ s' h₄ in
                    record {
                      clients =
                          (ended after_clients s₁ s' after_clients-Grows h₁).clients.stays
                            (has_clients s s₁ e₁);
                      batches =
                          (ended after_batches s₂ s' after_batches-Grows h₂).batches.stays
                            (has_batches s₁ s₂ e₂);
                      files =
                          (ended after_files s₃ s' after_files-Grows h₃).files.stays
                            (has_files s₂ s₃ e₃);
                      merkle_trees =
                          (ended create_indexes s₄ s' create_indexes-Grows h₄).merkle_trees.stays
                            (has_merkle_trees s₃ s₄ e₄);
                      batches_index = indexes.0;
                      files_index = indexes.1;
                    }

-- The catalog with all tables.
abbrev pub completed : Catalog → Catalog
completed c = record {
  clients = some (rows c.clients);
  batches = some (rows c.batches);
  files = some (rows c.files);
  merkle_trees = some (rows c.merkle_trees);
  batches_index = true;
  files_index = true;
}

abbrev pub calm_setup : Catalog → Setup
calm_setup c = record { catalog = c; outages = [] }

execute-calm :
    (f : Catalog → Option Catalog) (c c' : Catalog)
    → f c ≡ some c'
    → execute f (calm_setup c) ≡ (ok tt, calm_setup c')
unfolding execute
execute-calm f c c' e = rw (e, answer_setup) refl

created-there :
    {A : Type 0} (change : Option (List A) → Catalog) (o : Option (List A))
    → created change (create_if_missing true o) ≡ some (change (some (rows o)))
created-there change none = refl
created-there change (some r) = refl

module _ (c : Catalog) where
  abbrev with_clients : Catalog
  with_clients = record c { clients = some (rows c.clients) }

  abbrev with_batches : Catalog
  with_batches = record with_clients { batches = some (rows c.batches) }

  abbrev with_files : Catalog
  with_files = record with_batches { files = some (rows c.files) }

  abbrev with_trees : Catalog
  with_trees = record with_files { merkle_trees = some (rows c.merkle_trees) }

  clients-calm : create_clients_table (calm_setup c) ≡ (ok tt, calm_setup with_clients)
  unfolding create_clients_table
  clients-calm =
      execute-calm _ c with_clients (created-there (λ t. record c { clients = t }) c.clients)

  batches-calm : create_batches_table (calm_setup with_clients) ≡ (ok tt, calm_setup with_batches)
  unfolding create_batches_table
  batches-calm =
      execute-calm _ with_clients with_batches
        (created-there (λ t. record with_clients { batches = t }) c.batches)

  files-calm : create_files_table (calm_setup with_batches) ≡ (ok tt, calm_setup with_files)
  unfolding create_files_table
  files-calm =
      execute-calm _ with_batches with_files
        (created-there (λ t. record with_batches { files = t }) c.files)

  trees-calm : create_merkle_trees_table (calm_setup with_files) ≡ (ok tt, calm_setup with_trees)
  unfolding create_merkle_trees_table
  trees-calm =
      execute-calm _ with_files with_trees
        (created-there (λ t. record with_files { merkle_trees = t }) c.merkle_trees)

  pub initialize-completed : initialize (calm_setup c) ≡ (ok tt, calm_setup (completed c))
  unfolding initialize create_indexes execute
  initialize-completed = rw (clients-calm, batches-calm, files-calm, trees-calm) refl
