-- ===== src/Client/Paths.antt =====
-- The paths of bin/client/src/constants.rs: the client's own files stand apart.
use verifiable_storage.Prelude.{ℕ, ◌≢◌, ap, arith, ◌∷◌}
use verifiable_storage.Prelude.Text.{Str}
use verifiable_storage.Common.FilePath.{join}
use verifiable_storage.Client.Config.{
  get_key_file_path, client_id_file, key_file, root_hash_file, filenames_file,
}
use verifiable_storage.Client.Keypair.Laws.{key_file-IsPlain, client_id_file-IsPlain}
use verifiable_storage.Client.RootHash.{root_hash_file-IsPlain, filenames_file-IsPlain}
use verifiable_storage.Client.Runs.{join_differ}

-- The fifth character, where the names of the client's files differ when read from their ends.
abbrev fifth : Str → ℕ
fifth (a ∷ b ∷ c ∷ d ∷ e ∷ s) = e
fifth s = 0

-- The key and the identifier have two files.
pub key_file-ne-client_id_file :
    (data_dir : Str) → get_key_file_path data_dir ≢ join data_dir client_id_file
unfolding get_key_file_path
key_file-ne-client_id_file data_dir =
    join_differ data_dir data_dir key_file client_id_file key_file-IsPlain client_id_file-IsPlain
      (λ s t h. omega (arith, ap fifth h))

module _ (data_dir batch_id : Str) where
  abbrev pub root_path : Str
  root_path = join (join data_dir batch_id) root_hash_file

  abbrev pub names_path : Str
  names_path = join (join data_dir batch_id) filenames_file

  pub not_key_file : root_path ≢ get_key_file_path data_dir
  unfolding get_key_file_path
  not_key_file =
      join_differ (join data_dir batch_id) data_dir root_hash_file key_file root_hash_file-IsPlain
        key_file-IsPlain (λ s t h. omega (arith, ap fifth h))

  pub not_client_id_file : root_path ≢ join data_dir client_id_file
  not_client_id_file =
      join_differ (join data_dir batch_id) data_dir root_hash_file client_id_file
        root_hash_file-IsPlain client_id_file-IsPlain (λ s t h. omega (arith, ap fifth h))

  pub root_path-ne-names_path : root_path ≢ names_path
  root_path-ne-names_path =
      join_differ (join data_dir batch_id) (join data_dir batch_id) root_hash_file filenames_file
        root_hash_file-IsPlain filenames_file-IsPlain (λ s t h. omega (arith, ap fifth h))

  pub key_file-ne-names_path : get_key_file_path data_dir ≢ names_path
  unfolding get_key_file_path
  key_file-ne-names_path =
      join_differ data_dir (join data_dir batch_id) key_file filenames_file key_file-IsPlain
        filenames_file-IsPlain (λ s t h. omega (arith, ap fifth h))
