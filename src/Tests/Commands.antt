-- ===== src/Tests/Commands.antt =====
-- A run of the client's download command.
use verifiable_storage.Prelude.{ℕ, ◌≡◌, refl, Option, none, some, List, [], ◌∷◌, ◌==◌}
use verifiable_storage.Prelude.Result.{ok}
use verifiable_storage.Prelude.Text.{Bytes, Str, text, as_bytes, trim}
use verifiable_storage.Prelude.Utf8.{from_utf8, decode, next_byte}
use verifiable_storage.Prelude.Dict.{str_eq, lookup, insert}
use verifiable_storage.Prelude.Exec.{Exec}
use verifiable_storage.Disk.{Disk, create_dir_all, write, read, read_to_string, exists}
use verifiable_storage.Crypto
use verifiable_storage.Crypto.{hash_leaf, decrypt_file, compute_client_id}
use verifiable_storage.Merkle.{hash_data, hash_pair, compute_root}
use verifiable_storage.Server.Proof.{proof_to_json}
use verifiable_storage.Client.Verify.{verify_merkle_proof, convert_proof_to_nodes, hex_decode_array}
use verifiable_storage.Common.FilePath.{join, push, is_absolute}
use verifiable_storage.Common.Filename.{validate_filename}
use verifiable_storage.Server.Upload.{UploadForm}
use verifiable_storage.Client.{ClientError}
use verifiable_storage.Client.Config
use verifiable_storage.Client.Config.{get_key_file_path, get_server_url, root_hash_file}
use verifiable_storage.Client.Keypair.{get_or_create_keypair, load_or_generate}
use verifiable_storage.Client.RootHash.{load_root_hash}
use verifiable_storage.Client.Download.{
  download_and_verify, download_file, request_file_proof, save_encrypted_file, save_downloaded_file,
  output_path,
}
use verifiable_storage.Client.Saved.{IsGenuine}
use verifiable_storage.Client.Main.{
  Commands, download_command, root_hash_or_saved, dispatch, with_keys, main,
}
use verifiable_storage.Client.Genuine.{main-IsGenuine}
use verifiable_storage.Tests.ToyCrates.{
  toy_crates, toy_crates-IsLawful, digest, to_hex, from_hex, zeros,
}
use verifiable_storage.Tests.Trees.{items, tree, made_from_data}
use verifiable_storage.Tests.Downloads.{server}

abbrev var : Str → Option Str
var _ = none

abbrev random : Bytes
random = zeros 32

abbrev clock : ℕ → ℕ
clock _ = 0

abbrev show_names : List Str → Str
show_names ns = text "[]"

abbrev post : Str → UploadForm → Exec ClientError (Unit {0}) (Unit {0})
post url form s = (ok tt, s)

abbrev command : Commands
command = download_command (text "c.bin") (text "b1") none none none

-- The root hash of an upload and nothing else.
abbrev before : Disk
before = record {
  files = (text "client_data/b1/root_hash.txt", as_bytes (to_hex tree.root)) ∷ [];
  outcomes = [];
}

abbrev after : Disk
after = (main show_names post server var random clock command (tt, before)).1.1

there :
    lookup (join (join (Config.load var).data_dir (text "b1")) root_hash_file) before.files
    ≡ some (as_bytes (to_hex tree.root))
unfolding lookup join push is_absolute Config.load ◌==◌
there = refl

succeeded : main show_names post server var random clock command (tt, before) ≡ (ok tt, (tt, after))
unfolding main with_keys dispatch root_hash_or_saved Config.load get_server_url get_key_file_path
    get_or_create_keypair load_or_generate Crypto.load_or_generate_keypair Crypto.generate_keypair
    compute_client_id create_dir_all write read read_to_string exists from_utf8 decode next_byte
    load_root_hash trim download_file validate_filename download_and_verify request_file_proof
    save_encrypted_file save_downloaded_file output_path decrypt_file join push is_absolute lookup
    insert ◌==◌ to_hex from_hex digest as_bytes verify_merkle_proof convert_proof_to_nodes
    proof_to_json hex_decode_array hash_data hash_pair compute_root hash_leaf
succeeded = refl

main-IsGenuine_example :
    (signing_key : Bytes) × (client_id : Str) × IsGenuine toy_crates-IsLawful server
      (record {
        server = get_server_url (Config.load var) none;
        batch_id = text "b1";
        signing_key = signing_key;
        client_id = client_id;
        data_dir = (Config.load var).data_dir;
      })
      (clock 0)
      (text "c.bin")
      none
      items
      tree
      after
main-IsGenuine_example =
    main-IsGenuine toy_crates-IsLawful show_names post server var random clock (text "c.bin")
      (text "b1") none none items tree tt tt before after made_from_data there succeeded
