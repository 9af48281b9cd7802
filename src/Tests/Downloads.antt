-- ===== src/Tests/Downloads.antt =====
-- Downloads from a server that answers with a file of a tree, on the side of the client.
use verifiable_storage.Prelude.{◌≡◌, refl, none, [], ◌∷◌, ◌==◌}
use verifiable_storage.Prelude.Result.{ok}
use verifiable_storage.Prelude.Text.{text, trim}
use verifiable_storage.Prelude.Dict.{insert}
use verifiable_storage.Crypto.{hash_leaf, decrypt_file}
use verifiable_storage.Merkle.{hash_data, hash_pair, compute_root}
use verifiable_storage.Common.FilePath.{join}
use verifiable_storage.Common.{DownloadResponse}
use verifiable_storage.Server.Proof.{proof_to_json}
use verifiable_storage.Disk.{Disk}
use verifiable_storage.Client.Verify.{convert_proof_to_nodes, hex_decode_array, verify_merkle_proof}
use verifiable_storage.Client.Download.{
  FileDownloader, Server, download_and_verify, download_file, request_file_proof,
  save_encrypted_file, save_downloaded_file, output_path,
}
use verifiable_storage.Client.Saved.{IsGenuine, download_and_verify-IsGenuine}
use verifiable_storage.Client.Below.{OnlyBelow, download_file-OnlyBelow}
use verifiable_storage.Tests.ToyCrates.{toy_crates, toy_crates-IsLawful, digest, to_hex, from_hex}
use verifiable_storage.Tests.Trees.{items, tree, proof, made_from_data}

abbrev answer : DownloadResponse
answer = record {
  filename = text "c.bin";
  file_content = to_hex (4 ∷ 5 ∷ []);
  merkle_proof = proof_to_json proof;
}

verified : verify_merkle_proof answer (hash_leaf (4 ∷ 5 ∷ [])) (to_hex tree.root) ≡ ok tt
unfolding verify_merkle_proof to_hex from_hex digest ◌==◌ convert_proof_to_nodes proof_to_json
    hex_decode_array trim hash_data hash_pair compute_root hash_leaf
verified = refl

abbrev pub server : Server
server url req = ok answer

abbrev downloads : FileDownloader
downloads = record {
  server = text "http://localhost";
  batch_id = text "b1";
  signing_key = 9 ∷ 8 ∷ [];
  client_id = text "c1";
  data_dir = text "data";
}

abbrev before : Disk
before = record { files = []; outcomes = [] }

abbrev after : Disk
after = record {
  files =
      (text "data/b1/downloaded/c.bin.encrypted", 4 ∷ 5 ∷ [])
      ∷ (text "data/b1/downloaded/c.bin", 4 ∷ 5 ∷ [])
      ∷ [];
  outcomes = [];
}

saved :
    download_and_verify server downloads 0 (text "c.bin") (to_hex tree.root) none before
    ≡ (ok tt, after)
unfolding download_and_verify request_file_proof to_hex from_hex digest ◌==◌ decrypt_file
    save_encrypted_file save_downloaded_file output_path join insert
saved = rw verified refl

download_and_verify-IsGenuine_example :
    IsGenuine toy_crates-IsLawful server downloads 0 (text "c.bin") none items tree after
download_and_verify-IsGenuine_example =
    download_and_verify-IsGenuine toy_crates-IsLawful server downloads 0 (text "c.bin") none items
      tree before after made_from_data saved

download_file-OnlyBelow_example :
    OnlyBelow
      (text "data/b1/downloaded")
      before
      (download_file server downloads 0 (text "c.bin") (to_hex tree.root) none before).1
unfolding output_path join
download_file-OnlyBelow_example =
    download_file-OnlyBelow server downloads 0 (text "c.bin") (to_hex tree.root) none before
      (λ e. absurd (cc))
