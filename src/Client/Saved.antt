-- ===== src/Client/Saved.antt =====
-- What a download that succeeds leaves on the client's disk.
use verifiable_storage.Prelude.{ℕ, ◌≡◌, subst, Option, some, List, ◌==◌, ==_iff}
use verifiable_storage.Prelude.Result
use verifiable_storage.Prelude.Result.{Result, ok, err, map_err-ok, ok_or, ok_or-ok}
use verifiable_storage.Prelude.Text.{Bytes, Str}
use verifiable_storage.Prelude.Dict.{str_eq, lookup, lookup-insert_self}
use verifiable_storage.Prelude.Exec.{>>=-ok, lift-ok, require-ok}
use verifiable_storage.Crates.{Crates, IsLawful}
use verifiable_storage.Crypto.{hash_leaf, decrypt_file}
use verifiable_storage.Merkle.{MerkleTree, from_data}
use verifiable_storage.Common.FilePath.{join}
use verifiable_storage.Common.{DownloadResponse}
use verifiable_storage.Client.{client_io, decode_content_failed, crypto_failed}
use verifiable_storage.Disk.{Disk, create_dir_all}
use verifiable_storage.Disk.Laws.{write-ok}
use verifiable_storage.Client.Verify.{verify_merkle_proof}
use verifiable_storage.Client.Download.{
  FileDownloader, Server, output_path, save_encrypted_file, save_downloaded_file,
  request_file_proof, download_and_verify,
}
use verifiable_storage.Client.Trust.{IsTrusted, verify_merkle_proof_sound}

-- The file is there, and the others are as they were.
saved :
    (d : FileDownloader) (filename : Str) (content : Bytes) (dir : Option Str) (s s' : Disk)
    → save_downloaded_file d filename content dir s ≡ (ok tt, s')
    → lookup (join (output_path d dir) filename) s'.files ≡ some content
unfolding save_downloaded_file
saved d filename content dir s s' h =
    >>=-ok (create_dir_all (output_path d dir)) _ h λ _ t made rest.
      rw (write-ok (join (output_path d dir) filename) content t s' rest)
        (lookup-insert_self (join (output_path d dir) filename) content t.files)

module _ ⦃K : Crates⦄ (L : IsLawful K) where
  -- What the user gets: the plaintext of the content that the server has answered, which is an item of
  -- the tree unless the tree and the check of this answer's proof have collided.
  pub record IsGenuine (respond : Server) (d : FileDownloader) (timestamp : ℕ) (filename : Str)
      (dir : Option Str) (items : List Bytes) (t : MerkleTree) (s : Disk) : Type 0 where
    pub result : DownloadResponse
    pub content : Bytes
    pub plaintext : Bytes
    pub answered : request_file_proof respond d timestamp filename ≡ ok result
    pub sent : K.base64_decode result.file_content ≡ some content
    pub trusted : IsTrusted L items t result content
    pub decrypted : decrypt_file d.signing_key filename d.batch_id content ≡ ok plaintext
    pub on_disk : lookup (join (output_path d dir) filename) s.files ≡ some plaintext

  -- Whatever the server answers: if a download against the root of the client's own tree succeeds,
  -- then the file on disk is the plaintext, under this filename and batch, of the content in the
  -- answer, and this content is one of the items of that tree, or there is a collision: two different
  -- byte strings with one digest, one of them hashed for the tree and one for the proof in the answer.
  pub download_and_verify-IsGenuine :
      (respond : Server) (d : FileDownloader) (timestamp : ℕ) (filename : Str) (dir : Option Str)
      (items : List Bytes) (t : MerkleTree) (s s' : Disk)
      → from_data items ≡ ok t
      → download_and_verify respond d timestamp filename (K.hex_encode t.root) dir s ≡ (ok tt, s')
      → IsGenuine respond d timestamp filename dir items t s'
  unfolding download_and_verify
  download_and_verify-IsGenuine respond d timestamp filename dir items t s s' made h =
      lift-ok (request_file_proof respond d timestamp filename) _ h λ result answered h₁.
        require-ok (result.filename == filename) _ _ h₁ λ named h₂.
          lift-ok (ok_or decode_content_failed (K.base64_decode result.file_content)) _ h₂
            λ content sent h₃.
              lift-ok (verify_merkle_proof result (hash_leaf content) (K.hex_encode t.root)) _ h₃
                λ _ checked h₄.
                  >>=-ok (save_encrypted_file result.filename content (output_path d dir)) _ h₄
                    λ _ s₁ _ h₅.
                      lift-ok
                        (Result.map_err crypto_failed
                          (decrypt_file d.signing_key result.filename d.batch_id content))
                        _ h₅
                        λ plaintext opened h₆.
                          let same = (==_iff result.filename filename).0 named in
                          record {
                            result = result;
                            content = content;
                            plaintext = plaintext;
                            answered = answered;
                            sent =
                                ok_or-ok decode_content_failed (K.base64_decode result.file_content)
                                  content sent;
                            trusted =
                                verify_merkle_proof_sound L items t result content made checked;
                            decrypted =
                                subst
                                  (λ f.
                                    decrypt_file d.signing_key f d.batch_id content ≡ ok plaintext)
                                  same (map_err-ok _ _ opened);
                            on_disk =
                                subst
                                  (λ f.
                                    lookup (join (output_path d dir) f) s'.files ≡ some plaintext)
                                  same (saved d result.filename plaintext dir s₁ s' h₆);
                          }
