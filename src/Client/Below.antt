-- ===== src/Client/Below.antt =====
-- Where a download of bin/client/src/download.rs writes.
use verifiable_storage.Prelude.{
  ℕ, ◌≡◌, ◌≢◌, refl, ap, ◌∙◌, sym, subst, ◌⊎◌, inl, inr, Bool, true, false, Option, List, [], ◌∷◌,
  ◌++◌, take, arith, ◌==◌, ==_iff, length, length-append, Bool-cases,
}
use verifiable_storage.Prelude.Result
use verifiable_storage.Prelude.Result.{Result, ok, err, panic, ok_or, map_err-ok}
use verifiable_storage.Prelude.Text.{Bytes, Str, text, contains}
use verifiable_storage.Prelude.Dict.{str_eq, lookup, insert, lookup-insert}
use verifiable_storage.Prelude.Exec.{Exec, continue, ◌>>=◌, ◌>>◌, lift, require}
use verifiable_storage.Crates.{Crates}
use verifiable_storage.Crypto.{hash_leaf, decrypt_file}
use verifiable_storage.Common.FilePath.{normal, components, join, IsPlain, components-join}
use verifiable_storage.Common.Filename.{validate_filename, validate_filename_iff}
use verifiable_storage.Client.{
  client_io, ClientError, decode_content_failed, crypto_failed, invalid_filename, filename_mismatch,
}
use verifiable_storage.Disk.{Outcome, works, fails, breaks, Disk, write, create_dir_all}
use verifiable_storage.Client.Verify.{verify_merkle_proof}
use verifiable_storage.Client.Download.{
  FileDownloader, Server, output_path, save_encrypted_file, save_downloaded_file,
  request_file_proof, download_and_verify, download_file,
}

-- The path leads to an entry of the directory.
abbrev pub IsBelow : Str → Str → Type 0
IsBelow dir path = (n : Str) × (components path ≡ components dir ++ (normal n ∷ []))

-- Every path has the file that it had, or leads to an entry of the directory.
abbrev pub OnlyBelow : Str → Disk → Disk → Type 0
OnlyBelow dir s s' = (path : Str) → (lookup path s'.files ≡ lookup path s.files) ⊎ IsBelow dir path

OnlyBelow-refl : (dir : Str) (s : Disk) → OnlyBelow dir s s
OnlyBelow-refl dir s path = inl refl

OnlyBelow-trans :
    (dir : Str) (s t u : Disk) → OnlyBelow dir s t → OnlyBelow dir t u → OnlyBelow dir s u
OnlyBelow-trans dir s t u h k path = elim (k path) [
  | inr below ↦ inr below
  | inl same ↦ elim (h path) [ inr below ↦ inr below | inl same' ↦ inl (same ∙ same') ]
]

module _ {A B : Type 0} (dir : Str) where
  continue-OnlyBelow :
      (o : Result ClientError A × Disk) (f : A → Exec ClientError Disk B) (s : Disk)
      → OnlyBelow dir s o.1
      → ((a : A) (t : Disk) → OnlyBelow dir t (f a t).1)
      → OnlyBelow dir s (continue o f).1
  continue-OnlyBelow (ok a, t) f s h k = OnlyBelow-trans dir s t ((f a t).1) h (k a t)
  continue-OnlyBelow (err e, t) f s h k = h
  continue-OnlyBelow (panic, t) f s h k = h

  lift-OnlyBelow :
      (r : Result ClientError A) (f : A → Exec ClientError Disk B) (s : Disk)
      → ((a : A) → r ≡ ok a → OnlyBelow dir s (f a s).1)
      → OnlyBelow dir s ((lift r >>= f) s).1
  lift-OnlyBelow (ok a) f s h = h a refl
  lift-OnlyBelow (err e) f s h = OnlyBelow-refl dir s
  lift-OnlyBelow panic f s h = OnlyBelow-refl dir s

  lift_then-OnlyBelow :
      (r : Result ClientError A) (m : Exec ClientError Disk B) (s : Disk)
      → ((a : A) → r ≡ ok a → OnlyBelow dir s (m s).1)
      → OnlyBelow dir s ((lift r >> m) s).1
  lift_then-OnlyBelow r m s h = lift-OnlyBelow r (λ _. m) s h

require-OnlyBelow :
    {B : Type 0} (dir : Str) (c : Bool) (e : ClientError) (m : Exec ClientError Disk B) (s : Disk)
    → (c ≡ true → OnlyBelow dir s (m s).1)
    → OnlyBelow dir s ((require c e >> m) s).1
require-OnlyBelow dir true e m s h = h refl
require-OnlyBelow dir false e m s h = OnlyBelow-refl dir s

create_dir_all-OnlyBelow :
    (dir path : Str) (files : List (Str × Bytes)) (outcomes : List Outcome)
    → OnlyBelow dir
        (record { files = files; outcomes = outcomes })
        (create_dir_all {E = ClientError} path (record { files = files; outcomes = outcomes })).1
unfolding create_dir_all
create_dir_all-OnlyBelow dir path files [] p = inl refl
create_dir_all-OnlyBelow dir path files (works ∷ rest) p = inl refl
create_dir_all-OnlyBelow dir path files (fails ∷ rest) p = inl refl
create_dir_all-OnlyBelow dir path files (breaks n ∷ rest) p = inl refl

insert-OnlyBelow :
    (dir path p : Str) (content : Bytes) (files : List (Str × Bytes))
    → IsBelow dir path
    → (lookup p (insert path content files) ≡ lookup p files) ⊎ IsBelow dir p
insert-OnlyBelow dir path p content files below = elim (Bool-cases (path == p)) [
  | inl e ↦ inr (subst (IsBelow dir) ((==_iff path p).0 e) below)
  | inr e ↦ inl (rw (lookup-insert, e) refl)
]

write-OnlyBelow :
    (dir path : Str) (content : Bytes) (files : List (Str × Bytes)) (outcomes : List Outcome)
    → IsBelow dir path
    → OnlyBelow dir
        (record { files = files; outcomes = outcomes })
        (write {E = ClientError} path content (record { files = files; outcomes = outcomes })).1
unfolding write
write-OnlyBelow dir path content files [] below p = insert-OnlyBelow dir path p content files below
write-OnlyBelow dir path content files (works ∷ rest) below p =
    insert-OnlyBelow dir path p content files below
write-OnlyBelow dir path content files (fails ∷ rest) below p = inl refl
write-OnlyBelow dir path content files (breaks n ∷ rest) below p =
    insert-OnlyBelow dir path p (take n content) files below

contains-append :
    (s t : Str) (c : ℕ) → contains s c ≡ false → contains t c ≡ false → contains (s ++ t) c ≡ false
contains-append [] t c hs ht = ht
contains-append (d ∷ s) t c hs ht = ground (arith, contains-append s t c)

encrypted-IsPlain : (name : Str) → IsPlain name → IsPlain (name ++ text ".encrypted")
encrypted-IsPlain name p = record {
  ne_nil = λ e. absurd (omega (arith, ap length e, length-append name (text ".encrypted")));
  ne_dot = λ e. absurd (omega (arith, ap length e, length-append name (text ".encrypted")));
  ne_dotdot = λ e. absurd (omega (arith, ap length e, length-append name (text ".encrypted")));
  no_slash = contains-append name (text ".encrypted") b'/' p.no_slash refl;
}

save_encrypted_file-OnlyBelow :
    (dir name : Str) (content : Bytes) (s : Disk)
    → dir ≢ []
    → IsPlain name
    → OnlyBelow dir s (save_encrypted_file name content dir s).1
unfolding save_encrypted_file
save_encrypted_file-OnlyBelow dir name content s ne plain =
    continue-OnlyBelow dir (create_dir_all dir s) _ s
      (create_dir_all-OnlyBelow dir dir s.files s.outcomes)
      λ _ t. write-OnlyBelow dir (join dir (name ++ text ".encrypted")) content t.files t.outcomes (
        name ++ text ".encrypted",
        components-join dir (name ++ text ".encrypted") ne (encrypted-IsPlain name plain),
      )

save_downloaded_file-OnlyBelow :
    (d : FileDownloader) (name : Str) (content : Bytes) (dir : Option Str) (s : Disk)
    → output_path d dir ≢ []
    → IsPlain name
    → OnlyBelow (output_path d dir) s (save_downloaded_file d name content dir s).1
unfolding save_downloaded_file
save_downloaded_file-OnlyBelow d name content dir s ne plain =
    let out = output_path d dir in
    continue-OnlyBelow out (create_dir_all out s) _ s
      (create_dir_all-OnlyBelow out out s.files s.outcomes)
      λ _ t.
        write-OnlyBelow out (join out name) content t.files t.outcomes
          (name, components-join out name ne plain)

module _ ⦃K : Crates⦄ (respond : Server) (d : FileDownloader) (timestamp : ℕ) where
  download_and_verify-OnlyBelow :
      (filename root_hash : Str) (dir : Option Str) (s : Disk)
      → output_path d dir ≢ []
      → IsPlain filename
      → OnlyBelow
          (output_path d dir)
          s
          (download_and_verify respond d timestamp filename root_hash dir s).1
  unfolding download_and_verify
  download_and_verify-OnlyBelow filename root_hash dir s ne plain =
      let out = output_path d dir in
      lift-OnlyBelow out (request_file_proof respond d timestamp filename) _ s λ result _.
        require-OnlyBelow out (result.filename == filename) filename_mismatch _ s λ named.
          let plain' : IsPlain result.filename =
            subst IsPlain (sym ((==_iff result.filename filename).0 named)) plain in
          lift-OnlyBelow out (ok_or decode_content_failed (K.base64_decode result.file_content)) _ s
            λ content _.
              lift_then-OnlyBelow out (verify_merkle_proof result (hash_leaf content) root_hash) _ s
                λ _ _.
                  continue-OnlyBelow out (save_encrypted_file result.filename content out s) _ s
                    (save_encrypted_file-OnlyBelow out result.filename content s ne plain')
                    λ _ t.
                      lift-OnlyBelow out
                        (Result.map_err crypto_failed
                          (decrypt_file d.signing_key result.filename d.batch_id content))
                        _ t
                        λ plaintext _.
                          save_downloaded_file-OnlyBelow d result.filename plaintext dir t ne plain'

  -- Whatever the filename is and the server answers, and whether the download succeeds or fails:
  -- each path of the disk keeps its file, or has the components of the output directory and one
  -- name, if the path of that directory is not empty.
  pub download_file-OnlyBelow :
      (filename root_hash : Str) (dir : Option Str) (s : Disk)
      → output_path d dir ≢ []
      → OnlyBelow
          (output_path d dir)
          s
          (download_file respond d timestamp filename root_hash dir s).1
  unfolding download_file
  download_file-OnlyBelow filename root_hash dir s ne =
      lift_then-OnlyBelow (output_path d dir)
        (Result.map_err invalid_filename (validate_filename filename)) _ s
        λ _ valid.
          let v = (validate_filename_iff filename).0 (map_err-ok _ _ valid) in
          download_and_verify-OnlyBelow filename root_hash dir s ne v.plain
