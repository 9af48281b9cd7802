-- ===== src/Client/Runs.antt =====
-- What the steps before a command leave on the client's disk, and paths that are apart.
use mathlib.Core.List.{reverse, reverse-append}
use verifiable_storage.Prelude.{
  ◌≡◌, ◌≢◌, refl, ap, ◌∙◌, sym, inl, inr, none, some, [], ◌∷◌, ◌++◌, Bool-cases, nat_beq,
}
use verifiable_storage.Prelude.Result
use verifiable_storage.Prelude.Result.{Result, ok, err, panic}
use verifiable_storage.Prelude.Text.{Bytes, Str, as_bytes}
use verifiable_storage.Prelude.Dict.{str_eq, lookup}
use verifiable_storage.Prelude.Exec.{Exec, >>=-ok, lift-ok}
use verifiable_storage.Disk.Paths.{lookup-insert_other}
use verifiable_storage.Common.FilePath.{IsPlain, push, join, is_absolute_plain}
use verifiable_storage.Disk.{Disk, create_dir_all, write, exists, read_to_string}
use verifiable_storage.Disk.Laws.{exists-ok, create_dir_all-ok, write-ok, read_to_string-ok}
use verifiable_storage.Crates.{Crates}
use verifiable_storage.Crypto
use verifiable_storage.Crypto.{Keypair}
use verifiable_storage.Client.Upload.{on_disk}
use verifiable_storage.Client.{ClientError, client_io, crypto_failed}
use verifiable_storage.Client.Config.{get_key_file_path}
use verifiable_storage.Client.Keypair.{text_or_nil, load_or_generate, get_or_create_keypair}

-- A path to a name ends in the name.
push_ends : (path name : Str) → (front : Str) × (push path name ≡ front ++ name)
unfolding push
push_ends [] name = ([], refl)
push_ends (c ∷ []) name = elim (Bool-cases (nat_beq c b'/')) [
  | inl e ↦ (c ∷ [], rw e refl)
  | inr e ↦ (c ∷ b'/' ∷ [], rw e refl)
]
push_ends (c ∷ d ∷ path) name =
    let (front, e) = push_ends (d ∷ path) name in (c ∷ front, ap (◌∷◌ c) e)

join_ends : (path name : Str) → IsPlain name → (front : Str) × (join path name ≡ front ++ name)
unfolding join
join_ends path name p = rw (is_absolute_plain name p.no_slash) (push_ends path name)

-- Paths to names whose texts end differently are two.
pub join_differ :
    (path path' name name' : Str)
    → IsPlain name
    → IsPlain name'
    → ((s t : Str) → (reverse name ++ s) ≢ (reverse name' ++ t))
    → join path name ≢ join path' name'
join_differ path path' name name' p p' differ h =
    let (s, e) = join_ends path name p in
    let (t, e') = join_ends path' name' p' in
    differ (reverse s) (reverse t)
      (sym (reverse-append s name) ∙ ap reverse (sym e ∙ h ∙ e') ∙ reverse-append t name')

module _ {S A : Type 0} where
  -- Code on the disk alone that succeeds has succeeded there, and leaves the remote side.
  pub on_disk-ok :
      (m : Exec ClientError Disk A) (s s' : S) (d d' : Disk) (a : A)
      → on_disk m (s, d) ≡ (ok a, (s', d'))
      → (m d ≡ (ok a, d')) × (s' ≡ s)
  on_disk-ok m s s' d d' a h = (
    ap (λ (o : Result ClientError A × (S × Disk)). (o.0, o.1.1)) h,
    ap (λ (o : Result ClientError A × (S × Disk)). o.1.0) (sym h),
  )

module _ ⦃K : Crates⦄ (random : Bytes) where
  -- Getting the keys touches no file but the one of the keys.
  load_or_generate-keeps :
      (data_dir path file : Str) (d d' : Disk) (keys : Keypair)
      → load_or_generate data_dir random path d ≡ (ok keys, d')
      → file ≢ path
      → lookup file d'.files ≡ lookup file d.files
  unfolding load_or_generate
  load_or_generate-keeps data_dir path file d d' keys h differ =
      >>=-ok (exists path) _ {s = d} h λ found v stat h₀.
        let unchanged = ap (lookup file) (exists-ok path found d v stat).1 in
        elim (Bool-cases found) [
          | inl e ↦ >>=-ok (read_to_string path) _ {s = v} (rw e at h₀) λ key_data t got h₁.
              lift-ok
                (Result.map_err crypto_failed
                  (Crypto.load_or_generate_keypair random (some key_data)))
                _ h₁
                λ loaded _ h₂.
                  let (_, _, _, same) = read_to_string-ok path key_data v t got in
                  ap (λ (o : Result ClientError Keypair × Disk). lookup file o.1.files) (sym h₂)
                  ∙ ap (lookup file) same
                  ∙ unchanged
          | inr e ↦
              lift-ok (Result.map_err crypto_failed (Crypto.load_or_generate_keypair random none)) _
                (rw e at h₀)
                λ loaded _ h₁. >>=-ok (create_dir_all data_dir) _ h₁ λ _ t made h₂.
                  >>=-ok (write path (as_bytes (text_or_nil loaded.1))) _ {s = t} h₂
                    λ _ u written h₃.
                      ap (λ (o : Result ClientError Keypair × Disk). lookup file o.1.files) (sym h₃)
                      ∙ rw (write-ok path (as_bytes (text_or_nil loaded.1)) t u written) (
                          lookup-insert_other file path (as_bytes (text_or_nil loaded.1)) t.files
                            differ)
                      ∙ ap (lookup file) (create_dir_all-ok data_dir v t made)
                      ∙ unchanged
        ]

  pub get_or_create_keypair-keeps :
      (data_dir file : Str) (d d' : Disk) (keys : Bytes × Str)
      → get_or_create_keypair data_dir random d ≡ (ok keys, d')
      → file ≢ get_key_file_path data_dir
      → lookup file d'.files ≡ lookup file d.files
  unfolding get_or_create_keypair
  get_or_create_keypair-keeps data_dir file d d' keys h differ =
      >>=-ok (create_dir_all data_dir) _ {s = d} h λ _ t made h₁.
        >>=-ok (load_or_generate data_dir random (get_key_file_path data_dir)) _ {s = t} h₁
          λ pair u got h₂.
            ap (λ (o : Result ClientError (Bytes × Str) × Disk). lookup file o.1.files) (sym h₂)
            ∙ load_or_generate-keeps data_dir (get_key_file_path data_dir) file t u pair got differ
            ∙ ap (lookup file) (create_dir_all-ok data_dir d t made)
