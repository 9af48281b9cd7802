-- ===== src/Protocol/Session/Encrypted.antt =====
-- bin/client/src/upload.rs: the files of a directory and what they are encrypted to.
use mathlib.Core.List.{Memᴰ}
use verifiable_storage.Prelude.{◌≡◌, refl, subst, sym, false, [], ◌∷◌, All}
use verifiable_storage.Prelude.Result.{ok, map_err, >>=-eq-ok, map_err-ok, ok_inj}
use verifiable_storage.Prelude.Text.{Bytes, Str}
use verifiable_storage.Prelude.Sort.{str_leb}
use verifiable_storage.Crates.{Crates}
use verifiable_storage.Crypto.{encrypt_file}
use verifiable_storage.Storage.Filesystem.Batch.{Batch}
use verifiable_storage.Storage.Directory.{IsStrict}
use verifiable_storage.Client.{crypto_failed}
use verifiable_storage.Client.Files.{FileUploader, encrypt_files}

-- What holds of all files holds of one of them.
pub All-Memᴰ : (P : Str × Bytes → Type 0) (v : Batch) (p : Str × Bytes) → All P v → Memᴰ p v → P p
All-Memᴰ P [] p all m = elim m [ ]
All-Memᴰ P (q ∷ v) p all (Memᴰ.head same) = subst P (sym same) all.0
All-Memᴰ P (q ∷ v) p all (Memᴰ.tail m) = All-Memᴰ P v p all.1 m

module _ ⦃K : Crates⦄ (u : FileUploader) where
  -- The second files are the first, encrypted under their names.
  abbrev pub Encrypted : Batch → Batch → Type 0
  Encrypted [] [] = Unit
  Encrypted (p ∷ v) (q ∷ w) =
      (p.0 ≡ q.0) × (encrypt_file u.signing_key p.0 u.batch_id p.1 ≡ ok q.1) × Encrypted v w
  Encrypted _ _ = ⊥

  pub encrypt_files-Encrypted : (v w : Batch) → encrypt_files u v ≡ ok w → Encrypted v w
  unfolding encrypt_files
  encrypt_files-Encrypted [] [] h = tt
  encrypt_files-Encrypted [] (q ∷ w) h = absurd (cc)
  encrypt_files-Encrypted ((f, x) ∷ v) w h =
      let (c, first, h₁) =
        >>=-eq-ok (map_err crypto_failed (encrypt_file u.signing_key f u.batch_id x)) _ h in
      let (rest, more, h₂) = >>=-eq-ok (encrypt_files u v) _ h₁ in
      subst (Encrypted ((f, x) ∷ v)) (ok_inj h₂)
        (refl, map_err-ok crypto_failed _ first, encrypt_files-Encrypted v rest more)

  pub Encrypted-All :
      (P : Str → Type 0) (v w : Batch)
      → Encrypted v w
      → All (λ (p : Str × Bytes). P p.0) v
      → All (λ (p : Str × Bytes). P p.0) w
  Encrypted-All P [] [] e all = tt
  Encrypted-All P [] (q ∷ w) e all = absurd e
  Encrypted-All P (p ∷ v) [] e all = absurd e
  Encrypted-All P (p ∷ v) (q ∷ w) e all = (subst P e.0 all.0, Encrypted-All P v w e.2 all.1)

  -- So they are in order too.
  pub Encrypted-IsStrict : (v w : Batch) → Encrypted v w → IsStrict v → IsStrict w
  Encrypted-IsStrict [] [] e strict = tt
  Encrypted-IsStrict [] (q ∷ w) e strict = absurd e
  Encrypted-IsStrict (p ∷ v) [] e strict = absurd e
  Encrypted-IsStrict (p ∷ v) (q ∷ w) e strict = (
    Encrypted-All (λ f. str_leb f q.0 ≡ false) v w e.2
        (subst (λ g. All (λ (r : Str × Bytes). str_leb r.0 g ≡ false) v) e.0 strict.0),
    Encrypted-IsStrict v w e.2 strict.1,
  )

  -- Each file is found encrypted among the second ones.
  pub Encrypted-Memᴰ :
      (P : Str × Bytes → Type 0) (v w : Batch) (p : Str × Bytes)
      → Encrypted v w
      → All P w
      → Memᴰ p v
      → (c : Bytes) × P (p.0, c) × (encrypt_file u.signing_key p.0 u.batch_id p.1 ≡ ok c)
  Encrypted-Memᴰ P [] w p e all m = elim m [ ]
  Encrypted-Memᴰ P (q ∷ v) [] p e all m = absurd e
  Encrypted-Memᴰ P (q ∷ v) (r ∷ w) p e all (Memᴰ.head same) =
      subst
        (λ (s : Str × Bytes).
          (c : Bytes) × P (s.0, c) × (encrypt_file u.signing_key s.0 u.batch_id s.1 ≡ ok c))
        (sym same) (r.1, subst (λ f. P (f, r.1)) (sym e.0) all.0, e.1)
  Encrypted-Memᴰ P (q ∷ v) (r ∷ w) p e all (Memᴰ.tail m) = Encrypted-Memᴰ P v w p e.2 all.1 m
