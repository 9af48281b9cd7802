-- ===== src/Tests/Codec.antt =====
-- Ways to write values as texts and to read them off, and that reading undoes writing: numbers as
-- characters, with the length in front of each list.
use verifiable_storage.Prelude.{
  ℕ, zero, suc, ◌≡◌, refl, ap, inl, inr, Bool-cases, Option, none, some, List, [], ◌∷◌, arith,
  length, ltb, All, if◌then◌else◌,
}
use verifiable_storage.Prelude.Text.{Str}
use verifiable_storage.Prelude.Utf8.{IsScalar}
use verifiable_storage.Storage.Metadata.{HasText}

-- A way to write a value in front of a text and to read it off.
pub record Codec (A : Type 0) : Type 0 where
  pub enc : A → Str → Str
  pub dec : Str → Option (A × Str)

pub record IsCodec {A : Type 0} (c : Codec A) : Type 0 where
  pub law : (a : A) (rest : Str) → c.dec (c.enc a rest) ≡ some (a, rest)
  pub scalar : (a : A) (rest : Str) → All IsScalar rest → All IsScalar (c.enc a rest)

unfoldable pub bind : {A B : Type 0} → Option A → (A → Option B) → Option B
bind none f = none
bind (some a) f = f a

-- Small numbers are one character, others are counted.
unfoldable pub ones : ℕ → Str → Str
ones zero rest = 0 ∷ rest
ones (suc n) rest = 1 ∷ ones n rest

abbrev pub more : Option (ℕ × Str) → Option (ℕ × Str)
more none = none
more (some (n, rest)) = some (suc n, rest)

unfoldable pub count : Str → Option (ℕ × Str)
count [] = none
count (zero ∷ rest) = some (0, rest)
count (suc c ∷ rest) = more (count rest)

count-ones : (n : ℕ) (rest : Str) → count (ones n rest) ≡ some (n, rest)
unfolding count ones
count-ones zero rest = refl
count-ones (suc n) rest = ap more (count-ones n rest)

ones-IsScalar : (n : ℕ) (rest : Str) → All IsScalar rest → All IsScalar (ones n rest)
unfolding ones
ones-IsScalar zero rest h = (refl, h)
ones-IsScalar (suc n) rest h = (refl, ones-IsScalar n rest h)

unfoldable pub enc_nat : ℕ → Str → Str
enc_nat n rest = if ltb n 128 then n ∷ rest else 128 ∷ ones n rest

unfoldable pub dec_nat : Str → Option (ℕ × Str)
dec_nat [] = none
dec_nat (c ∷ rest) = if ltb c 128 then some (c, rest) else count rest

dec_nat-enc_nat : (n : ℕ) (rest : Str) → dec_nat (enc_nat n rest) ≡ some (n, rest)
unfolding dec_nat enc_nat
dec_nat-enc_nat n rest = elim (Bool-cases (ltb n 128)) [
  | inl e ↦ rw (e, e) refl
  | inr e ↦ rw e (count-ones n rest)
]

enc_nat-IsScalar : (n : ℕ) (rest : Str) → All IsScalar rest → All IsScalar (enc_nat n rest)
unfolding enc_nat
enc_nat-IsScalar n rest h = elim (Bool-cases (ltb n 128)) [
  | inl e ↦ rw e (ground arith, h)
  | inr e ↦ rw e (refl, ones-IsScalar n rest h)
]

abbrev pub nat_codec : Codec ℕ
nat_codec = record { enc = enc_nat; dec = dec_nat }

pub nat_codec_lem : IsCodec nat_codec
nat_codec_lem = record { law = dec_nat-enc_nat; scalar = enc_nat-IsScalar }

module _ {A : Type 0} (c : Codec A) where
  unfoldable pub enc_all : List A → Str → Str
  enc_all [] rest = rest
  enc_all (a ∷ items) rest = c.enc a (enc_all items rest)

  unfoldable pub dec_all : ℕ → Str → Option (List A × Str)
  unfolding bind
  dec_all zero s = some ([], s)
  dec_all (suc n) s = bind (c.dec s) λ p. bind (dec_all n p.1) λ q. some (p.0 ∷ q.0, q.1)

  abbrev pub list_codec : Codec (List A)
  list_codec = record {
    enc = λ items rest. enc_nat (length items) (enc_all items rest);
    dec = λ s. bind (dec_nat s) λ p. dec_all p.0 p.1;
  }

  module _ (h : IsCodec c) where
    dec_all-enc_all :
        (items : List A) (rest : Str)
        → dec_all (length items) (enc_all items rest) ≡ some (items, rest)
    unfolding dec_all enc_all bind
    dec_all-enc_all [] rest = refl
    dec_all-enc_all (a ∷ items) rest =
        rw (h.law a (enc_all items rest), dec_all-enc_all items rest) refl

    enc_all-IsScalar :
        (items : List A) (rest : Str) → All IsScalar rest → All IsScalar (enc_all items rest)
    unfolding enc_all
    enc_all-IsScalar [] rest k = k
    enc_all-IsScalar (a ∷ items) rest k =
        h.scalar a (enc_all items rest) (enc_all-IsScalar items rest k)

    pub list_codec_lem : IsCodec list_codec
    unfolding bind
    list_codec_lem = record {
      law = λ items rest.
          rw (dec_nat-enc_nat (length items) (enc_all items rest)) (dec_all-enc_all items rest);
      scalar = λ items rest k.
          enc_nat-IsScalar (length items) (enc_all items rest) (enc_all-IsScalar items rest k);
    }

module _ {A B : Type 0} (c : Codec A) (d : Codec B) where
  abbrev pub pair_codec : Codec (A × B)
  pair_codec = record {
    enc = λ p rest. c.enc p.0 (d.enc p.1 rest);
    dec = λ s. bind (c.dec s) λ p. bind (d.dec p.1) λ q. some ((p.0, q.0), q.1);
  }

  pub pair_codec_lem : IsCodec c → IsCodec d → IsCodec pair_codec
  unfolding bind
  pair_codec_lem h k = record {
    law = λ p rest. rw (h.law p.0 (d.enc p.1 rest), k.law p.1 rest) refl;
    scalar = λ p rest l. h.scalar p.0 (d.enc p.1 rest) (k.scalar p.1 rest l);
  }

module _ {A B : Type 0} (c : Codec A) (to : A → Option B) (of : B → A) where
  abbrev pub by_codec : Codec B
  by_codec = record {
    enc = λ b rest. c.enc (of b) rest;
    dec = λ s. bind (c.dec s) λ p. bind (to p.0) λ b. some (b, p.1);
  }

  pub by_codec_lem : IsCodec c → ((b : B) → to (of b) ≡ some b) → IsCodec by_codec
  unfolding bind
  by_codec_lem h k = record {
    law = λ b rest. rw (h.law (of b) rest, k b) refl;
    scalar = λ b rest l. h.scalar (of b) rest l;
  }

module _ {A : Type 0} (c : Codec A) where
  abbrev pub print : A → Option Str
  print a = some (c.enc a [])

  abbrev pub parse : Str → Option A
  parse s = bind (c.dec s) λ p. some p.0

  pub parse-HasText : IsCodec c → (a : A) → HasText print parse a
  unfolding bind
  parse-HasText h a = record {
    json = c.enc a [];
    printed = refl;
    scalar = h.scalar a [] tt;
    parsed = rw (h.law a []) refl;
  }
