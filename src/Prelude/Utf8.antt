-- ===== src/Prelude/Utf8.antt =====
-- `String::from_utf8`, which `read_to_string` uses, and that it undoes `as_bytes`.
use Prim.Native.Nat.{ℕ, suc, ◌+◌, ◌-◌, ◌*◌, ◌/◌, ◌%◌, ◌<◌, ◌≤◌}
use mathlib.Core.Path.{◌≡◌, refl, ap, ◌∙◌}
use mathlib.Core.Logic.{inl, inr}
use mathlib.Core.Bool.{Bool, true, ◌||◌, ◌&&◌, not}
use mathlib.Core.Option.{Option, none, some}
use mathlib.Core.List.{[], ◌∷◌, ◌++◌}
use native.Mathlib.Omega.{arith}
use verifiable_storage.Prelude.Tests.{ltb, if◌then◌else◌, Bool-cases}
use verifiable_storage.Prelude.Lists.{All}
use verifiable_storage.Prelude.Text.{Bytes, Str, utf8, as_bytes}

-- Between characters, or in one: the bytes that it still wants, its bits so far, and its least value.
pub data Mode : Type 0 where
  between : Mode
  inside : ℕ → ℕ → ℕ → Mode

-- What a byte gives: an error, no character yet, or a character.
pub data Next : Type 0 where
  invalid : Next
  partial : Mode → Next
  char : ℕ → Next

abbrev pub is_scalar : ℕ → Bool
is_scalar c = ltb c 0xd800 || (ltb 0xdfff c && ltb c 0x110000)

unfoldable pub next_byte : Mode → ℕ → Next
next_byte between b =
    if ltb b 0x80
    then char b
    else if ltb b 0xc0
    then invalid
    else if ltb b 0xe0
    then partial (inside 1 (b - 0xc0) 0x80)
    else if ltb b 0xf0
    then partial (inside 2 (b - 0xe0) 0x800)
    else if ltb b 0xf8
    then partial (inside 3 (b - 0xf0) 0x10000)
    else invalid
next_byte (inside left bits least) b =
    let c = bits * 64 + (b - 0x80) in
    if ltb b 0x80 || ltb 0xbf b
    then invalid
    else if ltb 1 left
    then partial (inside (left - 1) c least)
    else if ltb c least || not (is_scalar c)
    then invalid
    else char c

abbrev prepend : ℕ → Option Str → Option Str
prepend c none = none
prepend c (some s) = some (c ∷ s)

abbrev mode_of : Next → Mode
mode_of invalid = between
mode_of (partial m) = m
mode_of (char c) = between

abbrev emit : Next → Option Str → Option Str
emit invalid rest = none
emit (partial m) rest = rest
emit (char c) rest = prepend c rest

unfoldable pub decode : Mode → Bytes → Option Str
decode between [] = some []
decode (inside left bits least) [] = none
decode m (b ∷ bs) = emit (next_byte m b) (decode (mode_of (next_byte m b)) bs)

unfoldable pub from_utf8 : Bytes → Option Str
from_utf8 = decode between

abbrev pub IsScalar : ℕ → Type 0
IsScalar c = is_scalar c ≡ true

one_byte : (c : ℕ) → c < 128 → next_byte between c ≡ char c
unfolding next_byte
one_byte c h = ground arith

first_of_two : (n : ℕ) → 2 ≤ n → n < 32 → next_byte between (0xc0 + n) ≡ partial (inside 1 n 0x80)
unfolding next_byte
first_of_two n h k = ground arith

first_of_three : (n : ℕ) → n < 16 → next_byte between (0xe0 + n) ≡ partial (inside 2 n 0x800)
unfolding next_byte
first_of_three n h = ground arith

first_of_four : (n : ℕ) → n < 8 → next_byte between (0xf0 + n) ≡ partial (inside 3 n 0x10000)
unfolding next_byte
first_of_four n h = ground arith

-- A byte inside a character adds six bits.
middle :
    (left m n least : ℕ)
    → m ≡ n / 64
    → next_byte (inside (suc (suc left)) m least) (0x80 + n % 64)
      ≡ partial (inside (suc left) n least)
unfolding next_byte
middle left m n least e = ground arith

last_byte :
    (m c least : ℕ)
    → m ≡ c / 64
    → least ≤ c
    → IsScalar c
    → next_byte (inside 1 m least) (0x80 + c % 64) ≡ char c
unfolding next_byte
last_byte m c least e h k = ground arith

-- The bytes of a character give it back.
decode-utf8 :
    (c : ℕ) (rest : Bytes)
    → IsScalar c
    → decode between (utf8 c ++ rest) ≡ prepend c (decode between rest)
unfolding decode utf8
decode-utf8 c rest h = elim (Bool-cases (ltb c 128)) [
  | inl a ↦ rw (a, one_byte c (ground arith)) refl
  | inr a ↦ elim (Bool-cases (ltb c 2048)) [
    | inl b ↦
        let ge : 128 ≤ c = ground arith in
        let lt : c < 2048 = ground arith in
        rw
          (
            a,
            b,
            first_of_two (c / 64) (omega (arith, ge)) (omega (arith, lt)),
            last_byte (c / 64) c 0x80 refl ge h,
          )
          refl
    | inr b ↦ elim (Bool-cases (ltb c 65536)) [
      | inl d ↦
          let ge : 2048 ≤ c = ground arith in
          let lt : c < 65536 = ground arith in
          rw
            (
              a,
              b,
              d,
              first_of_three (c / 4096) (omega (arith, lt)),
              middle 0 (c / 4096) (c / 64) 0x800 (omega arith),
              last_byte (c / 64) c 0x800 refl ge h,
            )
            refl
      | inr d ↦
          let ge : 65536 ≤ c = ground arith in
          let lt : c < 0x110000 = ground arith in
          rw
            (
              a,
              b,
              d,
              first_of_four (c / 262144) (omega (arith, lt)),
              middle 1 (c / 262144) (c / 4096) 0x10000 (omega arith),
              middle 0 (c / 4096) (c / 64) 0x10000 (omega arith),
              last_byte (c / 64) c 0x10000 refl ge h,
            )
            refl
    ]
  ]
]

pub from_utf8-as_bytes : (s : Str) → All IsScalar s → from_utf8 (as_bytes s) ≡ some s
unfolding from_utf8 as_bytes decode
from_utf8-as_bytes [] h = refl
from_utf8-as_bytes (c ∷ s) h =
    decode-utf8 c (as_bytes s) h.0 ∙ ap (prepend c) (from_utf8-as_bytes s h.1)
