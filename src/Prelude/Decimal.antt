-- ===== src/Prelude/Decimal.antt =====
-- `parse` and `to_string` of Rust's unsigned integers.
use Prim.Native.Nat.{ℕ, zero, suc, ◌+◌, ◌-◌, ◌*◌, ◌/◌, ◌%◌, ◌<◌, ◌≤◌}
use mathlib.Core.Path.{◌≡◌, refl}
use mathlib.Core.Logic.{inl, inr}
use mathlib.Core.Bool.{false, ◌&&◌}
use mathlib.Core.Option.{Option, none, some}
use mathlib.Core.List.{[], ◌∷◌, ◌++◌}
use native.Mathlib.Omega.{arith}
use verifiable_storage.Prelude.Tests.{ltb, leb, nat_beq, if◌then◌else◌, Bool-cases}
use verifiable_storage.Prelude.Text.{Str}

-- One digit more, as long as the number stays below the bound.
unfoldable add_digit : ℕ → ℕ → ℕ → Option ℕ
add_digit bound m c =
    if leb 48 c && leb c 57 && ltb (10 * m + (c - 48)) bound then some (10 * m + (c - 48)) else none

abbrev and_then : Option ℕ → (ℕ → Option ℕ) → Option ℕ
and_then none f = none
and_then (some m) f = f m

unfoldable parse_digits : ℕ → ℕ → Str → Option ℕ
parse_digits bound m [] = some m
parse_digits bound m (c ∷ s) = and_then (add_digit bound m c) λ n. parse_digits bound n s

abbrev parse_nonempty : ℕ → Str → Option ℕ
parse_nonempty bound [] = none
parse_nonempty bound (c ∷ s) = parse_digits bound 0 (c ∷ s)

-- A sign `+` may stand in front.
unfoldable pub parse_unsigned : ℕ → Str → Option ℕ
unfolding parse_digits add_digit
parse_unsigned bound [] = none
parse_unsigned bound (c ∷ s) =
    if nat_beq c b'+' then parse_nonempty bound s else parse_nonempty bound (c ∷ s)

-- The digits of a number, on fuel for which the number is enough.
unfoldable digits : ℕ → ℕ → Str
digits zero n = (48 + n % 10) ∷ []
digits (suc k) n =
    let rest = digits k (n / 10) in if ltb n 10 then (48 + n) ∷ [] else rest ++ ((48 + n % 10) ∷ [])

unfoldable pub to_string : ℕ → Str
unfolding digits
to_string n = digits n n

-- What is parsed is below the bound.
parse_digits-lt :
    (bound m : ℕ) (s : Str) (n : ℕ) → m < bound → parse_digits bound m s ≡ some n → n < bound
unfolding parse_digits add_digit
parse_digits-lt bound m [] n lt h = ground arith
parse_digits-lt bound m (c ∷ s) n lt h =
    elim (Bool-cases (leb 48 c && leb c 57 && ltb (10 * m + (c - 48)) bound)) [
      | inl e ↦ parse_digits-lt bound (10 * m + (c - 48)) s n (ground arith) (rw e at h)
      | inr e ↦ absurd (ground arith)
    ]

parse_nonempty-lt :
    (bound : ℕ) (s : Str) (n : ℕ) → 0 < bound → parse_nonempty bound s ≡ some n → n < bound
parse_nonempty-lt bound [] n pos h = absurd (cc)
parse_nonempty-lt bound (c ∷ s) n pos h = parse_digits-lt bound 0 (c ∷ s) n pos h

pub parse_unsigned-lt :
    (bound : ℕ) (s : Str) (n : ℕ) → 0 < bound → parse_unsigned bound s ≡ some n → n < bound
unfolding parse_unsigned
parse_unsigned-lt bound [] n pos h = absurd (cc)
parse_unsigned-lt bound (c ∷ s) n pos h = elim (Bool-cases (nat_beq c b'+')) [
  | inl e ↦ parse_nonempty-lt bound s n pos (rw e at h)
  | inr e ↦ parse_nonempty-lt bound (c ∷ s) n pos (rw e at h)
]

parse_digits-snoc :
    (bound m : ℕ) (s : Str) (c : ℕ)
    → parse_digits bound m (s ++ (c ∷ []))
      ≡ and_then (parse_digits bound m s) (λ n. add_digit bound n c)
unfolding parse_digits add_digit
parse_digits-snoc bound m [] c = last (add_digit bound m c)
  where
    last : (o : Option ℕ) → and_then o (λ n. some n) ≡ o
    last none = refl
    last (some n) = refl
parse_digits-snoc bound m (d ∷ s) c =
    next (λ n. parse_digits-snoc bound n s c) (add_digit bound m d)
  where
    next :
        ((n : ℕ)
          → parse_digits bound n (s ++ (c ∷ []))
            ≡ and_then (parse_digits bound n s) (λ n. add_digit bound n c))
        → (o : Option ℕ)
        → and_then o (λ n. parse_digits bound n (s ++ (c ∷ [])))
          ≡ and_then (and_then o (λ n. parse_digits bound n s)) (λ n. add_digit bound n c)
    next rest none = refl
    next rest (some n) = rest n

parse_digits-digits :
    (bound k n : ℕ) → n ≤ k → n < bound → parse_digits bound 0 (digits k n) ≡ some n
unfolding digits add_digit parse_digits
parse_digits-digits bound zero n le lt = ground arith
parse_digits-digits bound (suc k) n le lt = elim (Bool-cases (ltb n 10)) [
  | inl e ↦ rw e (ground arith)
  | inr e ↦
      rw
        (
          e,
          parse_digits-snoc bound 0 (digits k (n / 10)) (48 + n % 10),
          parse_digits-digits bound k (n / 10) (ground arith) (ground arith),
        )
        (ground arith)
]

digits_head : (k n : ℕ) → (c : ℕ) × (s : Str) × (digits k n ≡ (c ∷ s)) × (48 ≤ c)
unfolding digits
digits_head zero n = (48 + n % 10, [], refl, omega arith)
digits_head (suc k) n =
    let (c, s, e, le) = digits_head k (n / 10) in
    elim (Bool-cases (ltb n 10)) [
      | inl small ↦ (48 + n, [], rw small refl, omega arith)
      | inr large ↦ (c, s ++ ((48 + n % 10) ∷ []), rw (large, e) refl, le)
    ]

-- A number below the bound is parsed from its text.
pub parse_unsigned-to_string :
    (bound n : ℕ) → n < bound → parse_unsigned bound (to_string n) ≡ some n
unfolding parse_unsigned to_string
parse_unsigned-to_string bound n lt =
    let (c, s, e, le) = digits_head n n in
    let other : nat_beq c b'+' ≡ false = ground arith in
    let parsed = parse_digits-digits bound n n (omega arith) lt in rw (e, other) (rw e at parsed)
