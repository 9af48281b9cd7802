-- ===== src/Common/FilePath.antt =====
-- `std::path` on Unix, as far as the program uses it: the components of a path, its file name and
-- the joining of paths.
use mathlib.Core.List.{append_assoc}
use verifiable_storage.Prelude.{
  ℕ, ◌≡◌, ◌≢◌, refl, ap, sym, Bool, true, false, Option, none, some, List, [], ◌∷◌, ◌++◌, arith,
  nat_beq, ◌==◌, ==_iff, if◌then◌else◌, Bool-cases, inl, inr,
}
use verifiable_storage.Prelude.Text.{Str, text, contains}

pub data Component : Type 0 where
  root_dir cur_dir parent_dir : Component
  normal : Str → Component

cons_head : ℕ → List Str → List Str
cons_head c [] = (c ∷ []) ∷ []
cons_head c (s ∷ segments) = (c ∷ s) ∷ segments

-- The texts between the slashes.
unfoldable pub split : Str → List Str
unfolding cons_head
split [] = [] ∷ []
split (c ∷ s) = if nat_beq c b'/' then [] ∷ split s else cons_head c (split s)

-- Behind the first segment, `.` and nothing are skipped.
unfoldable pub inner : Str → List Component
inner s =
    if s == []
    then []
    else if s == text "."
    then []
    else if s == text ".."
    then parent_dir ∷ []
    else normal s ∷ []

unfoldable pub inners : List Str → List Component
unfolding inner
inners [] = []
inners (s ∷ segments) = inner s ++ inners segments

unfoldable pub is_absolute : Str → Bool
is_absolute [] = false
is_absolute (c ∷ s) = nat_beq c b'/'

-- The first segment of a relative path may be `.`.
unfoldable pub leading : Bool → Str → List Component
unfolding inner
leading true s = root_dir ∷ []
leading false s = if s == text "." then cur_dir ∷ [] else inner s

split_components : Bool → List Str → List Component
unfolding leading inners
split_components absolute [] = []
split_components absolute (s ∷ segments) = leading absolute s ++ inners segments

unfoldable pub components : Str → List Component
unfolding split_components split is_absolute
components path = split_components (is_absolute path) (split path)

last_name : List Component → Option Str
last_name [] = none
last_name (normal s ∷ []) = some s
last_name (c ∷ []) = none
last_name (c ∷ d ∷ cs) = last_name (d ∷ cs)

unfoldable pub file_name : Str → Option Str
unfolding last_name components
file_name path = last_name (components path)

-- The path, a slash unless it is empty or ends in one, and the name.
unfoldable pub push : Str → Str → Str
push [] name = name
push (c ∷ []) name = if nat_beq c b'/' then c ∷ name else c ∷ b'/' ∷ name
push (c ∷ d ∷ path) name = c ∷ push (d ∷ path) name

-- `path.join(name)`: an absolute name replaces the path.
unfoldable pub join : Str → Str → Str
unfolding push is_absolute
join path name = if is_absolute name then name else push path name

-- One component of a path and nothing else.
pub record IsPlain (name : Str) : Type 0 where
  pub ne_nil : name ≢ []
  pub ne_dot : name ≢ text "."
  pub ne_dotdot : name ≢ text ".."
  pub no_slash : contains name b'/' ≡ false

pub split_plain : (name : Str) → contains name b'/' ≡ false → split name ≡ name ∷ []
unfolding split
split_plain [] h = refl
split_plain (c ∷ s) h = ground (arith, split_plain s)

pub inner_plain : (name : Str) → IsPlain name → inner name ≡ normal name ∷ []
unfolding inner
inner_plain name p = ground (
  arith,
  ==_iff name [],
  ==_iff name (text "."),
  ==_iff name (text ".."),
  p.ne_nil,
  p.ne_dot,
  p.ne_dotdot,
)

pub is_absolute_plain : (name : Str) → contains name b'/' ≡ false → is_absolute name ≡ false
unfolding is_absolute
is_absolute_plain [] h = refl
is_absolute_plain (c ∷ s) h = ground arith

pub components_plain : (name : Str) → IsPlain name → components name ≡ normal name ∷ []
unfolding components
components_plain name p =
    rw (is_absolute_plain name p.no_slash, split_plain name p.no_slash)
      (unfold leading inners in
        ground (arith, inner_plain name p, ==_iff name (text "."), p.ne_dot))

pub file_name_plain : (name : Str) → IsPlain name → file_name name ≡ some name
unfolding last_name file_name
file_name_plain name p = ap last_name (components_plain name p)

-- The segments of a path, and of the path with a plain name pushed onto it.
record Pushed (path name : Str) : Type 0 where
  first : Str
  rest : List Str
  rest' : List Str
  before : split path ≡ first ∷ rest
  after : split (push path name) ≡ first ∷ rest'
  adds : inners rest' ≡ inners rest ++ (normal name ∷ [])

inner_nil : inner [] ≡ []
unfolding inner ◌==◌
inner_nil = refl

push_Pushed : (path name : Str) → path ≢ [] → IsPlain name → Pushed path name
unfolding push split inners
push_Pushed [] name ne p = absurd (ne refl)
push_Pushed (c ∷ []) name ne p = elim (Bool-cases (nat_beq c b'/')) [
  | inl e ↦ record {
    first = [];
    rest = [] ∷ [];
    rest' = name ∷ [];
    before = ground arith;
    after = ground (arith, split_plain name p.no_slash);
    adds = rw (inner_plain name p, inner_nil);
  }
  | inr e ↦ record {
    first = c ∷ [];
    rest = [];
    rest' = name ∷ [];
    before = ground arith;
    after = ground (arith, split_plain name p.no_slash);
    adds = rw (inner_plain name p);
  }
]
push_Pushed (c ∷ d ∷ path) name ne p =
    let ih = push_Pushed (d ∷ path) name (λ q. cc) p in
    elim (Bool-cases (nat_beq c b'/')) [
      | inl e ↦ record {
        first = [];
        rest = ih.first ∷ ih.rest;
        rest' = ih.first ∷ ih.rest';
        before = rw e (ap (◌∷◌ []) ih.before);
        after = rw e (ap (◌∷◌ []) ih.after);
        adds = rw ih.adds (sym (append_assoc (inner ih.first) (inners ih.rest) (normal name ∷ [])));
      }
      | inr e ↦ record {
        first = c ∷ ih.first;
        rest = ih.rest;
        rest' = ih.rest';
        before = rw e (ap (cons_head c) ih.before);
        after = rw e (ap (cons_head c) ih.after);
        adds = ih.adds;
      }
    ]

is_absolute-push : (path name : Str) → path ≢ [] → is_absolute (push path name) ≡ is_absolute path
unfolding push is_absolute
is_absolute-push [] name ne = absurd (ne refl)
is_absolute-push (c ∷ []) name ne = ground arith
is_absolute-push (c ∷ d ∷ path) name ne = refl

-- A plain name joined to a path adds one component below it, so it cannot leave the directory.
pub components-join :
    (path name : Str)
    → path ≢ []
    → IsPlain name
    → components (join path name) ≡ components path ++ (normal name ∷ [])
unfolding components
components-join path name ne p =
    let q = push_Pushed path name ne p in
    unfold join in
    rw (is_absolute_plain name p.no_slash, is_absolute-push path name ne, q.before, q.after)
      (rw q.adds (
        sym (append_assoc (leading (is_absolute path) q.first) (inners q.rest) (normal name ∷ []))))
