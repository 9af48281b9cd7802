-- ===== src/Disk/Paths.antt =====
-- The files of one directory by their names.
use verifiable_storage.Prelude.{
  ℕ, ◌≡◌, ◌≢◌, refl, ap, ◌∙◌, sym, inl, inr, true, some, List, [], ◌∷◌, if◌then◌else◌, Bool-cases,
  ◌==◌, ==_iff, nat_beq, arith,
}
use verifiable_storage.Prelude.Text.{Bytes, Str, contains}
use verifiable_storage.Prelude.Dict.{str_eq, lookup, insert, lookup-insert}
use verifiable_storage.Common.FilePath.{IsPlain, push, join, is_absolute_plain}

-- A write leaves what is under another path.
pub lookup-insert_other :
    (path path' : Str) (x : Bytes) (files : List (Str × Bytes))
    → path ≢ path'
    → lookup path (insert path' x files) ≡ lookup path files
lookup-insert_other path path' x files differ = elim (Bool-cases (path' == path)) [
  | inl e ↦ absurd (differ (sym ((==_iff path' path).0 e)))
  | inr e ↦ rw (lookup-insert, e) refl
]

cons_inj : (c : ℕ) (s t : Str) → (c ∷ s) ≡ (c ∷ t) → s ≡ t
cons_inj c s t h = cc

push_inj : (path f g : Str) → push path f ≡ push path g → f ≡ g
unfolding push
push_inj [] f g h = h
push_inj (c ∷ []) f g h = elim (Bool-cases (nat_beq c b'/')) [
  | inl e ↦ cons_inj c f g (rw e at h)
  | inr e ↦ cons_inj b'/' f g (cons_inj c _ _ (rw e at h))
]
push_inj (c ∷ d ∷ path) f g h = push_inj (d ∷ path) f g (cons_inj c _ _ h)

join_plain : (dir f : Str) → IsPlain f → join dir f ≡ push dir f
unfolding join
join_plain dir f p = rw (is_absolute_plain f p.no_slash) refl

-- Two plain names have two paths.
join_inj : (dir f g : Str) → IsPlain f → IsPlain g → join dir f ≡ join dir g → f ≡ g
join_inj dir f g p q h = push_inj dir f g (sym (join_plain dir f p) ∙ h ∙ join_plain dir g q)

==-join : (dir f g : Str) → IsPlain f → IsPlain g → (join dir f == join dir g) ≡ (f == g)
==-join dir f g p q = elim (Bool-cases (f == g)) [
  | inl e ↦ rw e ((==_iff (join dir f) (join dir g)).1 (ap (join dir) ((==_iff f g).0 e)))
  | inr e ↦ elim (Bool-cases (join dir f == join dir g)) [
    | inl e' ↦
        let same =
          (==_iff f g).1 (join_inj dir f g p q ((==_iff (join dir f) (join dir g)).0 e')) in
        absurd (cc)
    | inr e' ↦ rw (e, e') refl
  ]
]

-- What is written under a plain name is seen under this name alone.
pub lookup-insert-join :
    (dir f g : Str) (x : Bytes) (files : List (Str × Bytes))
    → IsPlain f
    → IsPlain g
    → lookup (join dir g) (insert (join dir f) x files)
      ≡ (if f == g then some x else lookup (join dir g) files)
lookup-insert-join dir f g x files p q =
    lookup-insert (join dir f) (join dir g) x files
    ∙ ap (λ b. if b then some x else lookup (join dir g) files) (==-join dir f g p q)

push_cons : (c : ℕ) (s g : Str) → s ≢ [] → push (c ∷ s) g ≡ c ∷ push s g
unfolding push
push_cons c [] g ne = absurd (ne refl)
push_cons c (d ∷ s) g ne = refl

push_ne_nil : (c : ℕ) (s g : Str) → push (c ∷ s) g ≢ []
unfolding push
push_ne_nil c [] g = ground arith
push_ne_nil c (d ∷ s) g = λ e. cc

push-push : (path b g : Str) → b ≢ [] → push (push path b) g ≡ push path (push b g)
unfolding push
push-push [] b g ne = refl
push-push (c ∷ []) b g ne = elim (Bool-cases (nat_beq c b'/')) [
  | inl e ↦ rw e (push_cons c b g ne)
  | inr e ↦ rw e (ap (◌∷◌ c) (push_cons b'/' b g ne))
]
push-push (c ∷ d ∷ path) b g ne =
    push_cons c (push (d ∷ path) b) g (push_ne_nil d path b)
    ∙ ap (◌∷◌ c) (push-push (d ∷ path) b g ne)

contains-push : (b g : Str) → b ≢ [] → contains (push b g) b'/' ≡ true
unfolding push
contains-push [] g ne = absurd (ne refl)
contains-push (c ∷ []) g ne = ground arith
contains-push (c ∷ d ∷ b) g ne = ground (arith, contains-push (d ∷ b) g λ e. cc)

-- A file of a directory is none of a directory below it.
pub join_below :
    (dir b f g : Str) → IsPlain b → IsPlain f → IsPlain g → join dir f ≢ join (join dir b) g
join_below dir b f g pb pf pg h =
    let ways : push dir f ≡ push dir (push b g) =
      sym (join_plain dir f pf)
      ∙ h
      ∙ join_plain (join dir b) g pg
      ∙ ap (λ p. push p g) (join_plain dir b pb)
      ∙ push-push dir b g pb.ne_nil in
    let slash = contains-push b g pb.ne_nil in
    let same = push_inj dir f (push b g) ways in let none = pf.no_slash in absurd (cc)
