-- ===== src/Forms/Diff/Impact.antt =====
-- What the classes of changes that Diff reports mean for the answers collected before.
use collectr.Prelude.{
  ◌≡◌, refl, sym, ap, ◌∙◌, Bool, true, false, not, ◌&&◌, some, List, [], ◌∷◌, ◌++◌, ◌==◌, lookup,
  arith, eq_iff, All, Option-cases, inl, inr,
}
use mathlib.Core.Bool.{true≢false}
use collectr.Forms.Schema.{FieldId, Field, FieldOption, Schema, is_choice, has_option}
use collectr.Forms.Diff.Changes.{
  field_type_changed, label_changed, field_now_required, field_now_sensitive, Change, ChangeKind,
  breaking, non_breaking, change_if, type_name, removed_options, added_options, diff_options,
  diff_field, diff_old, any_breaking, changes_of, diff,
}
use collectr.Forms.Diff.Blocking.{none_breaking, diff_old-gone, diff_old-same}

-- What is kept of a field whose earlier answers still fit.
abbrev pub Kept : Field → Field → Type 0
Kept o n =
    (type_name o.type ≡ type_name n.type)
    × (o.required ≡ false → n.required ≡ false)
    × (o.sensitive ≡ false → n.sensitive ≡ false)
    × (is_choice o ≡ true → is_choice n ≡ true → All (λ x. has_option n x.id ≡ true) o.options)

removed_options-All :
    (fid : FieldId) (f : Field) (os : List FieldOption)
    → any_breaking (removed_options fid f os) ≡ false
    → All (λ x. has_option f x.id ≡ true) os
unfolding removed_options any_breaking
removed_options-All fid f [] h = tt
removed_options-All fid f (o ∷ os) h = ground (arith, removed_options-All fid f os)

diff_options-kept :
    (fid : FieldId) (o n : Field)
    → any_breaking (diff_options fid o n) ≡ false
    → is_choice o ≡ true
    → is_choice n ≡ true
    → All (λ x. has_option n x.id ≡ true) o.options
unfolding diff_options
diff_options-kept fid o n h a b =
    let both : any_breaking (removed_options fid n o.options ++ added_options fid o n.options)
        ≡ false =
      rw (a, b) at h in
    removed_options-All fid n o.options
      (none_breaking (removed_options fid n o.options) (added_options fid o n.options) both).0

quiet :
    (b : Bool) (k : ChangeKind) (fid : FieldId) (ys : List Change)
    → any_breaking (change_if b k breaking fid ++ ys) ≡ false
    → (b ≡ false) × (any_breaking ys ≡ false)
unfolding any_breaking
quiet true k fid ys h = cc
quiet false k fid ys h = (refl, h)

diff_field-Kept :
    (fid : FieldId) (o n : Field) → any_breaking (diff_field fid o n) ≡ false → Kept o n
unfolding diff_field
diff_field-Kept fid o n h =
    let (ty, h1) = quiet (not (type_name o.type == type_name n.type)) field_type_changed fid _ h in
    let h2 =
      (none_breaking (change_if (not (o.label == n.label)) label_changed non_breaking fid) _
        h1).1 in
    let (re, h3) = quiet (not o.required && n.required) field_now_required fid _ h2 in
    let (se, h4) =
      quiet (not o.sensitive && n.sensitive) field_now_sensitive fid (diff_options fid o n) h3 in
    (
      ground (arith, ty, eq_iff (type_name o.type) (type_name n.type)),
      (λ q. ground (arith, re, q)),
      (λ q. ground (arith, se, q)),
      diff_options-kept fid o n h4,
    )

-- The field of the draft under the same name keeps what answers rely on.
abbrev pub KeptIn : List (FieldId × Field) → FieldId × Field → Type 0
KeptIn draft (fid, o) = (n : Field) × (lookup fid draft ≡ some n) × Kept o n

diff_old-KeptIn :
    (draft fields : List (FieldId × Field))
    → any_breaking (diff_old draft fields) ≡ false
    → All (KeptIn draft) fields
unfolding diff_old any_breaking
diff_old-KeptIn draft [] h = tt
diff_old-KeptIn draft ((fid, o) ∷ rest) h = elim (Option-cases (lookup fid draft)) [
  | inl q ↦ absurd (true≢false (sym (ap any_breaking (diff_old-gone draft rest fid o q)) ∙ h))
  | inr (n, q) ↦
      let both = sym (ap any_breaking (diff_old-same draft rest fid o n q)) ∙ h in
      let (a, b) = none_breaking (diff_field fid o n) (diff_old draft rest) both in
      ((n, q, diff_field-Kept fid o n a), diff_old-KeptIn draft rest b)
]

module _ {F : Type 0} where
  -- If Diff reports nothing as breaking, every field of the old version is in the draft with its
  -- type, is required or sensitive only if it was, and keeps the options it had if it offers options
  -- in both.
  pub diff-KeptIn :
      (old draft : Schema F)
      → (diff old draft).breaking ≡ false
      → All (KeptIn draft.fields) old.fields
  unfolding diff changes_of
  diff-KeptIn old draft h =
      diff_old-KeptIn draft.fields old.fields
        (none_breaking (diff_old draft.fields old.fields) _ h).0
