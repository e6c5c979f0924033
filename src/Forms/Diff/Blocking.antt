-- ===== src/Forms/Diff/Blocking.antt =====
-- Diff of internal/modules/forms/domain/diff.go never blocks, and lemmas on lists of changes.
use collectr.Prelude.{
  ◌≡◌, refl, ap, ◌∙◌, Bool, true, false, not, ◌&&◌, ◌||◌, none, some, List, [], ◌∷◌, ◌++◌, ◌==◌,
  lookup, arith, Bool-cases, Option-cases, inl, inr,
}
use collectr.Forms.Schema.{FieldId, Field, FieldOption, Schema, is_choice, has_sensitive_fields}
use collectr.Forms.Diff.Changes.{
  field_removed, field_type_changed, label_changed, field_now_required, field_now_sensitive,
  sensitive_introduced, Change, ChangeKind, Class, breaking, non_breaking, change, change_if,
  type_name, removed_options, added_options, diff_options, diff_field, diff_old, diff_new,
  any_blocked, any_breaking, changes_of, diff,
}

any_blocked-append :
    (xs ys : List Change) → any_blocked (xs ++ ys) ≡ (any_blocked xs || any_blocked ys)
unfolding any_blocked
any_blocked-append [] ys = refl
any_blocked-append (x ∷ xs) ys = ground (arith, any_blocked-append xs ys)

any_breaking-append :
    (xs ys : List Change) → any_breaking (xs ++ ys) ≡ (any_breaking xs || any_breaking ys)
unfolding any_breaking
any_breaking-append [] ys = refl
any_breaking-append (x ∷ xs) ys = ground (arith, any_breaking-append xs ys)

none_blocked :
    (xs ys : List Change)
    → any_blocked xs ≡ false
    → any_blocked ys ≡ false
    → any_blocked (xs ++ ys) ≡ false
none_blocked xs ys h k = rw (any_blocked-append xs ys, h, k) refl

pub none_breaking :
    (xs ys : List Change)
    → any_breaking (xs ++ ys) ≡ false
    → (any_breaking xs ≡ false) × (any_breaking ys ≡ false)
none_breaking xs ys h = ground (arith, any_breaking-append xs ys)

breaking_alone : (k : ChangeKind) (t : FieldId) → any_blocked (change k breaking t) ≡ false
unfolding any_blocked
breaking_alone k t = refl

change_if-open :
    (b : Bool) (k : ChangeKind) (c : Class) (t : FieldId)
    → any_blocked (change k c t) ≡ false
    → any_blocked (change_if b k c t) ≡ false
unfolding any_blocked
change_if-open true k c t h = h
change_if-open false k c t h = refl

removed_options-open :
    (fid : FieldId) (f : Field) (os : List FieldOption)
    → any_blocked (removed_options fid f os) ≡ false
unfolding removed_options any_blocked
removed_options-open fid f [] = refl
removed_options-open fid f (o ∷ os) = ground (arith, removed_options-open fid f os)

added_options-open :
    (fid : FieldId) (f : Field) (os : List FieldOption)
    → any_blocked (added_options fid f os) ≡ false
unfolding added_options any_blocked
added_options-open fid f [] = refl
added_options-open fid f (o ∷ os) = ground (arith, added_options-open fid f os)

diff_options-open : (fid : FieldId) (o n : Field) → any_blocked (diff_options fid o n) ≡ false
unfolding diff_options any_blocked
diff_options-open fid o n = elim (Bool-cases (is_choice o && is_choice n)) [
  | inl t ↦ rw t (
      none_blocked (removed_options fid n o.options) (added_options fid o n.options)
        (removed_options-open fid n o.options) (added_options-open fid o n.options))
  | inr f ↦ rw f refl
]

breaking_open :
    (b : Bool) (k : ChangeKind) (t : FieldId) (ys : List Change)
    → any_blocked ys ≡ false
    → any_blocked (change_if b k breaking t ++ ys) ≡ false
unfolding any_blocked
breaking_open true k t ys h = h
breaking_open false k t ys h = h

non_breaking_open :
    (b : Bool) (k : ChangeKind) (t : FieldId) (ys : List Change)
    → any_blocked ys ≡ false
    → any_blocked (change_if b k non_breaking t ++ ys) ≡ false
unfolding any_blocked
non_breaking_open true k t ys h = h
non_breaking_open false k t ys h = h

diff_field-open : (fid : FieldId) (o n : Field) → any_blocked (diff_field fid o n) ≡ false
unfolding diff_field
diff_field-open fid o n =
    let sensitive =
      breaking_open (not o.sensitive && n.sensitive) field_now_sensitive fid (diff_options fid o n)
        (diff_options-open fid o n) in
    let required =
      breaking_open (not o.required && n.required) field_now_required fid _ sensitive in
    let label = non_breaking_open (not (o.label == n.label)) label_changed fid _ required in
    breaking_open (not (type_name o.type == type_name n.type)) field_type_changed fid _ label

pub diff_old-gone :
    (draft rest : List (FieldId × Field)) (fid : FieldId) (o : Field)
    → lookup fid draft ≡ none
    → diff_old draft ((fid, o) ∷ rest) ≡ change field_removed breaking fid ++ diff_old draft rest
unfolding diff_old
diff_old-gone draft rest fid o q = ground (arith, q)

pub diff_old-same :
    (draft rest : List (FieldId × Field)) (fid : FieldId) (o n : Field)
    → lookup fid draft ≡ some n
    → diff_old draft ((fid, o) ∷ rest) ≡ diff_field fid o n ++ diff_old draft rest
unfolding diff_old
diff_old-same draft rest fid o n q = ground (arith, q)

diff_old-open :
    (draft fields : List (FieldId × Field)) → any_blocked (diff_old draft fields) ≡ false
unfolding diff_old any_blocked
diff_old-open draft [] = refl
diff_old-open draft ((fid, o) ∷ rest) = elim (Option-cases (lookup fid draft)) [
  | inl q ↦ ap any_blocked (diff_old-gone draft rest fid o q) ∙ diff_old-open draft rest
  | inr (n, q) ↦
      ap any_blocked (diff_old-same draft rest fid o n q)
      ∙ none_blocked (diff_field fid o n) (diff_old draft rest) (diff_field-open fid o n)
          (diff_old-open draft rest)
]

diff_new-open : (old fields : List (FieldId × Field)) → any_blocked (diff_new old fields) ≡ false
unfolding diff_new any_blocked
diff_new-open old [] = refl
diff_new-open old ((fid, n) ∷ rest) = ground (arith, diff_new-open old rest)

module _ {F : Type 0} where
  -- No difference between two versions is ever classified as one that blocks publishing.
  diff_never_blocks : (old draft : Schema F) → (diff old draft).blocked ≡ false
  unfolding diff changes_of
  diff_never_blocks old draft =
      none_blocked (diff_old draft.fields old.fields)
        (diff_new old.fields draft.fields
          ++ change_if (not (has_sensitive_fields old) && has_sensitive_fields draft)
              sensitive_introduced breaking "")
        (diff_old-open draft.fields old.fields)
        (none_blocked (diff_new old.fields draft.fields)
          (change_if (not (has_sensitive_fields old) && has_sensitive_fields draft)
            sensitive_introduced breaking "")
          (diff_new-open old.fields draft.fields)
          (change_if-open (not (has_sensitive_fields old) && has_sensitive_fields draft)
            sensitive_introduced breaking "" (breaking_alone sensitive_introduced "")))
