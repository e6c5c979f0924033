-- ===== src/Forms/Diff/Changes.antt =====
-- Diff and diffOptions of internal/modules/forms/domain/diff.go. A change is kept without its
-- message, which words the other fields.
use collectr.Prelude.{
  String, Bool, true, false, not, ◌&&◌, ◌||◌, none, some, List, [], ◌∷◌, ◌++◌, ◌==◌, if◌then◌else◌,
  lookup,
}
use collectr.Forms.Schema.{
  FieldId, Field, FieldOption, FieldType, Schema, is_choice, has_option, has_sensitive_fields, text,
  choice, multi_choice, rating, date, dropdown, file, unknown,
}

pub data ChangeKind : Type 0 where
  field_removed field_type_changed label_changed field_now_required : ChangeKind
  field_now_sensitive field_added sensitive_introduced option_removed option_added : ChangeKind

pub data Class : Type 0 where
  non_breaking breaking blocked : Class

pub record Change : Type 0 where
  pub kind : ChangeKind
  pub class : Class
  pub target : FieldId

pub record DiffResult : Type 0 where
  pub changes : List Change
  pub blocked : Bool
  pub breaking : Bool

-- The closure `add`.
abbrev pub change : ChangeKind → Class → FieldId → List Change
change kind class target = record { kind = kind; class = class; target = target } ∷ []

abbrev pub change_if : Bool → ChangeKind → Class → FieldId → List Change
change_if b kind class target = if b then change kind class target else []

-- The text that a type is stored as.
unfoldable pub type_name : FieldType → String
type_name t = elim t [
  | text ↦ "text"
  | choice ↦ "choice"
  | multi_choice ↦ "multi_choice"
  | rating ↦ "rating"
  | date ↦ "date"
  | dropdown ↦ "dropdown"
  | file ↦ "file"
  | unknown s ↦ s
]

unfoldable pub removed_options : FieldId → Field → List FieldOption → List Change
unfolding has_option
removed_options fid draft [] = []
removed_options fid draft (o ∷ rest) =
    change_if (not (has_option draft o.id)) option_removed breaking fid
    ++ removed_options fid draft rest

unfoldable pub added_options : FieldId → Field → List FieldOption → List Change
unfolding has_option
added_options fid old [] = []
added_options fid old (n ∷ rest) =
    change_if (not (has_option old n.id)) option_added non_breaking fid
    ++ added_options fid old rest

unfoldable pub diff_options : FieldId → Field → Field → List Change
unfolding is_choice removed_options added_options
diff_options fid old draft =
    if is_choice old && is_choice draft
    then removed_options fid draft old.options ++ added_options fid old draft.options
    else []

-- A field that both versions have.
unfoldable pub diff_field : FieldId → Field → Field → List Change
unfolding diff_options type_name
diff_field fid o n =
    change_if (not (type_name o.type == type_name n.type)) field_type_changed breaking fid
    ++ (change_if (not (o.label == n.label)) label_changed non_breaking fid
        ++ (change_if (not o.required && n.required) field_now_required breaking fid
            ++ (change_if (not o.sensitive && n.sensitive) field_now_sensitive breaking fid
                ++ diff_options fid o n)))

unfoldable pub diff_old : List (FieldId × Field) → List (FieldId × Field) → List Change
unfolding lookup diff_field
diff_old draft [] = []
diff_old draft ((fid, o) ∷ rest) =
    let later = diff_old draft rest in
    elim (lookup fid draft) [
      | none ↦ change field_removed breaking fid ++ later
      | some n ↦ diff_field fid o n ++ later
    ]

unfoldable pub diff_new : List (FieldId × Field) → List (FieldId × Field) → List Change
unfolding lookup
diff_new old [] = []
diff_new old ((fid, n) ∷ rest) =
    let later = diff_new old rest in
    elim (lookup fid old) [
      | some o ↦ later
      | none ↦ change field_added (if n.required then breaking else non_breaking) fid ++ later
    ]

-- The last loop of Diff.
abbrev pub is_blocked : Class → Bool
is_blocked c = elim c [ blocked ↦ true | _ ↦ false ]

abbrev pub is_breaking : Class → Bool
is_breaking c = elim c [ non_breaking ↦ false | _ ↦ true ]

unfoldable pub any_blocked : List Change → Bool
any_blocked [] = false
any_blocked (c ∷ rest) = is_blocked c.class || any_blocked rest

unfoldable pub any_breaking : List Change → Bool
any_breaking [] = false
any_breaking (c ∷ rest) = is_breaking c.class || any_breaking rest

module _ {F : Type 0} where
  unfoldable pub changes_of : Schema F → Schema F → List Change
  unfolding diff_old diff_new has_sensitive_fields
  changes_of old draft =
      diff_old draft.fields old.fields
      ++ (diff_new old.fields draft.fields
          ++ change_if (not (has_sensitive_fields old) && has_sensitive_fields draft)
              sensitive_introduced breaking "")

  unfoldable pub diff : Schema F → Schema F → DiffResult
  unfolding changes_of any_blocked any_breaking
  diff old draft =
      let changes = changes_of old draft in
      record { changes = changes; blocked = any_blocked changes; breaking = any_breaking changes }
