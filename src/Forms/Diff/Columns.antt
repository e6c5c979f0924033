-- ===== src/Forms/Diff/Columns.antt =====
-- Which versions the columns of internal/modules/forms/domain/diff.go stand for.
use collectr.Prelude.{
  ℕ, ◌≡◌, refl, sym, ap, ◌∙◌, String, true, false, ◌&&◌, none, some, List, [], ◌∷◌, ◌++◌, ◌==◌,
  if◌then◌else◌, lookup, map, arith, eq_iff, Bool-cases, Option-cases, inl, inr,
}
use mathlib.Core.List.{append-nil, append_assoc, Perm}
use collectr.Forms.Diff.Order.{IsAscending, by_version-perm, by_version-IsAscending}
use collectr.Forms.Schema.{FieldId, Field, Page}
use collectr.Forms.Diff.Changes.{type_name}
use collectr.Forms.Diff.Grid.{
  Column, VersionedSchema, is_column, record_field, record_fields, record_pages, finish_column,
  by_version, record_versions, newest_of, build_column_registry,
}

-- The versions of the column of a field under a type.
pub versions_of : FieldId → String → List Column → List ℕ
versions_of fid typ [] = []
versions_of fid typ (c ∷ cs) =
    let rest = versions_of fid typ cs in if is_column fid typ c then c.in_versions else rest

-- The version, where a listed field is the one asked for.
abbrev pub asked_field : FieldId → String → FieldId → Field → ℕ → List ℕ
asked_field fid typ id f v = if id == fid && type_name f.type == typ then v ∷ [] else []

pub asked_fields : FieldId → String → List (FieldId × Field) → ℕ → List FieldId → List ℕ
asked_fields fid typ fields v [] = []
asked_fields fid typ fields v (id ∷ rest) =
    let later = asked_fields fid typ fields v rest in
    elim (lookup id fields) [ none ↦ later | some f ↦ asked_field fid typ id f v ++ later ]

pub asked_pages : FieldId → String → List (FieldId × Field) → ℕ → List Page → List ℕ
asked_pages fid typ fields v [] = []
asked_pages fid typ fields v (p ∷ ps) =
    asked_fields fid typ fields v p.fields ++ asked_pages fid typ fields v ps

-- The versions that ask a field under a type, in order.
pub asked : {F : Type 0} → FieldId → String → List (VersionedSchema F) → List ℕ
asked fid typ [] = []
asked fid typ (v ∷ vs) =
    asked_pages fid typ v.schema.fields v.version_no v.schema.pages ++ asked fid typ vs

same_key :
    (fid id : FieldId) (typ ty : String) (c : Column)
    → is_column id ty c ≡ true
    → (id == fid && ty == typ) ≡ is_column fid typ c
same_key fid id typ ty c h =
    let e : c.field_id ≡ id = ground (arith, h, eq_iff c.field_id id) in
    let q : c.type ≡ ty = ground (arith, h, eq_iff c.type ty) in rw (e, q) refl

other_key :
    (fid id : FieldId) (typ ty : String) (c : Column)
    → is_column id ty c ≡ false
    → is_column fid typ c ≡ true
    → (id == fid && ty == typ) ≡ false
other_key fid id typ ty c n h = ground (
  arith,
  n,
  h,
  eq_iff c.field_id fid,
  eq_iff c.type typ,
  eq_iff id fid,
  eq_iff ty typ,
  eq_iff c.field_id id,
  eq_iff c.type ty,
)

versions_of-record_field :
    (fid : FieldId) (typ : String) (id : FieldId) (f : Field) (v : ℕ) (cols : List Column)
    → versions_of fid typ (record_field id f v cols)
      ≡ versions_of fid typ cols ++ asked_field fid typ id f v
unfolding versions_of record_field
versions_of-record_field fid typ id f v [] = refl
versions_of-record_field fid typ id f v (c ∷ cs) =
    elim (Bool-cases (is_column id (type_name f.type) c)) [
      | inl t ↦
          let k = same_key fid id typ (type_name f.type) c t in
          elim (Bool-cases (is_column fid typ c)) [
            | inl b ↦ rw (t, k, b) refl
            | inr b ↦ rw (t, k, b) (sym (append-nil (versions_of fid typ cs)))
          ]
      | inr n ↦ elim (Bool-cases (is_column fid typ c)) [
        | inl b ↦
            rw (n, b, other_key fid id typ (type_name f.type) c n b)
              (sym (append-nil c.in_versions))
        | inr b ↦ rw (n, b) (versions_of-record_field fid typ id f v cs)
      ]
    ]

record_fields-skip :
    (fields : List (FieldId × Field)) (v : ℕ) (id : FieldId) (rest : List FieldId)
    (cols : List Column)
    → lookup id fields ≡ none
    → record_fields fields v (id ∷ rest) cols ≡ record_fields fields v rest cols
unfolding record_fields
record_fields-skip fields v id rest cols q = ground (arith, q)

record_fields-next :
    (fields : List (FieldId × Field)) (v : ℕ) (id : FieldId) (rest : List FieldId)
    (cols : List Column) (f : Field)
    → lookup id fields ≡ some f
    → record_fields fields v (id ∷ rest) cols
      ≡ record_fields fields v rest (record_field id f v cols)
unfolding record_fields
record_fields-next fields v id rest cols f q = ground (arith, q)

asked_fields-skip :
    (fid : FieldId) (typ : String) (fields : List (FieldId × Field)) (v : ℕ) (id : FieldId)
    (rest : List FieldId)
    → lookup id fields ≡ none
    → asked_fields fid typ fields v (id ∷ rest) ≡ asked_fields fid typ fields v rest
unfolding asked_fields
asked_fields-skip fid typ fields v id rest q = ground (arith, q)

asked_fields-next :
    (fid : FieldId) (typ : String) (fields : List (FieldId × Field)) (v : ℕ) (id : FieldId)
    (rest : List FieldId) (f : Field)
    → lookup id fields ≡ some f
    → asked_fields fid typ fields v (id ∷ rest)
      ≡ asked_field fid typ id f v ++ asked_fields fid typ fields v rest
unfolding asked_fields
asked_fields-next fid typ fields v id rest f q = ground (arith, q)

versions_of-record_fields :
    (fid : FieldId) (typ : String) (fields : List (FieldId × Field)) (v : ℕ) (ids : List FieldId)
    (cols : List Column)
    → versions_of fid typ (record_fields fields v ids cols)
      ≡ versions_of fid typ cols ++ asked_fields fid typ fields v ids
unfolding record_fields asked_fields
versions_of-record_fields fid typ fields v [] cols = sym (append-nil (versions_of fid typ cols))
versions_of-record_fields fid typ fields v (id ∷ rest) cols =
    elim (Option-cases (lookup id fields)) [
      | inl q ↦
          ap (versions_of fid typ) (record_fields-skip fields v id rest cols q)
          ∙ versions_of-record_fields fid typ fields v rest cols
          ∙ ap (λ a. versions_of fid typ cols ++ a)
              (sym (asked_fields-skip fid typ fields v id rest q))
      | inr (f, q) ↦
          ap (versions_of fid typ) (record_fields-next fields v id rest cols f q)
          ∙ versions_of-record_fields fid typ fields v rest (record_field id f v cols)
          ∙ ap (λ a. a ++ asked_fields fid typ fields v rest)
              (versions_of-record_field fid typ id f v cols)
          ∙ append_assoc (versions_of fid typ cols) (asked_field fid typ id f v)
              (asked_fields fid typ fields v rest)
          ∙ ap (λ a. versions_of fid typ cols ++ a)
              (sym (asked_fields-next fid typ fields v id rest f q))
    ]

versions_of-record_pages :
    (fid : FieldId) (typ : String) (fields : List (FieldId × Field)) (v : ℕ) (ps : List Page)
    (cols : List Column)
    → versions_of fid typ (record_pages fields v ps cols)
      ≡ versions_of fid typ cols ++ asked_pages fid typ fields v ps
unfolding record_pages asked_pages
versions_of-record_pages fid typ fields v [] cols = sym (append-nil (versions_of fid typ cols))
versions_of-record_pages fid typ fields v (p ∷ ps) cols =
    versions_of-record_pages fid typ fields v ps (record_fields fields v p.fields cols)
    ∙ ap (λ a. a ++ asked_pages fid typ fields v ps)
        (versions_of-record_fields fid typ fields v p.fields cols)
    ∙ append_assoc (versions_of fid typ cols) (asked_fields fid typ fields v p.fields)
        (asked_pages fid typ fields v ps)

versions_of-finish :
    (fid : FieldId) (typ : String) (all : List Column) (newest : ℕ) (cols : List Column)
    → versions_of fid typ (map (finish_column all newest) cols) ≡ versions_of fid typ cols
unfolding versions_of finish_column
versions_of-finish fid typ all newest [] = refl
versions_of-finish fid typ all newest (c ∷ cs) = rw (versions_of-finish fid typ all newest cs) refl

module _ {F : Type 0} where
  versions_of-record_versions :
      (fid : FieldId) (typ : String) (vs : List (VersionedSchema F)) (cols : List Column)
      → versions_of fid typ (record_versions vs cols) ≡ versions_of fid typ cols ++ asked fid typ vs
  unfolding record_versions asked
  versions_of-record_versions fid typ [] cols = sym (append-nil (versions_of fid typ cols))
  versions_of-record_versions fid typ (v ∷ vs) cols =
      let pages = record_pages v.schema.fields v.version_no v.schema.pages cols in
      let here = asked_pages fid typ v.schema.fields v.version_no v.schema.pages in
      versions_of-record_versions fid typ vs pages
      ∙ ap (λ a. a ++ asked fid typ vs)
          (versions_of-record_pages fid typ v.schema.fields v.version_no v.schema.pages cols)
      ∙ append_assoc (versions_of fid typ cols) here (asked fid typ vs)

  -- BuildColumnRegistry brings the versions into an order in which their numbers ascend, each of them
  -- once, and the column of a field under a type lists the versions that ask the field under that type,
  -- in that order; there is no such column, or an empty list, where no version does.
  pub versions_of-registry :
      (fid : FieldId) (typ : String) (versions : List (VersionedSchema F))
      → (ordered : List (VersionedSchema F)) × Perm ordered versions
        × IsAscending ordered
        × (versions_of fid typ (build_column_registry versions) ≡ asked fid typ ordered)
  unfolding build_column_registry versions_of
  versions_of-registry fid typ versions =
      let ordered = by_version versions in
      let cols = record_versions ordered [] in
      (
        ordered,
        by_version-perm versions,
        by_version-IsAscending versions,
        versions_of-finish fid typ cols (newest_of ordered) cols
            ∙ versions_of-record_versions fid typ ordered [],
      )
