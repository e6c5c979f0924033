-- ===== src/Forms/Diff/Grid.antt =====
-- BuildColumnRegistry and CellState of internal/modules/forms/domain/diff.go. The map of columns and
-- the slice of its keys are one list of columns in the order of their first appearance.
use collectr.Prelude.{
  ℕ, suc, String, Bool, true, false, not, ◌&&◌, ◌||◌, none, some, List, [], ◌∷◌, ◌++◌, ◌==◌, ltb,
  leb, if◌then◌else◌, lookup, has, map,
}
use collectr.Forms.Schema.{FieldId, Field, Page, Schema, Value, null, string, any_slice, nil}
use collectr.Forms.Diff.Changes.{type_name}

pub record Column : Type 0 where
  pub field_id : FieldId
  pub label : String
  pub type : String
  pub sensitive : Bool
  pub in_versions : List ℕ
  pub retired_after : ℕ
  pub type_variant : String

pub record VersionedSchema (F : Type 0) : Type 0 where
  pub version_no : ℕ
  pub schema : Schema F

-- The key of a column.
abbrev pub is_column : FieldId → String → Column → Bool
is_column fid typ c = c.field_id == fid && c.type == typ

abbrev pub touch : Field → ℕ → Column → Column
touch f v c = record c {
  label = f.label;
  sensitive = c.sensitive || f.sensitive;
  in_versions = c.in_versions ++ v ∷ [];
}

abbrev pub new_column : FieldId → Field → Column
new_column fid f = record {
  field_id = fid;
  label = "";
  type = type_name f.type;
  sensitive = false;
  in_versions = [];
  retired_after = 0;
  type_variant = "";
}

-- One field of a page of the version `v`.
unfoldable pub record_field : FieldId → Field → ℕ → List Column → List Column
unfolding type_name
record_field fid f v [] = touch f v (new_column fid f) ∷ []
record_field fid f v (c ∷ cs) =
    let later = record_field fid f v cs in
    if is_column fid (type_name f.type) c then touch f v c ∷ cs else c ∷ later

unfoldable pub record_fields : List (FieldId × Field) → ℕ → List FieldId → List Column → List Column
unfolding record_field lookup
record_fields fields v [] cols = cols
record_fields fields v (fid ∷ rest) cols = elim (lookup fid fields) [
  | none ↦ record_fields fields v rest cols
  | some f ↦ record_fields fields v rest (record_field fid f v cols)
]

unfoldable pub record_pages : List (FieldId × Field) → ℕ → List Page → List Column → List Column
unfolding record_fields
record_pages fields v [] cols = cols
record_pages fields v (p ∷ ps) cols =
    record_pages fields v ps (record_fields fields v p.fields cols)

-- How many columns a field has.
unfoldable pub type_count : FieldId → List Column → ℕ
type_count fid [] = 0
type_count fid (c ∷ cs) =
    let rest = type_count fid cs in if c.field_id == fid then suc rest else rest

unfoldable pub last_of : List ℕ → ℕ
last_of [] = 0
last_of (n ∷ []) = n
last_of (n ∷ m ∷ rest) = last_of (m ∷ rest)

unfoldable pub finish_column : List Column → ℕ → Column → Column
unfolding type_count last_of
finish_column cols newest c = record c {
  type_variant = if ltb 1 (type_count c.field_id cols) then c.type else "";
  retired_after = if ltb (last_of c.in_versions) newest then last_of c.in_versions else 0;
}

module _ {F : Type 0} where
  -- slices.SortFunc by version number
  unfoldable pub insert_version :
      VersionedSchema F → List (VersionedSchema F) → List (VersionedSchema F)
  insert_version v [] = v ∷ []
  insert_version v (w ∷ ws) =
      let later = insert_version v ws in
      if leb v.version_no w.version_no then v ∷ w ∷ ws else w ∷ later

  unfoldable pub by_version : List (VersionedSchema F) → List (VersionedSchema F)
  unfolding insert_version
  by_version [] = []
  by_version (v ∷ vs) = insert_version v (by_version vs)

  unfoldable pub record_versions : List (VersionedSchema F) → List Column → List Column
  unfolding record_pages
  record_versions [] cols = cols
  record_versions (v ∷ vs) cols =
      record_versions vs (record_pages v.schema.fields v.version_no v.schema.pages cols)

  unfoldable pub newest_of : List (VersionedSchema F) → ℕ
  newest_of [] = 0
  newest_of (v ∷ []) = v.version_no
  newest_of (v ∷ w ∷ ws) = newest_of (w ∷ ws)

  unfoldable pub build_column_registry : List (VersionedSchema F) → List Column
  unfolding by_version record_versions newest_of finish_column
  build_column_registry versions =
      let ordered = by_version versions in
      let cols = record_versions ordered [] in map (finish_column cols (newest_of ordered)) cols

pub data CellState : Type 0 where
  not_asked hidden blank answered : CellState

module _ {F : Type 0} where
  unfoldable pub is_blank : Value F → Bool
  is_blank null = true
  is_blank (string t) = t == ""
  is_blank (any_slice nil) = true
  is_blank _ = false

  unfoldable pub cell_state : Bool → List String → List (String × Value F) → FieldId → CellState
  unfolding is_blank lookup has
  cell_state in_schema visible answers field =
      if not in_schema
      then not_asked
      else if not (has visible field)
      then hidden
      else elim (lookup field answers) [
        | none ↦ blank
        | some v ↦ if is_blank v then blank else answered
      ]
