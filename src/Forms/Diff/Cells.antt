-- ===== src/Forms/Diff/Cells.antt =====
-- The cells of the grid of internal/modules/forms/domain/diff.go beside the answers that the engine
-- reads.
use collectr.Prelude.{
  ◌≡◌, refl, String, true, false, some, List, lookup, has, arith, eq_iff, Bool-cases, Option-cases,
  inl, inr,
}
use mathlib.Core.Bool.{false≢true}
use collectr.Forms.Schema.{
  FieldId, Value, null, bool, float64, float32, int, int64, json_number, string, any_slice,
  string_slice, any_map, nil, cons,
}
use collectr.Forms.Engine.Conditions.{Floats, is_empty_value, answer_of}
use collectr.Forms.Diff.Grid.{answered, is_blank, cell_state}

module _ {F : Type 0} where
  -- What the grid shows as blank, the engine takes as no answer.
  blank-empty : (v : Value F) → is_blank v ≡ true → is_empty_value v ≡ true
  unfolding is_blank is_empty_value
  blank-empty null h = refl
  blank-empty (bool b) h = absurd (false≢true h)
  blank-empty (float64 x) h = absurd (false≢true h)
  blank-empty (float32 x) h = absurd (false≢true h)
  blank-empty (int n) h = absurd (false≢true h)
  blank-empty (int64 n) h = absurd (false≢true h)
  blank-empty (json_number s) h = absurd (false≢true h)
  blank-empty (string t) h = rw ((eq_iff t "").0 h) refl
  blank-empty (any_slice nil) h = refl
  blank-empty (any_slice (cons a b)) h = absurd (false≢true h)
  blank-empty (string_slice l) h = absurd (false≢true h)
  blank-empty (any_map m) h = absurd (false≢true h)

module _ (fl : Floats) where
  open fl use {Float}

  answer_of-some :
      (answers : List (String × Value Float)) (field : FieldId) (v : Value Float)
      → answer_of fl answers field ≡ some v
      → (lookup field answers ≡ some v) × (is_empty_value v ≡ false)
  unfolding answer_of
  answer_of-some answers field v h = elim (Option-cases (lookup field answers)) [
    | inl q ↦ absurd (ground (arith, h, q))
    | inr (w, q) ↦ elim (Bool-cases (is_empty_value w)) [
      | inl t ↦ absurd (ground (arith, h, q, t))
      | inr f ↦ let same : w ≡ v = ground (arith, h, q, f) in (rw same at q, rw same at f)
    ]
  ]

  -- A cell of a field that the version asks and the respondent saw is shown as answered wherever the
  -- rules of the engine had an answer to compare.
  cell_state-answered :
      (visible : List String) (answers : List (String × Value Float)) (field : FieldId)
      (v : Value Float)
      → has visible field ≡ true
      → answer_of fl answers field ≡ some v
      → cell_state true visible answers field ≡ answered
  unfolding cell_state
  cell_state-answered visible answers field v seen h =
      let (found, full) = answer_of-some answers field v h in
      let shown : is_blank v ≡ false = ground (arith, full, blank-empty v) in
      rw (seen, found, shown) refl
