-- ===== src/Submit/Answers.antt =====
-- validateAnswers, validateValue and isBlankValue of internal/modules/forms/app/submit.go.
use collectr.Prelude.{
  ℕ, pos, String, Bool, true, false, ◌&&◌, ◌||◌, not, Option, none, some, List, [], ◌∷◌, ◌++◌, ◌==◌,
  ltb, if◌then◌else◌, lookup, chars, byte_length, is_date,
}
use collectr.Forms.Schema.{
  FieldId, Field, Schema, Value, Items, text, choice, multi_choice, rating, date, dropdown, file,
  unknown, null, string, any_slice, float64, nil, cons, has_option,
}
use collectr.Forms.Engine.Conditions.{Floats}
use collectr.Forms.Engine.Walk.{Evaluation}
use collectr.Forms.Formats.{FormatError, check_format}

pub data AnswerError : Type 0 where
  required not_option_id not_offered not_list option_not_offered not_number out_of_scale :
      AnswerError
  not_text too_long not_date bad_date not_a_file bad_attachment : AnswerError
  format : FormatError → AnswerError

abbrev pub max_text : ℕ
max_text = 10000

abbrev pub FieldErrors : Type 0
FieldErrors = List (String × AnswerError)

unfoldable pub of_format : Option FormatError → Option AnswerError
of_format none = none
of_format (some e) = some (format e)

module _ {F : Type 0} where
  unfoldable pub is_blank_value : Value F → Bool
  is_blank_value null = true
  is_blank_value (string t) = t == ""
  is_blank_value (any_slice nil) = true
  is_blank_value _ = false

  -- The first loop of validateAnswers.
  unfoldable pub missing_answers : List (String × Value F) → List FieldId → FieldErrors
  unfolding lookup is_blank_value
  missing_answers answers [] = []
  missing_answers answers (fid ∷ rest) =
      let later = missing_answers answers rest in
      elim (lookup fid answers) [
        | none ↦ (fid, required) ∷ later
        | some v ↦ if is_blank_value v then (fid, required) ∷ later else later
      ]

  unfoldable pub offered : Field → Value F → Bool
  unfolding has_option
  offered f (string s) = has_option f s
  offered f _ = false

  unfoldable pub all_offered : Field → Items F → Bool
  unfolding offered
  all_offered f nil = true
  all_offered f (cons item rest) = offered f item && all_offered f rest

  unfoldable pub check_choice : Field → Value F → Option AnswerError
  unfolding has_option
  check_choice f (string s) =
      if not (s == "") && not (has_option f s) then some not_offered else none
  check_choice f _ = some not_option_id

  unfoldable pub check_multi_choice : Field → Value F → Option AnswerError
  unfolding all_offered
  check_multi_choice f (any_slice items) =
      if all_offered f items then none else some option_not_offered
  check_multi_choice f _ = some not_list

module _ (fl : Floats) where
  open fl use {Float, lt_float, of_int}

  unfoldable pub check_rating : Field → Value Float → Option AnswerError
  check_rating f (float64 n) =
      if lt_float n (of_int (pos 1)) || lt_float (of_int f.scale) n then some out_of_scale else none
  check_rating f _ = some not_number

  unfoldable pub check_text : Field → Value Float → Option AnswerError
  unfolding check_format byte_length of_format
  check_text f (string s) =
      if ltb max_text (byte_length (chars s))
      then some too_long
      else of_format (check_format fl f s)
  check_text f _ = some not_text

  unfoldable pub check_date : Field → Value Float → Option AnswerError
  unfolding check_format is_date of_format
  check_date f (string s) =
      if s == "" then none else if is_date s then of_format (check_format fl f s) else some bad_date
  check_date f _ = some not_date

  unfoldable pub validate_value : Field → Value Float → Option AnswerError
  unfolding check_choice check_multi_choice check_rating check_text check_date
  validate_value f v = elim f.type [
    | choice ↦ check_choice f v
    | dropdown ↦ check_choice f v
    | multi_choice ↦ check_multi_choice f v
    | rating ↦ check_rating f v
    | text ↦ check_text f v
    | date ↦ check_date f v
    | file ↦ none
    | unknown _ ↦ none
  ]

  -- The second loop of validateAnswers.
  unfoldable pub wrong_answers : List (FieldId × Field) → List (String × Value Float) → FieldErrors
  unfolding lookup validate_value
  wrong_answers fields [] = []
  wrong_answers fields ((id, v) ∷ rest) =
      let later = wrong_answers fields rest in
      elim (lookup id fields) [
        | none ↦ later
        | some f ↦ elim (validate_value f v) [ none ↦ later | some e ↦ (id, e) ∷ later ]
      ]

  -- The map of errors is the list of what is written to it.
  unfoldable pub validate_answers :
      Schema Float → Evaluation → List (String × Value Float) → FieldErrors
  unfolding missing_answers wrong_answers
  validate_answers s result answers =
      missing_answers answers result.required ++ wrong_answers s.fields answers
