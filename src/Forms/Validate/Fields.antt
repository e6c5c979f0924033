-- ===== src/Forms/Validate/Fields.antt =====
-- validateField and validateFormat of validate.go, with the format table of format.go.
use Prim.Native.Nat.{Ordering}
use Prim.Native.String.{compare as compare_text}
use collectr.Prelude.{
  pos, ltb_ℤ, String, Bool, true, false, ◌||◌, ◌&&◌, not, Option, none, some, List, [], ◌∷◌, ◌++◌,
  ◌==◌, if◌then◌else◌, has, trim_space, is_date,
}
use collectr.Forms.Schema.{
  FieldId, OptionId, FieldType, FieldOption, Field, valid_identifier_kind, text, choice,
  multi_choice, rating, date, dropdown, file, unknown,
}
use collectr.Forms.Engine.Conditions.{Floats}
use collectr.Forms.Validate.Issues.{Issue, add_if, error, warning, invalid_field_config}

abbrev pub format_names : List String
format_names = "email" ∷ "phone_vn" ∷ "tax_code" ∷ "national_id" ∷ "url" ∷ "number" ∷ "integer" ∷ []

unfoldable pub known_format : String → Bool
unfolding has
known_format name = has format_names name

unfoldable pub format_numeric : String → Bool
format_numeric name = name == "number" || name == "integer"

abbrev pub bad_if : FieldId → Bool → List Issue
bad_if id test = add_if test invalid_field_config error id

-- The loop over the options; `seen` is its set of ids.
unfoldable pub option_issues : FieldId → List FieldOption → List OptionId → List Issue
unfolding has
option_issues id [] seen = []
option_issues id (o ∷ rest) seen =
    if o.id == ""
    then bad_if id true ++ option_issues id rest seen
    else bad_if id (has seen o.id) ++ option_issues id rest (o.id ∷ seen)

abbrev pub no_options : List FieldOption → Bool
no_options [] = true
no_options (_ ∷ _) = false

-- The `switch` on the type.
unfoldable pub type_issues : FieldId → FieldType → Field → List Issue
unfolding option_issues
type_issues id text f = []
type_issues id date f = []
type_issues id file f = bad_if id (ltb_ℤ f.max_mb (pos 0))
type_issues id choice f = bad_if id (no_options f.options) ++ option_issues id f.options []
type_issues id multi_choice f = bad_if id (no_options f.options) ++ option_issues id f.options []
type_issues id dropdown f = bad_if id (no_options f.options) ++ option_issues id f.options []
type_issues id rating f = bad_if id (ltb_ℤ f.scale (pos 2) || ltb_ℤ (pos 10) f.scale)
type_issues id (unknown _) f = bad_if id true

abbrev pub is_text : FieldType → Bool
is_text text = true
is_text _ = false

abbrev pub is_date_type : FieldType → Bool
is_date_type date = true
is_date_type _ = false

-- The first `if` of validateFormat.
unfoldable pub format_issues : FieldId → Field → List Issue
unfolding known_format
format_issues id f =
    if f.format == ""
    then []
    else if not (is_text f.type)
    then bad_if id true
    else if not (known_format f.format)
    then bad_if id true
    else bad_if id f.multiline

-- `a > b` on texts
abbrev pub text_gt : String → String → Bool
text_gt a b = elim (compare_text a b) [ Ordering.gt ↦ true | _ ↦ false ]

unfoldable pub date_bound_issues : FieldId → Field → List Issue
unfolding is_date
date_bound_issues id f =
    bad_if id (not (f.min == "") && not (is_date f.min))
    ++ (bad_if id (not (f.max == "") && not (is_date f.max))
        ++ bad_if id (not (f.min == "") && not (f.max == "") && text_gt f.min f.max))

unfoldable pub identifier_issues : FieldId → Field → List Issue
unfolding valid_identifier_kind
identifier_issues id f =
    bad_if id (f.identifier && f.pii == "")
    ++ (bad_if id (f.identifier && not (f.pii == "") && not (valid_identifier_kind f.pii))
        ++ add_if (f.identifier && not f.sensitive) invalid_field_config warning id)

module _ (fl : Floats) where
  open fl use {Float, lt_float, parse_float}

  abbrev pub inverted : Option Float → Option Float → Bool
  inverted none _ = false
  inverted (some lo) none = false
  inverted (some lo) (some hi) = lt_float hi lo

  abbrev pub fails_parse : Option Float → Bool
  fails_parse none = true
  fails_parse (some _) = false

  unfoldable pub number_bound_issues : FieldId → Field → List Issue
  number_bound_issues id f =
      let lo = parse_float f.min in
      let hi = parse_float f.max in
      bad_if id (not (f.min == "") && fails_parse lo)
      ++ (bad_if id (not (f.max == "") && fails_parse hi) ++ bad_if id (inverted lo hi))

  unfoldable pub bound_issues : FieldId → Field → List Issue
  unfolding date_bound_issues number_bound_issues format_numeric
  bound_issues id f =
      if f.min == "" && f.max == ""
      then []
      else if is_date_type f.type
      then date_bound_issues id f
      else if format_numeric f.format
      then number_bound_issues id f
      else bad_if id true

  unfoldable pub validate_format : FieldId → Field → List Issue
  unfolding format_issues bound_issues
  validate_format id f = format_issues id f ++ bound_issues id f

  unfoldable pub validate_field : FieldId → Field → List Issue
  unfolding type_issues trim_space validate_format identifier_issues
  validate_field id f =
      type_issues id f.type f
      ++ (bad_if id (trim_space f.label == "") ++ (validate_format id f ++ identifier_issues id f))
