-- ===== src/Submit/Fits.antt =====
-- What an answer of each type of field has to be: validateValue of internal/modules/forms/app/submit.go.
use mathlib.Core.List.{Memᴰ}
use collectr.Prelude.{
  ◌≤◌, pos, ◌≡◌, refl, String, true, false, none, some, List, [], ◌∷◌, ◌==◌, arith, chars,
  byte_length, is_date, eq_iff, Bool-cases, inl, inr, ◌⊎◌,
}
use collectr.Forms.Schema.{
  FieldType, Field, FieldOption, Value, Items, text, choice, multi_choice, rating, date, dropdown,
  file, unknown, string, any_slice, float64, nil, cons, has_option_in, has_option,
}
use collectr.Forms.Engine.Conditions.{Floats}
use collectr.Forms.Formats.{check_format}
use collectr.Submit.Answers.{
  offered, all_offered, check_choice, check_multi_choice, check_rating, check_text, check_date,
  of_format, validate_value,
}

-- Some option of the field has this id.
abbrev pub IsOffered : Field → String → Type 0
IsOffered f id = (o : FieldOption) × Memᴰ o f.options × (o.id ≡ id)

has_option_in-offered :
    (os : List FieldOption) (id : String)
    → has_option_in os id ≡ true
    → (o : FieldOption) × Memᴰ o os × (o.id ≡ id)
unfolding has_option_in
has_option_in-offered [] id h = cc
has_option_in-offered (o ∷ os) id h = elim (Bool-cases (o.id == id)) [
  | inl same ↦ (o, Memᴰ.head refl, (eq_iff o.id id).0 same)
  | inr other ↦
      let (p, listed, at_id) = has_option_in-offered os id (ground (arith, h, other)) in
      (p, Memᴰ.tail listed, at_id)
]

has_option-IsOffered : (f : Field) (id : String) → has_option f id ≡ true → IsOffered f id
unfolding has_option
has_option-IsOffered f id h = has_option_in-offered f.options id h

module _ {F : Type 0} where
  -- Every item is the id of an option of the field.
  pub data AllOffered (f : Field) : Items F → Type 0 where
    none_chosen : AllOffered f nil
    chosen :
        {rest : Items F} (id : String)
        → IsOffered f id
        → AllOffered f rest
        → AllOffered f (cons (string id) rest)

  all_offered-AllOffered :
      (f : Field) (items : Items F) → all_offered f items ≡ true → AllOffered f items
  unfolding all_offered offered
  all_offered-AllOffered f nil h = none_chosen
  all_offered-AllOffered f (cons (string id) rest) h =
      chosen id (has_option-IsOffered f id (ground (arith, h)))
        (all_offered-AllOffered f rest (ground (arith, h)))
  all_offered-AllOffered f (cons _ rest) h = cc

  -- The text of an option of the field, or none.
  abbrev pub FitsChoice : Field → Value F → Type 0
  FitsChoice f v = (s : String) × (v ≡ string s) × ((s ≡ "") ⊎ IsOffered f s)

  check_choice-Fits : (f : Field) (v : Value F) → check_choice f v ≡ none → FitsChoice f v
  unfolding check_choice
  check_choice-Fits f (string s) h = elim (Bool-cases (s == "")) [
    | inl blank ↦ (s, refl, inl ((eq_iff s "").0 blank))
    | inr full ↦ elim (Bool-cases (has_option f s)) [
      | inl there ↦ (s, refl, inr (has_option-IsOffered f s there))
      | inr away ↦ absurd (ground (arith, h, full, away))
    ]
  ]
  check_choice-Fits f _ h = cc

  abbrev pub FitsChoices : Field → Value F → Type 0
  FitsChoices f v = (items : Items F) × (v ≡ any_slice items) × AllOffered f items

  check_multi_choice-Fits :
      (f : Field) (v : Value F) → check_multi_choice f v ≡ none → FitsChoices f v
  unfolding check_multi_choice
  check_multi_choice-Fits f (any_slice items) h = elim (Bool-cases (all_offered f items)) [
    | inl all ↦ (items, refl, all_offered-AllOffered f items all)
    | inr some_not ↦ absurd (ground (arith, h, some_not))
  ]
  check_multi_choice-Fits f _ h = cc

module _ (fl : Floats) where
  open fl use {Float, lt_float, of_int}

  -- A number that is neither below 1 nor above the scale.
  abbrev pub FitsRating : Field → Value Float → Type 0
  FitsRating f v =
      (n : Float) × (v ≡ float64 n)
      × (lt_float n (of_int (pos 1)) ≡ false)
      × (lt_float (of_int f.scale) n ≡ false)

  check_rating-Fits : (f : Field) (v : Value Float) → check_rating fl f v ≡ none → FitsRating f v
  unfolding check_rating
  check_rating-Fits f (float64 n) h = (n, refl, ground (arith, h), ground (arith, h))
  check_rating-Fits f _ h = cc

  -- A text of at most 10,000 bytes that has the format of the field.
  abbrev pub FitsText : Field → Value Float → Type 0
  FitsText f v =
      (s : String) × (v ≡ string s) × (byte_length (chars s) ≤ 10000) × (check_format fl f s ≡ none)

  of_format-none : (o : _) → of_format o ≡ none → o ≡ none
  unfolding of_format
  of_format-none none h = refl
  of_format-none (some e) h = cc

  check_text-Fits : (f : Field) (v : Value Float) → check_text fl f v ≡ none → FitsText f v
  unfolding check_text
  check_text-Fits f (string s) h =
      (s, refl, ground (arith, h), of_format-none (check_format fl f s) (ground (arith, h)))
  check_text-Fits f _ h = cc

  -- No text, or a day of the calendar that has the format of the field.
  abbrev pub FitsDate : Field → Value Float → Type 0
  FitsDate f v =
      (s : String) × (v ≡ string s)
      × ((s ≡ "") ⊎ ((is_date s ≡ true) × (check_format fl f s ≡ none)))

  check_date-Fits : (f : Field) (v : Value Float) → check_date fl f v ≡ none → FitsDate f v
  unfolding check_date
  check_date-Fits f (string s) h = elim (Bool-cases (s == "")) [
    | inl blank ↦ (s, refl, inl ((eq_iff s "").0 blank))
    | inr full ↦ elim (Bool-cases (is_date s)) [
      | inl day ↦
          let known = of_format-none (check_format fl f s) (ground (arith, h, full, day)) in
          (s, refl, inr (day, known))
      | inr no_day ↦ absurd (ground (arith, h, full, no_day))
    ]
  ]
  check_date-Fits f _ h = cc

  -- What an answer of a field of this type has to be.
  abbrev pub FitsType : FieldType → Field → Value Float → Type 0
  FitsType choice f v = FitsChoice f v
  FitsType dropdown f v = FitsChoice f v
  FitsType multi_choice f v = FitsChoices f v
  FitsType rating f v = FitsRating f v
  FitsType text f v = FitsText f v
  FitsType date f v = FitsDate f v
  FitsType file f v = Unit
  FitsType (unknown _) f v = Unit

  pub validate_value-Fits :
      (f : Field) (v : Value Float) → validate_value fl f v ≡ none → FitsType f.type f v
  unfolding validate_value
  validate_value-Fits f v h = by_type f.type h
    where
      by_type :
          (t : FieldType)
          → (elim t [
            | choice ↦ check_choice f v
            | dropdown ↦ check_choice f v
            | multi_choice ↦ check_multi_choice f v
            | rating ↦ check_rating fl f v
            | text ↦ check_text fl f v
            | date ↦ check_date fl f v
            | file ↦ none
            | unknown _ ↦ none
          ])
            ≡ none
          → FitsType t f v
      by_type choice q = check_choice-Fits f v q
      by_type dropdown q = check_choice-Fits f v q
      by_type multi_choice q = check_multi_choice-Fits f v q
      by_type rating q = check_rating-Fits f v q
      by_type text q = check_text-Fits f v q
      by_type date q = check_date-Fits f v q
      by_type file q = tt
      by_type (unknown _) q = tt
