-- ===== src/Forms/Engine/Conditions.antt =====
-- evalCondition of engine.go and its comparisons.
use Prim.Native.Nat.{Ordering}
use Prim.Native.String.{compare as compare_text}
use collectr.Prelude.{
  ℤ, String, Bool, true, false, ◌||◌, ◌&&◌, not, Option, none, some, List, [], ◌∷◌, ◌==◌,
  if◌then◌else◌, lookup, trim_space, contains_text, Result, ok, err, ◌>>=◌,
}
use collectr.Forms.Schema.{
  FieldId, PageId, Op, Condition, Value, Items, ActionKind, null, bool, float64, float32, int,
  int64, json_number, string, any_slice, string_slice, any_map, nil, cons, end,
}

-- The float64 values and what `strconv` and `fmt` make of values: Go's runtime, not the program.
pub record Floats : Type 1 where
  pub Float : Type 0
  pub lt_float : Float → Float → Bool
  pub eq_float : Float → Float → Bool
  pub of_int : ℤ → Float
  pub parse_float : String → Option Float
  pub format_float : Float → String
  pub sprint : Value Float → String

-- The errors of `Evaluate`, with the values that their texts name.
pub data Error : Type 0 where
  page_not_defined : PageId → Error
  navigation_cycle : PageId → Error
  navigation_exceeded : Error
  undefined_field : PageId → FieldId → Error
  unknown_action : String → ActionKind → Error
  unknown_operator : Op → Error
  between_needs_two : Error
  in_rule : String → Error → Error

unfoldable pub apply_order : Op → Ordering → Bool
apply_order Op.gt c = elim c [ Ordering.gt ↦ true | _ ↦ false ]
apply_order Op.gte c = elim c [ Ordering.lt ↦ false | _ ↦ true ]
apply_order Op.lt c = elim c [ Ordering.lt ↦ true | _ ↦ false ]
apply_order Op.lte c = elim c [ Ordering.gt ↦ false | _ ↦ true ]
apply_order _ c = false

module _ {F : Type 0} where
  unfoldable pub is_empty_value : Value F → Bool
  unfolding trim_space
  is_empty_value null = true
  is_empty_value (string t) = trim_space t == ""
  is_empty_value (any_slice nil) = true
  is_empty_value (string_slice []) = true
  is_empty_value (any_map end) = true
  is_empty_value _ = false

  -- `c.Value.([]any)` of length two
  abbrev pub two_elements : Value F → Option (Value F × Value F)
  two_elements (any_slice (cons a (cons b nil))) = some (a, b)
  two_elements _ = none

module _ (fl : Floats) where
  open fl use {Float, lt_float, eq_float, of_int, parse_float, format_float, sprint}

  unfoldable pub cmp_float : Float → Float → Ordering
  cmp_float a b =
      if lt_float a b then Ordering.lt else if lt_float b a then Ordering.gt else Ordering.eq

  unfoldable pub as_number : Value Float → Option Float
  unfolding trim_space
  as_number (float64 t) = some t
  as_number (float32 t) = some t
  as_number (int t) = some (of_int t)
  as_number (int64 t) = some (of_int t)
  as_number (json_number t) = parse_float t
  as_number (string t) = parse_float (trim_space t)
  as_number _ = none

  unfoldable pub as_string : Value Float → String
  as_string null = ""
  as_string (string t) = t
  as_string (bool true) = "true"
  as_string (bool false) = "false"
  as_string (float64 t) = format_float t
  as_string v = sprint v

  unfoldable pub equal : Value Float → Value Float → Bool
  unfolding as_number as_string
  equal answer want =
      let texts = as_string answer == as_string want in
      elim (as_number answer) [
        | none ↦ texts
        | some an ↦ elim (as_number want) [ none ↦ texts | some wn ↦ eq_float an wn ]
      ]

  -- `equal(answer, item)` for some item
  unfoldable pub equals_any : Value Float → Items Float → Bool
  unfolding equal
  equals_any answer nil = false
  equals_any answer (cons item rest) = equal answer item || equals_any answer rest

  unfoldable pub in_list : Value Float → Value Float → Bool
  unfolding equals_any
  in_list answer (any_slice items) = equals_any answer items
  in_list answer _ = false

  -- `equal(item, want)` for some item
  unfoldable pub any_equals : Items Float → Value Float → Bool
  unfolding equal
  any_equals nil want = false
  any_equals (cons item rest) want = equal item want || any_equals rest want

  unfoldable pub any_text_equals : List String → Value Float → Bool
  unfolding equal
  any_text_equals [] want = false
  any_text_equals (item ∷ rest) want = equal (string item) want || any_text_equals rest want

  unfoldable pub contains_value : Value Float → Value Float → Bool
  unfolding any_equals any_text_equals contains_text as_string
  contains_value (any_slice items) want = any_equals items want
  contains_value (string_slice items) want = any_text_equals items want
  contains_value answer want = contains_text (as_string answer) (as_string want)

  -- Dates are compared as texts.
  unfoldable pub compare_texts : Op → String → String → Bool
  unfolding apply_order
  compare_texts op answer want =
      if answer == "" || want == "" then false else apply_order op (compare_text answer want)

  -- The `error` of compareOrder is always nil.
  unfoldable pub compare_order : Op → Value Float → Value Float → Result Error Bool
  unfolding as_number as_string cmp_float compare_texts
  compare_order op answer want =
      let texts = compare_texts op (as_string answer) (as_string want) in
      ok (elim (as_number answer) [
        | none ↦ texts
        | some an ↦ elim (as_number want) [
          | none ↦ texts
          | some wn ↦ apply_order op (cmp_float an wn)
        ]
      ])

  unfoldable pub compare_between : Value Float → Value Float → Result Error Bool
  unfolding compare_order
  compare_between raw bounds = elim (two_elements bounds) [
    | none ↦ err between_needs_two
    | some b ↦ (do
      lo ← compare_order Op.gte raw b.0
      hi ← compare_order Op.lte raw b.1
      ok (lo && hi))
  ]

  -- The second `switch` of evalCondition, for an answered field.
  unfoldable pub compare_answer : Op → Value Float → Value Float → Result Error Bool
  unfolding equal in_list contains_value compare_order compare_between
  compare_answer Op.eq raw want = ok (equal raw want)
  compare_answer Op.neq raw want = ok (not (equal raw want))
  compare_answer Op.is_in raw want = ok (in_list raw want)
  compare_answer Op.not_in raw want = ok (not (in_list raw want))
  compare_answer Op.contains raw want = ok (contains_value raw want)
  compare_answer Op.gt raw want = compare_order Op.gt raw want
  compare_answer Op.gte raw want = compare_order Op.gte raw want
  compare_answer Op.lt raw want = compare_order Op.lt raw want
  compare_answer Op.lte raw want = compare_order Op.lte raw want
  compare_answer Op.between raw want = compare_between raw want
  compare_answer op raw want = err (unknown_operator op)

  -- An unanswered field has no value, or an empty one.
  unfoldable pub answer_of : List (String × Value Float) → FieldId → Option (Value Float)
  unfolding lookup is_empty_value
  answer_of answers field = elim (lookup field answers) [
    | none ↦ none
    | some raw ↦ if is_empty_value raw then none else some raw
  ]

  -- The first `switch`, then the guard on `answered`.
  unfoldable pub decide_condition : Op → Option (Value Float) → Value Float → Result Error Bool
  unfolding compare_answer
  decide_condition Op.is_empty none want = ok true
  decide_condition Op.is_empty (some _) want = ok false
  decide_condition Op.is_not_empty none want = ok false
  decide_condition Op.is_not_empty (some _) want = ok true
  decide_condition _ none want = ok false
  decide_condition op (some raw) want = compare_answer op raw want

  unfoldable pub eval_condition : Condition Float → List (String × Value Float) → Result Error Bool
  unfolding answer_of decide_condition
  eval_condition c answers = decide_condition c.op (answer_of answers c.field) c.value
