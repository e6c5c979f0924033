-- ===== src/Forms/Formats.antt =====
-- internal/modules/forms/domain/format.go: the formats of an answer and the bounds on it. The regular
-- expressions are written out as tests on the list of characters.
use Prim.Native.Nat.{Ordering}
use Prim.Native.Char.{Char, code}
use Prim.Native.String.{compare as compare_text}
use collectr.Prelude.{
  ℕ, zero, suc, String, Bool, true, false, ◌&&◌, ◌||◌, not, Option, none, some, List, [], ◌∷◌, ◌++◌,
  ◌==◌, eqb, leb, if◌then◌else◌, trim_space, chars, text_of,
}
use collectr.Forms.Schema.{Field, date}
use collectr.Forms.Engine.Conditions.{Floats}

pub data Format : Type 0 where
  email phone_vn tax_code national_id url number integer : Format

-- The keys of `formats`.
unfoldable pub format_of : String → Option Format
format_of name =
    if name == "email"
    then some email
    else if name == "phone_vn"
    then some phone_vn
    else if name == "tax_code"
    then some tax_code
    else if name == "national_id"
    then some national_id
    else if name == "url"
    then some url
    else if name == "number"
    then some number
    else if name == "integer"
    then some integer
    else none

unfoldable pub numeric : Format → Bool
numeric f = elim f [ number ↦ true | integer ↦ true | _ ↦ false ]

-- `\d`
unfoldable pub is_digit : Char → Bool
is_digit c = leb 48 (code c) && leb (code c) 57

-- `\s`
unfoldable pub is_blank_char : Char → Bool
is_blank_char c =
    eqb (code c) 9 || eqb (code c) 10 || eqb (code c) 12 || eqb (code c) 13 || eqb (code c) 32

abbrev is_char : ℕ → Char → Bool
is_char n c = eqb (code c) n

-- `\d{n}$`
unfoldable pub digits_exactly : ℕ → List Char → Bool
unfolding is_digit
digits_exactly zero [] = true
digits_exactly zero (c ∷ cs) = false
digits_exactly (suc n) [] = false
digits_exactly (suc n) (c ∷ cs) = is_digit c && digits_exactly n cs

-- `\d{n}(-\d{3})?$`
unfoldable pub digits_with_branch : ℕ → List Char → Bool
unfolding digits_exactly
digits_with_branch zero [] = true
digits_with_branch zero (c ∷ cs) = is_char 45 c && digits_exactly 3 cs
digits_with_branch (suc n) [] = false
digits_with_branch (suc n) (c ∷ cs) = is_digit c && digits_with_branch n cs

-- `\d*$`, after one digit
unfoldable pub digits_to_end : List Char → Bool
unfolding is_digit
digits_to_end [] = true
digits_to_end (c ∷ cs) = is_digit c && digits_to_end cs

unfoldable pub some_digits_to_end : List Char → Bool
unfolding digits_to_end
some_digits_to_end [] = false
some_digits_to_end (c ∷ cs) = is_digit c && digits_to_end cs

-- `\d*([.,]\d+)?$`
unfoldable pub decimal_to_end : List Char → Bool
unfolding some_digits_to_end
decimal_to_end [] = true
decimal_to_end (c ∷ cs) =
    let rest = decimal_to_end cs in
    if is_digit c then rest else (is_char 46 c || is_char 44 c) && some_digits_to_end cs

unfoldable pub skip_minus : List Char → List Char
skip_minus [] = []
skip_minus (c ∷ cs) = if is_char 45 c then cs else c ∷ cs

-- `\d+([.,]\d+)?$`
unfoldable pub number_to_end : List Char → Bool
unfolding decimal_to_end
number_to_end [] = false
number_to_end (c ∷ cs) = is_digit c && decimal_to_end cs

-- `[^@\s.]*(\.[^@\s.]+)*$`: whether a label has begun, and whether a dot was met.
unfoldable pub domain_to_end : Bool → Bool → List Char → Bool
unfolding is_blank_char
domain_to_end label dots [] = label && dots
domain_to_end label dots (c ∷ cs) =
    let dot = is_char 46 c in
    (if dot then label else not (is_char 64 c || is_blank_char c))
    && domain_to_end (not dot) (dots || dot) cs

-- `[^@\s]*@…`: whether a character stands before the @.
unfoldable pub address_to_end : Bool → List Char → Bool
unfolding domain_to_end
address_to_end begun [] = false
address_to_end begun (c ∷ cs) =
    let rest = address_to_end true cs in
    if is_char 64 c
    then begun && domain_to_end false false cs
    else if is_blank_char c
    then false
    else rest

-- `(?:0|\+84)\d{9}$`
unfoldable pub phone_matches : List Char → Bool
unfolding digits_exactly
phone_matches [] = false
phone_matches (c ∷ cs) =
    is_char 48 c && digits_exactly 9 cs
    || is_char 43 c && elim cs [
      | [] ↦ false
      | d ∷ ds ↦
          is_char 56 d && elim ds [ [] ↦ false | e ∷ es ↦ is_char 52 e && digits_exactly 9 es ]
    ]

abbrev in_host : Char → Bool
in_host c = not (is_blank_char c || is_char 47 c)

-- A dot with a character of the host after it, in what is left of the host.
unfoldable pub inner_dot : List Char → Bool
unfolding is_blank_char
inner_dot [] = false
inner_dot (c ∷ cs) =
    in_host c && (is_char 46 c && elim cs [ [] ↦ false | d ∷ ds ↦ in_host d ] || inner_dot cs)

-- `[^\s/]+\.[^\s/]+`
unfoldable pub host_matches : List Char → Bool
unfolding inner_dot
host_matches [] = false
host_matches (c ∷ cs) = in_host c && inner_dot cs

-- The rest after a prefix, if it is there.
unfoldable pub after_prefix : List Char → List Char → Option (List Char)
after_prefix [] cs = some cs
after_prefix (p ∷ ps) [] = none
after_prefix (p ∷ ps) (c ∷ cs) =
    let rest = after_prefix ps cs in if eqb (code p) (code c) then rest else none

unfoldable pub host_after : String → List Char → Bool
unfolding after_prefix host_matches
host_after scheme cs = elim (after_prefix (chars scheme) cs) [
  | none ↦ false
  | some rest ↦ host_matches rest
]

-- spec.pattern.MatchString
unfoldable pub matches_pattern : Format → List Char → Bool
unfolding address_to_end phone_matches digits_with_branch digits_exactly host_after number_to_end
    skip_minus some_digits_to_end
matches_pattern f cs = elim f [
  | email ↦ address_to_end false cs
  | phone_vn ↦ phone_matches cs
  | tax_code ↦ digits_with_branch 10 cs
  | national_id ↦ digits_exactly 12 cs
  | url ↦ host_after "http://" cs || host_after "https://" cs
  | number ↦ number_to_end (skip_minus cs)
  | integer ↦ some_digits_to_end (skip_minus cs)
]

-- spec.strip
unfoldable pub strip_set : Format → String
strip_set f = elim f [
  | email ↦ ""
  | phone_vn ↦ " .-()"
  | tax_code ↦ " ."
  | national_id ↦ " ."
  | url ↦ ""
  | number ↦ " "
  | integer ↦ " "
]

unfoldable pub contains_char : List Char → Char → Bool
contains_char [] c = false
contains_char (d ∷ ds) c = eqb (code d) (code c) || contains_char ds c

-- stripChars
unfoldable pub strip_chars : List Char → List Char → List Char
unfolding contains_char
strip_chars cutset [] = []
strip_chars cutset (c ∷ cs) =
    let rest = strip_chars cutset cs in if contains_char cutset c then rest else c ∷ rest

-- The messages of CheckFormat, with the bounds that they name; the empty text is `none`.
pub data FormatError : Type 0 where
  hint : Format → FormatError
  at_least at_most not_before not_after : String → FormatError

-- strings.Replace(v, ",", ".", 1)
unfoldable pub comma_to_dot : List Char → List Char
comma_to_dot [] = []
comma_to_dot (c ∷ cs) =
    let rest = comma_to_dot cs in if is_char 44 c then chars "." ++ cs else c ∷ rest

unfoldable pub check_date_bounds : Field → String → Option FormatError
check_date_bounds f v =
    let after : Bool = elim (compare_text v f.max) [ Ordering.gt ↦ true | _ ↦ false ] in
    let before : Bool = elim (compare_text v f.min) [ Ordering.lt ↦ true | _ ↦ false ] in
    if not (f.min == "") && before
    then some (not_before f.min)
    else if not (f.max == "") && after
    then some (not_after f.max)
    else none

module _ (fl : Floats) where
  open fl use {Float, lt_float, parse_float}

  -- A bound that is empty, or that does not parse, is none.
  unfoldable pub bound_of : String → Option Float
  bound_of s = if s == "" then none else parse_float s

  unfoldable pub within_bounds : Field → Float → Option FormatError
  unfolding bound_of
  within_bounds f n =
      let above : Option FormatError = elim (bound_of f.max) [
        | none ↦ none
        | some hi ↦ if lt_float hi n then some (at_most f.max) else none
      ] in
      elim (bound_of f.min) [
        | none ↦ above
        | some lo ↦ if lt_float n lo then some (at_least f.min) else above
      ]

  unfoldable pub check_numeric_bounds : Field → List Char → Option FormatError
  unfolding comma_to_dot within_bounds
  check_numeric_bounds f v =
      if f.min == "" && f.max == "" then none else elim (parse_float (text_of (comma_to_dot v))) [
        | none ↦ none
        | some n ↦ within_bounds f n
      ]

  unfoldable pub check_pattern : Field → Format → List Char → Option FormatError
  unfolding matches_pattern numeric check_numeric_bounds
  check_pattern f spec stripped =
      if not (matches_pattern spec stripped)
      then some (hint spec)
      else if numeric spec
      then check_numeric_bounds f stripped
      else none

  unfoldable pub check_by_type : Field → String → Option FormatError
  unfolding check_date_bounds
  check_by_type f v = elim f.type [ date ↦ check_date_bounds f v | _ ↦ none ]

  unfoldable pub check_format : Field → String → Option FormatError
  unfolding format_of strip_set strip_chars check_pattern check_by_type trim_space
  check_format f raw =
      let v = trim_space raw in
      let formatted : Option FormatError = elim (format_of f.format) [
        | none ↦ none
        | some spec ↦ check_pattern f spec (strip_chars (chars (strip_set spec)) (chars v))
      ] in
      if v == "" then none else if f.format == "" then check_by_type f v else formatted
