-- ===== src/Forms/Schema.antt =====
-- internal/modules/forms/domain/schema.go: a form version, its limits and its lookups.
-- A closed set of string constants is a data type whose last constructor holds any other text.
use collectr.Prelude.{
  ℤ, pos, leb_ℤ, String, Bool, true, false, ◌||◌, not, Option, none, some, List, [], ◌∷◌, ◌==◌,
  if◌then◌else◌, lookup, has,
}

abbrev pub FieldId : Type 0
FieldId = String

abbrev pub PageId : Type 0
PageId = String

abbrev pub OptionId : Type 0
OptionId = String

pub data FieldType : Type 0 where
  text choice multi_choice rating date dropdown file : FieldType
  unknown : String → FieldType

pub data Op : Type 0 where
  eq neq is_in not_in gt gte lt lte between contains is_empty is_not_empty : Op
  unknown : String → Op

pub data ActionKind : Type 0 where
  show hide require optional goto end : ActionKind
  unknown : String → ActionKind

abbrev pub max_fields_default : ℤ
max_fields_default = pos 200

abbrev pub max_rules_default : ℤ
max_rules_default = pos 300

-- What `encoding/json` and Go callers put into an `any`; `F` stands for the float64 values.
mutual
  pub data Value (F : Type 0) : Type 0 where
    null : Value F
    bool : Bool → Value F
    float64 : F → Value F
    float32 : F → Value F
    int : ℤ → Value F
    int64 : ℤ → Value F
    json_number : String → Value F
    string : String → Value F
    any_slice : Items F → Value F
    string_slice : List String → Value F
    any_map : Entries F → Value F

  pub data Items (F : Type 0) : Type 0 where
    nil : Items F
    cons : Value F → Items F → Items F

  pub data Entries (F : Type 0) : Type 0 where
    end : Entries F
    entry : String → Value F → Entries F → Entries F

pub record FieldOption : Type 0 where
  pub id : OptionId
  pub label : String

pub record Field : Type 0 where
  pub type : FieldType
  pub label : String
  pub required : Bool
  pub hidden : Bool
  pub options : List FieldOption
  pub pii : String
  pub sensitive : Bool
  pub identifier : Bool
  pub scale : ℤ
  pub accept : List String
  pub max_mb : ℤ
  pub multiline : Bool
  pub format : String
  pub min : String
  pub max : String

pub record Page : Type 0 where
  pub id : PageId
  pub title : String
  pub fields : List FieldId
  pub next : PageId

pub record Condition (F : Type 0) : Type 0 where
  pub op : Op
  pub field : FieldId
  pub value : Value F

pub record Action : Type 0 where
  pub action : ActionKind
  pub target : String

pub record Rule (F : Type 0) : Type 0 where
  pub id : String
  pub on_page : PageId
  pub when : Condition F
  pub then_actions : List Action
  pub else_actions : List Action

pub record Purpose : Type 0 where
  pub code : String
  pub required : Bool

pub record ConsentBlock : Type 0 where
  pub purposes : List Purpose
  pub sensitive_notice_required : Bool

pub record Limits : Type 0 where
  pub max_fields : ℤ
  pub max_rules : ℤ

-- `fields` is a Go map: the list of its entries in one order of iteration.
pub record Schema (F : Type 0) : Type 0 where
  pub v : ℤ
  pub pages : List Page
  pub fields : List (FieldId × Field)
  pub rules : List (Rule F)
  pub consent : ConsentBlock
  pub limits : Limits

abbrev pub identifier_kinds : List String
identifier_kinds = "email" ∷ "phone" ∷ []

unfoldable pub valid_identifier_kind : String → Bool
unfolding has
valid_identifier_kind kind = has identifier_kinds kind

-- The loop of `Schema.Page`.
unfoldable pub find_page : List Page → PageId → Option Page
find_page [] id = none
find_page (p ∷ ps) id = let rest = find_page ps id in if p.id == id then some p else rest

-- `_, ok := m[k]`
unfoldable pub is_some {ℓ} : {A : Type ℓ} → Option A → Bool
is_some none = false
is_some (some _) = true

unfoldable pub has_option_in : List FieldOption → OptionId → Bool
has_option_in [] id = false
has_option_in (o ∷ os) id = o.id == id || has_option_in os id

unfoldable pub has_option : Field → OptionId → Bool
unfolding has_option_in
has_option f id = has_option_in f.options id

unfoldable pub is_choice : Field → Bool
is_choice f = elim f.type [ choice ↦ true | multi_choice ↦ true | dropdown ↦ true | _ ↦ false ]

module _ {F : Type 0} where
  unfoldable pub page : Schema F → PageId → Option Page
  unfolding find_page
  page s id = find_page s.pages id

  unfoldable pub has_field : Schema F → FieldId → Bool
  unfolding is_some lookup
  has_field s id = is_some (lookup id s.fields)

  -- The inner loop of `IdentifierField`, over one page's list.
  unfoldable pub identifier_in : Schema F → List FieldId → Option (FieldId × Field)
  unfolding lookup
  identifier_in s [] = none
  identifier_in s (fid ∷ rest) =
      let later = identifier_in s rest in
      elim (lookup fid s.fields) [
        | none ↦ later
        | some f ↦ if f.identifier then some (fid, f) else later
      ]

  unfoldable pub identifier_on : Schema F → List Page → Option (FieldId × Field)
  unfolding identifier_in
  identifier_on s [] = none
  identifier_on s (p ∷ ps) =
      let later = identifier_on s ps in
      elim (identifier_in s p.fields) [ none ↦ later | some found ↦ some found ]

  unfoldable pub identifier_field : Schema F → Option (FieldId × Field)
  unfolding identifier_on
  identifier_field s = identifier_on s s.pages

unfoldable pub any_sensitive : List (FieldId × Field) → Bool
any_sensitive [] = false
any_sensitive ((_, f) ∷ rest) = f.sensitive || any_sensitive rest

unfoldable pub any_pii : List (FieldId × Field) → Bool
any_pii [] = false
any_pii ((_, f) ∷ rest) = not (f.pii == "") || f.sensitive || f.identifier || any_pii rest

module _ {F : Type 0} where
  unfoldable pub has_sensitive_fields : Schema F → Bool
  unfolding any_sensitive
  has_sensitive_fields s = any_sensitive s.fields

  unfoldable pub has_pii_fields : Schema F → Bool
  unfolding any_pii
  has_pii_fields s = any_pii s.fields

  unfoldable pub effective_limits : Schema F → Limits
  effective_limits s = record {
    max_fields =
        if leb_ℤ s.limits.max_fields (pos 0) then max_fields_default else s.limits.max_fields;
    max_rules = if leb_ℤ s.limits.max_rules (pos 0) then max_rules_default else s.limits.max_rules;
  }
