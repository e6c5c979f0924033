-- ===== src/Forms/Validate/Rules.antt =====
-- Step 3 of Validate: validateCondition, validateAction, and everShown, alwaysHidden, fieldPage.
use collectr.Prelude.{
  String, Bool, true, false, ◌||◌, ◌&&◌, not, Option, none, some, List, [], ◌∷◌, ◌++◌, ◌==◌,
  if◌then◌else◌, has, lookup,
}
use collectr.Forms.Schema.{
  FieldId, PageId, Field, Page, Op, Action, ActionKind, Rule, Schema, Value, Items, null, string,
  any_slice, nil, cons, show, hide, require, optional, goto, end, unknown, has_field, is_choice,
  has_option,
}
use collectr.Forms.Validate.Issues.{Issue, add_if, error, dangling_reference, invalid_field_config}

abbrev pub known_op : Op → Bool
known_op (Op.unknown _) = false
known_op _ = true

unfoldable pub on_page : List FieldId → FieldId → Bool
unfolding has
on_page fields id = has fields id

-- The function fieldPage: the first page that lists a field.
unfoldable pub home_page : List Page → FieldId → Option PageId
unfolding on_page
home_page [] id = none
home_page (p ∷ rest) id =
    let later = home_page rest id in if on_page p.fields id then some p.id else later

unfoldable pub show_of : ActionKind → Bool
show_of show = true
show_of _ = false

unfoldable pub hide_of : ActionKind → Bool
hide_of hide = true
hide_of _ = false

-- A `show` of the field among the actions.
unfoldable pub shows : List Action → FieldId → Bool
unfolding show_of
shows [] id = false
shows (a ∷ rest) id = show_of a.action && a.target == id || shows rest id

-- hasAction(actions, ActionHide, target)
unfoldable pub hides : List Action → FieldId → Bool
unfolding hide_of
hides [] id = false
hides (a ∷ rest) id = hide_of a.action && a.target == id || hides rest id

abbrev pub no_actions : List Action → Bool
no_actions [] = true
no_actions (_ ∷ _) = false

module _ {F : Type 0} where
  unfoldable pub ever_shown_by : List (Rule F) → FieldId → Bool
  unfolding shows
  ever_shown_by [] id = false
  ever_shown_by (r ∷ rest) id = shows (r.then_actions ++ r.else_actions) id || ever_shown_by rest id

  unfoldable pub ever_shown : Schema F → FieldId → Bool
  unfolding ever_shown_by
  ever_shown s id = ever_shown_by s.rules id

  unfoldable pub always_hidden_by : Schema F → List (Rule F) → FieldId → Bool
  unfolding hides ever_shown
  always_hidden_by s [] id = false
  always_hidden_by s (r ∷ rest) id =
      hides r.then_actions id
        && (hides r.else_actions id || no_actions r.else_actions)
        && not (ever_shown s id)
      || always_hidden_by s rest id

  unfoldable pub always_hidden : Schema F → FieldId → Bool
  unfolding always_hidden_by
  always_hidden s id = always_hidden_by s s.rules id

  -- The `bad` of a value that is a text and no option of the field.
  unfoldable pub option_gone : String → Field → Value F → List Issue
  unfolding has_option
  option_gone id f (string t) = add_if (not (has_option f t)) dangling_reference error id
  option_gone id f _ = []

  unfoldable pub options_gone : String → Field → Items F → List Issue
  unfolding option_gone
  options_gone id f nil = []
  options_gone id f (cons v rest) = option_gone id f v ++ options_gone id f rest

  -- The loop over conditionValues.
  unfoldable pub values_gone : String → Field → Value F → List Issue
  unfolding options_gone option_gone
  values_gone id f null = []
  values_gone id f (any_slice items) = options_gone id f items
  values_gone id f v = option_gone id f v

  unfoldable pub choice_issues : String → Option Field → Value F → List Issue
  unfolding is_choice values_gone
  choice_issues id none v = []
  choice_issues id (some f) v = if is_choice f then values_gone id f v else []

  unfoldable pub validate_condition : Schema F → Rule F → List Issue
  unfolding choice_issues lookup
  validate_condition s r =
      if known_op r.when.op
      then choice_issues r.id (lookup r.when.field s.fields) r.when.value
      else add_if true invalid_field_config error r.id

  -- An action on a field, from the page `from`.
  unfoldable pub target_issues : Schema F → String → PageId → FieldId → List Issue
  unfolding has_field home_page
  target_issues s id from target =
      if not (has_field s target)
      then add_if true dangling_reference error id
      else elim (home_page s.pages target) [
        | none ↦ []
        | some home ↦ add_if (not (home == from)) dangling_reference error id
      ]

  unfoldable pub validate_action :
      Schema F → String → PageId → ActionKind → String → List PageId → List Issue
  unfolding target_issues has
  validate_action s id from show target ids = target_issues s id from target
  validate_action s id from hide target ids = target_issues s id from target
  validate_action s id from require target ids = target_issues s id from target
  validate_action s id from optional target ids = target_issues s id from target
  validate_action s id from goto target ids =
      add_if (not (has ids target)) dangling_reference error id
  validate_action s id from end target ids = []
  validate_action s id from (unknown _) target ids = add_if true invalid_field_config error id

  unfoldable pub validate_actions : Schema F → Rule F → List Action → List PageId → List Issue
  unfolding validate_action
  validate_actions s r [] ids = []
  validate_actions s r (a ∷ rest) ids =
      validate_action s r.id r.on_page a.action a.target ids ++ validate_actions s r rest ids

  -- The body of the loop over the rules; `ids` are the pages of the form.
  unfoldable pub rule_issues : Schema F → Rule F → List PageId → List Issue
  unfolding validate_condition validate_actions has has_field
  rule_issues s r ids =
      add_if (not (has ids r.on_page)) dangling_reference error r.id
      ++ (add_if (not (r.when.field == "") && not (has_field s r.when.field)) dangling_reference
            error r.id
          ++ (validate_condition s r
              ++ validate_actions s r (r.then_actions ++ r.else_actions) ids))

  unfoldable pub rules_issues : Schema F → List (Rule F) → List PageId → List Issue
  unfolding rule_issues
  rules_issues s [] ids = []
  rules_issues s (r ∷ rest) ids = rule_issues s r ids ++ rules_issues s rest ids
