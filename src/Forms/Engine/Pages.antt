-- ===== src/Forms/Engine/Pages.antt =====
-- evalPage and defaultNext of engine.go: the fields one page shows, and the page after it.
use collectr.Prelude.{
  String, Bool, true, false, not, none, some, List, [], ◌∷◌, ◌==◌, if◌then◌else◌, lookup, Result,
  ok, err, ◌>>=◌, map_err,
}
use collectr.Forms.Schema.{
  FieldId, PageId, Field, Page, Action, ActionKind, Rule, Schema, Value, show, hide, require,
  optional, goto, end, unknown,
}
use collectr.Forms.Engine.Conditions.{
  Floats, Error, undefined_field, unknown_action, in_rule, eval_condition,
}

-- A Go map read with a default, here `map[FieldID]bool` and the like.
abbrev pub update {ℓ} : {A : Type ℓ} → (String → A) → String → A → String → A
update f k v j = if k == j then v else f j

-- What the rules of a page amend: `shown`, `must`, and the decision `jump`, `ended`, `decided`.
pub record PageState : Type 0 where
  pub shown : FieldId → Bool
  pub must : FieldId → Bool
  pub jump : PageId
  pub ended : Bool
  pub decided : Bool

pub record PageResult : Type 0 where
  pub visible : List FieldId
  pub required : List FieldId
  pub next : PageId

abbrev pub blank_state : PageState
blank_state = record {
  shown = λ _. false;
  must = λ _. false;
  jump = "";
  ended = false;
  decided = false;
}

-- `f, ok := s.Fields[fid]` and the return on `!ok`.
unfoldable pub field_of : PageId → List (FieldId × Field) → FieldId → Result Error Field
unfolding lookup
field_of pid fields fid = elim (lookup fid fields) [
  | none ↦ err (undefined_field pid fid)
  | some f ↦ ok f
]

-- The body of the first loop of evalPage: the declared state of a field.
abbrev pub declare : FieldId → Field → PageState → PageState
declare fid f st = record st {
  shown = update st.shown fid (not f.hidden);
  must = update st.must fid f.required;
}

unfoldable pub declare_fields :
    PageId → List (FieldId × Field) → List FieldId → PageState → Result Error PageState
unfolding field_of
declare_fields pid fields [] st = ok st
declare_fields pid fields (fid ∷ rest) st = do
  f ← field_of pid fields fid
  declare_fields pid fields rest (declare fid f st)

-- The `switch` on one action of the rule `id`.
unfoldable pub perform : String → ActionKind → String → PageState → Result Error PageState
perform id show target st = ok (record st { shown = update st.shown target true })
perform id hide target st = ok (record st { shown = update st.shown target false })
perform id require target st = ok (record st { must = update st.must target true })
perform id optional target st = ok (record st { must = update st.must target false })
perform id goto target st = ok (record st { jump = target; ended = false; decided = true })
perform id end target st = ok (record st { jump = ""; ended = true; decided = true })
perform id (unknown a) target st = err (unknown_action id (unknown a))

unfoldable pub perform_all : String → List Action → PageState → Result Error PageState
unfolding perform
perform_all id [] st = ok st
perform_all id (a ∷ rest) st = do st' ← perform id a.action a.target st; perform_all id rest st'

-- The last loop of evalPage.
unfoldable pub shown_fields : PageState → List FieldId → List FieldId
shown_fields st [] = []
shown_fields st (fid ∷ rest) =
    let later = shown_fields st rest in if st.shown fid then fid ∷ later else later

unfoldable pub required_fields : PageState → List FieldId → List FieldId
required_fields st [] = []
required_fields st (fid ∷ rest) =
    let later = required_fields st rest in
    if st.shown fid then (if st.must fid then fid ∷ later else later) else later

unfoldable pub first_id : List Page → PageId
first_id [] = ""
first_id (p ∷ _) = p.id

-- The loop of defaultNext: the pages after position i are the list's rest.
unfoldable pub next_after : List Page → PageId → PageId
unfolding first_id
next_after [] id = ""
next_after (p ∷ rest) id =
    let later = next_after rest id in
    if p.id == id then (if p.next == "" then first_id rest else p.next) else later

module _ {F : Type 0} where
  unfoldable pub default_next : Schema F → PageId → PageId
  unfolding next_after
  default_next s id = next_after s.pages id

  unfoldable pub next_page : Schema F → PageId → PageState → PageId
  unfolding default_next
  next_page s id st = if st.decided then (if st.ended then "" else st.jump) else default_next s id

module _ (fl : Floats) where
  open fl use {Float}

  abbrev pub Answers : Type 0
  Answers = List (String × Value Float)

  unfoldable pub run_rule : Rule Float → Answers → PageState → Result Error PageState
  unfolding perform_all
  run_rule r answers st = do
    match ← map_err (in_rule r.id) (eval_condition fl r.when answers)
    perform_all r.id (if match then r.then_actions else r.else_actions) st

  -- The loop over the page's rules: later rules override earlier ones.
  unfoldable pub run_rules : List (Rule Float) → Answers → PageState → Result Error PageState
  unfolding run_rule
  run_rules [] answers st = ok st
  run_rules (r ∷ rest) answers st = do st' ← run_rule r answers st; run_rules rest answers st'

  unfoldable pub eval_page :
      Schema Float → Page → List (Rule Float) → Answers → Result Error PageResult
  unfolding declare_fields run_rules shown_fields required_fields next_page
  eval_page s p rules answers = do
    declared ← declare_fields p.id s.fields p.fields blank_state
    st ← run_rules rules answers declared
    ok (record {
      visible = shown_fields st p.fields;
      required = required_fields st p.fields;
      next = next_page s p.id st;
    })
