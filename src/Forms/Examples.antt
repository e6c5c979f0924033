-- ===== src/Forms/Examples.antt =====
-- Forms to run the schema checks and the engine on, and the theorems at these forms.
use collectr.Prelude.{
  ℕ, ◌≡◌, ◌≢◌, refl, pos, pos_part, ltb, eqb, String, Bool, true, false, none, some, List, [], ◌∷◌,
  ok, Fails, Ensures, has, lookup,
}
use collectr.Forms.Schema.{
  Field, Op, Schema, Value, string, show, hide, goto, text, ConsentBlock, Limits,
}
use collectr.Forms.Engine.Conditions.{Floats, navigation_exceeded, eval_condition}
use collectr.Forms.Engine.Pages.{eval_page}
use collectr.Forms.Engine.Walk.{by_page, evaluate, Evaluation}
use collectr.Forms.Engine.Shown.{IsShown, evaluate-IsShown}
use collectr.Forms.Validate.Rules.{always_hidden, ever_shown}
use collectr.Forms.Safety.Hidden.{hidden-ever_shown}
use collectr.Forms.Engine.Path.{IsPath, evaluate-IsPath}
use collectr.Forms.Safety.Groups.{on_the_page, by_page-eq-scan}
use collectr.Forms.Safety.Fits.{BadBetween}
use collectr.Forms.Safety.Published.{validate-evaluate}
use collectr.Forms.Safety.Total.{validate_total}
use collectr.Forms.Validate.Publish.{ValidationResult, validate}

-- Numbers that are never parsed from text, which serve for forms that compare texts.
abbrev naturals : Floats
naturals = record {
  Float = ℕ;
  lt_float = ltb;
  eq_float = eqb;
  of_int = pos_part;
  parse_float = λ s. none;
  format_float = λ n. "0";
  sprint = λ v. "";
}

abbrev text_field : String → Bool → Bool → Field
text_field label required hidden = record {
  type = text;
  label = label;
  required = required;
  hidden = hidden;
  options = [];
  pii = "";
  sensitive = false;
  identifier = false;
  scale = pos 0;
  accept = [];
  max_mb = pos 0;
  multiline = false;
  format = "";
  min = "";
  max = "";
}

abbrev no_limits : Limits
no_limits = record { max_fields = pos 0; max_rules = pos 0 }

abbrev no_consent : ConsentBlock
no_consent = record { purposes = []; sensitive_notice_required = false }

-- Two pages; the answer "no" on the first one jumps to the third.
abbrev branching : Schema ℕ
branching = record {
  v = pos 1;
  pages =
      record { id = "p1"; title = "One"; fields = "a" ∷ "b" ∷ []; next = "" }
      ∷ record { id = "p2"; title = "Two"; fields = "c" ∷ []; next = "" }
      ∷ record { id = "p3"; title = "Three"; fields = "d" ∷ []; next = "" }
      ∷ [];
  fields =
      ("a", text_field "A" true false)
      ∷ ("b", text_field "B" false true)
      ∷ ("c", text_field "C" true false)
      ∷ ("d", text_field "D" false false)
      ∷ [];
  rules =
      record {
        id = "r1";
        on_page = "p1";
        when = record { op = Op.eq; field = "a"; value = string "no" };
        then_actions =
            record { action = goto; target = "p3" } ∷ record { action = show; target = "b" } ∷ [];
        else_actions = [];
      }
      ∷ [];
  consent = no_consent;
  limits = no_limits;
}

abbrev says_no : List (String × Value ℕ)
says_no = ("a", string "no") ∷ []

branching_accepted : validate naturals branching ≡ some (record { ok = true; issues = [] })
unfolding validate
branching_accepted = refl

branching_jumps :
    evaluate naturals branching says_no
    ≡ ok (record { visible = "a" ∷ "b" ∷ "d" ∷ []; required = "a" ∷ []; path = "p1" ∷ "p3" ∷ [] })
unfolding evaluate eval_page eval_condition
branching_jumps = refl

branching_goes_on :
    evaluate naturals branching []
    ≡ ok (record {
      visible = "a" ∷ "c" ∷ "d" ∷ [];
      required = "a" ∷ "c" ∷ [];
      path = "p1" ∷ "p2" ∷ "p3" ∷ [];
    })
unfolding evaluate eval_page eval_condition
branching_goes_on = refl

validate-evaluate_example : Fails (BadBetween branching.rules) (evaluate naturals branching says_no)
validate-evaluate_example =
    validate-evaluate naturals branching (record { ok = true; issues = [] }) says_no
      branching_accepted refl

evaluate-IsPath_example :
    Ensures
      (IsPath naturals branching)
      (λ e. e ≢ navigation_exceeded)
      (evaluate naturals branching says_no)
evaluate-IsPath_example = evaluate-IsPath naturals branching says_no

validate_total_example : (res : ValidationResult) × (validate naturals branching ≡ some res)
validate_total_example = validate_total naturals branching

by_page-eq-scan_example : by_page branching "p1" ≡ on_the_page branching.rules "p1"
by_page-eq-scan_example = by_page-eq-scan branching "p1"

evaluate-IsShown_example :
    IsShown naturals branching
      (record { visible = "a" ∷ "b" ∷ "d" ∷ []; required = "a" ∷ []; path = "p1" ∷ "p3" ∷ [] })
evaluate-IsShown_example =
    evaluate-IsShown naturals branching says_no
      (record { visible = "a" ∷ "b" ∷ "d" ∷ []; required = "a" ∷ []; path = "p1" ∷ "p3" ∷ [] })
      branching_jumps

-- The form without its rule: nothing shows the field "b".
abbrev secretive : Schema ℕ
secretive = record branching { rules = [] }

abbrev shown_pages : Evaluation
shown_pages = record {
  visible = "a" ∷ "c" ∷ "d" ∷ [];
  required = "a" ∷ "c" ∷ [];
  path = "p1" ∷ "p2" ∷ "p3" ∷ [];
}

secretive_pages : evaluate naturals secretive says_no ≡ ok shown_pages
unfolding evaluate eval_page eval_condition
secretive_pages = refl

hidden-ever_shown_example : has shown_pages.visible "b" ≡ false
unfolding ever_shown lookup
hidden-ever_shown_example =
    hidden-ever_shown naturals secretive says_no "b" (text_field "B" false true) shown_pages refl
      refl refl secretive_pages

-- A rule that hides the required field "c" on the answer "no" and has no other branch.
abbrev optional_c : Schema ℕ
optional_c = record branching {
  rules =
      record {
        id = "r1";
        on_page = "p2";
        when = record { op = Op.eq; field = "a"; value = string "no" };
        then_actions = record { action = hide; target = "c" } ∷ [];
        else_actions = [];
      }
      ∷ [];
}

-- Validate takes "c" as always hidden and refuses the form, but it is shown on other answers.
optional_c_refused : always_hidden optional_c "c" ≡ true
unfolding always_hidden
optional_c_refused = refl

optional_c_shown :
    evaluate naturals optional_c []
    ≡ ok (record {
      visible = "a" ∷ "c" ∷ "d" ∷ [];
      required = "a" ∷ "c" ∷ [];
      path = "p1" ∷ "p2" ∷ "p3" ∷ [];
    })
unfolding evaluate eval_page eval_condition
optional_c_shown = refl
