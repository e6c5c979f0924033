-- ===== src/Forms/Engine/Errors.antt =====
-- Where the errors of one page come from: a predicate that holds of each source holds of the error.
use collectr.Prelude.{
  ◌≡◌, ◌≢◌, refl, String, Option, none, some, List, [], ◌∷◌, lookup, Option-cases, inl, inr, All,
  map_err, Fails, Fails-bind, Fails-map_err, if◌then◌else◌, true, false,
}
use collectr.Forms.Schema.{
  FieldId, PageId, Field, Page, Rule, Schema, Condition, Op, Value, Action, ActionKind, unknown,
}
use collectr.Forms.Engine.Conditions.{
  Floats, Error, undefined_field, unknown_action, unknown_operator, between_needs_two, in_rule,
  eval_condition, compare_answer, decide_condition, answer_of, two_elements,
}
use collectr.Forms.Engine.Pages.{
  Answers, PageState, declare, field_of, declare_fields, perform, perform_all, run_rule, run_rules,
  eval_page, blank_state,
}

module _ (P : Error → Type 0) where
  abbrev pub FieldFits : PageId → List (FieldId × Field) → FieldId → Type 0
  FieldFits pid fields fid = lookup fid fields ≡ none → P (undefined_field pid fid)

  abbrev pub ActionFits : String → Action → Type 0
  ActionFits id a = (x : String) → a.action ≡ unknown x → P (unknown_action id (unknown x))

  abbrev pub OpFits : Op → Type 0
  OpFits op = (x : String) → op ≡ unknown x → P (unknown_operator (unknown x))

  field_of-Fails :
      (pid : PageId) (fields : List (FieldId × Field)) (fid : FieldId)
      → FieldFits pid fields fid
      → Fails P (field_of pid fields fid)
  unfolding field_of
  field_of-Fails pid fields fid h = elim (Option-cases (lookup fid fields)) [
    | inl q ↦ rw (q, Fails) (h q)
    | inr (f, q) ↦ rw (q, Fails) tt
  ]

  pub declare_fields-Fails :
      (pid : PageId) (fields : List (FieldId × Field)) (fs : List FieldId) (st : PageState)
      → All (FieldFits pid fields) fs
      → Fails P (declare_fields pid fields fs st)
  unfolding declare_fields
  declare_fields-Fails pid fields [] st h = tt
  declare_fields-Fails pid fields (fid ∷ fs) st h =
      Fails-bind P (field_of pid fields fid) _ (field_of-Fails pid fields fid h.0)
        (λ f _. declare_fields-Fails pid fields fs (declare fid f st) h.1)

  perform-Fails :
      (id : String) (k : ActionKind) (t : String) (st : PageState)
      → ((x : String) → k ≡ unknown x → P (unknown_action id (unknown x)))
      → Fails P (perform id k t st)
  unfolding perform
  perform-Fails id (unknown x) t st h = h x refl
  perform-Fails id ActionKind.show t st h = tt
  perform-Fails id _ t st h = tt

  pub perform_all-Fails :
      (id : String) (actions : List Action) (st : PageState)
      → All (ActionFits id) actions
      → Fails P (perform_all id actions st)
  unfolding perform_all
  perform_all-Fails id [] st h = tt
  perform_all-Fails id (a ∷ rest) st h =
      Fails-bind P (perform id a.action a.target st) _ (perform-Fails id a.action a.target st h.0)
        (λ st' _. perform_all-Fails id rest st' h.1)

module _ (fl : Floats) (P : Error → Type 0) where
  open fl use {Float}

  compare_answer-Fails :
      (op : Op) (raw want : Value Float)
      → OpFits P op
      → (op ≡ Op.between → two_elements want ≡ none → P between_needs_two)
      → (op ≢ Op.is_empty) × (op ≢ Op.is_not_empty)
      → Fails P (compare_answer fl op raw want)
  unfolding compare_answer
  compare_answer-Fails (unknown x) raw want h b ne = h x refl
  compare_answer-Fails Op.between raw want h b ne = elim (Option-cases (two_elements want)) [
    | inl q ↦ rw (q, Fails) (b refl q)
    | inr (ab, q) ↦ rw (q, Fails) tt
  ]
  compare_answer-Fails Op.is_empty raw want h b ne = absurd (ne.0 refl)
  compare_answer-Fails Op.is_not_empty raw want h b ne = absurd (ne.1 refl)
  compare_answer-Fails Op.eq raw want h b ne = tt
  compare_answer-Fails _ raw want h b ne = tt

  decide_condition-Fails :
      (op : Op) (answer : Option (Value Float)) (want : Value Float)
      → OpFits P op
      → (op ≡ Op.between → two_elements want ≡ none → P between_needs_two)
      → Fails P (decide_condition fl op answer want)
  unfolding decide_condition
  decide_condition-Fails Op.is_empty none want h b = tt
  decide_condition-Fails Op.is_empty (some _) want h b = tt
  decide_condition-Fails Op.is_not_empty none want h b = tt
  decide_condition-Fails Op.is_not_empty (some _) want h b = tt
  decide_condition-Fails Op.eq none want h b = tt
  decide_condition-Fails _ none want h b = tt
  decide_condition-Fails op (some raw) want h b =
      compare_answer-Fails op raw want h b ((λ q. cc), (λ q. cc))

  pub eval_condition-Fails :
      (c : Condition Float) (answers : Answers fl)
      → OpFits P c.op
      → (c.op ≡ Op.between → two_elements c.value ≡ none → P between_needs_two)
      → Fails P (eval_condition fl c answers)
  unfolding eval_condition
  eval_condition-Fails c answers h b =
      decide_condition-Fails c.op (answer_of fl answers c.field) c.value h b

module _ (fl : Floats) (P : Error → Type 0) where
  open fl use {Float}

  -- Every source of an error in the rule `r` satisfies `P`.
  pub record RuleFits (r : Rule Float) : Type 0 where
    pub op_fits : OpFits (λ e. P (in_rule r.id e)) r.when.op
    pub between_fits :
        r.when.op ≡ Op.between
        → two_elements r.when.value ≡ none
        → P (in_rule r.id between_needs_two)
    pub then_fits : All (ActionFits P r.id) r.then_actions
    pub else_fits : All (ActionFits P r.id) r.else_actions

  run_rule-Fails :
      (r : Rule Float) (answers : Answers fl) (st : PageState)
      → RuleFits r
      → Fails P (run_rule fl r answers st)
  unfolding run_rule
  run_rule-Fails r answers st h =
      Fails-bind P (map_err (in_rule r.id) (eval_condition fl r.when answers)) _
        (Fails-map_err P (in_rule r.id) (eval_condition fl r.when answers) (
          eval_condition-Fails fl (λ e. P (in_rule r.id e)) r.when answers h.op_fits
            h.between_fits))
        (λ match _.
          elim match
            as (λ b. Fails P (perform_all r.id (if b then r.then_actions else r.else_actions) st)) [
              | true ↦ perform_all-Fails P r.id r.then_actions st h.then_fits
              | false ↦ perform_all-Fails P r.id r.else_actions st h.else_fits
            ])

  run_rules-Fails :
      (rules : List (Rule Float)) (answers : Answers fl) (st : PageState)
      → All RuleFits rules
      → Fails P (run_rules fl rules answers st)
  unfolding run_rules
  run_rules-Fails [] answers st h = tt
  run_rules-Fails (r ∷ rest) answers st h =
      Fails-bind P (run_rule fl r answers st) _ (run_rule-Fails r answers st h.0)
        (λ st' _. run_rules-Fails rest answers st' h.1)

  pub eval_page-Fails :
      (s : Schema Float) (p : Page) (rules : List (Rule Float)) (answers : Answers fl)
      → All (FieldFits P p.id s.fields) p.fields
      → All RuleFits rules
      → Fails P (eval_page fl s p rules answers)
  unfolding eval_page
  eval_page-Fails s p rules answers hf hr =
      Fails-bind P (declare_fields p.id s.fields p.fields blank_state) _
        (declare_fields-Fails P p.id s.fields p.fields blank_state hf)
        (λ declared _.
          Fails-bind P (run_rules fl rules answers declared) _
            (run_rules-Fails rules answers declared hr) (λ st _. tt))
