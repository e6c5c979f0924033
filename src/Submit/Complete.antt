-- ===== src/Submit/Complete.antt =====
-- What a submission must bring: validateAnswers and checkRequiredPurposes of submit.go.
use collectr.Prelude.{
  ◌≡◌, refl, sym, ap, ◌∙◌, String, true, false, none, some, List, [], ◌∷◌, ◌++◌, ◌==◌, ok, arith,
  lookup, has, All, All-map, eq_iff, Option-cases, Bool-cases, inl, inr,
}
use collectr.Forms.Schema.{FieldId, Field, Purpose, Value}
use collectr.Forms.Engine.Conditions.{Floats}
use collectr.Forms.Engine.Walk.{Evaluation, evaluate}
use collectr.Consent.Tables.{ConsentGrant}
use collectr.Submit.Answers.{
  is_blank_value, missing_answers, validate_value, wrong_answers, validate_answers,
}
use collectr.Submit.Tables.{PublicForm, FormMeta, SubmitInput, SubmitResult, Db, Env}
use collectr.Submit.Checks.{Checked, first_grant, agreed, check_required_purposes, visible_answers}
use collectr.Submit.Store.{submit}
use collectr.Submit.Fits.{FitsType, validate_value-Fits}
use collectr.Submit.Steps.{IsChecked}
use collectr.Submit.Minimal.{lookup-visible_answers, visible_answers-lookup, submit-steps}

append_nil : {A : Type 0} (xs ys : List A) → xs ++ ys ≡ [] → (xs ≡ []) × (ys ≡ [])
append_nil [] ys q = (refl, q)
append_nil (x ∷ xs) ys q = cc

module _ {F : Type 0} where
  -- There is an answer and it is not blank.
  abbrev pub IsAnswered : List (String × Value F) → FieldId → Type 0
  IsAnswered answers fid =
      (v : Value F) × (lookup fid answers ≡ some v) × (is_blank_value v ≡ false)

  missing_answers-none :
      (answers : List (String × Value F)) (fids : List FieldId)
      → missing_answers answers fids ≡ []
      → All (IsAnswered answers) fids
  missing_answers-none answers [] q = tt
  missing_answers-none answers (fid ∷ rest) q = elim (Option-cases (lookup fid answers)) [
    | inl none_there ↦ absurd (unfold missing_answers in (ground (arith, q, none_there)))
    | inr (v, there) ↦ elim (Bool-cases (is_blank_value v)) [
      | inl blank ↦ absurd (unfold missing_answers in (ground (arith, q, there, blank)))
      | inr full ↦
          let later : missing_answers answers rest ≡ [] =
            unfold missing_answers in (ground (arith, q, there, full)) in
          ((v, there, full), missing_answers-none answers rest later)
    ]
  ]

-- A grant of the purpose, before which the list has none for it.
abbrev pub IsGranted : List ConsentGrant → String → Type 0
IsGranted grants purpose =
    (before after : List ConsentGrant) × (g : ConsentGrant) × (grants ≡ before ++ g ∷ after)
    × (g.purpose_code ≡ purpose)
    × (g.granted ≡ true)
    × All (λ (h : ConsentGrant). ¬ (h.purpose_code ≡ purpose)) before

agreed-IsGranted :
    (grants : List ConsentGrant) (purpose : String)
    → agreed grants purpose ≡ true
    → IsGranted grants purpose
unfolding agreed first_grant
agreed-IsGranted [] purpose h = cc
agreed-IsGranted (g ∷ rest) purpose h = elim (Bool-cases (g.purpose_code == purpose)) [
  | inl same ↦
      ([], rest, g, refl, (eq_iff g.purpose_code purpose).0 same, ground (arith, h, same), tt)
  | inr other ↦
      let apart : ¬ (g.purpose_code ≡ purpose) =
        λ e. absurd (ground (arith, other, (eq_iff g.purpose_code purpose).1 e)) in
      let (before, after, x, split, at_purpose, yes_it_is, none_before) =
        agreed-IsGranted rest purpose (ground (arith, h, other)) in
      (g ∷ before, after, x, ap (λ l. g ∷ l) split, at_purpose, yes_it_is, (apart, none_before))
]

-- Every purpose that the form requires is granted, by the first grant for its code.
agreed_to_all :
    (ps : List Purpose) (grants : List ConsentGrant)
    → check_required_purposes ps grants ≡ ok tt
    → All (λ p. p.required ≡ true → IsGranted grants p.code) ps
unfolding check_required_purposes
agreed_to_all [] grants q = tt
agreed_to_all (p ∷ ps) grants q = elim (Bool-cases p.required) [
  | inl must ↦ elim (Bool-cases (agreed grants p.code)) [
    | inl yes_it_is ↦ (
      λ _. agreed-IsGranted grants p.code yes_it_is,
      agreed_to_all ps grants (ground (arith, q, must, yes_it_is)),
    )
    | inr refused ↦ absurd (ground (arith, q, must, refused))
  ]
  | inr may ↦
      (λ m. absurd (ground (arith, m, may)), agreed_to_all ps grants (ground (arith, q, may)))
]

module _ (fl : Floats) where
  open fl use {Float}

  wrong_answers-tail :
      (fields : List (FieldId × Field)) (j : String) (w : Value Float)
      (rest : List (String × Value Float))
      → wrong_answers fl fields ((j, w) ∷ rest) ≡ []
      → wrong_answers fl fields rest ≡ []
  unfolding wrong_answers
  wrong_answers-tail fields j w rest q = elim (Option-cases (lookup j fields)) [
    | inl none_there ↦ ground (arith, q, none_there)
    | inr (f, there) ↦ elim (Option-cases (validate_value fl f w)) [
      | inl fine ↦ ground (arith, q, there, fine)
      | inr (e, bad) ↦ absurd (ground (arith, q, there, bad))
    ]
  ]

  wrong_answers-head :
      (fields : List (FieldId × Field)) (j : String) (w : Value Float) (f : Field)
      (rest : List (String × Value Float))
      → wrong_answers fl fields ((j, w) ∷ rest) ≡ []
      → lookup j fields ≡ some f
      → validate_value fl f w ≡ none
  unfolding wrong_answers
  wrong_answers-head fields j w f rest q there = elim (Option-cases (validate_value fl f w)) [
    | inl fine ↦ fine
    | inr (e, bad) ↦ absurd (ground (arith, q, there, bad))
  ]

  wrong_answers-none :
      (fields : List (FieldId × Field)) (answers : List (String × Value Float)) (k : String)
      (v : Value Float) (f : Field)
      → wrong_answers fl fields answers ≡ []
      → lookup k answers ≡ some v
      → lookup k fields ≡ some f
      → validate_value fl f v ≡ none
  unfolding lookup
  wrong_answers-none fields [] k v f q h g = cc
  wrong_answers-none fields ((j, w) ∷ rest) k v f q h g = elim (Bool-cases (j == k)) [
    | inl same ↦
        let here : w ≡ v = ground (arith, h, same) in
        let at_j : lookup j fields ≡ some f = ap (λ x. lookup x fields) ((eq_iff j k).0 same) ∙ g in
        ap (validate_value fl f) (sym here) ∙ wrong_answers-head fields j w f rest q at_j
    | inr other ↦
        wrong_answers-none fields rest k v f (wrong_answers-tail fields j w rest q)
          (ground (arith, h, other)) g
  ]

  -- Every required field is answered, every required purpose is granted, and every answer that is given
  -- for a field that is shown is of the kind that its type asks for.
  abbrev pub IsComplete : SubmitInput Float → PublicForm Float → Evaluation → Type 0
  IsComplete i pf res =
      All (IsAnswered i.answers) res.required
      × All (λ p. p.required ≡ true → IsGranted i.consents p.code) pf.schema.consent.purposes
      × ((k : String) (v : Value Float) (f : Field)
          → has res.visible k ≡ true
          → lookup k i.answers ≡ some v
          → lookup k pf.schema.fields ≡ some f
          → FitsType fl f.type f v)

  sent-IsAnswered :
      (visible : List FieldId) (answers : List (String × Value Float)) (fid : FieldId)
      → IsAnswered (visible_answers visible answers) fid
      → IsAnswered answers fid
  sent-IsAnswered visible answers fid (v, q, full) =
      (v, (lookup-visible_answers visible answers fid v q).1, full)

  checked-IsComplete :
      (e : Env Float) (i : SubmitInput Float) (pf : PublicForm Float) (db : Db Float)
      (c : Checked Float) (k : IsChecked fl e i pf db c)
      → IsComplete i pf k.result
  unfolding validate_answers
  checked-IsComplete e i pf db c k =
      let (m, w) =
        append_nil (missing_answers c.answers k.result.required)
          (wrong_answers fl pf.schema.fields c.answers) k.valid in
      let m' : missing_answers (visible_answers k.result.visible i.answers) k.result.required ≡ [] =
        ap (λ a. missing_answers a k.result.required) (sym k.answers) ∙ m in
      (
        All-map _ _ k.result.required (sent-IsAnswered k.result.visible i.answers)
            (missing_answers-none _ k.result.required m'),
        agreed_to_all pf.schema.consent.purposes i.consents k.agreed_to,
        λ x v f shown sent field.
            let there =
              ap (lookup x) k.answers
              ∙ visible_answers-lookup k.result.visible i.answers x v shown sent in
            validate_value-Fits fl f v
              (wrong_answers-none pf.schema.fields c.answers x v f w there field),
      )

  -- Where Submit succeeds, the request answered every field that Evaluate requires and not with a
  -- blank; the first grant that it brings for each purpose that the form requires is granted; and an
  -- answer that it gives to a field that is shown, other than a file or a field of an unknown type,
  -- is, by the type of the field, the id of one of its options or blank, a list of such ids, a number
  -- within its scale, a text of at most 10,000 bytes in its format, or a day of the calendar in its
  -- format or blank.
  pub submit-IsComplete :
      (e : Env Float) (i : SubmitInput Float) (pf : PublicForm Float) (form : FormMeta)
      (db db' : Db Float) (r : SubmitResult)
      → submit fl e i pf form db ≡ ok (db', r)
      → (res : Evaluation) × (evaluate fl pf.schema i.answers ≡ ok res) × IsComplete i pf res
  submit-IsComplete e i pf form db db' r q =
      let (c, k, s, id) = submit-steps fl e i pf form db db' r q in
      (k.result, k.evaluated, checked-IsComplete e i pf db c k)
