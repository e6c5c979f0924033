-- ===== src/Submit/Minimal.antt =====
-- What a submission stores in clear, of what the request of submit.go brings.
use collectr.Prelude.{
  ℕ, ◌≡◌, refl, sym, ap, ◌∙◌, String, Bool, true, false, Option, none, some, List, [], ◌∷◌,
  if◌then◌else◌, ok, >>=-eq-ok, ok_injective, arith, lookup, has, eq_iff, Bytes,
}
use collectr.Forms.Schema.{FieldId, Field, Value}
use collectr.Forms.Engine.Conditions.{Floats}
use collectr.Forms.Engine.Walk.{Evaluation, evaluate}
use collectr.Consent.Subjects.{upsert_subject}
use collectr.Submit.Tables.{SubmissionRow, PublicForm, FormMeta, SubmitInput, SubmitResult, Db, Env}
use collectr.Submit.Checks.{Checked, visible_answers, check_submission}
use collectr.Submit.Store.{
  is_sensitive, plain_answers, sensitive_answers, submission_row, stored_rows, store_submission,
  submit,
}
use collectr.Submit.Steps.{
  IsStored, IsChecked, store_submission-IsStored, check_submission-IsChecked,
}

kept :
    {A : Type 0} (b : Bool) (o : Option A) (v : A)
    → (if b then none else o) ≡ some v
    → (b ≡ false) × (o ≡ some v)
kept true o v q = cc
kept false o v q = (refl, q)

module _ {F : Type 0} where
  pub lookup-visible_answers :
      (visible : List FieldId) (answers : List (String × Value F)) (k : String) (v : Value F)
      → lookup k (visible_answers visible answers) ≡ some v
      → (has visible k ≡ true) × (lookup k answers ≡ some v)
  unfolding visible_answers has lookup
  lookup-visible_answers [] answers k v q = cc
  lookup-visible_answers (fid ∷ rest) answers k v q =
      ground (arith, q, lookup-visible_answers rest answers k v, eq_iff fid k)

  -- The answer of a field that is shown is kept.
  pub visible_answers-lookup :
      (visible : List FieldId) (answers : List (String × Value F)) (k : String) (v : Value F)
      → has visible k ≡ true
      → lookup k answers ≡ some v
      → lookup k (visible_answers visible answers) ≡ some v
  unfolding visible_answers has lookup
  visible_answers-lookup [] answers k v h q = cc
  visible_answers-lookup (fid ∷ rest) answers k v h q =
      ground (arith, q, h, visible_answers-lookup rest answers k v, eq_iff fid k)

  pub lookup-plain_answers :
      (fields : List (FieldId × Field)) (answers : List (String × Value F)) (k : String)
      → lookup k (plain_answers fields answers)
        ≡ (if is_sensitive fields k then none else lookup k answers)
  unfolding plain_answers lookup
  lookup-plain_answers fields [] k = ground arith
  lookup-plain_answers fields ((j, v) ∷ rest) k =
      ground (arith, lookup-plain_answers fields rest k, eq_iff j k)

  pub lookup-sensitive_answers :
      (fields : List (FieldId × Field)) (answers : List (String × Value F)) (k : String)
      → lookup k (sensitive_answers fields answers)
        ≡ (if is_sensitive fields k then lookup k answers else none)
  unfolding sensitive_answers lookup
  lookup-sensitive_answers fields [] k = ground arith
  lookup-sensitive_answers fields ((j, v) ∷ rest) k =
      ground (arith, lookup-sensitive_answers fields rest k, eq_iff j k)

module _ (fl : Floats) where
  open fl use {Float}

  -- A submission that went through, by its parts.
  pub submit-steps :
      (e : Env Float) (i : SubmitInput Float) (pf : PublicForm Float) (form : FormMeta)
      (db db' : Db Float) (r : SubmitResult)
      → submit fl e i pf form db ≡ ok (db', r)
      → (c : Checked Float) × IsChecked fl e i pf db c
        × IsStored e i pf form c db db'
        × (r.submission_id ≡ e.submission_id)
  unfolding submit
  submit-steps e i pf form db db' r q =
      let (c, a, q1) = >>=-eq-ok (check_submission fl e i pf db) _ q in
      let (stored, b, q2) = >>=-eq-ok (store_submission e i pf form c db) _ q1 in
      let same : stored ≡ db' = ap (λ p. p.0) (ok_injective q2) in
      (
        c,
        check_submission-IsChecked fl e i pf db c a,
        store_submission-IsStored e i pf form c db db' (b ∙ ap ok same),
        sym (ap (λ p. p.1.submission_id) (ok_injective q2)),
      )

  -- The row of a submission keeps in clear only answers that the request brought, of fields that
  -- Evaluate shows for these answers and that are not sensitive.
  abbrev pub IsMinimal :
      SubmitInput Float → PublicForm Float → Evaluation → SubmissionRow Float → Type 0
  IsMinimal i pf res row =
      (row.visible ≡ res.visible)
      × ((k : String) (v : Value Float)
          → lookup k row.answers ≡ some v
          → (has res.visible k ≡ true)
            × (lookup k i.answers ≡ some v)
            × (is_sensitive pf.schema.fields k ≡ false))

  checked-IsMinimal :
      (e : Env Float) (i : SubmitInput Float) (pf : PublicForm Float) (form : FormMeta)
      (db : Db Float) (c : Checked Float) (k : IsChecked fl e i pf db c) (sealed : Bytes)
      (subject : ℕ)
      → IsMinimal i pf k.result (submission_row e pf form c subject sealed)
  unfolding submission_row
  checked-IsMinimal e i pf form db c k sealed subject = (
    k.visible,
    λ f v q.
        let (plain, there) =
          kept (is_sensitive pf.schema.fields f) (lookup f c.answers) v
            (sym (lookup-plain_answers pf.schema.fields c.answers f) ∙ q) in
        let (shown, sent) =
          lookup-visible_answers k.result.visible i.answers f v
            (sym (ap (lookup f) k.answers) ∙ there) in
        (shown, sent, plain),
  )

  -- Where Submit succeeds, it adds one submission, and the row keeps in clear only answers that the
  -- request brought, of fields that Evaluate shows for the request and that the form does not call
  -- sensitive.
  pub submit-IsMinimal :
      (e : Env Float) (i : SubmitInput Float) (pf : PublicForm Float) (form : FormMeta)
      (db db' : Db Float) (r : SubmitResult)
      → submit fl e i pf form db ≡ ok (db', r)
      → (res : Evaluation) × (row : SubmissionRow Float) × (evaluate fl pf.schema i.answers
          ≡ ok res)
        × (db'.submissions ≡ row ∷ db.submissions)
        × (row.id ≡ r.submission_id)
        × IsMinimal i pf res row
  unfolding stored_rows
  submit-IsMinimal e i pf form db db' r q =
      let (c, k, s, id) = submit-steps e i pf form db db' r q in
      let subject = (upsert_subject e.hashes e.subject_id c.kind c.value db.consents).1.id in
      (
        k.result,
        submission_row e pf form c subject s.sealed,
        k.evaluated,
        ap (λ (d : Db Float). d.submissions) s.rows,
        unfold submission_row in sym id,
        checked-IsMinimal e i pf form db c k s.sealed subject,
      )
