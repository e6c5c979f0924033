-- ===== src/Submit/Steps.antt =====
-- The steps of a submission that went through, which the theorems on submit.go start from.
use collectr.Prelude.{
  ◌≡◌, refl, sym, ap, ◌∙◌, eqb, ok_injective, List, [], ◌∷◌, ok, >>=-eq-ok, raise_as,
  raise_as-eq-ok, require, Bytes, lookup,
}
use collectr.Forms.Schema.{identifier_field}
use collectr.Forms.Engine.Conditions.{Floats}
use collectr.Forms.Engine.Walk.{Evaluation, evaluate}
use collectr.Consent.Tables.{ConsentDb}
use collectr.Consent.Subjects.{upsert_subject}
use collectr.Consent.Log.{active_document, record_consents}
use collectr.Submit.Answers.{FieldErrors, validate_answers}
use collectr.Submit.Tables.{
  FileRow, IdempotencyRow, PublicForm, FormMeta, SubmitInput, consent_mismatch, version_mismatch,
  evaluating, consent, Db, Env,
}
use collectr.Submit.Checks.{
  Checked, version_accepted, visible_answers, no_errors, collect_attachments, hash_equal,
  check_required_purposes, identifier_result, identifier_value, text_of_value, check_submission,
}
use collectr.Submit.Store.{
  reserve, sensitive_answers, seal_answers, record_input, bind_files, stored_rows, store_submission,
}

pair_of : {A B : Type 0} (p : A × B) {x : A} {y : B} → p.0 ≡ x → p.1 ≡ y → p ≡ (x, y)
pair_of (a, b) h k = λ i. (h i, k i)

module _ {F : Type 0} where
  -- The rows that a submission wrote, by the results of its steps.
  pub record IsStored (e : Env F) (i : SubmitInput F) (pf : PublicForm F) (form : FormMeta)
      (c : Checked F) (db db' : Db F) : Type 0 where
    pub keys : List IdempotencyRow
    pub with_key : ConsentDb
    pub sealed : Bytes
    pub files : List FileRow
    pub consents : ConsentDb
    pub reserved : reserve e i db.keys ≡ ok keys
    pub sealing :
        (let known = upsert_subject e.hashes e.subject_id c.kind c.value db.consents in
          seal_answers e known.1.id (sensitive_answers pf.schema.fields c.answers) known.0)
        ≡ ok (with_key, sealed)
    pub binding : bind_files pf.tenant_id e.submission_id c.attachments db.files ≡ ok files
    pub recording :
        (let known = upsert_subject e.hashes e.subject_id c.kind c.value db.consents in
          record_consents e.record_id (record_input e i pf c known.1.id) with_key)
        ≡ ok consents
    pub rows : db' ≡ (
        let known = upsert_subject e.hashes e.subject_id c.kind c.value db.consents in
        stored_rows e i pf form c db known.1.id keys sealed files consents)

  pub store_submission-IsStored :
      (e : Env F) (i : SubmitInput F) (pf : PublicForm F) (form : FormMeta) (c : Checked F)
      (db db' : Db F)
      → store_submission e i pf form c db ≡ ok db'
      → IsStored e i pf form c db db'
  unfolding store_submission
  store_submission-IsStored e i pf form c db db' q =
      let known = upsert_subject e.hashes e.subject_id c.kind c.value db.consents in
      let (keys, r, q1) = >>=-eq-ok (reserve e i db.keys) _ q in
      let ((with_key, sealed), s, q2) =
        >>=-eq-ok (seal_answers e known.1.id (sensitive_answers pf.schema.fields c.answers) known.0)
          _ q1 in
      let (files, b, q3) =
        >>=-eq-ok (bind_files pf.tenant_id e.submission_id c.attachments db.files) _ q2 in
      let (consents, w, q4) =
        >>=-eq-ok
          (raise_as consent
            (record_consents e.record_id (record_input e i pf c known.1.id) with_key))
          _ q3 in
      record {
        keys = keys;
        with_key = with_key;
        sealed = sealed;
        files = files;
        consents = consents;
        reserved = r;
        sealing = s;
        binding = b;
        recording =
            raise_as-eq-ok consent
              (record_consents e.record_id (record_input e i pf c known.1.id) with_key) w;
        rows = sym (ok_injective q4);
      }

module _ (fl : Floats) where
  open fl use {Float}

  -- What the checks found, by the results of their steps.
  pub record IsChecked (e : Env Float) (i : SubmitInput Float) (pf : PublicForm Float)
      (db : Db Float) (c : Checked Float) : Type 0 where
    pub result : Evaluation
    pub evaluated : evaluate fl pf.schema i.answers ≡ ok result
    pub visible : c.visible ≡ result.visible
    pub answers : c.answers ≡ visible_answers result.visible i.answers
    pub valid : validate_answers fl pf.schema result c.answers ≡ []
    pub attachments :
        collect_attachments e pf db.files c.answers result.visible ≡ ([], c.attachments)
    pub agreed_to : check_required_purposes pf.schema.consent.purposes i.consents ≡ ok tt

  no_errors-eq-ok : (es : FieldErrors) {u : Unit {0}} → no_errors es ≡ ok u → es ≡ []
  unfolding no_errors
  no_errors-eq-ok [] q = refl
  no_errors-eq-ok (x ∷ es) q = cc

  pub check_submission-IsChecked :
      (e : Env Float) (i : SubmitInput Float) (pf : PublicForm Float) (db : Db Float)
      (c : Checked Float)
      → check_submission fl e i pf db ≡ ok c
      → IsChecked e i pf db c
  unfolding check_submission
  check_submission-IsChecked e i pf db c q =
      let (u1, r1, q1) = >>=-eq-ok (require (version_accepted i pf) version_mismatch) _ q in
      let (result, r2, q2) =
        >>=-eq-ok (raise_as evaluating (evaluate fl pf.schema i.answers)) _ q1 in
      let answers = visible_answers result.visible i.answers in
      let (u3, r3, q3) =
        >>=-eq-ok (no_errors (validate_answers fl pf.schema result answers)) _ q2 in
      let files = collect_attachments e pf db.files answers result.visible in
      let (u4, r4, q4) = >>=-eq-ok (no_errors files.0) _ q3 in
      let (doc, r5, q5) =
        >>=-eq-ok (raise_as consent (active_document "consent_text" e.now db.consents)) _ q4 in
      let (u6, r6, q6) = >>=-eq-ok (require (eqb i.document_id doc.id) consent_mismatch) _ q5 in
      let (u7, r7, q7) =
        >>=-eq-ok (require (hash_equal i.rendered_hash doc.content_hash) consent_mismatch) _ q6 in
      let (u8, r8, q8) =
        >>=-eq-ok (check_required_purposes pf.schema.consent.purposes i.consents) _ q7 in
      let (found, r9, q9) = >>=-eq-ok (identifier_result (identifier_field pf.schema)) _ q8 in
      let (value, r10, q10) =
        >>=-eq-ok (identifier_value found.0 (text_of_value (lookup found.0 answers))) _ q9 in
      let same = sym (ok_injective q10) in
      let a : c.answers ≡ answers = ap (λ (k : Checked Float). k.answers) same in
      let none_wrong = no_errors-eq-ok (validate_answers fl pf.schema result answers) r3 in
      let none_bad = no_errors-eq-ok files.0 r4 in
      record {
        result = result;
        evaluated = raise_as-eq-ok evaluating (evaluate fl pf.schema i.answers) r2;
        visible = ap (λ (k : Checked Float). k.visible) same;
        answers = a;
        valid = ap (λ x. validate_answers fl pf.schema result x) a ∙ none_wrong;
        attachments =
            ap (λ x. collect_attachments e pf db.files x result.visible) a
            ∙ pair_of files none_bad (sym (ap (λ (k : Checked Float). k.attachments) same));
        agreed_to = r8;
      }
