-- ===== src/Submit/Checks.antt =====
-- The first half of Submit of internal/modules/forms/app/submit.go, which writes nothing, with
-- parseFileAnswer of uploads.go and Validate of internal/modules/files/app/service.go.
use collectr.Prelude.{
  ℕ, String, Bool, true, false, ◌&&◌, ◌||◌, not, Option, none, some, List, [], ◌∷◌, ◌==◌, eqb,
  if◌then◌else◌, lookup, Result, ok, err, ◌>>=◌, raise_as, require, Bytes, eq_bytes,
}
use collectr.Forms.Schema.{
  FieldId, Field, file, Purpose, Value, Entries, string, any_map, end, entry, identifier_field,
}
use collectr.Forms.Engine.Conditions.{Floats}
use collectr.Forms.Engine.Walk.{evaluate}
use collectr.Consent.Tables.{ConsentGrant}
use collectr.Consent.Log.{active_document}
use collectr.Submit.Answers.{
  AnswerError, required, not_a_file, bad_attachment, FieldErrors, validate_answers,
}
use collectr.Submit.Tables.{
  FileRow, PublicForm, SubmitInput, SubmitError, version_mismatch, consent_mismatch, no_identifier,
  consent_missing, evaluating, field_errors, consent, Db, Env,
}

-- What the checks leave for the transaction.
pub record Checked (F : Type 0) : Type 0 where
  pub visible : List FieldId
  pub answers : List (String × Value F)
  pub attachments : List ℕ
  pub document : ℕ
  pub kind : String
  pub value : String

-- resolve_public of the files
unfoldable pub file_by_id : List FileRow → ℕ → Option FileRow
file_by_id [] id = none
file_by_id (f ∷ rest) id = let later = file_by_id rest id in if eqb f.id id then some f else later

unfoldable pub unattached : FileRow → Bool
unattached f = f.pending && elim f.submission [ none ↦ true | some _ ↦ false ]

-- Service.Validate of the files: its errors all count as one.
unfoldable pub valid_attachment : List FileRow → ℕ → ℕ → ℕ → String → Bool
unfolding file_by_id unattached
valid_attachment files tenant id version field = elim (file_by_id files id) [
  | none ↦ false
  | some f ↦ eqb f.tenant tenant && unattached f && eqb f.form_version version && f.field == field
]

-- `diff` is 0 where all bytes are the same.
unfoldable pub hash_equal : Bytes → Bytes → Bool
unfolding eq_bytes
hash_equal [] b = false
hash_equal (x ∷ a) b = eq_bytes (x ∷ a) b

-- slices.IndexFunc of checkRequiredPurposes
unfoldable pub first_grant : List ConsentGrant → String → Option ConsentGrant
first_grant [] code = none
first_grant (g ∷ rest) code =
    let later = first_grant rest code in if g.purpose_code == code then some g else later

unfoldable pub agreed : List ConsentGrant → String → Bool
unfolding first_grant
agreed grants code = elim (first_grant grants code) [ none ↦ false | some g ↦ g.granted ]

unfoldable pub check_required_purposes :
    List Purpose → List ConsentGrant → Result SubmitError (Unit {0})
unfolding agreed
check_required_purposes [] grants = ok tt
check_required_purposes (p ∷ rest) grants =
    let later = check_required_purposes rest grants in
    if not p.required
    then later
    else if agreed grants p.code
    then later
    else err (consent_missing p.code)

unfoldable pub no_errors : FieldErrors → Result SubmitError (Unit {0})
no_errors [] = ok tt
no_errors (e ∷ es) = err (field_errors (e ∷ es))

unfoldable pub add_attachment :
    FieldId → Option (Result AnswerError ℕ) → FieldErrors × List ℕ → FieldErrors × List ℕ
add_attachment fid none rest = rest
add_attachment fid (some (ok id)) (es, ids) = (es, id ∷ ids)
add_attachment fid (some (err x)) (es, ids) = ((fid, x) ∷ es, ids)

unfoldable pub identifier_result : Option (FieldId × Field) → Result SubmitError (FieldId × Field)
identifier_result none = err no_identifier
identifier_result (some f) = ok f

-- `identifierValue, _ := answers[…].(string)`, which must not be empty.
unfoldable pub identifier_value : FieldId → Option String → Result SubmitError String
identifier_value fid none = err (field_errors ((fid, required) ∷ []))
identifier_value fid (some s) = if s == "" then err (field_errors ((fid, required) ∷ [])) else ok s

module _ {F : Type 0} where
  -- The answers of the fields that are shown.
  unfoldable pub visible_answers : List FieldId → List (String × Value F) → List (String × Value F)
  unfolding lookup
  visible_answers [] answers = []
  visible_answers (fid ∷ rest) answers =
      let later = visible_answers rest answers in
      elim (lookup fid answers) [ none ↦ later | some v ↦ (fid, v) ∷ later ]

  unfoldable pub entry_of : Entries F → String → Option (Value F)
  entry_of end key = none
  entry_of (entry k v rest) key =
      let later = entry_of rest key in if k == key then some v else later

  unfoldable pub text_of_value : Option (Value F) → Option String
  text_of_value (some (string s)) = some s
  text_of_value _ = none

  unfoldable pub parse_file_answer : (String → Option ℕ) → Value F → Option ℕ
  unfolding entry_of text_of_value
  parse_file_answer parse (any_map m) = elim (text_of_value (entry_of m "file_id")) [
    | none ↦ none
    | some raw ↦ parse raw
  ]
  parse_file_answer parse _ = none

  -- What one field adds to the attachments or to the errors.
  unfoldable pub attachment_of :
      Env F
      → PublicForm F
      → List FileRow
      → List (String × Value F)
      → FieldId
      → Option (Result AnswerError ℕ)
  unfolding lookup parse_file_answer valid_attachment
  attachment_of e pf files answers fid =
      let answer : Option (Result AnswerError ℕ) = elim (lookup fid answers) [
        | none ↦ none
        | some raw ↦ elim (parse_file_answer e.parse_uuid raw) [
          | none ↦ some (err not_a_file)
          | some id ↦
              if valid_attachment files pf.tenant_id id pf.version_id fid
              then some (ok id)
              else some (err bad_attachment)
        ]
      ] in
      elim (lookup fid pf.schema.fields) [
        | none ↦ none
        | some f ↦ elim f.type [ file ↦ answer | _ ↦ none ]
      ]

  unfoldable pub collect_attachments :
      Env F
      → PublicForm F
      → List FileRow
      → List (String × Value F)
      → List FieldId
      → FieldErrors × List ℕ
  unfolding attachment_of add_attachment
  collect_attachments e pf files answers [] = ([], [])
  collect_attachments e pf files answers (fid ∷ rest) =
      add_attachment fid (attachment_of e pf files answers fid)
        (collect_attachments e pf files answers rest)

  unfoldable pub version_accepted : SubmitInput F → PublicForm F → Bool
  version_accepted i pf = eqb i.form_version_id 0 || eqb i.form_version_id pf.version_id

module _ (fl : Floats) where
  open fl use {Float}

  unfoldable pub check_submission :
      Env Float
      → SubmitInput Float
      → PublicForm Float
      → Db Float
      → Result SubmitError (Checked Float)
  unfolding version_accepted evaluate visible_answers validate_answers no_errors collect_attachments
      active_document hash_equal check_required_purposes identifier_result identifier_value lookup
      text_of_value identifier_field
  check_submission e i pf db = do
    _ ← require (version_accepted i pf) version_mismatch
    result ← raise_as evaluating (evaluate fl pf.schema i.answers)
    let answers = visible_answers result.visible i.answers
    _ ← no_errors (validate_answers fl pf.schema result answers)
    let attachments = collect_attachments e pf db.files answers result.visible
    _ ← no_errors attachments.0
    doc ← raise_as consent (active_document "consent_text" e.now db.consents)
    _ ← require (eqb i.document_id doc.id) consent_mismatch
    _ ← require (hash_equal i.rendered_hash doc.content_hash) consent_mismatch
    _ ← check_required_purposes pf.schema.consent.purposes i.consents
    found ← identifier_result (identifier_field pf.schema)
    value ← identifier_value found.0 (text_of_value (lookup found.0 answers))
    ok (record {
      visible = result.visible;
      answers = answers;
      attachments = attachments.1;
      document = doc.id;
      kind = found.1.pii;
      value = value;
    })
