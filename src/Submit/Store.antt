-- ===== src/Submit/Store.antt =====
-- The transaction of Submit of internal/modules/forms/app/submit.go, which gives the new rows or an
-- error: on an error the database keeps the old ones. Bind is in internal/modules/files/store.
use collectr.Prelude.{
  ℕ, ◌+◌, ◌-◌, ◌*◌, ◌%◌, ◌^◌, ℤ, pos, negsuc, String, Bool, true, false, ◌&&◌, not, Option, none,
  some, List, [], ◌∷◌, ◌==◌, eqb, ltb, if◌then◌else◌, length, lookup, Result, ok, err, ◌>>=◌,
  raise_as, require, Bytes,
}
use collectr.Crypto.Envelope.{seal_with}
use collectr.Forms.Schema.{FieldId, Field, Value}
use collectr.Forms.Engine.Conditions.{Floats}
use collectr.Consent.Tables.{ConsentDb, RecordInput}
use collectr.Consent.Subjects.{upsert_subject, data_key, crypto_result}
use collectr.Consent.Log.{record_consents}
use collectr.Submit.Tables.{
  FileRow, SubmissionRow, IdempotencyRow, PublicForm, FormMeta, SubmitInput, SubmitResult,
  SubmitError, duplicate_request, encoding, already_bound, consent, Db, Env,
}
use collectr.Submit.Checks.{Checked, unattached, check_submission}

-- time.Duration(days) * 24 * time.Hour in 64 bits, where it is positive.
unfoldable pub positive_days : ℤ → Option ℕ
positive_days (pos n) =
    let d = n * 86400000000000 % 2 ^ 64 in if ltb 0 d && ltb d (2 ^ 63) then some d else none
positive_days (negsuc n) =
    let d = (2 ^ 64 - (n + 1) * 86400000000000 % 2 ^ 64) % 2 ^ 64 in
    if ltb 0 d && ltb d (2 ^ 63) then some d else none

abbrev positive : ℤ → Option ℕ
positive (pos n) = if ltb 0 n then some n else none
positive (negsuc n) = none

abbrev after : ℕ → Option ℕ → Option ℕ
after now none = none
after now (some d) = some (now + d)

-- Submitter.RetentionFor
unfoldable pub retention_for : ℤ → Option ℤ → ℕ → Option ℕ
unfolding positive_days
retention_for default none now = after now (positive default)
retention_for default (some days) now = after now (positive_days days)

unfoldable pub has_key : List IdempotencyRow → String → Bool
has_key [] key = false
has_key (r ∷ rest) key = let later = has_key rest key in if r.key == key then true else later

-- completeIdempotency
unfoldable pub complete : ℕ → String → String → List IdempotencyRow → List IdempotencyRow
complete submission receipt key [] = []
complete submission receipt key (r ∷ rest) =
    let later = complete submission receipt key rest in
    if r.key == key then record r { response = some (submission, receipt) } ∷ later else r ∷ later

unfoldable pub contains_id : List ℕ → ℕ → Bool
contains_id [] id = false
contains_id (x ∷ xs) id = let rest = contains_id xs id in if eqb x id then true else rest

-- WHERE id = ANY($3) AND tenant_id = $1 AND submission_id IS NULL AND status = 'pending'
unfoldable pub bindable : ℕ → List ℕ → FileRow → Bool
unfolding contains_id unattached
bindable tenant ids f = contains_id ids f.id && eqb f.tenant tenant && unattached f

unfoldable pub bind_rows : ℕ → ℕ → List ℕ → List FileRow → List FileRow
unfolding bindable
bind_rows tenant submission ids [] = []
bind_rows tenant submission ids (f ∷ rest) =
    let later = bind_rows tenant submission ids rest in
    if bindable tenant ids f
    then record f { pending = false; submission = some submission } ∷ later
    else f ∷ later

unfoldable pub count_bindable : ℕ → List ℕ → List FileRow → ℕ
unfolding bindable
count_bindable tenant ids [] = 0
count_bindable tenant ids (f ∷ rest) =
    (if bindable tenant ids f then 1 else 0) + count_bindable tenant ids rest

unfoldable pub bind_files : ℕ → ℕ → List ℕ → List FileRow → Result SubmitError (List FileRow)
unfolding bind_rows count_bindable
bind_files tenant submission [] files = ok files
bind_files tenant submission (x ∷ ids) files =
    if eqb (count_bindable tenant (x ∷ ids) files) (length (x ∷ ids))
    then ok (bind_rows tenant submission (x ∷ ids) files)
    else err already_bound

unfoldable pub is_sensitive : List (FieldId × Field) → FieldId → Bool
unfolding lookup
is_sensitive fields id = elim (lookup id fields) [ none ↦ false | some f ↦ f.sensitive ]

unfoldable pub payload_of : Option Bytes → Result SubmitError Bytes
payload_of none = err encoding
payload_of (some b) = ok b

module _ {F : Type 0} where
  unfoldable pub request_hash : Env F → SubmitInput F → Result SubmitError Bytes
  request_hash e i = elim (e.marshal i.answers) [ none ↦ err encoding | some b ↦ ok (e.sha256 b) ]

  -- The INSERT of reserveIdempotency, with the return of ErrDuplicateRequest.
  unfoldable pub reserve_key :
      Env F → SubmitInput F → List IdempotencyRow → Result SubmitError (List IdempotencyRow)
  unfolding request_hash has_key
  reserve_key e i keys = do
    hash ← request_hash e i
    _ ← require (not (has_key keys i.idempotency_key)) duplicate_request
    ok (record { key = i.idempotency_key; request_hash = hash; response = none } ∷ keys)

  unfoldable pub reserve :
      Env F → SubmitInput F → List IdempotencyRow → Result SubmitError (List IdempotencyRow)
  unfolding reserve_key
  reserve e i keys = if i.idempotency_key == "" then ok keys else reserve_key e i keys

  -- The loop of splitSensitive: the plain answers, then the sensitive ones.
  unfoldable pub plain_answers :
      List (FieldId × Field) → List (String × Value F) → List (String × Value F)
  unfolding is_sensitive
  plain_answers fields [] = []
  plain_answers fields ((k, v) ∷ rest) =
      let later = plain_answers fields rest in
      if is_sensitive fields k then later else (k, v) ∷ later

  unfoldable pub sensitive_answers :
      List (FieldId × Field) → List (String × Value F) → List (String × Value F)
  unfolding is_sensitive
  sensitive_answers fields [] = []
  sensitive_answers fields ((k, v) ∷ rest) =
      let later = sensitive_answers fields rest in
      if is_sensitive fields k then (k, v) ∷ later else later

  -- The rest of splitSensitive: the tables with the key, and the sealed answers.
  unfoldable pub seal_answers :
      Env F → ℕ → List (String × Value F) → ConsentDb → Result SubmitError (ConsentDb × Bytes)
  unfolding data_key payload_of seal_with crypto_result
  seal_answers e subject [] db = ok (db, [])
  seal_answers e subject (x ∷ xs) db = do
    keyed ← raise_as consent (data_key e.aead e.kek e.dek e.wrap_nonce subject db)
    payload ← payload_of (e.marshal (x ∷ xs))
    sealed ←
        raise_as consent
          (crypto_result (seal_with e.aead keyed.1 e.seal_nonce payload (e.aad e.submission_id)))
    ok (keyed.0, sealed)

  unfoldable pub record_input : Env F → SubmitInput F → PublicForm F → Checked F → ℕ → RecordInput
  record_input e i pf c subject = record {
    subject = subject;
    document = c.document;
    submission = some e.submission_id;
    form_version = some pf.version_id;
    grants = i.consents;
    evidence = i.evidence;
  }

  -- InsertSubmission and the UPDATE that follows it.
  unfoldable pub submission_row :
      Env F → PublicForm F → FormMeta → Checked F → ℕ → Bytes → SubmissionRow F
  unfolding retention_for plain_answers
  submission_row e pf form c subject sealed = record {
    id = e.submission_id;
    form = pf.form_id;
    form_version = pf.version_id;
    answers = plain_answers pf.schema.fields c.answers;
    visible = c.visible;
    purge_at = retention_for e.default_retention form.retention_days e.now;
    subject = subject;
    sealed = sealed;
  }

  -- The rows of a response, the audit entry and the event, and the key as COMPLETED.
  unfoldable pub stored_rows :
      Env F
      → SubmitInput F
      → PublicForm F
      → FormMeta
      → Checked F
      → Db F
      → ℕ
      → List IdempotencyRow
      → Bytes
      → List FileRow
      → ConsentDb
      → Db F
  unfolding submission_row complete
  stored_rows e i pf form c db subject keys sealed files consents = record {
    consents = consents;
    submissions = submission_row e pf form c subject sealed ∷ db.submissions;
    audit =
        record {
          subject = subject;
          submission = e.submission_id;
          form = pf.form_id;
          version_no = pf.version_no;
          consents = length i.consents;
        }
        ∷ db.audit;
    outbox =
        record {
          submission = e.submission_id;
          form = pf.form_id;
          project = form.project_id;
          version_no = pf.version_no;
        }
        ∷ db.outbox;
    keys =
        if i.idempotency_key == ""
        then keys
        else complete e.submission_id e.receipt i.idempotency_key keys;
    files = files;
  }

  unfoldable pub store_submission :
      Env F → SubmitInput F → PublicForm F → FormMeta → Checked F → Db F → Result SubmitError (Db F)
  unfolding reserve upsert_subject sensitive_answers seal_answers bind_files record_consents
      record_input stored_rows
  store_submission e i pf form c db = do
    keys ← reserve e i db.keys
    let known = upsert_subject e.hashes e.subject_id c.kind c.value db.consents
    let subject = known.1.id
    sealed ← seal_answers e subject (sensitive_answers pf.schema.fields c.answers) known.0
    files ← bind_files pf.tenant_id e.submission_id c.attachments db.files
    consents ←
        raise_as consent (record_consents e.record_id (record_input e i pf c subject) sealed.0)
    ok (stored_rows e i pf form c db subject keys sealed.1 files consents)

module _ (fl : Floats) where
  open fl use {Float}

  -- ResolvePublic and formMeta are read before: the form and its version are arguments.
  unfoldable pub submit :
      Env Float
      → SubmitInput Float
      → PublicForm Float
      → FormMeta
      → Db Float
      → Result SubmitError (Db Float × SubmitResult)
  unfolding check_submission store_submission
  submit e i pf form db = do
    checked ← check_submission fl e i pf db
    stored ← store_submission e i pf form checked db
    ok (stored, record { submission_id = e.submission_id; receipt_token = e.receipt })
