-- ===== src/Submit/Tables.antt =====
-- The tables that internal/modules/forms/app/submit.go writes in one transaction of a tenant, and what
-- a submission is given. The rows of consent are those of Consent.Tables.
use collectr.Prelude.{ℕ, ℤ, String, Bool, Option, List, Bytes}
use collectr.Forms.Schema.{FieldId, Schema, Value}
use collectr.Forms.Engine.Conditions.{Error}
use collectr.Consent.Tables.{ConsentDb, ConsentError, ConsentGrant, Evidence}
use collectr.Crypto.Envelope.{Aead}
use collectr.Consent.Identity.{Hashes}
use collectr.Submit.Answers.{FieldErrors}

-- files.files: `pending` is the status `pending`.
pub record FileRow : Type 0 where
  pub id : ℕ
  pub tenant : ℕ
  pub pending : Bool
  pub submission : Option ℕ
  pub form_version : ℕ
  pub field : String

-- forms.submissions; `sealed` is answers_enc, empty for NULL.
pub record SubmissionRow (F : Type 0) : Type 0 where
  pub id : ℕ
  pub form : ℕ
  pub form_version : ℕ
  pub answers : List (String × Value F)
  pub visible : List FieldId
  pub purge_at : Option ℕ
  pub subject : ℕ
  pub sealed : Bytes

-- The audit entry `submission.created`, which names no answers.
pub record AuditRow : Type 0 where
  pub subject : ℕ
  pub submission : ℕ
  pub form : ℕ
  pub version_no : ℕ
  pub consents : ℕ

-- core.outbox with the topic `submission.created`
pub record OutboxRow : Type 0 where
  pub submission : ℕ
  pub form : ℕ
  pub project : ℕ
  pub version_no : ℕ

-- core.idempotency_keys with the scope `submission`; `response` is there once it is COMPLETED.
pub record IdempotencyRow : Type 0 where
  pub key : String
  pub request_hash : Bytes
  pub response : Option (ℕ × String)

-- store.PublicForm
pub record PublicForm (F : Type 0) : Type 0 where
  pub form_id : ℕ
  pub tenant_id : ℕ
  pub version_id : ℕ
  pub version_no : ℕ
  pub schema : Schema F

-- What Submit reads of store.Form.
pub record FormMeta : Type 0 where
  pub project_id : ℕ
  pub retention_days : Option ℤ

pub record SubmitInput (F : Type 0) : Type 0 where
  pub idempotency_key : String
  pub form_version_id : ℕ
  pub answers : List (String × Value F)
  pub consents : List ConsentGrant
  pub document_id : ℕ
  pub rendered_hash : Bytes
  pub evidence : Evidence

pub record SubmitResult : Type 0 where
  pub submission_id : ℕ
  pub receipt_token : String

pub data SubmitError : Type 0 where
  version_mismatch consent_mismatch no_identifier duplicate_request encoding already_bound :
      SubmitError
  consent_missing : String → SubmitError
  evaluating : Error → SubmitError
  field_errors : FieldErrors → SubmitError
  consent : ConsentError → SubmitError

pub record Db (F : Type 0) : Type 0 where
  pub consents : ConsentDb
  pub submissions : List (SubmissionRow F)
  pub audit : List AuditRow
  pub outbox : List OutboxRow
  pub keys : List IdempotencyRow
  pub files : List FileRow

-- What one call draws or is told: uuids, keys, nonces, the clock, the key of the deployment, and the
-- encodings of Go's libraries.
pub record Env (F : Type 0) : Type 0 where
  pub aead : Aead
  pub kek : Bytes
  pub hashes : Hashes
  pub sha256 : Bytes → Bytes
  pub marshal : List (String × Value F) → Option Bytes
  pub parse_uuid : String → Option ℕ
  -- "%s|%s" of the tenant and the submission
  pub aad : ℕ → Bytes
  pub now : ℕ
  pub default_retention : ℤ
  pub submission_id : ℕ
  pub subject_id : ℕ
  pub record_id : ℕ → ℕ
  pub receipt : String
  pub dek : Bytes
  pub wrap_nonce : Bytes
  pub seal_nonce : Bytes
