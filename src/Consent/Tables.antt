-- ===== src/Consent/Tables.antt =====
-- The tables of internal/migrations/0003_consent.sql that internal/modules/consent/store reads and
-- writes, as a transaction of one tenant sees them. A uuid is a ℕ, and a NULL of bytes is empty.
use collectr.Prelude.{Bytes, ℕ, String, Bool, none, some, Option, List, [], ◌∷◌, eqb, if◌then◌else◌}
use collectr.Crypto.Envelope.{CryptoError}

-- consent.data_subjects; `erased` is `erased_at IS NOT NULL`.
pub record SubjectRow : Type 0 where
  pub id : ℕ
  pub identifier_hash : Bytes
  pub identifier_kind : String
  pub dek_wrapped : Bytes
  pub erased : Bool

-- consent.purposes
pub record PurposeRow : Type 0 where
  pub id : ℕ
  pub code : String
  pub is_required : Bool

-- consent.documents
pub record Document : Type 0 where
  pub id : ℕ
  pub kind : String
  pub version_no : ℕ
  pub content_hash : Bytes
  pub effective_from : ℕ

-- contracts.ConsentGrant
pub record ConsentGrant : Type 0 where
  pub purpose_code : String
  pub granted : Bool

-- contracts.ConsentEvidence
pub record Evidence : Type 0 where
  pub rendered_hash : Bytes
  pub method : String
  pub ip_prefix : String
  pub user_agent : String
  pub locale : String
  pub client_time : ℕ

-- contracts.RecordConsentInput
pub record RecordInput : Type 0 where
  pub subject : ℕ
  pub document : ℕ
  pub submission : Option ℕ
  pub form_version : Option ℕ
  pub grants : List ConsentGrant
  pub evidence : Evidence

-- consent.records: `granted` is the action `granted`, otherwise `withdrawn`.
pub record ConsentRecord : Type 0 where
  pub id : ℕ
  pub subject : ℕ
  pub purpose : ℕ
  pub submission : Option ℕ
  pub form_version : Option ℕ
  pub granted : Bool
  pub document : ℕ
  pub evidence : Evidence

-- consent.current_consents
pub record CurrentConsent : Type 0 where
  pub subject : ℕ
  pub purpose : ℕ
  pub granted : Bool
  pub last_record_id : ℕ

-- `records` has the newest first.
pub record ConsentDb : Type 0 where
  pub subjects : List SubjectRow
  pub purposes : List PurposeRow
  pub documents : List Document
  pub records : List ConsentRecord
  pub current : List CurrentConsent

pub data ConsentError : Type 0 where
  document_not_found purpose_not_found subject_erased subject_not_found identifier_taken :
      ConsentError
  undecodable : ConsentError
  crypto : CryptoError → ConsentError

-- WHERE id = $1
unfoldable pub subject_by_id : List SubjectRow → ℕ → Option SubjectRow
subject_by_id [] s = none
subject_by_id (r ∷ rows) s = let rest = subject_by_id rows s in if eqb r.id s then some r else rest

unfoldable pub update_subject : List SubjectRow → ℕ → (SubjectRow → SubjectRow) → List SubjectRow
update_subject [] s f = []
update_subject (r ∷ rows) s f =
    let rest = update_subject rows s f in if eqb r.id s then f r ∷ rest else r ∷ rest
