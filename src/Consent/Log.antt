-- ===== src/Consent/Log.antt =====
-- Purposes, documents and the log of consent of internal/modules/consent/store/store.go:
-- CreatePurpose, CreateDocument, ActiveDocument, ActiveDocumentBody, Record and HasActive.
-- `new_id k` is the uuid that a call draws for its k-th row.
use collectr.Prelude.{
  ℕ, suc, String, Bool, false, ◌&&◌, Option, none, some, List, [], ◌∷◌, ◌==◌, eqb, leb, ltb,
  if◌then◌else◌, Result, ok, err, Bytes,
}
use collectr.Consent.Tables.{
  PurposeRow, Document, ConsentGrant, RecordInput, CurrentConsent, ConsentDb, ConsentError,
  document_not_found, purpose_not_found,
}

unfoldable pub create_purpose : ℕ → String → Bool → ConsentDb → ConsentDb
create_purpose id code required db = record db {
  purposes = record { id = id; code = code; is_required = required } ∷ db.purposes;
}

-- coalesce(max(version_no), 0) WHERE kind = $2
unfoldable pub max_version : List Document → String → ℕ
max_version [] kind = 0
max_version (d ∷ rest) kind =
    let later = max_version rest kind in
    if d.kind == kind && ltb later d.version_no then d.version_no else later

unfoldable pub create_document :
    (Bytes → Bytes) → ℕ → ℕ → String → Bytes → ConsentDb → ConsentDb × Document
unfolding max_version
create_document sha256 id now kind body db =
    let d : Document = record {
      id = id;
      kind = kind;
      version_no = suc (max_version db.documents kind);
      content_hash = sha256 body;
      effective_from = now;
    } in
    (record db { documents = d ∷ db.documents }, d)

-- ORDER BY version_no DESC LIMIT 1, over the rows that `keep` holds of
unfoldable pub newest : (Document → Bool) → List Document → Option Document
newest keep [] = none
newest keep (d ∷ rest) =
    let later = newest keep rest in
    if keep d
    then elim later [
      | none ↦ some d
      | some e ↦ if leb e.version_no d.version_no then some d else some e
    ]
    else later

abbrev pub in_effect : String → ℕ → Document → Bool
in_effect kind now d = d.kind == kind && leb d.effective_from now

abbrev pub of_kind : String → Document → Bool
of_kind kind d = d.kind == kind

unfoldable pub document_result : Option Document → Result ConsentError Document
document_result none = err document_not_found
document_result (some d) = ok d

unfoldable pub active_document : String → ℕ → ConsentDb → Result ConsentError Document
unfolding newest document_result
active_document kind now db = document_result (newest (in_effect kind now) db.documents)

unfoldable pub active_document_body : String → ConsentDb → Result ConsentError Document
unfolding newest document_result
active_document_body kind db = document_result (newest (of_kind kind) db.documents)

-- SELECT code, id FROM consent.purposes WHERE code = …
unfoldable pub purpose_of_code : List PurposeRow → String → Option PurposeRow
purpose_of_code [] code = none
purpose_of_code (p ∷ rest) code =
    let later = purpose_of_code rest code in if p.code == code then some p else later

unfoldable pub current_of : List CurrentConsent → ℕ → ℕ → Option CurrentConsent
current_of [] s p = none
current_of (c ∷ rest) s p =
    let later = current_of rest s p in if eqb c.subject s && eqb c.purpose p then some c else later

-- INSERT … ON CONFLICT (tenant_id, data_subject_id, purpose_id) DO UPDATE
unfoldable pub put_current : CurrentConsent → List CurrentConsent → List CurrentConsent
put_current c [] = c ∷ []
put_current c (d ∷ rest) =
    let later = put_current c rest in
    if eqb d.subject c.subject && eqb d.purpose c.purpose then c ∷ rest else d ∷ later

unfoldable pub record_grant : RecordInput → ℕ → ℕ → Bool → ConsentDb → ConsentDb
unfolding put_current
record_grant i id purpose granted db = record db {
  records =
      record {
        id = id;
        subject = i.subject;
        purpose = purpose;
        submission = i.submission;
        form_version = i.form_version;
        granted = granted;
        document = i.document;
        evidence = i.evidence;
      }
      ∷ db.records;
  current =
      put_current
        (record { subject = i.subject; purpose = purpose; granted = granted; last_record_id = id })
        db.current;
}

-- The loop of Record. The map of purposes is read once, before it; Record never writes purposes.
unfoldable pub record_grants :
    (ℕ → ℕ) → RecordInput → ℕ → List ConsentGrant → ConsentDb → Result ConsentError ConsentDb
unfolding purpose_of_code record_grant
record_grants new_id i k [] db = ok db
record_grants new_id i k (g ∷ rest) db = elim (purpose_of_code db.purposes g.purpose_code) [
  | none ↦ err purpose_not_found
  | some p ↦ record_grants new_id i (suc k) rest (record_grant i (new_id k) p.id g.granted db)
]

unfoldable pub record_consents : (ℕ → ℕ) → RecordInput → ConsentDb → Result ConsentError ConsentDb
unfolding record_grants
record_consents new_id i db = record_grants new_id i 0 i.grants db

unfoldable pub has_active : ℕ → String → ConsentDb → Bool
unfolding purpose_of_code current_of
has_active s code db = elim (purpose_of_code db.purposes code) [
  | none ↦ false
  | some p ↦ elim (current_of db.current s p.id) [ none ↦ false | some c ↦ c.granted ]
]
