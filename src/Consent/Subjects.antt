-- ===== src/Consent/Subjects.antt =====
-- The subjects of internal/modules/consent/store/store.go: UpsertSubject, FindSubject, DataKey,
-- Shred, RekeyIdentifier and OpenSensitive. The uuid, the key and the nonce that an operation draws
-- are arguments.
use collectr.Prelude.{
  Bytes, eq_bytes, ℕ, String, true, false, ◌&&◌, Option, none, some, List, [], ◌∷◌, ◌==◌, eqb,
  if◌then◌else◌, Result, ok, err, ◌>>=◌,
}
use collectr.Crypto.Envelope.{Aead, CryptoError, wrap, unwrap, open_with}
use collectr.Consent.Identity.{Hashes, identifier_hash}
use collectr.Consent.Tables.{
  SubjectRow, ConsentDb, ConsentError, subject_erased, subject_not_found, identifier_taken,
  undecodable, crypto, subject_by_id, update_subject,
}

-- WHERE identifier_kind = $2 AND identifier_hash = $3
unfoldable pub subject_by_hash : List SubjectRow → String → Bytes → Option SubjectRow
unfolding eq_bytes
subject_by_hash [] kind hash = none
subject_by_hash (r ∷ rows) kind hash =
    let rest = subject_by_hash rows kind hash in
    if r.identifier_kind == kind && eq_bytes r.identifier_hash hash then some r else rest

unfoldable pub find_subject : Hashes → String → String → ConsentDb → Option SubjectRow
unfolding subject_by_hash identifier_hash
find_subject h kind value db = subject_by_hash db.subjects kind (identifier_hash h kind value)

unfoldable pub new_subject : Hashes → ℕ → String → String → SubjectRow
unfolding identifier_hash
new_subject h id kind value = record {
  id = id;
  identifier_hash = identifier_hash h kind value;
  identifier_kind = kind;
  dek_wrapped = [];
  erased = false;
}

-- ON CONFLICT writes the kind that is there, which leaves the row as it is.
unfoldable pub upsert_subject : Hashes → ℕ → String → String → ConsentDb → ConsentDb × SubjectRow
unfolding find_subject new_subject
upsert_subject h id kind value db = elim (find_subject h kind value db) [
  | some r ↦ (db, r)
  | none ↦ let r = new_subject h id kind value in (record db { subjects = r ∷ db.subjects }, r)
]

unfoldable pub crypto_result : Result CryptoError Bytes → Result ConsentError Bytes
crypto_result (ok b) = ok b
crypto_result (err e) = err (crypto e)

abbrev pub with_key : Bytes → SubjectRow → SubjectRow
with_key wrapped r = record r { dek_wrapped = wrapped }

unfoldable pub decoded : {A : Type 0} → (Bytes → Option A) → Bytes → Result ConsentError A
decoded decode plaintext = elim (decode plaintext) [ none ↦ err undecodable | some v ↦ ok v ]

module _ (a : Aead) (kek : Bytes) where
  -- The part of DataKey after the row is read; `dek` and `nonce` are used for the first key only.
  unfoldable pub key_of_row :
      Bytes → Bytes → SubjectRow → ConsentDb → Bytes → Result ConsentError (ConsentDb × Bytes)
  unfolding crypto_result update_subject
  key_of_row dek nonce r db (x ∷ wrapped) = do
    key ← crypto_result (unwrap a kek (x ∷ wrapped))
    ok (db, key)
  key_of_row dek nonce r db [] = do
    wrapped ← crypto_result (wrap a kek nonce dek)
    ok (record db { subjects = update_subject db.subjects r.id (with_key wrapped) }, dek)

  unfoldable pub data_key : Bytes → Bytes → ℕ → ConsentDb → Result ConsentError (ConsentDb × Bytes)
  unfolding subject_by_id key_of_row
  data_key dek nonce s db = elim (subject_by_id db.subjects s) [
    | none ↦ err subject_not_found
    | some r ↦ if r.erased then err subject_erased else key_of_row dek nonce r db r.dek_wrapped
  ]

  -- `errors.Is(err, crypto.ErrShredded)`
  unfoldable pub opened_key : Result CryptoError Bytes → Result ConsentError Bytes
  opened_key (ok key) = ok key
  opened_key (err CryptoError.shredded) = err subject_erased
  opened_key (err e) = err (crypto e)

  module _ {A : Type 0} (decode : Bytes → Option A) where
    -- The nil map of an empty blob is `none`; `aad` names the tenant and the submission.
    unfoldable pub open_sensitive : ℕ → Bytes → Bytes → ConsentDb → Result ConsentError (Option A)
    unfolding subject_by_id opened_key crypto_result decoded
    open_sensitive s aad [] db = ok none
    open_sensitive s aad (x ∷ blob) db = elim (subject_by_id db.subjects s) [
      | none ↦ err subject_erased
      | some r ↦ (do
        key ← opened_key (unwrap a kek r.dek_wrapped)
        plaintext ← crypto_result (open_with a key (x ∷ blob) aad)
        answers ← decoded decode plaintext
        ok (some answers))
    ]

unfoldable pub shred_row : Hashes → SubjectRow → SubjectRow
shred_row h r = record r { dek_wrapped = []; identifier_hash = h.id_digest r.id; erased = true }

-- Shred, and the UPDATE of consent.erase_subject.
unfoldable pub shred : Hashes → ℕ → ConsentDb → ConsentDb
unfolding shred_row update_subject
shred h s db = record db { subjects = update_subject db.subjects s (shred_row h) }

abbrev pub with_identifier : String → Bytes → SubjectRow → SubjectRow
with_identifier kind hash r = record r { identifier_hash = hash; identifier_kind = kind }

-- The UPDATE of RekeyIdentifier, which touches no row if the subject is erased or not there.
unfoldable pub rekey_row : String → Bytes → ℕ → ConsentDb → Result ConsentError ConsentDb
unfolding subject_by_id update_subject
rekey_row kind hash s db = elim (subject_by_id db.subjects s) [
  | none ↦ err subject_erased
  | some r ↦
      if r.erased
      then err subject_erased
      else ok (record db { subjects = update_subject db.subjects s (with_identifier kind hash) })
]

unfoldable pub rekey_identifier :
    Hashes → ℕ → String → String → ConsentDb → Result ConsentError ConsentDb
unfolding find_subject identifier_hash rekey_row
rekey_identifier h s kind value db = elim (find_subject h kind value db) [
  | some owner ↦ if eqb owner.id s then ok db else err identifier_taken
  | none ↦ rekey_row kind (identifier_hash h kind value) s db
]
