-- ===== src/Dsr/Forgotten.antt =====
-- What becomes of a subject after erase_subject, whatever the modules consent and dsr do then; and what
-- the withdrawal of internal/modules/dsr/app/processor.go leaves in the log of consent.
use collectr.Prelude.{
  ℕ, ◌≡◌, refl, sym, ap, ◌∙◌, String, Bool, true, false, Option, some, List, [], ◌∷◌, eqb, ok, err,
  Returns-eq, arith, Bytes, eqb_iff,
}
use collectr.Crypto.Envelope.{Aead}
use collectr.Consent.Identity.{Hashes}
use collectr.Consent.Tables.{
  SubjectRow, PurposeRow, RecordInput, CurrentConsent, ConsentDb, subject_erased, subject_by_id,
}
use collectr.Consent.Subjects.{upsert_subject, data_key, open_sensitive, shred, rekey_identifier}
use collectr.Consent.Log.{create_purpose, create_document, record_consents, current_of}
use collectr.Consent.Projection.{
  record_consents-SameSubjects, latest, state_of_record, state_of_current, IsDerived,
}
use collectr.Consent.Erasure.{
  IsErased, shred-IsErased, shred_keeps-IsErased, upsert_subject-IsErased, data_key-erased,
  data_key-IsErased, open_sensitive-erased, rekey_identifier-IsErased,
}
use collectr.Dsr.Processor.{is_optional, withdraw_rows, withdraw_optional}

module _ (a : Aead) (kek : Bytes) (h : Hashes) (s : ℕ) where
  -- The calls of the two modules that write the tables of consent, one after another. A new subject
  -- has a uuid of its own.
  pub data Later : ConsentDb → ConsentDb → Type 0 where
    stop : {db : ConsentDb} → Later db db
    upsert :
        {db db' : ConsentDb} (id : ℕ) (kind value : String)
        → eqb id s ≡ false
        → Later (upsert_subject h id kind value db).0 db'
        → Later db db'
    key :
        {db db1 db' : ConsentDb} (dek nonce : Bytes) (t : ℕ) (k : Bytes)
        → data_key a kek dek nonce t db ≡ ok (db1, k)
        → Later db1 db'
        → Later db db'
    rekey :
        {db db1 db' : ConsentDb} (t : ℕ) (kind value : String)
        → rekey_identifier h t kind value db ≡ ok db1
        → Later db1 db'
        → Later db db'
    erase : {db db' : ConsentDb} (t : ℕ) → Later (shred h t db) db' → Later db db'
    grants :
        {db db1 db' : ConsentDb} (new_id : ℕ → ℕ) (i : RecordInput)
        → record_consents new_id i db ≡ ok db1
        → Later db1 db'
        → Later db db'
    withdraw : {db db' : ConsentDb} (t : ℕ) → Later (withdraw_optional t db) db' → Later db db'
    purpose :
        {db db' : ConsentDb} (id : ℕ) (code : String) (required : Bool)
        → Later (create_purpose id code required db) db'
        → Later db db'
    document :
        {db db' : ConsentDb} (sha256 : Bytes → Bytes) (id now : ℕ) (kind : String) (body : Bytes)
        → Later (create_document sha256 id now kind body db).0 db'
        → Later db db'

  same_subjects-IsErased :
      (db db' : ConsentDb) → db'.subjects ≡ db.subjects → IsErased s db → IsErased s db'
  same_subjects-IsErased db db' q (r, there, e, k) =
      (r, ap (λ rows. subject_by_id rows s) q ∙ there, e, k)

  Later-IsErased : {db db' : ConsentDb} → Later db db' → IsErased s db → IsErased s db'
  Later-IsErased stop d = d
  Later-IsErased (upsert {db} id kind value fresh l) d =
      Later-IsErased l (upsert_subject-IsErased h id s kind value db fresh d)
  Later-IsErased (key {db} dek nonce t k q l) d =
      Later-IsErased l (
        Returns-eq _ (data_key a kek dek nonce t db) (data_key-IsErased a kek dek nonce t s db d) q)
  Later-IsErased (rekey {db} t kind value q l) d = Later-IsErased l (
      Returns-eq (IsErased s) (rekey_identifier h t kind value db)
        (rekey_identifier-IsErased h t s kind value db d) q)
  Later-IsErased (erase {db} t l) d = Later-IsErased l (shred_keeps-IsErased h t s db d)
  Later-IsErased (grants {db} {db1} new_id i q l) d =
      Later-IsErased l
        (same_subjects-IsErased db db1 (record_consents-SameSubjects new_id i db db1 q) d)
  Later-IsErased (withdraw {db} t l) d =
      Later-IsErased l
        (same_subjects-IsErased db (withdraw_optional t db) (unfold withdraw_optional in refl) d)
  Later-IsErased (purpose {db} id code required l) d = Later-IsErased l (
      same_subjects-IsErased db (create_purpose id code required db) (unfold create_purpose in refl)
        d)
  Later-IsErased (document {db} sha256 id now kind body l) d = Later-IsErased l (
      same_subjects-IsErased db (create_document sha256 id now kind body db).0
        (unfold create_document in refl) d)

  -- Once a subject is erased, and whatever is then recorded, drawn or changed, DataKey gives no key for
  -- the subject and OpenSensitive opens none of the sealed answers.
  pub erased_for_good :
      {A : Type 0} (decode : Bytes → Option A) (db db' : ConsentDb) (r : SubjectRow)
      (dek nonce aad : Bytes) (b : ℕ) (blob : Bytes)
      → subject_by_id db.subjects s ≡ some r
      → Later (shred h s db) db'
      → (data_key a kek dek nonce s db' ≡ err subject_erased)
        × (open_sensitive a kek decode s aad (b ∷ blob) db' ≡ err subject_erased)
  erased_for_good decode db db' r dek nonce aad b blob there l =
      let d = Later-IsErased l (shred-IsErased h s db r there) in
      (
        data_key-erased a kek dek nonce s db' d,
        open_sensitive-erased a kek decode s aad b blob db' d,
      )

off_on : {n : ℕ} → ¬ (◌≡◌ {A = Option (Bool × ℕ)} (some (false, n)) (some (true, n)))
off_on q = absurd (ground (arith, q))

current_of-withdraw_rows :
    (ps : List PurposeRow) (s p : ℕ) (c : CurrentConsent) (l : List CurrentConsent)
    → is_optional ps p ≡ true
    → current_of l s p ≡ some c
    → current_of (withdraw_rows ps s l) s p ≡ some (record c { granted = false })
unfolding current_of withdraw_rows
current_of-withdraw_rows ps s p c [] o q = cc
current_of-withdraw_rows ps s p c (x ∷ l) o q =
    ground
      (arith, o, q, current_of-withdraw_rows ps s p c l, eqb_iff x.purpose p, eqb_iff x.subject s)

-- Where a subject has granted an optional purpose, a withdrawal through the portal turns the derived
-- row off and adds no record: the newest record still says granted, against it.
pub withdraw_unlogged :
    (s p : ℕ) (c : CurrentConsent) (db : ConsentDb)
    → IsDerived db
    → is_optional db.purposes p ≡ true
    → current_of db.current s p ≡ some c
    → c.granted ≡ true
    → let db' = withdraw_optional s db in
      (db'.records ≡ db.records)
      × (state_of_record (latest db'.records s p) ≡ some (true, c.last_record_id))
      × (state_of_current (current_of db'.current s p) ≡ some (false, c.last_record_id))
      × (¬ IsDerived db')
unfolding withdraw_optional
withdraw_unlogged s p c db d o q g =
    let logged : state_of_record (latest db.records s p) ≡ some (true, c.last_record_id) =
      sym (d s p) ∙ (ap state_of_current q ∙ ap (λ b. some (b, c.last_record_id)) g) in
    let shown : state_of_current (current_of (withdraw_rows db.purposes s db.current) s p)
        ≡ some (false, c.last_record_id) =
      ap state_of_current (current_of-withdraw_rows db.purposes s p c db.current o q) in
    (refl, logged, shown, λ d'. off_on (sym shown ∙ (d' s p ∙ logged)))
