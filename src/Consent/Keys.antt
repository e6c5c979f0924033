-- ===== src/Consent/Keys.antt =====
-- DataKey and OpenSensitive of internal/modules/consent/store/store.go: the key of a subject stays
-- the same, and what is sealed with it opens.
use collectr.Prelude.{
  ℕ, ◌≡◌, refl, false, Option, some, [], ◌∷◌, Result, ok, err, ◌>>=◌, Returns, arith, Option-cases,
  Bool-cases, inl, inr, Bytes, length,
}
use collectr.Crypto.Envelope.{Aead, CryptoError, nonce_size, wrap, unwrap, open_blob, open_with}
use collectr.Crypto.Roundtrip.{Opens, unwrap-wrap}
use collectr.Consent.Tables.{SubjectRow, ConsentDb, subject_by_id, update_subject}
use collectr.Consent.Subjects.{
  crypto_result, with_key, key_of_row, data_key, opened_key, decoded, open_sensitive,
}
use collectr.Consent.Erasure.{subject_by_id-with_key}

module _ (a : Aead) (kek : Bytes) where
  -- The subject is there, not erased, and its row unwraps to this key.
  abbrev pub HasKey : ℕ → ConsentDb × Bytes → Type 0
  HasKey s (db, key) =
      (r : SubjectRow) × (subject_by_id db.subjects s ≡ some r)
      × (r.erased ≡ false)
      × (unwrap a kek r.dek_wrapped ≡ ok key)

  pub crypto_result-ok :
      (m : Result CryptoError Bytes) (key : Bytes) → crypto_result m ≡ ok key → m ≡ ok key
  unfolding crypto_result
  crypto_result-ok (ok k) key q = ground (arith, q)
  crypto_result-ok (err e) key q = cc

  module _ (opens : Opens a) where
    key_of_row-HasKey :
        (dek nonce : Bytes) (s : ℕ) (r : SubjectRow) (db : ConsentDb) (wrapped : Bytes)
        → length nonce ≡ nonce_size
        → subject_by_id db.subjects s ≡ some r
        → r.erased ≡ false
        → r.dek_wrapped ≡ wrapped
        → Returns (HasKey s) (key_of_row a kek dek nonce r db wrapped)
    unfolding key_of_row
    key_of_row-HasKey dek nonce s r db (x ∷ wrapped) n q e w =
        let m = crypto_result (unwrap a kek (x ∷ wrapped)) in
        elim m as (λ o. m ≡ o → Returns (HasKey s) (o >>= λ key. ok (db, key))) [
          | ok key ↦ λ h. (r, q, e, rw w (crypto_result-ok (unwrap a kek (x ∷ wrapped)) key h))
          | err x ↦ λ h. tt
        ]
          refl
    key_of_row-HasKey dek nonce s r db [] n q e w =
        let m = crypto_result (wrap a kek nonce dek) in
        let with_wrapped : Bytes → ConsentDb × Bytes = λ wrapped.
          (record db { subjects = update_subject db.subjects r.id (with_key wrapped) }, dek) in
        elim m as (λ o. m ≡ o → Returns (HasKey s) (o >>= λ wrapped. ok (with_wrapped wrapped))) [
          | ok wrapped ↦ λ h. (
            with_key wrapped r,
            subject_by_id-with_key db.subjects s r wrapped q,
            e,
            unwrap-wrap a opens kek nonce dek wrapped n
                (crypto_result-ok (wrap a kek nonce dek) wrapped h),
          )
          | err x ↦ λ h. tt
        ]
          refl

    -- DataKey leaves the subject with the key that it returns.
    pub data_key-HasKey :
        (dek nonce : Bytes) (s : ℕ) (db : ConsentDb)
        → length nonce ≡ nonce_size
        → Returns (HasKey s) (data_key a kek dek nonce s db)
    unfolding data_key
    data_key-HasKey dek nonce s db n = elim (Option-cases (subject_by_id db.subjects s)) [
      | inl q ↦ rw (q, data_key) tt
      | inr (r, q) ↦ elim (Bool-cases r.erased) [
        | inl gone ↦ rw (q, gone, data_key) tt
        | inr there ↦
            rw (q, there, data_key)
              (key_of_row-HasKey dek nonce s r db r.dek_wrapped n q there refl)
      ]
    ]

  key_of_row-again :
      (dek nonce : Bytes) (r : SubjectRow) (db : ConsentDb) (wrapped key : Bytes)
      → unwrap a kek wrapped ≡ ok key
      → key_of_row a kek dek nonce r db wrapped ≡ ok (db, key)
  unfolding key_of_row crypto_result
  key_of_row-again dek nonce r db (x ∷ wrapped) key u = rw u refl
  key_of_row-again dek nonce r db [] key u = absurd (unfold unwrap in (ground (arith, u)))

  -- A subject that has a key keeps it: whatever key and nonce are drawn, DataKey gives the one
  -- that is there.
  pub HasKey-data_key :
      (dek nonce : Bytes) (s : ℕ) (db : ConsentDb) (key : Bytes)
      → HasKey s (db, key)
      → data_key a kek dek nonce s db ≡ ok (db, key)
  unfolding data_key
  HasKey-data_key dek nonce s db key (r, q, e, u) =
      rw (q, e, data_key) (key_of_row-again dek nonce r db r.dek_wrapped key u)

  pub HasKey-open_sensitive :
      {A : Type 0} (decode : Bytes → Option A) (s : ℕ) (aad : Bytes) (b : ℕ) (blob : Bytes)
      (db : ConsentDb) (key text : Bytes) (v : A)
      → HasKey s (db, key)
      → open_with a key (b ∷ blob) aad ≡ ok text
      → decode text ≡ some v
      → open_sensitive a kek decode s aad (b ∷ blob) db ≡ ok (some v)
  unfolding open_sensitive opened_key crypto_result decoded
  HasKey-open_sensitive decode s aad b blob db key text v (r, q, e, u) o d =
      rw (q, u, o, d, open_sensitive, decoded) refl

  -- So what was sealed with the key of the subject opens.
  pub open_sensitive-HasKey :
      {A : Type 0} (decode : Bytes → Option A) (s : ℕ) (aad blob : Bytes) (db : ConsentDb)
      (key text : Bytes) (v : A)
      → HasKey s (db, key)
      → open_with a key blob aad ≡ ok text
      → decode text ≡ some v
      → open_sensitive a kek decode s aad blob db ≡ ok (some v)
  unfolding open_with open_blob
  open_sensitive-HasKey decode s aad [] db key text v h o d = absurd (ground (arith, o))
  open_sensitive-HasKey decode s aad (b ∷ blob) db key text v h o d =
      HasKey-open_sensitive decode s aad b blob db key text v h o d
