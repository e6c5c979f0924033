-- ===== src/Consent/Erasure.antt =====
-- What the operations on subjects do to a subject whose key was destroyed.
use collectr.Prelude.{
  ℕ, ◌≡◌, refl, sym, ap, subst, ◌∙◌, String, true, false, Option, none, some, List, [], ◌∷◌, eqb,
  ok, err, ◌>>=◌, Returns, arith, Option-cases, Bool-cases, inl, inr, Bytes, eqb_iff,
}
use collectr.Crypto.Envelope.{Aead, wrap, unwrap}
use collectr.Consent.Identity.{Hashes, identifier_hash}
use collectr.Consent.Tables.{SubjectRow, ConsentDb, subject_erased, subject_by_id, update_subject}
use collectr.Consent.Subjects.{
  find_subject, new_subject, upsert_subject, crypto_result, with_key, key_of_row, data_key,
  open_sensitive, opened_key, shred_row, shred, with_identifier, rekey_row, rekey_identifier,
}

-- The subject is there, marked as erased, and has no key.
abbrev pub IsErased : ℕ → ConsentDb → Type 0
IsErased s db =
    (r : SubjectRow) × (subject_by_id db.subjects s ≡ some r)
    × (r.erased ≡ true)
    × (r.dek_wrapped ≡ [])

abbrev mapped : (SubjectRow → SubjectRow) → Option SubjectRow → Option SubjectRow
mapped f none = none
mapped f (some r) = some (f r)

subject_by_id-update_same :
    (f : SubjectRow → SubjectRow) (rows : List SubjectRow) (s : ℕ)
    → ((r : SubjectRow) → (f r).id ≡ r.id)
    → subject_by_id (update_subject rows s f) s ≡ mapped f (subject_by_id rows s)
unfolding subject_by_id update_subject
subject_by_id-update_same f [] s keeps = refl
subject_by_id-update_same f (r ∷ rows) s keeps =
    ground (arith, keeps r, subject_by_id-update_same f rows s keeps)

subject_by_id-update_other :
    (f : SubjectRow → SubjectRow) (rows : List SubjectRow) (s t : ℕ)
    → ((r : SubjectRow) → (f r).id ≡ r.id)
    → eqb t s ≡ false
    → subject_by_id (update_subject rows t f) s ≡ subject_by_id rows s
unfolding subject_by_id update_subject
subject_by_id-update_other f [] s t keeps ne = refl
subject_by_id-update_other f (r ∷ rows) s t keeps ne =
    ground (arith, keeps r, ne, subject_by_id-update_other f rows s t keeps ne)

-- An update of another row changes nothing for an erased subject.
update_other-IsErased :
    (f : SubjectRow → SubjectRow) (t s : ℕ) (db : ConsentDb)
    → ((r : SubjectRow) → (f r).id ≡ r.id)
    → eqb t s ≡ false
    → IsErased s db
    → IsErased s (record db { subjects = update_subject db.subjects t f })
update_other-IsErased f t s db keeps ne (r, q, e, k) =
    (r, rw (subject_by_id-update_other f db.subjects s t keeps ne) q, e, k)

-- Shred erases a subject that is there.
pub shred-IsErased :
    (h : Hashes) (s : ℕ) (db : ConsentDb) (r : SubjectRow)
    → subject_by_id db.subjects s ≡ some r
    → IsErased s (shred h s db)
unfolding shred shred_row
shred-IsErased h s db r q = (
  shred_row h r,
  rw (subject_by_id-update_same (shred_row h) db.subjects s (λ r. refl), q) refl,
  refl,
  refl,
)

pub shred_keeps-IsErased :
    (h : Hashes) (t s : ℕ) (db : ConsentDb) → IsErased s db → IsErased s (shred h t db)
shred_keeps-IsErased h t s db (r, q, e, k) = elim (Bool-cases (eqb t s)) [
  | inl same ↦
      let p : t ≡ s = (eqb_iff t s).0 same in
      subst (λ u. IsErased s (shred h u db)) (sym p) (shred-IsErased h s db r q)
  | inr ne ↦
      unfold shred shred_row in
      update_other-IsErased (shred_row h) t s db (λ r. refl) ne (r, q, e, k)
]

pub subject_by_id-id :
    (rows : List SubjectRow) (s : ℕ) (r : SubjectRow) → subject_by_id rows s ≡ some r → r.id ≡ s
unfolding subject_by_id
subject_by_id-id [] s r q = cc
subject_by_id-id (x ∷ rows) s r q = ground (arith, q, subject_by_id-id rows s r)

pub upsert_subject-IsErased :
    (h : Hashes) (id s : ℕ) (kind value : String) (db : ConsentDb)
    → eqb id s ≡ false
    → IsErased s db
    → IsErased s (upsert_subject h id kind value db).0
unfolding upsert_subject new_subject
upsert_subject-IsErased h id s kind value db fresh (r, q, e, k) =
    elim (Option-cases (find_subject h kind value db)) [
      | inl new ↦ rw (new, upsert_subject) (r, unfold subject_by_id in rw fresh q, e, k)
      | inr (o, old) ↦ rw (old, upsert_subject) (r, q, e, k)
    ]

abbrev Keeps : ℕ → ConsentDb × Bytes → Type 0
Keeps s (db, key) = IsErased s db

module _ (a : Aead) (kek : Bytes) where
  -- DataKey gives an erased subject no key.
  pub data_key-erased :
      (dek nonce : Bytes) (s : ℕ) (db : ConsentDb)
      → IsErased s db
      → data_key a kek dek nonce s db ≡ err subject_erased
  unfolding data_key
  data_key-erased dek nonce s db (r, q, e, k) = rw (q, e, data_key) refl

  -- No sealed answers of an erased subject open.
  pub open_sensitive-erased :
      {A : Type 0} (decode : Bytes → Option A) (s : ℕ) (aad : Bytes) (b : ℕ) (blob : Bytes)
      (db : ConsentDb)
      → IsErased s db
      → open_sensitive a kek decode s aad (b ∷ blob) db ≡ err subject_erased
  unfolding open_sensitive opened_key unwrap
  open_sensitive-erased decode s aad b blob db (r, q, e, k) = rw (q, k, open_sensitive) refl

  key_of_row-IsErased :
      (dek nonce : Bytes) (s : ℕ) (t : SubjectRow) (db : ConsentDb) (wrapped : Bytes)
      → eqb t.id s ≡ false
      → IsErased s db
      → Returns (Keeps s) (key_of_row a kek dek nonce t db wrapped)
  unfolding key_of_row
  key_of_row-IsErased dek nonce s t db (x ∷ wrapped) ne d =
      elim (crypto_result (unwrap a kek (x ∷ wrapped)))
        as (λ m. Returns (Keeps s) (m >>= λ key. ok (db, key))) [ ok key ↦ d | err e ↦ tt ]
  key_of_row-IsErased dek nonce s t db [] ne d =
      elim (crypto_result (wrap a kek nonce dek))
        as (λ m. Returns (Keeps s) (
          m >>= λ wrapped.
          ok (record db { subjects = update_subject db.subjects t.id (with_key wrapped) }, dek))) [
            | ok wrapped ↦ update_other-IsErased (with_key wrapped) t.id s db (λ r. refl) ne d
            | err e ↦ tt
          ]

  pub data_key-IsErased :
      (dek nonce : Bytes) (t s : ℕ) (db : ConsentDb)
      → IsErased s db
      → Returns (Keeps s) (data_key a kek dek nonce t db)
  data_key-IsErased dek nonce t s db d = elim (Bool-cases (eqb t s)) [
    | inl same ↦ let p : t ≡ s = (eqb_iff t s).0 same in rw (p, data_key-erased dek nonce s db d) tt
    | inr ne ↦
        unfold data_key in
        elim (Option-cases (subject_by_id db.subjects t)) [
          | inl q ↦ rw (q, data_key) tt
          | inr (r, q) ↦
              let other : eqb r.id s ≡ false = rw (subject_by_id-id db.subjects t r q) ne in
              elim (Bool-cases r.erased) [
                | inl gone ↦ rw (q, gone, data_key) tt
                | inr there ↦
                    rw (q, there, data_key)
                      (key_of_row-IsErased dek nonce s r db r.dek_wrapped other d)
              ]
        ]
  ]

pub rekey_identifier-IsErased :
    (h : Hashes) (t s : ℕ) (kind value : String) (db : ConsentDb)
    → IsErased s db
    → Returns (IsErased s) (rekey_identifier h t kind value db)
unfolding rekey_identifier rekey_row
rekey_identifier-IsErased h t s kind value db (r, q, e, k) =
    elim (Option-cases (find_subject h kind value db)) [
      | inl new ↦ elim (Option-cases (subject_by_id db.subjects t)) [
        | inl none_there ↦ rw (new, none_there, rekey_identifier, rekey_row) tt
        | inr (o, there) ↦ elim (Bool-cases o.erased) [
          | inl gone ↦ rw (new, there, gone, rekey_identifier, rekey_row) tt
          | inr live ↦ elim (Bool-cases (eqb t s)) [
            | inl same ↦
                let p : t ≡ s = (eqb_iff t s).0 same in
                absurd (ground (arith, q, there, e, live, p))
            | inr ne ↦
                rw (new, there, live, rekey_identifier, rekey_row)
                  (update_other-IsErased (with_identifier kind (identifier_hash h kind value)) t s
                    db (λ r. refl) ne (r, q, e, k))
          ]
        ]
      ]
      | inr (o, owned) ↦ elim (Bool-cases (eqb o.id t)) [
        | inl own ↦ rw (owned, own, rekey_identifier) (r, q, e, k)
        | inr taken ↦ rw (owned, taken, rekey_identifier) tt
      ]
    ]

-- DataKey writes the wrapped key to the row of the subject.
pub subject_by_id-with_key :
    (rows : List SubjectRow) (s : ℕ) (r : SubjectRow) (wrapped : Bytes)
    → subject_by_id rows s ≡ some r
    → subject_by_id (update_subject rows r.id (with_key wrapped)) s ≡ some (with_key wrapped r)
subject_by_id-with_key rows s r wrapped q =
    subst
      (λ i. subject_by_id (update_subject rows i (with_key wrapped)) s ≡ some (with_key wrapped r))
      (sym (subject_by_id-id rows s r q))
      (subject_by_id-update_same (with_key wrapped) rows s (λ r. refl)
        ∙ ap (mapped (with_key wrapped)) q)
