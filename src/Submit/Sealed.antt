-- ===== src/Submit/Sealed.antt =====
-- The sealed answers of a submission of submit.go, opened as MySubmissions of
-- internal/modules/dsr/app/service.go opens them.
use collectr.Prelude.{
  ℕ, ◌≡◌, refl, sym, subst, ap, ◌∙◌, String, Bool, true, false, ◌&&◌, Option, none, some, List, [],
  ◌∷◌, ◌++◌, ok, >>=-eq-ok, ok_injective, raise_as, raise_as-eq-ok, Returns-eq, arith, lookup, has,
  Bytes, length,
}
use collectr.Crypto.Envelope.{nonce_size, seal_with}
use collectr.Crypto.Roundtrip.{Opens, open_with-seal_with}
use collectr.Forms.Schema.{
  FieldId, Field, Value, Items, null, bool, float64, string, any_slice, nil, cons,
}
use collectr.Forms.Engine.Conditions.{Floats}
use collectr.Forms.Engine.Walk.{Evaluation, evaluate}
use collectr.Consent.Tables.{ConsentDb, subject_by_id}
use collectr.Consent.Subjects.{upsert_subject, data_key, crypto_result, open_sensitive}
use collectr.Consent.Projection.{record_consents-SameSubjects}
use collectr.Consent.Keys.{HasKey, data_key-HasKey, crypto_result-ok, open_sensitive-HasKey}
use collectr.Submit.Tables.{
  SubmissionRow, PublicForm, FormMeta, SubmitInput, SubmitResult, consent, Db, Env,
}
use collectr.Submit.Checks.{visible_answers}
use collectr.Submit.Store.{
  plain_answers, sensitive_answers, payload_of, seal_answers, record_input, submission_row,
  stored_rows, submit,
}
use collectr.Submit.Minimal.{
  visible_answers-lookup, lookup-visible_answers, lookup-plain_answers, lookup-sensitive_answers,
  submit-steps,
}

-- The answers that the portal shows: the plain ones, and over them those that were sealed.
unfoldable pub merge_sealed :
    {F : Type 0}
    → List (String × Value F)
    → Option (List (String × Value F))
    → List (String × Value F)
merge_sealed plain none = plain
merge_sealed plain (some sealed) = sealed ++ plain

-- What json.Unmarshal gives for a JSON text other than an object or an array that holds one.
unfoldable mutual
  pub is_json : {F : Type 0} → Value F → Bool
  is_json null = true
  is_json (bool b) = true
  is_json (float64 n) = true
  is_json (string t) = true
  is_json (any_slice items) = are_json items
  is_json _ = false

  pub are_json : {F : Type 0} → Items F → Bool
  are_json nil = true
  are_json (cons v items) = is_json v && are_json items

module _ {F : Type 0} (decode : Bytes → Option (List (String × Value F))) where
  -- The same map: a list of entries stands for what is found in it.
  abbrev pub SameMap : List (String × Value F) → List (String × Value F) → Type 0
  SameMap m m' = (k : String) → lookup k m ≡ lookup k m'

  -- Each value is one that json.Unmarshal gives, and no object.
  abbrev pub IsJsonMap : List (String × Value F) → Type 0
  IsJsonMap m = (k : String) (v : Value F) → lookup k m ≡ some v → is_json v ≡ true

  -- What json.Marshal made of a map of such values, json.Unmarshal makes the same map of, whatever the
  -- order of its keys.
  abbrev pub Restores : Env F → Type 0
  Restores e =
      (m : List (String × Value F)) (b : Bytes)
      → IsJsonMap m
      → e.marshal m ≡ some b
      → (m' : List (String × Value F)) × (decode b ≡ some m') × SameMap m' m

  -- What is opened of sealed answers: nothing where there were none, else the same map.
  abbrev pub Opened : List (String × Value F) → Option (List (String × Value F)) → Type 0
  Opened answers none = answers ≡ []
  Opened answers (some m) = SameMap m answers

  payload_of-ok : (o : Option Bytes) (b : Bytes) → payload_of o ≡ ok b → o ≡ some b
  unfolding payload_of
  payload_of-ok none b q = cc
  payload_of-ok (some x) b q = ap some (ok_injective q)

  -- What was sealed opens, in any tables whose subjects are those that seal_answers left.
  open-seal_answers :
      (e : Env F) (subject : ℕ) (answers : List (String × Value F)) (db with_key after : ConsentDb)
      (sealed : Bytes)
      → Opens e.aead
      → Restores e
      → IsJsonMap answers
      → length e.wrap_nonce ≡ nonce_size
      → length e.seal_nonce ≡ nonce_size
      → seal_answers e subject answers db ≡ ok (with_key, sealed)
      → after.subjects ≡ with_key.subjects
      → (o : Option (List (String × Value F))) × (open_sensitive e.aead e.kek decode subject
            (e.aad e.submission_id)
            sealed
            after
          ≡ ok o)
        × Opened answers o
  unfolding seal_answers
  open-seal_answers e subject [] db with_key after sealed opens restores json wn sn q same =
      let none_sealed : [] ≡ sealed = ap (λ p. p.1) (ok_injective q) in
      let nothing =
        subst
          (λ b.
            open_sensitive e.aead e.kek decode subject (e.aad e.submission_id) b after ≡ ok none)
          none_sealed (unfold open_sensitive in refl) in
      (none, nothing, refl)
  open-seal_answers e subject (x ∷ xs) db with_key after sealed opens restores json wn sn q same =
      let keyed_m = data_key e.aead e.kek e.dek e.wrap_nonce subject db in
      let ((keyed, key), r1, q1) = >>=-eq-ok (raise_as consent keyed_m) _ q in
      let (payload, r2, q2) = >>=-eq-ok (payload_of (e.marshal (x ∷ xs))) _ q1 in
      let sealing = seal_with e.aead key e.seal_nonce payload (e.aad e.submission_id) in
      let (blob, r3, q3) = >>=-eq-ok (raise_as consent (crypto_result sealing)) _ q2 in
      let has_key : HasKey e.aead e.kek subject (keyed, key) =
        Returns-eq (HasKey e.aead e.kek subject) keyed_m
          (data_key-HasKey e.aead e.kek opens e.dek e.wrap_nonce subject db wn)
          (raise_as-eq-ok consent keyed_m r1) in
      let kept_key : keyed ≡ with_key = ap (λ p. p.0) (ok_injective q3) in
      let kept_blob : blob ≡ sealed = ap (λ p. p.1) (ok_injective q3) in
      let (r, there, live, u) = has_key in
      let opens_here =
        open_with-seal_with e.aead opens key e.seal_nonce payload (e.aad e.submission_id) blob sn (
          crypto_result-ok e.aead e.kek sealing blob
            (raise_as-eq-ok consent (crypto_result sealing) r3)) in
      let (m, text, same_map) =
        restores (x ∷ xs) payload json (payload_of-ok (e.marshal (x ∷ xs)) payload r2) in
      let there_after =
        ap (λ rows. subject_by_id rows subject)
          (same ∙ ap (λ (d : ConsentDb). d.subjects) (sym kept_key))
        ∙ there in
      let result =
        subst
          (λ b.
            open_sensitive e.aead e.kek decode subject (e.aad e.submission_id) b after
            ≡ ok (some m))
          kept_blob
          (open_sensitive-HasKey e.aead e.kek decode subject (e.aad e.submission_id) blob after key
            payload m (r, there_after, live, u) opens_here text) in
      (some m, result, same_map)

  lookup-append :
      (xs ys : List (String × Value F)) (k : String)
      → lookup k (xs ++ ys) ≡ (elim (lookup k xs) [ none ↦ lookup k ys | some v ↦ some v ])
  unfolding lookup
  lookup-append [] ys k = refl
  lookup-append ((j, v) ∷ xs) ys k = ground (arith, lookup-append xs ys k)

  merged-Opened :
      (sensitive plain : List (String × Value F)) (o : Option (List (String × Value F)))
      (k : String)
      → Opened sensitive o
      → lookup k (merge_sealed plain o) ≡ lookup k (sensitive ++ plain)
  unfolding merge_sealed
  merged-Opened sensitive plain none k e = ap (λ s. lookup k (s ++ plain)) (sym e)
  merged-Opened sensitive plain (some m) k same =
      lookup-append m plain k
      ∙ ap (λ x. elim x [ none ↦ lookup k plain | some v ↦ some v ]) (same k)
      ∙ sym (lookup-append sensitive plain k)

  -- The sensitive answers over the plain ones are all the answers.
  lookup-merged :
      (fields : List (FieldId × Field)) (answers : List (String × Value F))
      (o : Option (List (String × Value F))) (k : String)
      → Opened (sensitive_answers fields answers) o
      → lookup k (merge_sealed (plain_answers fields answers) o) ≡ lookup k answers
  lookup-merged fields answers o k same =
      let sensitive = sensitive_answers fields answers in
      let plain = plain_answers fields answers in
      merged-Opened sensitive plain o k same
      ∙ lookup-append sensitive plain k
      ∙ ground
          (arith, lookup-sensitive_answers fields answers k, lookup-plain_answers fields answers k)

  -- The sensitive answers of fields that are shown are values as the request brought them.
  sensitive-IsJsonMap :
      (fields : List (FieldId × Field)) (visible : List FieldId) (sent : List (String × Value F))
      → IsJsonMap sent
      → IsJsonMap (sensitive_answers fields (visible_answers visible sent))
  sensitive-IsJsonMap fields visible sent json k v q =
      let here : lookup k (visible_answers visible sent) ≡ some v =
        ground (arith, q, lookup-sensitive_answers fields (visible_answers visible sent) k) in
      json k v (lookup-visible_answers visible sent k v here).1

module _ (fl : Floats) where
  open fl use {Float}

  -- The portal shows all that was asked: the tables after Submit open the sealed answers of the new
  -- row, and these over the plain ones of the row hold every answer of a field that Evaluate shows,
  -- if no answer is an object or what no JSON text gives, AES-GCM opens what it sealed, json.Unmarshal
  -- makes the same map of what json.Marshal wrote of such a map, and the nonces have 12 bytes.
  pub open-submit :
      (decode : Bytes → Option (List (String × Value Float))) (e : Env Float)
      (i : SubmitInput Float) (pf : PublicForm Float) (form : FormMeta) (db db' : Db Float)
      (r : SubmitResult)
      → Opens e.aead
      → Restores decode e
      → IsJsonMap decode i.answers
      → length e.wrap_nonce ≡ nonce_size
      → length e.seal_nonce ≡ nonce_size
      → submit fl e i pf form db ≡ ok (db', r)
      → (res : Evaluation) × (row : SubmissionRow Float) × (sealed : Option
          (List (String × Value Float)))
        × (evaluate fl pf.schema i.answers ≡ ok res)
        × (db'.submissions ≡ row ∷ db.submissions)
        × (open_sensitive e.aead e.kek decode row.subject (e.aad row.id) row.sealed db'.consents
            ≡ ok sealed)
        × ((k : String) (v : Value Float)
            → has res.visible k ≡ true
            → lookup k i.answers ≡ some v
            → lookup k (merge_sealed row.answers sealed) ≡ some v)
  unfolding stored_rows submission_row
  open-submit decode e i pf form db db' r opens restores json wn sn q =
      let (c, k, s, id) = submit-steps fl e i pf form db db' r q in
      let known = upsert_subject e.hashes e.subject_id c.kind c.value db.consents in
      let fields = pf.schema.fields in
      let json_here =
        subst (λ a. IsJsonMap decode (sensitive_answers fields a)) (sym k.answers)
          (sensitive-IsJsonMap decode fields k.result.visible i.answers json) in
      let (o, opening, same) =
        open-seal_answers decode e known.1.id (sensitive_answers fields c.answers) known.0
          s.with_key s.consents s.sealed opens restores json_here wn sn s.sealing
          (record_consents-SameSubjects e.record_id (record_input e i pf c known.1.id) s.with_key
            s.consents s.recording) in
      (
        k.result,
        submission_row e pf form c known.1.id s.sealed,
        o,
        k.evaluated,
        ap (λ (d : Db Float). d.submissions) s.rows,
        subst
            (λ (d : ConsentDb).
              open_sensitive e.aead e.kek decode known.1.id (e.aad e.submission_id) s.sealed d
              ≡ ok o)
            (sym (ap (λ (d : Db Float). d.consents) s.rows)) opening,
        λ x v shown sent.
            lookup-merged decode fields c.answers o x same
            ∙ ap (lookup x) k.answers
            ∙ visible_answers-lookup k.result.visible i.answers x v shown sent,
      )
