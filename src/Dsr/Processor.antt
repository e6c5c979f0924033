-- ===== src/Dsr/Processor.antt =====
-- internal/modules/dsr/app/processor.go: what is done about a request without a human. A tick is one
-- transaction: on an error the tables stay as they were.
use collectr.Prelude.{
  ℕ, suc, String, Bool, true, false, ◌&&◌, not, Option, List, [], ◌∷◌, eqb, leb, if◌then◌else◌,
  take, Result, ok, err, ◌>>=◌,
}
use collectr.Forms.Schema.{FieldId, Field, Value}
use collectr.Consent.Identity.{Hashes}
use collectr.Consent.Tables.{PurposeRow, CurrentConsent, ConsentDb}
use collectr.Consent.Subjects.{shred}
use collectr.Dsr.Requests.{
  RequestType, Status, received, verified, erase, withdraw, access, export, DsrError, not_automatic,
  Request, auto_fulfillable, mark_fulfilled,
}

-- forms.submissions with the fields of the version that it was collected under; `active` is the
-- status `active`, and `purge_at` the date of its retention.
pub record StoredRow (F : Type 0) : Type 0 where
  pub id : ℕ
  pub subject : ℕ
  pub active : Bool
  pub answers : List (String × Value F)
  pub fields : List (FieldId × Field)
  pub purge_at : Option ℕ

-- forms.submission_revisions
pub record Revision (F : Type 0) : Type 0 where
  pub submission : ℕ
  pub answers_before : List (String × Value F)
  pub changed_by : String
  pub source : String

pub record DsrDb (F : Type 0) : Type 0 where
  pub consents : ConsentDb
  pub requests : List Request
  pub submissions : List (StoredRow F)
  pub revisions : List (Revision F)

unfoldable pub is_optional : List PurposeRow → ℕ → Bool
is_optional [] id = false
is_optional (p ∷ rest) id =
    let later = is_optional rest id in if eqb p.id id && not p.is_required then true else later

unfoldable pub withdraw_rows : List PurposeRow → ℕ → List CurrentConsent → List CurrentConsent
unfolding is_optional
withdraw_rows ps s [] = []
withdraw_rows ps s (c ∷ rest) =
    let later = withdraw_rows ps s rest in
    if eqb c.subject s && is_optional ps c.purpose
    then record c { granted = false } ∷ later
    else c ∷ later

-- The UPDATE of the case TypeWithdraw.
unfoldable pub withdraw_optional : ℕ → ConsentDb → ConsentDb
unfolding withdraw_rows
withdraw_optional s db = record db { current = withdraw_rows db.purposes s db.current }

-- ORDER BY due_at
unfoldable pub insert_due : Request → List Request → List Request
insert_due r [] = r ∷ []
insert_due r (q ∷ rest) =
    let later = insert_due r rest in if leb r.due_at q.due_at then r ∷ q ∷ rest else q ∷ later

unfoldable pub is_pending : Status → Bool
is_pending s = elim s [ received ↦ true | verified ↦ true | _ ↦ false ]

unfoldable pub pending_by_due : List Request → List Request
unfolding insert_due is_pending
pending_by_due [] = []
pending_by_due (r ∷ rest) =
    let later = pending_by_due rest in if is_pending r.status then insert_due r later else later

unfoldable pub claim_pending : ℕ → List Request → List Request
unfolding pending_by_due
claim_pending limit requests = take limit (pending_by_due requests)

abbrev pub batch : ℕ
batch = 20

module _ {F : Type 0} where
  -- DELETE FROM forms.submissions WHERE data_subject_id = …
  unfoldable pub delete_of : ℕ → List (StoredRow F) → List (StoredRow F)
  delete_of s [] = []
  delete_of s (r ∷ rest) =
      let later = delete_of s rest in if eqb r.subject s then later else r ∷ later

  unfoldable pub count_of : ℕ → List (StoredRow F) → ℕ
  count_of s [] = 0
  count_of s (r ∷ rest) =
      let later = count_of s rest in if eqb r.subject s then suc later else later

  -- consent.erase_subject
  unfoldable pub erase_subject : Hashes → ℕ → DsrDb F → DsrDb F
  unfolding delete_of shred
  erase_subject h s db = record db {
    submissions = delete_of s db.submissions;
    consents = shred h s db.consents;
  }

  -- The `switch` of fulfil, with its note; `erased_note` is the Sprintf of the number.
  unfoldable pub act_on :
      Hashes → (ℕ → String) → ℕ → RequestType → DsrDb F → Result DsrError (DsrDb F × String)
  unfolding erase_subject count_of withdraw_optional
  act_on h erased_note s erase db =
      ok (erase_subject h s db, erased_note (count_of s db.submissions))
  act_on h erased_note s withdraw db = ok (
    record db { consents = withdraw_optional s db.consents },
    "consent withdrawn for all optional purposes",
  )
  act_on h erased_note s access db = ok (db, "data available through the self-service portal")
  act_on h erased_note s export db = ok (db, "data available through the self-service portal")
  act_on h erased_note s _ db = err not_automatic

  unfoldable pub fulfil : Hashes → (ℕ → String) → ℕ → Request → DsrDb F → Result DsrError (DsrDb F)
  unfolding act_on mark_fulfilled
  fulfil h erased_note now r db = do
    acted ← act_on h erased_note r.subject r.type db
    let after = acted.0
    ok (record after { requests = mark_fulfilled now acted.1 r.id after.requests })

  -- The loop of Tick.
  unfoldable pub fulfil_all :
      Hashes → (ℕ → String) → ℕ → List Request → DsrDb F → Result DsrError (DsrDb F)
  unfolding fulfil auto_fulfillable
  fulfil_all h erased_note now [] db = ok db
  fulfil_all h erased_note now (r ∷ rest) db = do
    after ← (if auto_fulfillable r.type then fulfil h erased_note now r db else ok db)
    fulfil_all h erased_note now rest after

  unfoldable pub tick : Hashes → (ℕ → String) → ℕ → DsrDb F → Result DsrError (DsrDb F)
  unfolding claim_pending fulfil_all
  tick h erased_note now db = fulfil_all h erased_note now (claim_pending batch db.requests) db
