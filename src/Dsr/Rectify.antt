-- ===== src/Dsr/Rectify.antt =====
-- The corrections of internal/modules/dsr/store/store.go: checkRectifiable, RectifyTx and Restrict.
use collectr.Prelude.{
  ℕ, ◌≡◌, String, Bool, true, false, ◌&&◌, ◌||◌, not, Option, none, some, List, [], ◌∷◌, ◌++◌, eqb,
  if◌then◌else◌, Result, ok, err, ◌>>=◌, require, lookup, Bytes, eq_bytes,
}
use collectr.Forms.Schema.{FieldId, Field, file, Value, null}
use collectr.Submit.Store.{is_sensitive}
use collectr.Dsr.Requests.{DsrError, forbidden}
use collectr.Dsr.Processor.{StoredRow, DsrDb}

pub record Rectifier : Type 0 where
  pub changed_by : String
  pub source : String
  pub merge : Bool

unfoldable pub subject_rectifier : String → Rectifier
subject_rectifier subject = record {
  changed_by = subject;
  source = "dsr_self_service";
  merge = false;
}

unfoldable pub operator_rectifier : String → Rectifier
operator_rectifier user = record { changed_by = user; source = "dsr_operator"; merge = true }

module _ {F : Type 0} (marshal : Value F → Option Bytes) where
  -- A missing answer and a null are both nil.
  unfoldable pub is_nil : Option (Value F) → Bool
  is_nil none = true
  is_nil (some null) = true
  is_nil (some _) = false

  unfoldable pub same_bytes : Option Bytes → Option Bytes → Bool
  unfolding eq_bytes
  same_bytes (some a) (some b) = eq_bytes a b
  same_bytes _ _ = false

  unfoldable pub encoded : Option (Value F) → Option Bytes
  encoded none = none
  encoded (some v) = marshal v

  unfoldable pub same_answer : Option (Value F) → Value F → Bool
  unfolding is_nil same_bytes encoded
  same_answer a b =
      if is_nil a
      then is_nil (some b)
      else not (is_nil (some b)) && same_bytes (encoded a) (marshal b)

  unfoldable pub is_file : Field → Bool
  is_file f = elim f.type [ file ↦ true | _ ↦ false ]

  -- The body of the loop: whether this answer may be written.
  unfoldable pub may_write :
      List (FieldId × Field) → List (String × Value F) → String → Value F → Bool
  unfolding lookup same_answer is_file
  may_write fields before id v = elim (lookup id fields) [
    | none ↦ false
    | some f ↦ not f.sensitive && (not (is_file f) || same_answer (lookup id before) v)
  ]

  unfoldable pub check_rectifiable :
      List (FieldId × Field) → List (String × Value F) → List (String × Value F) → Bool
  unfolding may_write
  check_rectifiable fields before [] = true
  check_rectifiable fields before ((id, v) ∷ rest) =
      may_write fields before id v && check_rectifiable fields before rest

  -- WHERE s.id = $1 AND s.data_subject_id = $2 AND s.status = 'active'
  unfoldable pub active_row : ℕ → ℕ → List (StoredRow F) → Option (StoredRow F)
  active_row id subject [] = none
  active_row id subject (r ∷ rest) =
      let later = active_row id subject rest in
      if eqb r.id id && eqb r.subject subject && r.active then some r else later

  -- UPDATE forms.submissions SET answers = $2 WHERE id = $1
  unfoldable pub set_answers : ℕ → List (String × Value F) → List (StoredRow F) → List (StoredRow F)
  set_answers id answers [] = []
  set_answers id answers (r ∷ rest) =
      let later = set_answers id answers rest in
      if eqb r.id id then record r { answers = answers } ∷ later else r ∷ later

  -- The copies into `after`: what is mentioned stands over what was there.
  unfoldable pub corrected :
      Rectifier → List (String × Value F) → List (String × Value F) → List (String × Value F)
  corrected by before answers = if by.merge then answers ++ before else answers

  unfoldable pub rectify :
      Rectifier → ℕ → ℕ → List (String × Value F) → DsrDb F → Result DsrError (DsrDb F)
  unfolding active_row check_rectifiable corrected set_answers
  rectify by subject id answers db = elim (active_row id subject db.submissions) [
    | none ↦ err forbidden
    | some r ↦ (do
      _ ← require (check_rectifiable r.fields r.answers answers) forbidden
      ok (record db {
        submissions = set_answers id (corrected by r.answers answers) db.submissions;
        revisions =
            record {
              submission = id;
              answers_before = r.answers;
              changed_by = by.changed_by;
              source = by.source;
            }
            ∷ db.revisions;
      }))
  ]

  -- Store.Restrict
  unfoldable pub restrict : ℕ → List (StoredRow F) → List (StoredRow F)
  restrict subject [] = []
  restrict subject (r ∷ rest) =
      let later = restrict subject rest in
      if eqb r.subject subject && r.active then record r { active = false } ∷ later else r ∷ later

  -- No answer in clear is one of a field that is sensitive.
  abbrev pub IsPlain : List (FieldId × Field) → List (String × Value F) → Type 0
  IsPlain fields answers =
      (k : String) (v : Value F) → lookup k answers ≡ some v → is_sensitive fields k ≡ false

  -- What a correction did to the row that it found: the answers before are on record, the row has
  -- those after, no sensitive answer comes to be in clear, and an attachment that
  -- the correction names is as it was.
  abbrev pub IsCorrection :
      Rectifier → ℕ → List (String × Value F) → DsrDb F → DsrDb F → StoredRow F → Type 0
  IsCorrection by id answers db db' r =
      let after = corrected by r.answers answers in
      (db'.submissions ≡ set_answers id after db.submissions)
      × (db'.revisions
          ≡ record {
            submission = id;
            answers_before = r.answers;
            changed_by = by.changed_by;
            source = by.source;
          }
            ∷ db.revisions)
      × (IsPlain r.fields r.answers → IsPlain r.fields after)
      × ((k : String) (f : Field) (v : Value F)
          → lookup k r.fields ≡ some f
          → is_file f ≡ true
          → lookup k answers ≡ some v
          → same_answer (lookup k r.answers) v ≡ true)
