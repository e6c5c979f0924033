-- ===== src/Dsr/Examples.antt =====
-- Requests, magic links and corrections, and the theorems at these.
use collectr.Prelude.{
  ℕ, ◌≡◌, refl, pos, String, Bool, true, false, Option, none, some, List, [], ◌∷◌, Result, ok, err,
  Bytes, eq_bytes, length, arith,
}
use collectr.Crypto.Envelope.{Aead}
use collectr.Consent.Identity.{Hashes}
use collectr.Consent.Tables.{
  SubjectRow, ConsentRecord, CurrentConsent, ConsentDb, Evidence, subject_erased, subject_by_id,
}
use collectr.Consent.Subjects.{upsert_subject, data_key, open_sensitive, shred}
use collectr.Consent.Log.{current_of}
use collectr.Consent.Projection.{latest, state_of_record, state_of_current, IsDerived}
use collectr.Forms.Schema.{Field, Value, string, text}
use collectr.Dsr.Requests.{
  DsrError, Request, RequestType, verified, erase, portal, token_invalid, forbidden, Session,
}
use collectr.Dsr.Tokens.{Token, Moves, exchange, is_unique, exchange_once}
use collectr.Dsr.Processor.{StoredRow, DsrDb, is_optional, withdraw_optional, tick}
use collectr.Dsr.Rectify.{operator_rectifier, rectify}
use collectr.Dsr.Forgotten.{stop, upsert, erased_for_good, withdraw_unlogged}

abbrev link : Token
link = record {
  token_hash = 5 ∷ [];
  subject = 9;
  scope = portal;
  submission = none;
  expires_at = 1000;
  used_at = none;
}

abbrev session : Session
session = record { subject = 9; scope = portal; submission = none; expires_at = 1800000000200 }

abbrev used_link : List Token
used_link = record link { used_at = some 200 } ∷ []

exchanged : exchange (5 ∷ []) 200 (link ∷ []) ≡ ok (used_link, session)
unfolding exchange
exchanged = refl

too_late : exchange (5 ∷ []) 1000 (link ∷ []) ≡ err token_invalid
unfolding exchange
too_late = refl

exchange_once_example : exchange (5 ∷ []) 201 used_link ≡ err token_invalid
unfolding is_unique eq_bytes
exchange_once_example =
    exchange_once (5 ∷ []) 200 201 (link ∷ []) used_link used_link session refl exchanged Moves.stop

abbrev plain_hashes : Hashes
plain_hashes = record { to_lower = λ s. s; mac = λ cs. 1 ∷ []; id_digest = λ n. n ∷ [] }

abbrev plain_aead : Aead
plain_aead = record {
  aead_seal = λ key nonce plaintext aad. plaintext;
  aead_open = λ key nonce plaintext aad. some plaintext;
}

abbrev subject_row : SubjectRow
subject_row = record {
  id = 9;
  identifier_hash = 1 ∷ [];
  identifier_kind = "phone";
  dek_wrapped = 1 ∷ 2 ∷ [];
  erased = false;
}

abbrev evidence : Evidence
evidence = record {
  rendered_hash = 4 ∷ [];
  method = "checkbox";
  ip_prefix = "";
  user_agent = "";
  locale = "vi";
  client_time = 99;
}

abbrev granted_record : ConsentRecord
granted_record = record {
  id = 3;
  subject = 9;
  purpose = 6;
  submission = none;
  form_version = none;
  granted = true;
  document = 2;
  evidence = evidence;
}

abbrev granted_now : CurrentConsent
granted_now = record { subject = 9; purpose = 6; granted = true; last_record_id = 3 }

abbrev tables : ConsentDb
tables = record {
  subjects = subject_row ∷ [];
  purposes = record { id = 6; code = "news"; is_required = false } ∷ [];
  documents = [];
  records = granted_record ∷ [];
  current = granted_now ∷ [];
}

-- The same person comes back under another uuid.
erased_for_good_example :
    let later =
      (upsert_subject plain_hashes 10 "phone" "0912345678" (shred plain_hashes 9 tables)).0 in
    (data_key plain_aead [] [] [] 9 later ≡ err subject_erased)
    × (open_sensitive plain_aead [] (λ b. some b) 9 [] (1 ∷ []) later ≡ err subject_erased)
unfolding subject_by_id
erased_for_good_example =
    erased_for_good plain_aead [] plain_hashes 9 (λ b. some b) tables
      (upsert_subject plain_hashes 10 "phone" "0912345678" (shred plain_hashes 9 tables)).0
      subject_row [] [] [] 1 [] refl (upsert 10 "phone" "0912345678" refl stop)

tables-IsDerived : IsDerived tables
unfolding current_of latest
tables-IsDerived s p = ground arith

withdraw_unlogged_example :
    let db' = withdraw_optional 9 tables in
    (db'.records ≡ tables.records)
    × (state_of_record (latest db'.records 9 6) ≡ some (true, 3))
    × (state_of_current (current_of db'.current 9 6) ≡ some (false, 3))
    × (¬ IsDerived db')
unfolding current_of is_optional
withdraw_unlogged_example = withdraw_unlogged 9 6 granted_now tables tables-IsDerived refl refl refl

abbrev question : Bool → Field
question sensitive = record {
  type = text;
  label = "Q";
  required = false;
  hidden = false;
  options = [];
  pii = "";
  sensitive = sensitive;
  identifier = false;
  scale = pos 0;
  accept = [];
  max_mb = pos 0;
  multiline = false;
  format = "";
  min = "";
  max = "";
}

abbrev stored : StoredRow ℕ
stored = record {
  id = 20;
  subject = 9;
  active = true;
  answers = ("name", string "An") ∷ ("city", string "Hue") ∷ [];
  fields = ("name", question false) ∷ ("city", question false) ∷ ("card", question true) ∷ [];
  purge_at = none;
}

abbrev waiting : RequestType → ℕ → Request
waiting type id = record {
  id = id;
  subject = 9;
  type = type;
  status = verified;
  received_at = 0;
  due_at = 50;
  fulfilled_at = none;
  handled_by = none;
  note = "";
}

abbrev records : DsrDb ℕ
records = record {
  consents = tables;
  requests = waiting erase 1 ∷ [];
  submissions = stored ∷ [];
  revisions = [];
}

abbrev no_encoding : Value ℕ → Option Bytes
no_encoding v = none

abbrev new_name : List (String × Value ℕ)
new_name = ("name", string "Anh") ∷ []

abbrev corrected_records : DsrDb ℕ
corrected_records = record records {
  submissions =
      record stored {
        answers = ("name", string "Anh") ∷ ("name", string "An") ∷ ("city", string "Hue") ∷ [];
      }
      ∷ [];
  revisions =
      record {
        submission = 20;
        answers_before = ("name", string "An") ∷ ("city", string "Hue") ∷ [];
        changed_by = "user:4";
        source = "dsr_operator";
      }
      ∷ [];
}

sensitive_refused :
    rectify no_encoding (operator_rectifier "user:4") 9 20 (("card", string "1") ∷ []) records
    ≡ err forbidden
unfolding rectify operator_rectifier
sensitive_refused = refl

not_the_owner :
    rectify no_encoding (operator_rectifier "user:4") 8 20 new_name records ≡ err forbidden
unfolding rectify operator_rectifier
not_the_owner = refl

abbrev after_erasure : Result DsrError (DsrDb ℕ) → ℕ
after_erasure (ok db) = length db.submissions
after_erasure (err e) = 99

erased_by_tick : after_erasure (tick plain_hashes (λ n. "") 60 records) ≡ 0
unfolding tick
erased_by_tick = refl
