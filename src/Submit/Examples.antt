-- ===== src/Submit/Examples.antt =====
-- A form and its submissions, and the theorems at these.
use collectr.Prelude.{
  ℕ, ◌≡◌, refl, subst, All, pos, pos_part, ltb, eqb, String, Bool, true, false, Option, none, some,
  List, [], ◌∷◌, ◌++◌, ◌==◌, zero, suc, sym, ap, ◌∙◌, Bool-cases, Option-cases, inl, inr,
  if◌then◌else◌, Result, ok, err, has, lookup, Bytes, length, arith, eq_iff,
}
use mathlib.Core.Option
use mathlib.Core.Option.{some-injective}
use collectr.Crypto.Envelope.{Aead, wrap}
use collectr.Crypto.Roundtrip.{Opens}
use collectr.Forms.Schema.{Field, Schema, Value, string, text}
use collectr.Forms.Engine.Conditions.{Floats, eval_condition}
use collectr.Forms.Engine.Pages.{eval_page}
use collectr.Forms.Engine.Walk.{Evaluation, evaluate}
use collectr.Consent.Identity.{Hashes}
use collectr.Consent.Tables.{ConsentDb, Evidence}
use collectr.Consent.Subjects.{open_sensitive}
use collectr.Submit.Tables.{
  FileRow, SubmissionRow, PublicForm, FormMeta, SubmitInput, SubmitResult, Db, Env, consent_missing,
}
use collectr.Submit.Checks.{file_by_id}
use collectr.Submit.Store.{submit}
use collectr.Submit.Minimal.{IsMinimal, submit-IsMinimal}
use collectr.Submit.Complete.{IsComplete, submit-IsComplete}
use collectr.Submit.Sealed.{is_json, IsJsonMap, Restores, merge_sealed, open-submit}
use collectr.Submit.Once.{done, then_submit, submit_once, attached_stays}

abbrev naturals : Floats
naturals = record {
  Float = ℕ;
  lt_float = ltb;
  eq_float = eqb;
  of_int = pos_part;
  parse_float = λ s. none;
  format_float = λ n. "0";
  sprint = λ v. "";
}

-- A cipher that leaves the text as it is.
abbrev plain_aead : Aead
plain_aead = record {
  aead_seal = λ key nonce text aad. text;
  aead_open = λ key nonce text aad. some text;
}

plain_aead-Opens : Opens plain_aead
plain_aead-Opens key nonce plaintext aad = refl

abbrev plain_hashes : Hashes
plain_hashes = record { to_lower = λ s. s; mac = λ cs. 1 ∷ []; id_digest = λ n. n ∷ [] }

abbrev question : String → Bool → Bool → String → Bool → Field
question pii required hidden format sensitive = record {
  type = text;
  label = "Q";
  required = required;
  hidden = hidden;
  options = [];
  pii = pii;
  sensitive = sensitive;
  identifier = pii == "phone";
  scale = pos 0;
  accept = [];
  max_mb = pos 0;
  multiline = false;
  format = format;
  min = "";
  max = "";
}

-- The phone number identifies; the identity card is sensitive; the note is never shown.
abbrev registration : Schema ℕ
registration = record {
  v = pos 1;
  pages =
      record { id = "p1"; title = "One"; fields = "phone" ∷ "card" ∷ "note" ∷ []; next = "" } ∷ [];
  fields =
      ("phone", question "phone" true false "phone_vn" false)
      ∷ ("card", question "" false false "national_id" true)
      ∷ ("note", question "" false true "" false)
      ∷ [];
  rules = [];
  consent = record {
    purposes = record { code = "service"; required = true } ∷ [];
    sensitive_notice_required = false;
  };
  limits = record { max_fields = pos 0; max_rules = pos 0 };
}

abbrev form_version : PublicForm ℕ
form_version = record {
  form_id = 1;
  tenant_id = 1;
  version_id = 5;
  version_no = 1;
  schema = registration;
}

abbrev form_meta : FormMeta
form_meta = record { project_id = 3; retention_days = some (pos 30) }

-- An encoding of maps of any size whose keys and texts are of a vocabulary, by their places in it.
abbrev vocabulary : List String
vocabulary = "card" ∷ "012345678901" ∷ "phone" ∷ "0912 345 678" ∷ "note" ∷ "" ∷ []

abbrev place_of : List String → String → Option ℕ
place_of [] s = none
place_of (w ∷ ws) s = if w == s then some 0 else Option.map suc (place_of ws s)

abbrev word_at : List String → ℕ → Option String
word_at [] n = none
word_at (w ∷ ws) zero = some w
word_at (w ∷ ws) (suc n) = word_at ws n

abbrev marshal_words : List (String × Value ℕ) → Option Bytes
marshal_words [] = some []
marshal_words ((k, string t) ∷ m) = elim (place_of vocabulary k) [
  | none ↦ none
  | some i ↦ elim (place_of vocabulary t) [
    | none ↦ none
    | some j ↦ Option.map (λ b. i ∷ j ∷ b) (marshal_words m)
  ]
]
marshal_words (x ∷ m) = none

abbrev decode_words : Bytes → Option (List (String × Value ℕ))
decode_words [] = some []
decode_words (i ∷ []) = none
decode_words (i ∷ j ∷ b) = elim (word_at vocabulary i) [
  | none ↦ none
  | some k ↦ elim (word_at vocabulary j) [
    | none ↦ none
    | some t ↦ Option.map (λ m. (k, string t) ∷ m) (decode_words b)
  ]
]

abbrev marshal_any : List (String × Value ℕ) → Option Bytes
marshal_any m = some (length m ∷ [])

abbrev twelve : Bytes
twelve = 0 ∷ 0 ∷ 0 ∷ 0 ∷ 0 ∷ 0 ∷ 0 ∷ 0 ∷ 0 ∷ 0 ∷ 0 ∷ 0 ∷ []

abbrev thirty_two : Bytes
thirty_two = twelve ++ twelve ++ 1 ∷ 2 ∷ 3 ∷ 4 ∷ 5 ∷ 6 ∷ 7 ∷ 8 ∷ []

abbrev env : (List (String × Value ℕ) → Option Bytes) → ℕ → Env ℕ
env marshal id = record {
  aead = plain_aead;
  kek = thirty_two;
  hashes = plain_hashes;
  sha256 = λ b. b;
  marshal = marshal;
  parse_uuid = λ s. none;
  aad = λ n. n ∷ [];
  now = 100;
  default_retention = pos 0;
  submission_id = id;
  subject_id = 9;
  record_id = λ k. k;
  receipt = "rt_1";
  dek = thirty_two;
  wrap_nonce = twelve;
  seal_nonce = twelve;
}

abbrev seen : Evidence
seen = record {
  rendered_hash = 4 ∷ [];
  method = "checkbox";
  ip_prefix = "203.0.113.0/24";
  user_agent = "";
  locale = "vi";
  client_time = 99;
}

abbrev request : String → SubmitInput ℕ
request key = record {
  idempotency_key = key;
  form_version_id = 5;
  answers =
      ("phone", string "0912 345 678")
      ∷ ("card", string "012345678901")
      ∷ ("note", string "x")
      ∷ [];
  consents = record { purpose_code = "service"; granted = true } ∷ [];
  document_id = 2;
  rendered_hash = 4 ∷ [];
  evidence = seen;
}

abbrev consent_tables : ConsentDb
consent_tables = record {
  subjects = [];
  purposes = record { id = 6; code = "service"; is_required = true } ∷ [];
  documents =
      record {
        id = 2;
        kind = "consent_text";
        version_no = 1;
        content_hash = 4 ∷ [];
        effective_from = 0;
      }
      ∷ [];
  records = [];
  current = [];
}

abbrev passport : FileRow
passport = record {
  id = 8;
  tenant = 1;
  pending = false;
  submission = some 77;
  form_version = 5;
  field = "scan";
}

abbrev before : Db ℕ
before = record {
  consents = consent_tables;
  submissions = [];
  audit = [];
  outbox = [];
  keys = [];
  files = passport ∷ [];
}

abbrev is_ok : {E A : Type 0} → Result E A → Bool
is_ok (ok a) = true
is_ok (err e) = false

returned : {E A : Type 0} (m : Result E A) → is_ok m ≡ true → (a : A) × (m ≡ ok a)
returned (ok a) q = (a, refl)
returned (err e) q = cc

abbrev expected_row : SubmissionRow ℕ
expected_row = record {
  id = 20;
  form = 1;
  form_version = 5;
  answers = ("phone", string "0912 345 678") ∷ [];
  visible = "phone" ∷ "card" ∷ [];
  purge_at = some 2592000000000100;
  subject = 9;
  sealed = twelve ++ 0 ∷ 1 ∷ [];
}

went_through :
    (p : Db ℕ × SubmitResult) × (submit naturals
        (env marshal_words 20)
        (request "")
        form_version
        form_meta
        before
      ≡ ok p)
unfolding submit eval_page eval_condition evaluate wrap
went_through =
    returned (submit naturals (env marshal_words 20) (request "") form_version form_meta before)
      refl

keyed_through :
    (p : Db ℕ × SubmitResult) × (submit naturals
        (env marshal_any 20)
        (request "k1")
        form_version
        form_meta
        before
      ≡ ok p)
unfolding submit eval_page eval_condition evaluate wrap
keyed_through =
    returned (submit naturals (env marshal_any 20) (request "k1") form_version form_meta before)
      refl

-- The note was sent and is not kept, and the number of the card is not in clear.
kept_in_clear : (went_through.0.0).submissions ≡ expected_row ∷ []
unfolding submit eval_page eval_condition evaluate wrap went_through returned
kept_in_clear = refl

no_grant_refused :
    submit naturals
      (env marshal_words 20)
      (record (request "") { consents = [] })
      form_version
      form_meta
      before
    ≡ err (consent_missing "service")
unfolding submit eval_page eval_condition evaluate wrap
no_grant_refused = refl

submit-IsMinimal_example :
    (res : Evaluation) × (row : SubmissionRow ℕ) × (evaluate naturals registration
        (request "").answers
      ≡ ok res)
    × (went_through.0.0.submissions ≡ row ∷ [])
    × (row.id ≡ went_through.0.1.submission_id)
    × IsMinimal naturals (request "") form_version res row
submit-IsMinimal_example =
    submit-IsMinimal naturals (env marshal_words 20) (request "") form_version form_meta before
      went_through.0.0 went_through.0.1 went_through.1

submit-IsComplete_example :
    (res : Evaluation) × (evaluate naturals registration (request "").answers ≡ ok res)
    × IsComplete naturals (request "") form_version res
submit-IsComplete_example =
    submit-IsComplete naturals (env marshal_words 20) (request "") form_version form_meta before
      went_through.0.0 went_through.0.1 went_through.1

word_at-place_of :
    (ws : List String) (s : String) (n : ℕ) → place_of ws s ≡ some n → word_at ws n ≡ some s
word_at-place_of [] s n q = cc
word_at-place_of (w ∷ ws) s zero q = elim (Bool-cases (w == s)) [
  | inl same ↦ ap some ((eq_iff w s).0 same)
  | inr other ↦ elim (Option-cases (place_of ws s)) [
    | inl away ↦ absurd (ground (arith, q, other, away))
    | inr (m, there) ↦ absurd (ground (arith, q, other, there))
  ]
]
word_at-place_of (w ∷ ws) s (suc n) q = elim (Bool-cases (w == s)) [
  | inl same ↦ absurd (ground (arith, q, same))
  | inr other ↦ elim (Option-cases (place_of ws s)) [
    | inl away ↦ absurd (ground (arith, q, other, away))
    | inr (m, there) ↦
        let e : m ≡ n = ground (arith, q, other, there) in
        word_at-place_of ws s n (there ∙ ap some e)
  ]
]

decode_words-marshal_words :
    (m : List (String × Value ℕ)) (b : Bytes) → marshal_words m ≡ some b → decode_words b ≡ some m
decode_words-marshal_words [] b q = let e : [] ≡ b = some-injective _ _ q in ap decode_words (sym e)
decode_words-marshal_words ((k, string t) ∷ m) b q = elim (Option-cases (place_of vocabulary k)) [
  | inl away ↦ absurd (ground (arith, q, away))
  | inr (i, at_i) ↦ elim (Option-cases (place_of vocabulary t)) [
    | inl away ↦ absurd (ground (arith, q, at_i, away))
    | inr (j, at_j) ↦ elim (Option-cases (marshal_words m)) [
      | inl failed ↦ absurd (ground (arith, q, at_i, at_j, failed))
      | inr (c, done_m) ↦
          let e : i ∷ j ∷ c ≡ b = ground (arith, q, at_i, at_j, done_m) in
          let key = word_at-place_of vocabulary k i at_i in
          let value = word_at-place_of vocabulary t j at_j in
          let rest = decode_words-marshal_words m c done_m in
          ap decode_words (sym e) ∙ rw (key, value, rest) refl
    ]
  ]
]
decode_words-marshal_words (x ∷ m) b q = cc

marshal_words-Restores : Restores decode_words (env marshal_words 20)
marshal_words-Restores m b json q = (m, decode_words-marshal_words m b q, λ k. refl)

entries-IsJsonMap :
    (m : List (String × Value ℕ))
    → All (λ (p : String × Value ℕ). is_json p.1 ≡ true) m
    → IsJsonMap decode_words m
unfolding lookup
entries-IsJsonMap [] h k v q = cc
entries-IsJsonMap ((j, w) ∷ m) (first, rest) k v q = elim (Bool-cases (j == k)) [
  | inl same ↦ let e : w ≡ v = ground (arith, q, same) in subst (λ x. is_json x ≡ true) e first
  | inr other ↦ entries-IsJsonMap m rest k v (ground (arith, q, other))
]

answers-IsJsonMap : IsJsonMap decode_words (request "").answers
unfolding is_json
answers-IsJsonMap = entries-IsJsonMap (request "").answers (refl, (refl, (refl, tt)))

open-submit_example :
    (res : Evaluation) × (row : SubmissionRow ℕ) × (sealed : Option (List (String × Value ℕ)))
    × (evaluate naturals registration (request "").answers ≡ ok res)
    × (went_through.0.0.submissions ≡ row ∷ [])
    × (open_sensitive plain_aead thirty_two decode_words row.subject
          (row.id ∷ [])
          row.sealed
          went_through.0.0.consents
        ≡ ok sealed)
    × ((k : String) (v : Value ℕ)
        → has res.visible k ≡ true
        → lookup k (request "").answers ≡ some v
        → lookup k (merge_sealed row.answers sealed) ≡ some v)
open-submit_example =
    open-submit naturals decode_words (env marshal_words 20) (request "") form_version form_meta
      before went_through.0.0 went_through.0.1 plain_aead-Opens marshal_words-Restores
      answers-IsJsonMap refl refl went_through.1

submit_once_example : ¬ (
    submit naturals (env marshal_any 21) (request "k1") form_version form_meta keyed_through.0.0
    ≡ ok (before, record { submission_id = 21; receipt_token = "rt_1" }))
submit_once_example =
    submit_once naturals (env marshal_any 20) (env marshal_any 21) (request "k1") (request "k1")
      form_version form_version form_meta form_meta before keyed_through.0.0 keyed_through.0.0
      before keyed_through.0.1 (record { submission_id = 21; receipt_token = "rt_1" }) refl refl
      keyed_through.1 done

attached_stays_example : file_by_id went_through.0.0.files 8 ≡ some passport
unfolding file_by_id
attached_stays_example =
    attached_stays naturals 8 77 passport
      (then_submit (env marshal_words 20) (request "") form_version form_meta went_through.0.1
        went_through.1 done)
      refl refl
