-- ===== src/Accounts/Factor.antt =====
-- The second factor of internal/modules/iam/app/recovery.go and service.go: a code of an authenticator
-- app or a recovery code, and how it is set up and taken down. Times are in nanoseconds; the secret
-- that is drawn, its nonce and the new recovery codes are arguments.
use Prim.Native.Char.{Char, code}
use collectr.Prelude.{
  ℕ, suc, ◌/◌, ◌^◌, String, Bool, true, false, ◌||◌, ◌&&◌, not, none, some, List, [], ◌∷◌, ◌++◌,
  eqb, if◌then◌else◌, trim_space, chars, text_of, Result, ok, err, Bytes, eq_bytes,
}
use collectr.Crypto.Envelope.{seal_bytes, open_bytes}
use collectr.Crypto.Totp.{TotpError, verify_code}
use collectr.Iam.Roles.{OrgRole, requires_mfa}
use collectr.Accounts.Tables.{
  AccountRow, CodeRow, AccountDb, AccountError, not_found, mfa_invalid, invalid_input,
  invalid_credentials, unwrapping, Services,
}
use collectr.Accounts.Calls.{Call, pure, lift, gets, or_raise, modify, require_or, ◌>>=◌}
use collectr.Accounts.Store.{is_null, account_by_id, set_mfa, revoke_user_sessions}

-- strings.NewReplacer("-", "", " ", "")
unfoldable pub without_separators : List Char → List Char
without_separators [] = []
without_separators (c ∷ cs) =
    let rest = without_separators cs in
    if eqb (code c) 45 || eqb (code c) 32 then rest else c ∷ rest

unfoldable pub normalise_code : Services → String → String
unfolding without_separators trim_space
normalise_code s typed = s.to_lower (text_of (without_separators (chars (trim_space typed))))

-- WHERE user_id = $1 AND code_hash = $2 AND used_at IS NULL
unfoldable pub is_unused_code : ℕ → Bytes → CodeRow → Bool
unfolding eq_bytes
is_unused_code user hash c = eqb c.user_id user && eq_bytes c.code_hash hash && is_null c.used_at

unfoldable pub spend_code : ℕ → Bytes → ℕ → List CodeRow → List CodeRow
unfolding is_unused_code
spend_code user hash now [] = []
spend_code user hash now (c ∷ rest) =
    let later = spend_code user hash now rest in
    if is_unused_code user hash c then record c { used_at = some now } ∷ later else c ∷ later

unfoldable pub count_spent : ℕ → Bytes → List CodeRow → ℕ
unfolding is_unused_code
count_spent user hash [] = 0
count_spent user hash (c ∷ rest) =
    let later = count_spent user hash rest in
    if is_unused_code user hash c then suc later else later

-- ConsumeRecoveryCode; RowsAffected() == 1
unfoldable pub consume_code : ℕ → Bytes → ℕ → Call Bool
unfolding spend_code count_spent
consume_code user hash now db = (
  record db { codes = spend_code user hash now db.codes },
  ok (eqb (count_spent user hash db.codes) 1),
)

unfoldable pub without_codes : ℕ → List CodeRow → List CodeRow
without_codes user [] = []
without_codes user (c ∷ rest) =
    let later = without_codes user rest in if eqb c.user_id user then later else c ∷ later

-- DeleteRecoveryCodes
unfoldable pub delete_codes : ℕ → AccountDb → AccountDb
unfolding without_codes
delete_codes user db = record db { codes = without_codes user db.codes }

unfoldable pub rows_of_codes : Services → ℕ → List String → List CodeRow
unfolding normalise_code
rows_of_codes s user [] = []
rows_of_codes s user (c ∷ rest) =
    record { user_id = user; code_hash = s.sha (normalise_code s c); used_at = none }
    ∷ rows_of_codes s user rest

-- GenerateRecoveryCodes with StoreRecoveryCodes, from the ten codes that were drawn.
unfoldable pub generate_codes : Services → ℕ → List String → Call (List String)
unfolding rows_of_codes without_codes
generate_codes s user drawn db =
    let rows = rows_of_codes s user drawn in
    (record db { codes = rows ++ without_codes user db.codes }, ok drawn)

abbrev pub succeeds : {A : Type 0} → Result TotpError A → Bool
succeeds (ok _) = true
succeeds (err _) = false

abbrev pub one_second : ℕ
one_second = 10 ^ 9

unfoldable pub totp_passes : Services → Bytes → String → ℕ → Result AccountError Bool
unfolding open_bytes verify_code
totp_passes s [] typed now = ok false
totp_passes s (x ∷ wrapped) typed now = elim (open_bytes s.cipher s.kek (x ∷ wrapped)) [
  | err e ↦ err (unwrapping e)
  | ok secret ↦ ok (
      succeeds (
        verify_code s.totp_mac s.to_upper s.base32 (s.text_of_bytes secret) typed
          (now / one_second)))
]

unfoldable pub recovery_passes : Services → ℕ → String → ℕ → Call (Unit {0})
unfolding consume_code normalise_code
recovery_passes s user typed now = do
  used ← consume_code user (s.sha (normalise_code s typed)) now
  require_or used mfa_invalid

-- verifySecondFactor
unfoldable pub verify_second_factor : Services → ℕ → Bytes → String → ℕ → Call (Unit {0})
unfolding totp_passes recovery_passes trim_space
verify_second_factor s user wrapped typed now = do
  passed ← lift (totp_passes s wrapped (trim_space typed) now)
  if passed then pure tt else recovery_passes s user (trim_space typed) now

-- BeginMFA
unfoldable pub begin_mfa : Services → ℕ → Bytes → Bytes → Call (Unit {0})
unfolding account_by_id set_mfa seal_bytes
begin_mfa s user nonce secret = do
  found ← gets (λ db. account_by_id db.accounts user)
  u ← or_raise found not_found
  modify (set_mfa user (seal_bytes s.cipher s.kek nonce secret) false)

-- ConfirmMFA
unfoldable pub confirm_mfa : Services → ℕ → String → List String → ℕ → Call (List String)
unfolding account_by_id set_mfa totp_passes generate_codes revoke_user_sessions
confirm_mfa s user typed drawn now = do
  found ← gets (λ db. account_by_id db.accounts user)
  u ← or_raise found not_found
  passed ← lift (totp_passes s u.mfa_secret typed now)
  _ ← require_or passed mfa_invalid
  _ ← modify (set_mfa user u.mfa_secret true)
  codes ← generate_codes s user drawn
  _ ← modify (revoke_user_sessions user now)
  pure codes

-- The rest of DisableMFA, of an account that has a second factor.
unfoldable pub disable_enabled : Services → AccountRow → ℕ → String → String → ℕ → Call (Unit {0})
unfolding set_mfa verify_second_factor delete_codes revoke_user_sessions
disable_enabled s u user password typed now = do
  _ ← or_raise (s.check_password password u.password_hash) invalid_credentials
  _ ← verify_second_factor s user u.mfa_secret typed now
  _ ← modify (set_mfa user [] false)
  _ ← modify (delete_codes user)
  modify (revoke_user_sessions user now)

-- DisableMFA
unfoldable pub disable_mfa : Services → ℕ → OrgRole → String → String → ℕ → Call (Unit {0})
unfolding requires_mfa account_by_id disable_enabled
disable_mfa s user role password typed now = do
  _ ← require_or (not (requires_mfa role)) invalid_input
  found ← gets (λ db. account_by_id db.accounts user)
  u ← or_raise found not_found
  if not u.mfa_enabled then pure tt else disable_enabled s u user password typed now
