-- ===== src/Accounts/Login.antt =====
-- Login and Resolve's session of internal/modules/iam/app/service.go. What is drawn (the token, the id of
-- the session, the salt) and the clock are arguments; times are in nanoseconds.
use collectr.Prelude.{
  ℕ, ◌+◌, ◌*◌, String, Bool, false, ◌||◌, ◌&&◌, not, Option, none, some, List, [], ◌∷◌, ◌==◌, ltb,
  if◌then◌else◌, trim_space, chars, byte_length, Result, ok, err, Bytes,
}
use collectr.Iam.Roles.{requires_mfa}
use collectr.Accounts.Tables.{
  AccountRow, SessionRow, MemberRow, AccountDb, AccountError, invalid_credentials, mfa_required,
  rate_limited, password_short, password_long, Services,
}
use collectr.Accounts.Calls.{Call, pure, fail_with, gets, or_raise, modify, require_or, ◌>>=◌}
use collectr.Accounts.Store.{
  account_by_email, set_password, register_attempt, clear_attempts, memberships_of, create_session,
}
use collectr.Accounts.Factor.{one_second, verify_second_factor}

abbrev pub login_limit : ℕ
login_limit = 10

abbrev pub login_window : ℕ
login_window = 900 * one_second

abbrev pub session_life : ℕ
session_life = 43200 * one_second

abbrev pub min_password : ℕ
min_password = 12

abbrev pub max_password : ℕ
max_password = 1024

-- Validate of internal/platform/password/password.go
unfoldable pub validate_password : String → Result AccountError (Unit {0})
unfolding byte_length
validate_password p =
    if ltb (byte_length (chars p)) min_password
    then err password_short
    else (if ltb max_password (byte_length (chars p)) then err password_long else ok tt)

-- Hash of password.go
unfoldable pub hash_password : Services → String → Bytes → Result AccountError String
unfolding validate_password
hash_password s p salt = elim (validate_password p) [
  | err e ↦ err e
  | ok _ ↦ ok (s.encode_password p salt)
]

pub record LoginInput : Type 0 where
  pub email : String
  pub password : String
  pub mfa_code : String
  pub token : String
  pub session_id : ℕ
  pub salt : Bytes
  pub now : ℕ

pub record LoginResult : Type 0 where
  pub token : String
  pub expires_at : ℕ
  pub tenant_id : ℕ
  pub memberships : List MemberRow
  pub setup_required : Bool

unfoldable pub any_requires_mfa : List MemberRow → Bool
unfolding requires_mfa
any_requires_mfa [] = false
any_requires_mfa (m ∷ rest) = requires_mfa m.role || any_requires_mfa rest

unfoldable pub can_sign_in : AccountRow → Bool
can_sign_in u = (u.status == "active") && not (u.password_hash == "")

abbrev pub first_membership : List MemberRow → Option MemberRow
first_membership [] = none
first_membership (m ∷ _) = some m

-- The case of an account with a second factor.
unfoldable pub login_factor : Services → AccountRow → String → ℕ → Call (Unit {0})
unfolding verify_second_factor
login_factor s u typed now =
    if u.mfa_enabled
    then (if typed == ""
        then fail_with mfa_required
        else verify_second_factor s u.id u.mfa_secret typed now)
    else pure tt

-- A hash made with weaker parameters is replaced; what fails there is only logged.
unfoldable pub upgrade : Services → AccountRow → Bool → LoginInput → AccountDb → AccountDb
unfolding hash_password set_password
upgrade s u rehash i db = elim (hash_password s i.password i.salt) [
  | err _ ↦ db
  | ok hash ↦ if rehash then set_password u.id hash db else db
]

unfoldable pub session_row : Services → AccountRow → MemberRow → LoginInput → SessionRow
session_row s u m i = record {
  id = i.session_id;
  user_id = u.id;
  token_hash = s.sha i.token;
  tenant_id = m.tenant_id;
  expires_at = i.now + session_life;
  revoked_at = none;
}

unfoldable pub login_result : AccountRow → MemberRow → List MemberRow → LoginInput → LoginResult
unfolding any_requires_mfa
login_result u m all i = record {
  token = i.token;
  expires_at = i.now + session_life;
  tenant_id = m.tenant_id;
  memberships = all;
  setup_required = any_requires_mfa all && not u.mfa_enabled;
}

-- What Login writes at its end.
unfoldable pub signed_in :
    Services → String → AccountRow → Bool → LoginInput → MemberRow → AccountDb → AccountDb
unfolding session_row create_session clear_attempts upgrade
signed_in s email u rehash i m db =
    upgrade s u rehash i (clear_attempts email (create_session (session_row s u m i) db))

-- Login, from the second factor on.
unfoldable pub sign_in_as :
    Services
    → String
    → AccountRow
    → Bool
    → LoginInput
    → List MemberRow
    → MemberRow
    → Call LoginResult
unfolding login_factor signed_in login_result
sign_in_as s email u rehash i all m = do
  _ ← login_factor s u i.mfa_code i.now
  _ ← modify (signed_in s email u rehash i m)
  pure (login_result u m all i)

-- Login, of an account whose password fits.
unfoldable pub sign_in : Services → String → AccountRow → Bool → LoginInput → Call LoginResult
unfolding memberships_of sign_in_as
sign_in s email u rehash i = do
  all ← gets (λ db. memberships_of u.id db.members)
  m ← or_raise (first_membership all) invalid_credentials
  sign_in_as s email u rehash i all m

-- Login, of an account that was found.
unfoldable pub check_account : Services → String → LoginInput → AccountRow → Call LoginResult
unfolding can_sign_in sign_in
check_account s email i u = do
  _ ← require_or (can_sign_in u) invalid_credentials
  rehash ← or_raise (s.check_password i.password u.password_hash) invalid_credentials
  sign_in s email u rehash i

-- Login, of an address that may still be tried.
unfoldable pub check_login : Services → String → LoginInput → Call LoginResult
unfolding account_by_email check_account
check_login s email i = do
  found ← gets (λ db. account_by_email db.accounts email)
  u ← or_raise found invalid_credentials
  check_account s email i u

-- strings.ToLower(strings.TrimSpace(email))
unfoldable pub address_of : Services → String → String
unfolding trim_space
address_of s email = s.to_lower (trim_space email)

unfoldable pub login : Services → LoginInput → Call LoginResult
unfolding address_of register_attempt check_login
login s i = do
  allowed ← register_attempt (address_of s i.email) login_limit login_window i.now
  _ ← require_or allowed rate_limited
  check_login s (address_of s i.email) i
