-- ===== src/Accounts/Tables.antt =====
-- The rows of internal/modules/iam/store/store.go and recovery.go, and the errors of
-- internal/modules/iam/domain/roles.go. Times are in nanoseconds.
use collectr.Prelude.{ℕ, String, Bool, Option, List, Bytes}
use collectr.Crypto.Envelope.{Aead, CryptoError}
use collectr.Crypto.Totp.{Sum}
use collectr.Iam.Roles.{OrgRole}

-- iam.users
pub record AccountRow : Type 0 where
  pub id : ℕ
  pub email : String
  pub password_hash : String
  pub mfa_secret : Bytes
  pub mfa_enabled : Bool
  pub status : String
  pub created_at : ℕ

-- iam.sessions
pub record SessionRow : Type 0 where
  pub id : ℕ
  pub user_id : ℕ
  pub token_hash : Bytes
  pub tenant_id : ℕ
  pub expires_at : ℕ
  pub revoked_at : Option ℕ

-- iam.mfa_recovery_codes
pub record CodeRow : Type 0 where
  pub user_id : ℕ
  pub code_hash : Bytes
  pub used_at : Option ℕ

-- iam.login_attempts
pub record AttemptRow : Type 0 where
  pub email : String
  pub window_start : ℕ
  pub attempts : ℕ

-- iam.password_reset_tokens
pub record ResetRow : Type 0 where
  pub id : ℕ
  pub user_id : ℕ
  pub token_hash : Bytes
  pub expires_at : ℕ
  pub used_at : Option ℕ

-- iam.org_members, in the order of the names of the organisations.
pub record MemberRow : Type 0 where
  pub tenant_id : ℕ
  pub user_id : ℕ
  pub role : OrgRole

pub record AccountDb : Type 0 where
  pub accounts : List AccountRow
  pub sessions : List SessionRow
  pub codes : List CodeRow
  pub login_attempts : List AttemptRow
  pub reset_tokens : List ResetRow
  pub members : List MemberRow

-- ErrTooShort and ErrTooLong of internal/platform/password/password.go are here too.
pub data AccountError : Type 0 where
  invalid_credentials mfa_required mfa_invalid session_invalid rate_limited not_found : AccountError
  invalid_input already_member last_owner password_short password_long : AccountError
  unwrapping : CryptoError → AccountError

-- What the service calls: the cipher and key of the deployment, HMAC-SHA1, base32, SHA-256, Argon2id with
-- its PHC text (`none` where it does not match, else whether it was made with weaker parameters),
-- and functions on text.
pub record Services : Type 0 where
  pub cipher : Aead
  pub kek : Bytes
  pub totp_mac : Bytes → ℕ → Sum
  pub base32 : String → Option Bytes
  pub to_upper : String → String
  pub to_lower : String → String
  pub text_of_bytes : Bytes → String
  pub sha : String → Bytes
  pub check_password : String → String → Option Bool
  pub encode_password : String → Bytes → String
