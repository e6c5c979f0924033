-- ===== src/Accounts/Store.antt =====
-- The queries of internal/modules/iam/store/store.go and recovery.go on accounts, sessions, recovery
-- codes, attempts and reset tokens. `window` is in nanoseconds.
use collectr.Prelude.{
  ℕ, suc, ◌-◌, ◌%◌, String, Bool, true, false, ◌&&◌, ◌||◌, Option, none, some, List, [], ◌∷◌, ◌==◌,
  eqb, leb, ltb, if◌then◌else◌, Result, ok, err, Bytes, eq_bytes,
}
use collectr.Accounts.Tables.{
  AccountRow, SessionRow, AttemptRow, MemberRow, AccountDb, AccountError, session_invalid,
}

abbrev pub is_null : Option ℕ → Bool
is_null none = true
is_null (some _) = false

unfoldable pub account_by_email : List AccountRow → String → Option AccountRow
account_by_email [] email = none
account_by_email (u ∷ rest) email =
    let later = account_by_email rest email in if u.email == email then some u else later

unfoldable pub account_by_id : List AccountRow → ℕ → Option AccountRow
account_by_id [] id = none
account_by_id (u ∷ rest) id =
    let later = account_by_id rest id in if eqb u.id id then some u else later

unfoldable pub update_account : (AccountRow → AccountRow) → ℕ → List AccountRow → List AccountRow
update_account f id [] = []
update_account f id (u ∷ rest) =
    let later = update_account f id rest in if eqb u.id id then f u ∷ later else u ∷ later

unfoldable pub set_mfa : ℕ → Bytes → Bool → AccountDb → AccountDb
unfolding update_account
set_mfa id secret enabled db = record db {
  accounts =
      update_account (λ u. record u { mfa_secret = secret; mfa_enabled = enabled }) id db.accounts;
}

unfoldable pub set_password : ℕ → String → AccountDb → AccountDb
unfolding update_account
set_password id hash db = record db {
  accounts = update_account (λ u. record u { password_hash = hash }) id db.accounts;
}

-- time.Truncate
abbrev pub truncated : ℕ → ℕ → ℕ
truncated now window = now - now % window

abbrev pub is_attempt : String → ℕ → AttemptRow → Bool
is_attempt email start a = (a.email == email) && eqb a.window_start start

-- The attempts that RETURNING gives.
unfoldable pub attempts_of : List AttemptRow → String → ℕ → ℕ
attempts_of [] email start = 0
attempts_of (a ∷ rest) email start =
    let later = attempts_of rest email start in
    if is_attempt email start a then a.attempts else later

unfoldable pub count_attempt : List AttemptRow → String → ℕ → List AttemptRow
count_attempt [] email start = record { email = email; window_start = start; attempts = 1 } ∷ []
count_attempt (a ∷ rest) email start =
    let later = count_attempt rest email start in
    if is_attempt email start a then record a { attempts = suc a.attempts } ∷ rest else a ∷ later

-- RegisterLoginAttempt
unfoldable pub register_attempt :
    String → ℕ → ℕ → ℕ → AccountDb → AccountDb × Result AccountError Bool
unfolding attempts_of count_attempt
register_attempt email limit window now db =
    let rows = count_attempt db.login_attempts email (truncated now window) in
    (
      record db { login_attempts = rows },
      ok (leb (attempts_of rows email (truncated now window)) limit),
    )

unfoldable pub without_attempts : String → List AttemptRow → List AttemptRow
without_attempts email [] = []
without_attempts email (a ∷ rest) =
    let later = without_attempts email rest in if a.email == email then later else a ∷ later

unfoldable pub clear_attempts : String → AccountDb → AccountDb
unfolding without_attempts
clear_attempts email db = record db { login_attempts = without_attempts email db.login_attempts }

unfoldable pub memberships_of : ℕ → List MemberRow → List MemberRow
memberships_of user [] = []
memberships_of user (m ∷ rest) =
    let later = memberships_of user rest in if eqb m.user_id user then m ∷ later else later

unfoldable pub create_session : SessionRow → AccountDb → AccountDb
create_session s db = record db { sessions = s ∷ db.sessions }

-- WHERE s.token_hash = $1 AND s.revoked_at IS NULL AND s.expires_at > now()
unfoldable pub is_live : Bytes → ℕ → SessionRow → Bool
unfolding eq_bytes
is_live hash now s = eq_bytes s.token_hash hash && is_null s.revoked_at && ltb now s.expires_at

unfoldable pub live_session : Bytes → ℕ → List SessionRow → Option SessionRow
unfolding is_live
live_session hash now [] = none
live_session hash now (s ∷ rest) =
    let later = live_session hash now rest in if is_live hash now s then some s else later

-- The account of a session is joined, and is there since the column refers to it.
unfoldable pub session_of_active :
    SessionRow → Option AccountRow → Result AccountError (SessionRow × AccountRow)
session_of_active s none = err session_invalid
session_of_active s (some u) = if u.status == "active" then ok (s, u) else err session_invalid

unfoldable pub resolve_session :
    Bytes → ℕ → AccountDb → Result AccountError (SessionRow × AccountRow)
unfolding live_session session_of_active account_by_id
resolve_session hash now db = elim (live_session hash now db.sessions) [
  | none ↦ err session_invalid
  | some s ↦ session_of_active s (account_by_id db.accounts s.user_id)
]

-- SET revoked_at = now() WHERE … AND revoked_at IS NULL
unfoldable pub revoke_where : (SessionRow → Bool) → ℕ → List SessionRow → List SessionRow
revoke_where p now [] = []
revoke_where p now (s ∷ rest) =
    let later = revoke_where p now rest in
    if p s && is_null s.revoked_at then record s { revoked_at = some now } ∷ later else s ∷ later

unfoldable pub revoke_session : ℕ → ℕ → AccountDb → AccountDb
unfolding revoke_where
revoke_session id now db = record db { sessions = revoke_where (λ s. eqb s.id id) now db.sessions }

unfoldable pub revoke_user_sessions : ℕ → ℕ → AccountDb → AccountDb
unfolding revoke_where
revoke_user_sessions user now db = record db {
  sessions = revoke_where (λ s. eqb s.user_id user) now db.sessions;
}

unfoldable pub is_stale : ℕ → SessionRow → Bool
is_stale cutoff s =
    ltb s.expires_at cutoff || elim s.revoked_at [ none ↦ false | some t ↦ ltb t cutoff ]

unfoldable pub purge_sessions : ℕ → List SessionRow → List SessionRow
unfolding is_stale
purge_sessions cutoff [] = []
purge_sessions cutoff (s ∷ rest) =
    let later = purge_sessions cutoff rest in if is_stale cutoff s then later else s ∷ later
