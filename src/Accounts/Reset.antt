-- ===== src/Accounts/Reset.antt =====
-- Passwords that are reset or changed: internal/modules/iam/app/recovery.go and store/recovery.go.
-- The mail of RequestPasswordReset is not modelled. What is drawn and the clock are arguments.
use collectr.Prelude.{
  ℕ, ◌+◌, ◌*◌, String, Bool, true, false, ◌&&◌, not, Option, none, some, List, [], ◌∷◌, ◌==◌, eqb,
  ltb, if◌then◌else◌, ok, err, Bytes, eq_bytes,
}
use collectr.Accounts.Tables.{
  AccountRow, ResetRow, AccountDb, invalid_credentials, mfa_required, not_found, Services,
}
use collectr.Accounts.Calls.{Call, pure, fail_with, lift, gets, or_raise, modify, ◌>>=◌}
use collectr.Accounts.Store.{
  is_null, account_by_id, set_password, revoke_where, revoke_user_sessions,
}
use collectr.Accounts.Factor.{one_second, verify_second_factor}
use collectr.Accounts.Login.{hash_password, validate_password}

abbrev pub reset_ttl : ℕ
reset_ttl = 3600 * one_second

-- SET used_at = now() WHERE … AND used_at IS NULL
unfoldable pub use_where : (ResetRow → Bool) → ℕ → List ResetRow → List ResetRow
use_where p now [] = []
use_where p now (t ∷ rest) =
    let later = use_where p now rest in
    if p t && is_null t.used_at then record t { used_at = some now } ∷ later else t ∷ later

-- CreateResetToken with the time to live of a reset.
unfoldable pub create_reset_token : Services → ℕ → ℕ → String → ℕ → AccountDb → AccountDb
unfolding use_where
create_reset_token s id user raw now db =
    let row : ResetRow = record {
      id = id;
      user_id = user;
      token_hash = s.sha raw;
      expires_at = now + reset_ttl;
      used_at = none;
    } in
    record db { reset_tokens = row ∷ use_where (λ t. eqb t.user_id user) now db.reset_tokens }

abbrev pub active_owner : Option AccountRow → Option AccountRow
active_owner none = none
active_owner (some u) = if u.status == "active" then some u else none

-- A row and its account, where the row can be used and the account is active.
unfoldable pub reset_target : Bytes → ℕ → List AccountRow → ResetRow → Option AccountRow
unfolding eq_bytes account_by_id
reset_target hash now accounts t =
    if eq_bytes t.token_hash hash && is_null t.used_at && ltb now t.expires_at
    then active_owner (account_by_id accounts t.user_id)
    else none

abbrev pub or_later :
    ResetRow → Option AccountRow → Option (ResetRow × AccountRow) → Option (ResetRow × AccountRow)
or_later t none later = later
or_later t (some u) later = some (t, u)

-- FindResetToken
unfoldable pub find_reset :
    Bytes → ℕ → List AccountRow → List ResetRow → Option (ResetRow × AccountRow)
unfolding reset_target
find_reset hash now accounts [] = none
find_reset hash now accounts (t ∷ rest) =
    let later = find_reset hash now accounts rest in
    or_later t (reset_target hash now accounts t) later

unfoldable pub has_unused : ℕ → List ResetRow → Bool
has_unused id [] = false
has_unused id (t ∷ rest) =
    let later = has_unused id rest in if eqb t.id id && is_null t.used_at then true else later

-- The three updates of ConsumeResetToken.
unfoldable pub consumed : ℕ → ℕ → String → ℕ → AccountDb → AccountDb
unfolding use_where set_password revoke_user_sessions
consumed id user hash now db = revoke_user_sessions user now (
    set_password user hash
      (record db { reset_tokens = use_where (λ t. eqb t.id id) now db.reset_tokens }))

-- ConsumeResetToken, one transaction.
unfoldable pub consume_reset : ℕ → ℕ → String → ℕ → Call (Unit {0})
unfolding has_unused consumed
consume_reset id user hash now db =
    if has_unused id db.reset_tokens
    then (consumed id user hash now db, ok tt)
    else (db, err not_found)

-- The case of an account with a second factor.
unfoldable pub reset_factor : Services → AccountRow → String → ℕ → Call (Unit {0})
unfolding verify_second_factor
reset_factor s u typed now =
    if u.mfa_enabled
    then (if typed == ""
        then fail_with mfa_required
        else verify_second_factor s u.id u.mfa_secret typed now)
    else pure tt

-- CompletePasswordReset, from the new hash on.
unfoldable pub store_reset : Services → String → Bytes → ℕ → ResetRow × AccountRow → Call (Unit {0})
unfolding hash_password consume_reset
store_reset s password salt now target = do
  hash ← lift (hash_password s password salt)
  consume_reset target.0.id target.1.id hash now

-- CompletePasswordReset, of a token that was found.
unfoldable pub reset_of :
    Services → String → String → Bytes → ℕ → ResetRow × AccountRow → Call (Unit {0})
unfolding validate_password reset_factor store_reset
reset_of s password typed salt now target = do
  _ ← lift (validate_password password)
  _ ← reset_factor s target.1 typed now
  store_reset s password salt now target

-- CompletePasswordReset
unfoldable pub complete_reset : Services → String → String → String → Bytes → ℕ → Call (Unit {0})
unfolding find_reset reset_of
complete_reset s token password typed salt now = do
  found ← gets (λ db. find_reset (s.sha token) now db.accounts db.reset_tokens)
  target ← or_raise found not_found
  reset_of s password typed salt now target

-- ChangePassword of the store.
unfoldable pub replace_password : ℕ → ℕ → String → ℕ → AccountDb → AccountDb
unfolding set_password revoke_where
replace_password user keep hash now db =
    let db1 = set_password user hash db in
    record db1 {
      sessions = revoke_where (λ s. eqb s.user_id user && not (eqb s.id keep)) now db1.sessions;
    }

-- ChangePassword of the service.
unfoldable pub change_password : Services → ℕ → ℕ → String → String → Bytes → ℕ → Call (Unit {0})
unfolding account_by_id validate_password hash_password replace_password
change_password s user session current next salt now = do
  found ← gets (λ db. account_by_id db.accounts user)
  u ← or_raise found not_found
  _ ← or_raise (s.check_password current u.password_hash) invalid_credentials
  _ ← lift (validate_password next)
  hash ← lift (hash_password s next salt)
  modify (replace_password user session hash now)
