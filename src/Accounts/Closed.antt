-- ===== src/Accounts/Closed.antt =====
-- What a reset of a password leaves behind: internal/modules/iam/app/recovery.go and store/recovery.go.
use collectr.Prelude.{
  ℕ, ◌≡◌, refl, ap, ◌∙◌, subst, String, Bool, true, false, some, List, [], ◌∷◌, eqb, if◌then◌else◌,
  Result, ok, err, ok_injective, Bytes, arith,
}
use collectr.Accounts.Tables.{
  AccountRow, SessionRow, ResetRow, AccountDb, AccountError, not_found, Services,
}
use collectr.Accounts.Calls.{Call, ◌>>=◌, steps_ok, or_raise-steps, lift-steps}
use collectr.Accounts.Store.{
  account_by_id, update_account, set_password, live_session, revoke_user_sessions,
}
use collectr.Accounts.Sessions.{
  all_revoked, Quiet, all_revoked-revoke_mine, all_revoked-Quiet, live_session-revoked,
}
use collectr.Accounts.Login.{validate_password, hash_password, login_factor}
use collectr.Accounts.Reset.{
  use_where, find_reset, has_unused, consumed, consume_reset, reset_factor, store_reset, reset_of,
  complete_reset,
}
use collectr.Accounts.Guarded.{HoldsFactor, login_factor-ok}

has_unused-use_where :
    (id now : ℕ) (l : List ResetRow) → has_unused id (use_where (λ t. eqb t.id id) now l) ≡ false
unfolding has_unused use_where
has_unused-use_where id now [] = refl
has_unused-use_where id now (t ∷ l) = ground (arith, has_unused-use_where id now l)

password_of-update :
    (hash : String) (id : ℕ) (l : List AccountRow) (u : AccountRow)
    → account_by_id (update_account (λ u. record u { password_hash = hash }) id l) id ≡ some u
    → u.password_hash ≡ hash
unfolding account_by_id update_account
password_of-update hash id [] u q = cc
password_of-update hash id (x ∷ l) u q = ground (arith, q, password_of-update hash id l u)

chosen :
    (t : Bool) (d db : AccountDb) (e : AccountError) {db' : AccountDb} {v : Unit {0}}
    → ◌≡◌ {A = AccountDb × Result AccountError (Unit {0})}
        (if t then (d, ok tt) else (db, err e))
        (db', ok v)
    → d ≡ db'
chosen true d db e q = cc
chosen false d db e q = cc

module _ (s : Services) where
  reset_factor-ok :
      (u : AccountRow) (typed : String) (now : ℕ) (db db' : AccountDb) (t : Unit {0})
      → u.mfa_enabled ≡ true
      → reset_factor s u typed now db ≡ (db', ok t)
      → HoldsFactor s u typed now db.codes db'.codes
  unfolding reset_factor login_factor
  reset_factor-ok u typed now db db' t on q = login_factor-ok s u typed now db db' t on q

  -- What a reset of a password has checked and left behind.
  abbrev pub IsReset : String → String → String → Bytes → ℕ → AccountDb → AccountDb → Type 0
  IsReset token password typed salt now db db' =
      (t : ResetRow) × (u : AccountRow) × (find_reset (s.sha token) now db.accounts db.reset_tokens
        ≡ some (t, u))
      × (u.mfa_enabled ≡ true → HoldsFactor s u typed now db.codes db'.codes)
      × (has_unused t.id db'.reset_tokens ≡ false)
      × ((a : AccountRow)
          → account_by_id db'.accounts u.id ≡ some a
          → a.password_hash ≡ s.encode_password password salt)
      × ((l : List SessionRow) (hash : Bytes) (later : ℕ) (x : SessionRow)
          → Quiet (λ s. eqb s.user_id u.id) db'.sessions l
          → live_session hash later l ≡ some x
          → eqb x.user_id u.id ≡ false)

  hash_password-ok :
      (password : String) (salt : Bytes) (hash : String)
      → hash_password s password salt ≡ ok hash
      → s.encode_password password salt ≡ hash
  unfolding hash_password
  hash_password-ok password salt hash q =
      elim (validate_password password)
          as (λ v.
            (elim v [ err e ↦ err e | ok _ ↦ ok (s.encode_password password salt) ]) ≡ ok hash
            → s.encode_password password salt ≡ hash) [
              | ok t ↦ λ q. ok_injective q
              | err e ↦ λ q. cc
            ]
        q

  store_reset-ok :
      (password : String) (salt : Bytes) (now : ℕ) (t : ResetRow) (u : AccountRow)
      (db db' : AccountDb) (v : Unit {0})
      → store_reset s password salt now (t, u) db ≡ (db', ok v)
      → consumed t.id u.id (s.encode_password password salt) now db ≡ db'
  unfolding store_reset consume_reset
  store_reset-ok password salt now t u db db' v q =
      let (hash, made, q1) =
        lift-steps (hash_password s password salt) (λ hash. consume_reset t.id u.id hash now) db
          q in
      ap (λ h. consumed t.id u.id h now db) (hash_password-ok password salt hash made)
      ∙ chosen (has_unused t.id db.reset_tokens) (consumed t.id u.id hash now db) db not_found q1

  reset_of-IsReset :
      (token password typed : String) (salt : Bytes) (now : ℕ) (t : ResetRow) (u : AccountRow)
      (db db' : AccountDb) (v : Unit {0})
      → find_reset (s.sha token) now db.accounts db.reset_tokens ≡ some (t, u)
      → reset_of s password typed salt now (t, u) db ≡ (db', ok v)
      → IsReset token password typed salt now db db'
  unfolding reset_of
  reset_of-IsReset token password typed salt now t u db db' v found q =
      let asked = reset_factor s u typed now in
      let store : Unit {0} → Call (Unit {0}) = λ _. store_reset s password salt now (t, u) in
      let (w, valid, q1) = lift-steps (validate_password password) (λ _. asked >>= store) db q in
      let (db1, w1, held, q2) = steps_ok (asked db) store q1 in
      let at : consumed t.id u.id (s.encode_password password salt) now db1 ≡ db' =
        store_reset-ok password salt now t u db1 db' v q2 in
      (
        t,
        u,
        found,
        λ on.
            subst (HoldsFactor s u typed now db.codes)
              (unfold consumed set_password revoke_user_sessions in (ap (λ d. d.codes) at))
              (reset_factor-ok u typed now db db1 w1 on held),
        subst (λ d. has_unused t.id d.reset_tokens ≡ false) at
            (unfold consumed set_password revoke_user_sessions in
              (has_unused-use_where t.id now db1.reset_tokens)),
        λ a.
            subst
              (λ d.
                account_by_id d.accounts u.id ≡ some a
                → a.password_hash ≡ s.encode_password password salt)
              at
              (unfold consumed set_password revoke_user_sessions in
                (password_of-update (s.encode_password password salt) u.id db1.accounts a)),
        λ l hash later x quiet.
            live_session-revoked (λ s. eqb s.user_id u.id) hash later l x
              (all_revoked-Quiet (λ s. eqb s.user_id u.id) quiet
                (subst (λ d. all_revoked (λ s. eqb s.user_id u.id) d.sessions ≡ true) at
                  (unfold consumed set_password revoke_user_sessions in
                    (all_revoked-revoke_mine (λ s. eqb s.user_id u.id) now db1.sessions)))),
      )

  -- Where a reset of a password succeeds, its link was open and for an active account, and the second factor
  -- of the account holds, if it has one; after it the link is used, the account has the new password, and
  -- no token resolves to a session of the account until the account signs in again, whatever sessions of
  -- others are created and whatever is revoked or purged.
  pub complete_reset-IsReset :
      (token password typed : String) (salt : Bytes) (now : ℕ) (db db' : AccountDb)
      → complete_reset s token password typed salt now db ≡ (db', ok tt)
      → IsReset token password typed salt now db db'
  unfolding complete_reset
  complete_reset-IsReset token password typed salt now db db' q =
      let ((t, u), found, q1) =
        or_raise-steps (find_reset (s.sha token) now db.accounts db.reset_tokens) not_found
          (reset_of s password typed salt now) db q in
      reset_of-IsReset token password typed salt now t u db db' tt found q1
