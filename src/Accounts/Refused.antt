-- ===== src/Accounts/Refused.antt =====
-- A sign-in that fails leaves the attempts that it found when they were counted:
-- internal/modules/iam/app/service.go and store/store.go.
use collectr.Prelude.{
  ℕ, suc, ◌≡◌, String, Bool, true, false, ◌==◌, Option, none, some, List, [], ◌∷◌, eqb,
  if◌then◌else◌, Result, ok, err, Bytes, trim_space, arith, eq_refl, subst,
}
use collectr.Accounts.Tables.{
  AccountRow, AttemptRow, AccountDb, AccountError, invalid_credentials, mfa_required, mfa_invalid,
  Services,
}
use collectr.Accounts.Calls.{Call, pure, fail_with, lift, or_raise, require_or, go_on, ◌>>=◌}
use collectr.Accounts.Store.{account_by_email, memberships_of, attempts_of, count_attempt}
use collectr.Accounts.Factor.{
  normalise_code, consume_code, spend_code, count_spent, totp_passes, recovery_passes,
  verify_second_factor,
}
use collectr.Accounts.Login.{
  LoginInput, LoginResult, can_sign_in, first_membership, login_factor, login_result, signed_in,
  sign_in_as, sign_in, check_account, check_login,
}

pub attempts_of-count_attempt :
    (rows : List AttemptRow) (email : String) (start : ℕ)
    → attempts_of (count_attempt rows email start) email start ≡ suc (attempts_of rows email start)
unfolding attempts_of count_attempt
attempts_of-count_attempt [] email start = ground (arith, eq_refl email)
attempts_of-count_attempt (a ∷ rows) email start =
    ground (arith, attempts_of-count_attempt rows email start)

module _ {A : Type 0} (rows : List AttemptRow) where
  abbrev pub Keeps : AccountDb × Result AccountError A → Type 0
  Keeps r = r.0.login_attempts ≡ rows

  -- Where it fails, the attempts are these.
  abbrev pub Refuses : AccountDb × Result AccountError A → Type 0
  Refuses (db, ok a) = Unit
  Refuses (db, err e) = db.login_attempts ≡ rows

  or_raise-Keeps :
      (o : Option A) (e : AccountError) (db : AccountDb)
      → db.login_attempts ≡ rows
      → Keeps (or_raise o e db)
  or_raise-Keeps none e db h = h
  or_raise-Keeps (some a) e db h = h

  pub Refuses-err :
      (r : AccountDb × Result AccountError A) {db : AccountDb} {e : AccountError}
      → Refuses r
      → r ≡ (db, err e)
      → db.login_attempts ≡ rows
  Refuses-err r h q = subst Refuses q h

pub require_or-Keeps :
    (rows : List AttemptRow) (t : Bool) (e : AccountError) (db : AccountDb)
    → db.login_attempts ≡ rows
    → Keeps rows (require_or t e db)
require_or-Keeps rows true e db h = h
require_or-Keeps rows false e db h = h

module _ {A B : Type 0} (rows : List AttemptRow) (f : A → Call B) where
  Keeps-go_on :
      (r : AccountDb × Result AccountError A)
      → Keeps rows r
      → ((db : AccountDb) (a : A) → db.login_attempts ≡ rows → Keeps rows (f a db))
      → Keeps rows (go_on f r)
  Keeps-go_on (db, ok a) h k = k db a h
  Keeps-go_on (db, err e) h k = h

  pub Refuses-go_on :
      (r : AccountDb × Result AccountError A)
      → Keeps rows r
      → ((db : AccountDb) (a : A) → db.login_attempts ≡ rows → Refuses rows (f a db))
      → Refuses rows (go_on f r)
  Refuses-go_on (db, ok a) h k = k db a h
  Refuses-go_on (db, err e) h k = h

module _ (s : Services) (rows : List AttemptRow) where
  recovery_passes-Keeps :
      (user : ℕ) (typed : String) (now : ℕ) (db : AccountDb)
      → db.login_attempts ≡ rows
      → Keeps rows (recovery_passes s user typed now db)
  unfolding recovery_passes consume_code
  recovery_passes-Keeps user typed now db h =
      let hash = s.sha (normalise_code s typed) in
      require_or-Keeps rows (eqb (count_spent user hash db.codes) 1) mfa_invalid
        (record db { codes = spend_code user hash now db.codes }) h

  factor_end-Keeps :
      (b : Bool) (user : ℕ) (typed : String) (now : ℕ) (db : AccountDb)
      → db.login_attempts ≡ rows
      → Keeps rows ((if b then pure tt else recovery_passes s user typed now) db)
  factor_end-Keeps true user typed now db h = h
  factor_end-Keeps false user typed now db h = recovery_passes-Keeps user typed now db h

  verify_second_factor-Keeps :
      (user : ℕ) (wrapped : Bytes) (typed : String) (now : ℕ) (db : AccountDb)
      → db.login_attempts ≡ rows
      → Keeps rows (verify_second_factor s user wrapped typed now db)
  unfolding verify_second_factor
  verify_second_factor-Keeps user wrapped typed now db h =
      let code = trim_space typed in
      Keeps-go_on rows (λ passed. if passed then pure tt else recovery_passes s user code now)
        (lift (totp_passes s wrapped code now) db) h
        (λ db1 passed h1. factor_end-Keeps passed user code now db1 h1)

  asked-Keeps :
      (b : Bool) (u : AccountRow) (typed : String) (now : ℕ) (db : AccountDb)
      → db.login_attempts ≡ rows
      → Keeps rows (
          (if b then fail_with mfa_required else verify_second_factor s u.id u.mfa_secret typed now)
            db)
  asked-Keeps true u typed now db h = h
  asked-Keeps false u typed now db h = verify_second_factor-Keeps u.id u.mfa_secret typed now db h

  login_factor-Keeps :
      (u : AccountRow) (typed : String) (now : ℕ) (db : AccountDb)
      → db.login_attempts ≡ rows
      → Keeps rows (login_factor s u typed now db)
  unfolding login_factor
  login_factor-Keeps u typed now db h =
      elim u.mfa_enabled
        as (λ b. Keeps rows (
          (if b
              then (if typed == ""
                  then fail_with mfa_required
                  else verify_second_factor s u.id u.mfa_secret typed now)
              else pure tt)
            db)) [ true ↦ asked-Keeps (typed == "") u typed now db h | false ↦ h ]

  sign_in-Refuses :
      (email : String) (u : AccountRow) (rehash : Bool) (i : LoginInput) (db : AccountDb)
      → db.login_attempts ≡ rows
      → Refuses rows (sign_in s email u rehash i db)
  unfolding sign_in sign_in_as
  sign_in-Refuses email u rehash i db h =
      let all = memberships_of u.id db.members in
      Refuses-go_on rows (sign_in_as s email u rehash i all)
        (or_raise (first_membership all) invalid_credentials db)
        (or_raise-Keeps rows (first_membership all) invalid_credentials db h)
        (λ db1 m h1.
          Refuses-go_on rows
            (λ _ db2. (signed_in s email u rehash i m db2, ok (login_result u m all i)))
            (login_factor s u i.mfa_code i.now db1) (login_factor-Keeps u i.mfa_code i.now db1 h1)
            (λ db2 t h2. tt))

  check_account-Refuses :
      (email : String) (u : AccountRow) (i : LoginInput) (db : AccountDb)
      → db.login_attempts ≡ rows
      → Refuses rows (check_account s email i u db)
  unfolding check_account
  check_account-Refuses email u i db h =
      let checked = s.check_password i.password u.password_hash in
      let signed : Bool → Call LoginResult = λ rehash. sign_in s email u rehash i in
      Refuses-go_on rows (λ _. or_raise checked invalid_credentials >>= signed)
        (require_or (can_sign_in u) invalid_credentials db)
        (require_or-Keeps rows (can_sign_in u) invalid_credentials db h)
        (λ db1 t h1.
          Refuses-go_on rows signed (or_raise checked invalid_credentials db1)
            (or_raise-Keeps rows checked invalid_credentials db1 h1)
            (λ db2 rehash h2. sign_in-Refuses email u rehash i db2 h2))

  pub check_login-Refuses :
      (email : String) (i : LoginInput) (db : AccountDb)
      → db.login_attempts ≡ rows
      → Refuses rows (check_login s email i db)
  unfolding check_login
  check_login-Refuses email i db h =
      let found = account_by_email db.accounts email in
      Refuses-go_on rows (check_account s email i) (or_raise found invalid_credentials db)
        (or_raise-Keeps rows found invalid_credentials db h)
        (λ db1 u h1. check_account-Refuses email u i db1 h1)
