-- ===== src/Accounts/Guarded.antt =====
-- What Login of internal/modules/iam/app/service.go asks before it gives a session.
use collectr.Prelude.{
  ℕ, ◌≡◌, refl, sym, ap, subst, ◌∙◌, String, Bool, true, ◌==◌, ◌⊎◌, inl, inr, some, List, [], ◌∷◌,
  eqb, leb, if◌then◌else◌, ok, Bytes, trim_space, arith, Bool-cases, eqb_iff,
}
use collectr.Accounts.Tables.{
  AccountRow, CodeRow, MemberRow, AccountDb, invalid_credentials, mfa_required, mfa_invalid,
  rate_limited, Services,
}
use collectr.Accounts.Calls.{
  Call, pure, fail_with, or_raise, ◌>>=◌, steps_ok, or_raise-steps, require_or-steps, lift-steps,
  require_or-ok,
}
use collectr.Accounts.Store.{
  account_by_email, create_session, clear_attempts, set_password, memberships_of, register_attempt,
  attempts_of, count_attempt, truncated,
}
use collectr.Accounts.Factor.{
  normalise_code, is_unused_code, spend_code, count_spent, consume_code, totp_passes,
  recovery_passes, verify_second_factor,
}
use collectr.Accounts.Login.{
  LoginInput, LoginResult, upgrade, signed_in, login_result, login_limit, login_window, can_sign_in,
  first_membership, login_factor, sign_in_as, sign_in, check_account, check_login, address_of,
  login,
}

-- A second factor that holds at `codes` and leaves `codes'`: a code of the app, or the only
-- unused recovery code of the account with this hash, which is then used.
abbrev pub HoldsFactor : Services → AccountRow → String → ℕ → List CodeRow → List CodeRow → Type 0
HoldsFactor s u typed now codes codes' =
    let hash = s.sha (normalise_code s (trim_space typed)) in
    (totp_passes s u.mfa_secret (trim_space typed) now ≡ ok true)
    ⊎ ((count_spent u.id hash codes ≡ 1) × (count_spent u.id hash codes' ≡ 0))

count_spent-spend_code :
    (user : ℕ) (hash : Bytes) (now : ℕ) (codes : List CodeRow)
    → count_spent user hash (spend_code user hash now codes) ≡ 0
unfolding count_spent spend_code is_unused_code
count_spent-spend_code user hash now [] = refl
count_spent-spend_code user hash now (c ∷ codes) =
    ground (arith, count_spent-spend_code user hash now codes)

module _ (s : Services) where
  recovery_passes-ok :
      (user : ℕ) (typed : String) (now : ℕ) (db db' : AccountDb) (t : Unit {0})
      → recovery_passes s user typed now db ≡ (db', ok t)
      → (count_spent user (s.sha (normalise_code s typed)) db.codes ≡ 1)
        × (count_spent user (s.sha (normalise_code s typed)) db'.codes ≡ 0)
  unfolding recovery_passes consume_code
  recovery_passes-ok user typed now db db' t q =
      let hash = s.sha (normalise_code s typed) in
      let (counted, spent) =
        require_or-ok (eqb (count_spent user hash db.codes) 1) mfa_invalid
          (record db { codes = spend_code user hash now db.codes }) q in
      (
        (eqb_iff (count_spent user hash db.codes) 1).0 counted,
        ap (λ d. count_spent user hash d.codes) (sym spent)
            ∙ count_spent-spend_code user hash now db.codes,
      )

  verify_second_factor-ok :
      (u : AccountRow) (typed : String) (now : ℕ) (db db' : AccountDb) (t : Unit {0})
      → verify_second_factor s u.id u.mfa_secret typed now db ≡ (db', ok t)
      → HoldsFactor s u typed now db.codes db'.codes
  unfolding verify_second_factor
  verify_second_factor-ok u typed now db db' t q =
      let code = trim_space typed in
      let next : Bool → Call (Unit {0}) =
        λ passed. if passed then pure tt else recovery_passes s u.id code now in
      let (passed, found, r) = lift-steps (totp_passes s u.mfa_secret code now) next db q in
      elim (Bool-cases passed) [
        | inl right ↦ inl (found ∙ ap ok right)
        | inr wrong ↦
            inr (recovery_passes-ok u.id code now db db' t (sym (ap (λ b. next b db) wrong) ∙ r))
      ]

  pub login_factor-ok :
      (u : AccountRow) (typed : String) (now : ℕ) (db db' : AccountDb) (t : Unit {0})
      → u.mfa_enabled ≡ true
      → login_factor s u typed now db ≡ (db', ok t)
      → HoldsFactor s u typed now db.codes db'.codes
  unfolding login_factor
  login_factor-ok u typed now db db' t on q =
      let asked : Call (Unit {0}) =
        if typed == ""
        then fail_with mfa_required
        else verify_second_factor s u.id u.mfa_secret typed now in
      let r : asked db ≡ (db', ok t) = sym (ap (λ b. (if b then asked else pure tt) db) on) ∙ q in
      elim (Bool-cases (typed == "")) [
        | inl blank ↦ absurd (
            ground (
              arith,
              sym (
                    ap
                      (λ b.
                        (if b
                            then fail_with mfa_required
                            else verify_second_factor s u.id u.mfa_secret typed now)
                          db)
                      blank)
                  ∙ r,
            ))
        | inr given ↦ verify_second_factor-ok u typed now db db' t (
            sym (
              ap
                (λ b.
                  (if b
                      then fail_with mfa_required
                      else verify_second_factor s u.id u.mfa_secret typed now)
                    db)
                given)
            ∙ r)
      ]

  -- What has been checked of a sign-in.
  abbrev pub IsGuarded : LoginInput → AccountDb → AccountDb → Type 0
  IsGuarded i db db' =
      (u : AccountRow) × (account_by_email db.accounts (address_of s i.email) ≡ some u)
      × (can_sign_in u ≡ true)
      × (rehash : Bool) × (s.check_password i.password u.password_hash ≡ some rehash)
      × (u.mfa_enabled ≡ true → HoldsFactor s u i.mfa_code i.now db.codes db'.codes)

  signed_in-codes :
      (email : String) (u : AccountRow) (rehash : Bool) (i : LoginInput) (m : MemberRow)
      (db : AccountDb)
      → (signed_in s email u rehash i m db).codes ≡ db.codes
  unfolding signed_in upgrade clear_attempts create_session set_password
  signed_in-codes email u rehash i m db = ground arith

  sign_in_as-factor :
      (email : String) (u : AccountRow) (rehash : Bool) (i : LoginInput) (all : List MemberRow)
      (m : MemberRow) (db db' : AccountDb) (r : LoginResult)
      → u.mfa_enabled ≡ true
      → sign_in_as s email u rehash i all m db ≡ (db', ok r)
      → HoldsFactor s u i.mfa_code i.now db.codes db'.codes
  unfolding sign_in_as
  sign_in_as-factor email u rehash i all m db db' r on q =
      let after : Unit {0} → Call LoginResult =
        λ _ db. (signed_in s email u rehash i m db, ok (login_result u m all i)) in
      let (db1, t, asked, q1) = steps_ok (login_factor s u i.mfa_code i.now db) after q in
      let kept : db1.codes ≡ db'.codes =
        sym (signed_in-codes email u rehash i m db1) ∙ ap (λ p. p.0.codes) q1 in
      subst (HoldsFactor s u i.mfa_code i.now db.codes) kept
        (login_factor-ok u i.mfa_code i.now db db1 t on asked)

  sign_in-factor :
      (email : String) (u : AccountRow) (rehash : Bool) (i : LoginInput) (db db' : AccountDb)
      (r : LoginResult)
      → u.mfa_enabled ≡ true
      → sign_in s email u rehash i db ≡ (db', ok r)
      → HoldsFactor s u i.mfa_code i.now db.codes db'.codes
  unfolding sign_in
  sign_in-factor email u rehash i db db' r on q =
      let all = memberships_of u.id db.members in
      let (m, member, q1) =
        or_raise-steps (first_membership all) invalid_credentials
          (sign_in_as s email u rehash i all) db q in
      sign_in_as-factor email u rehash i all m db db' r on q1

  check_account-ok :
      (email : String) (u : AccountRow) (i : LoginInput) (db db' : AccountDb) (r : LoginResult)
      → check_account s email i u db ≡ (db', ok r)
      → (can_sign_in u ≡ true)
        × (rehash : Bool) × (s.check_password i.password u.password_hash ≡ some rehash)
        × (u.mfa_enabled ≡ true → HoldsFactor s u i.mfa_code i.now db.codes db'.codes)
  unfolding check_account
  check_account-ok email u i db db' r q =
      let checked = s.check_password i.password u.password_hash in
      let signed : Bool → Call LoginResult = λ rehash. sign_in s email u rehash i in
      let (active, q1) =
        require_or-steps (can_sign_in u) invalid_credentials
          (λ _. or_raise checked invalid_credentials >>= signed) db q in
      let (rehash, fits, q2) = or_raise-steps checked invalid_credentials signed db q1 in
      (active, rehash, fits, λ on. sign_in-factor email u rehash i db db' r on q2)

  check_login-IsGuarded :
      (i : LoginInput) (db db' : AccountDb) (r : LoginResult)
      → check_login s (address_of s i.email) i db ≡ (db', ok r)
      → IsGuarded i db db'
  unfolding check_login
  check_login-IsGuarded i db db' r q =
      let email = address_of s i.email in
      let (u, found, q1) =
        or_raise-steps (account_by_email db.accounts email) invalid_credentials
          (check_account s email i) db q in
      let (active, rehash, fits, factor) = check_account-ok email u i db db' r q1 in
      (u, found, active, rehash, fits, factor)

  -- Where Login gives a session, the address has an account that is active and whose hash fits the password;
  -- if it has a second factor, then the code is the one of its app, or belongs to exactly one unused recovery
  -- code of the account, which is used afterwards.
  pub login-IsGuarded :
      (i : LoginInput) (db db' : AccountDb) (r : LoginResult)
      → login s i db ≡ (db', ok r)
      → IsGuarded i db db'
  unfolding login register_attempt
  login-IsGuarded i db db' r q =
      let email = address_of s i.email in
      let rows = count_attempt db.login_attempts email (truncated i.now login_window) in
      let counted = record db { login_attempts = rows } in
      let (allowed, q1) =
        require_or-steps (leb (attempts_of rows email (truncated i.now login_window)) login_limit)
          rate_limited (λ _. check_login s email i) counted q in
      check_login-IsGuarded i counted db' r q1
