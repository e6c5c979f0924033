-- ===== src/Accounts/Attempts.antt =====
-- How many sign-ins of one address are tried in a window of fifteen minutes:
-- internal/modules/iam/app/service.go and store/store.go.
use collectr.Prelude.{
  ℕ, suc, ◌+◌, ◌≤◌, ◌≡◌, refl, sym, ap, ◌∙◌, String, Bool, true, false, leb, err, arith, subst,
}
use collectr.Accounts.Tables.{AccountDb, AccountError, rate_limited, Services}
use collectr.Accounts.Calls.{Call, require_or, go_on}
use collectr.Accounts.Store.{truncated, attempts_of, count_attempt, register_attempt}
use collectr.Accounts.Login.{
  LoginInput, LoginResult, login_limit, login_window, check_login, address_of, login,
}
use collectr.Accounts.Refused.{
  attempts_of-count_attempt, Refuses-err, require_or-Keeps, Refuses-go_on, check_login-Refuses,
}

-- Sign-ins of an address that fail within one window, and in between whatever does not lower the count of
-- its attempts: all but a sign-in of this address that succeeds.
pub data Guesses (s : Services) (email : String) (start : ℕ)
    : ℕ → AccountDb → AccountDb → Type 0 where
  none_yet : {db : AccountDb} → Guesses s email start 0 db db
  fails :
      {n : ℕ} {db db1 db2 : AccountDb} (i : LoginInput) (e : AccountError)
      → address_of s i.email ≡ email
      → truncated i.now login_window ≡ start
      → login s i db ≡ (db1, err e)
      → Guesses s email start n db1 db2
      → Guesses s email start (suc n) db db2
  between :
      {n : ℕ} {db db1 db2 : AccountDb}
      → attempts_of db.login_attempts email start ≤ attempts_of db1.login_attempts email start
      → Guesses s email start n db1 db2
      → Guesses s email start n db db2

module _ (s : Services) where
  login-counts :
      (i : LoginInput) (db db' : AccountDb) (e : AccountError)
      → login s i db ≡ (db', err e)
      → attempts_of db'.login_attempts (address_of s i.email) (truncated i.now login_window)
        ≡ suc (attempts_of db.login_attempts (address_of s i.email) (truncated i.now login_window))
  unfolding login register_attempt
  login-counts i db db' e q =
      let email = address_of s i.email in
      let start = truncated i.now login_window in
      let rows = count_attempt db.login_attempts email start in
      let counted = record db { login_attempts = rows } in
      let test = leb (attempts_of rows email start) login_limit in
      let kept : db'.login_attempts ≡ rows =
        Refuses-err rows (go_on (λ _. check_login s email i) (require_or test rate_limited counted))
          (Refuses-go_on rows (λ _. check_login s email i) (require_or test rate_limited counted)
            (require_or-Keeps rows test rate_limited counted refl)
            (λ db1 t h. check_login-Refuses s rows email i db1 h))
          q in
      ap (λ l. attempts_of l email start) kept
      ∙ attempts_of-count_attempt db.login_attempts email start

  refused :
      (t : Bool) (f : Unit {0} → Call LoginResult) (db : AccountDb)
      → t ≡ false
      → (go_on f (require_or t rate_limited db)).1 ≡ err rate_limited
  refused true f db q = cc
  refused false f db q = refl

  login-refuses :
      (i : LoginInput) (db : AccountDb)
      → login_limit
        ≤ attempts_of db.login_attempts (address_of s i.email) (truncated i.now login_window)
      → (login s i db).1 ≡ err rate_limited
  unfolding login register_attempt
  login-refuses i db many =
      let email = address_of s i.email in
      let start = truncated i.now login_window in
      let rows = count_attempt db.login_attempts email start in
      let n = attempts_of-count_attempt db.login_attempts email start in
      refused (leb (attempts_of rows email start) login_limit) (λ _. check_login s email i)
        (record db { login_attempts = rows }) (ground (arith, n, many))

  Guesses-count :
      {email : String} {start n : ℕ} {db db' : AccountDb}
      → Guesses s email start n db db'
      → n + attempts_of db.login_attempts email start ≤ attempts_of db'.login_attempts email start
  Guesses-count none_yet = omega arith
  Guesses-count {email} {start} (fails {n} {db} {db1} {db2} i e same at q g) =
      let c : attempts_of db1.login_attempts email start
          ≡ suc (attempts_of db.login_attempts email start) =
        subst
          (λ a.
            attempts_of db1.login_attempts a start ≡ suc (attempts_of db.login_attempts a start))
          same
          (subst
            (λ t.
              attempts_of db1.login_attempts (address_of s i.email) t
              ≡ suc (attempts_of db.login_attempts (address_of s i.email) t))
            at (login-counts i db db1 e q)) in
      let later = Guesses-count g in omega (arith, c, later)
  Guesses-count (between {n} {db} {db1} {db2} le g) =
      let later = Guesses-count g in omega (arith, le, later)

  -- After ten sign-ins of an address that failed in a window of fifteen minutes, each further one in that
  -- window is refused, whatever the password, until one of this address succeeds.
  pub attempts_bounded :
      (email : String) (start n : ℕ) (db db' : AccountDb) (i : LoginInput)
      → Guesses s email start n db db'
      → login_limit ≤ n
      → address_of s i.email ≡ email
      → truncated i.now login_window ≡ start
      → (login s i db').1 ≡ err rate_limited
  attempts_bounded email start n db db' i g many same at =
      let c = Guesses-count g in
      let here : login_limit ≤ attempts_of db'.login_attempts email start =
        omega (arith, c, many) in
      login-refuses i db' (
        subst (λ a. login_limit ≤ attempts_of db'.login_attempts a (truncated i.now login_window))
          (sym same)
          (subst (λ t. login_limit ≤ attempts_of db'.login_attempts email t) (sym at) here))
