-- ===== src/Accounts/Calls.antt =====
-- A method of internal/modules/iam/app: each query is a transaction of its own, so what was written
-- stays written where a later step fails.
use collectr.Prelude.{◌≡◌, refl, Bool, true, false, Option, none, some, Result, ok, err}
use collectr.Accounts.Tables.{AccountDb, AccountError}

abbrev pub Call : Type 0 → Type 0
Call A = AccountDb → AccountDb × Result AccountError A

module _ {A : Type 0} where
  abbrev pub pure : A → Call A
  pure a db = (db, ok a)

  abbrev pub fail_with : AccountError → Call A
  fail_with e db = (db, err e)

  abbrev pub lift : Result AccountError A → Call A
  lift r db = (db, r)

  abbrev pub gets : (AccountDb → A) → Call A
  gets f db = (db, ok (f db))

  abbrev pub or_raise : Option A → AccountError → Call A
  or_raise none e = fail_with e
  or_raise (some a) _ = pure a

abbrev pub modify : (AccountDb → AccountDb) → Call (Unit {0})
modify f db = (f db, ok tt)

abbrev pub require_or : Bool → AccountError → Call (Unit {0})
require_or true e = pure tt
require_or false e = fail_with e

module _ {A B : Type 0} where
  abbrev pub go_on :
      (A → Call B) → AccountDb × Result AccountError A → AccountDb × Result AccountError B
  go_on f (db, ok a) = f a db
  go_on f (db, err e) = (db, err e)

  infixl 5 ◌>>=◌
  abbrev pub ◌>>=◌ : Call A → (A → Call B) → Call B
  ◌>>=◌ m f db = go_on f (m db)

  -- The steps of a method that gave a result gave one each.
  pub steps_ok :
      (r : AccountDb × Result AccountError A) (f : A → Call B) {db' : AccountDb} {b : B}
      → go_on f r ≡ (db', ok b)
      → (db1 : AccountDb) × (a : A) × (r ≡ (db1, ok a)) × (f a db1 ≡ (db', ok b))
  steps_ok (db1, ok a) f q = (db1, a, refl, q)
  steps_ok (db1, err e) f q = cc

-- The same of a step that leaves the tables as they are.
module _ {A B : Type 0} where
  pub or_raise-steps :
      (o : Option A) (e : AccountError) (f : A → Call B) (db : AccountDb) {db' : AccountDb} {b : B}
      → go_on f (or_raise o e db) ≡ (db', ok b)
      → (a : A) × (o ≡ some a) × (f a db ≡ (db', ok b))
  or_raise-steps none e f db q = cc
  or_raise-steps (some a) e f db q = (a, refl, q)

  pub lift-steps :
      (r : Result AccountError A) (f : A → Call B) (db : AccountDb) {db' : AccountDb} {b : B}
      → go_on f (lift r db) ≡ (db', ok b)
      → (a : A) × (r ≡ ok a) × (f a db ≡ (db', ok b))
  lift-steps (ok a) f db q = (a, refl, q)
  lift-steps (err e) f db q = cc

module _ {B : Type 0} where
  pub require_or-steps :
      (t : Bool) (e : AccountError) (f : Unit {0} → Call B) (db : AccountDb) {db' : AccountDb}
      {b : B}
      → go_on f (require_or t e db) ≡ (db', ok b)
      → (t ≡ true) × (f tt db ≡ (db', ok b))
  require_or-steps true e f db q = (refl, q)
  require_or-steps false e f db q = cc

-- A last test.
pub require_or-ok :
    (t : Bool) (e : AccountError) (db : AccountDb) {db' : AccountDb} {u : Unit {0}}
    → require_or t e db ≡ (db', ok u)
    → (t ≡ true) × (db ≡ db')
require_or-ok true e db q = (refl, cc)
require_or-ok false e db q = cc
