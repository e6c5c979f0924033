-- ===== src/Accounts/Examples.antt =====
-- Accounts, sign-ins and resets to run internal/modules/iam on.
use Prim.Native.Char.{Char, code}
use collectr.Prelude.{
  List, ℕ, ◌/◌, ◌%◌, ◌≡◌, refl, String, true, false, ◌==◌, none, some, [], ◌∷◌, if◌then◌else◌, eqb,
  ok, err, chars, Bytes, arith,
}
use collectr.Iam.Roles.{owner}
use collectr.Accounts.Tables.{
  AccountRow, AccountDb, invalid_credentials, mfa_required, mfa_invalid, rate_limited, Services,
}
use collectr.Accounts.Store.{account_by_id}
use collectr.Accounts.Factor.{begin_mfa}
use collectr.Accounts.Login.{LoginInput, LoginResult, login_factor, address_of, login}
use collectr.Accounts.Reset.{complete_reset}
use collectr.Accounts.Guarded.{IsGuarded, login-IsGuarded}
use collectr.Accounts.Attempts.{Guesses, none_yet, fails, attempts_bounded}
use collectr.Accounts.Closed.{IsReset, complete_reset-IsReset}
use collectr.Accounts.Enrol.{begin_mfa-disables}

abbrev pub codes_of : List Char → Bytes
codes_of [] = []
codes_of (c ∷ cs) = code c ∷ codes_of cs

abbrev pub plain_services : Services
plain_services = record {
  cipher = record {
    aead_seal = λ key nonce text aad. text;
    aead_open = λ key nonce text aad. some text;
  };
  kek = [];
  totp_mac = λ key c i. if eqb i 2 then c / 256 % 256 else if eqb i 3 then c % 256 else 0;
  base32 = λ t. some (7 ∷ []);
  to_upper = λ t. t;
  to_lower = λ t. t;
  text_of_bytes = λ b. "SECRET";
  sha = λ t. codes_of (chars t);
  check_password = λ p h. if p == h then some false else none;
  encode_password = λ p salt. p;
}

abbrev twelve : Bytes
twelve = 0 ∷ 0 ∷ 0 ∷ 0 ∷ 0 ∷ 0 ∷ 0 ∷ 0 ∷ 0 ∷ 0 ∷ 0 ∷ 0 ∷ []

-- An owner with a second factor and one recovery code.
abbrev pub owner_account : AccountRow
owner_account = record {
  id = 1;
  email = "an@example.org";
  password_hash = "four ordinary words";
  mfa_secret = twelve;
  mfa_enabled = true;
  status = "active";
  created_at = 0;
}

abbrev one_owner : AccountDb
one_owner = record {
  accounts = owner_account ∷ [];
  sessions = [];
  codes = record { user_id = 1; code_hash = codes_of (chars "abcd"); used_at = none } ∷ [];
  login_attempts = [];
  reset_tokens = [];
  members = record { tenant_id = 5; user_id = 1; role = owner } ∷ [];
}

abbrev with_code : String → LoginInput
with_code typed = record {
  email = " an@example.org ";
  password = "four ordinary words";
  mfa_code = typed;
  token = "t1";
  session_id = 9;
  salt = [];
  now = 61000000000;
}

no_code : (login plain_services (with_code "") one_owner).1 ≡ err mfa_required
unfolding login
no_code = refl

wrong_code : (login plain_services (with_code "000009") one_owner).1 ≡ err mfa_invalid
unfolding login
wrong_code = refl

app_code : ((login plain_services (with_code "000003") one_owner).0).codes ≡ one_owner.codes
unfolding login
app_code = refl

-- The recovery code, as it was printed.
abbrev signed_in_owner : AccountDb
signed_in_owner = record one_owner {
  sessions =
      record {
        id = 9;
        user_id = 1;
        token_hash = codes_of (chars "t1");
        tenant_id = 5;
        expires_at = 43261000000000;
        revoked_at = none;
      }
      ∷ [];
  codes =
      record { user_id = 1; code_hash = codes_of (chars "abcd"); used_at = some 61000000000 } ∷ [];
}

abbrev owner_signed_in : LoginResult
owner_signed_in = record {
  token = "t1";
  expires_at = 43261000000000;
  tenant_id = 5;
  memberships = record { tenant_id = 5; user_id = 1; role = owner } ∷ [];
  setup_required = false;
}

login-IsGuarded_example : IsGuarded plain_services (with_code " ab-cd") one_owner signed_in_owner
unfolding login
login-IsGuarded_example =
    login-IsGuarded plain_services (with_code " ab-cd") one_owner signed_in_owner owner_signed_in
      refl

spent_code : (login plain_services (with_code "abcd") signed_in_owner).1 ≡ err mfa_invalid
unfolding login
spent_code = refl

begin_mfa-disables_example :
    (u' : AccountRow) × (db' : AccountDb) × (begin_mfa plain_services 1 twelve (9 ∷ []) one_owner
      ≡ (db', ok tt))
    × (account_by_id db'.accounts 1 ≡ some u')
    × (u'.password_hash ≡ owner_account.password_hash)
    × (db'.sessions ≡ one_owner.sessions)
    × ((typed : String) (now : ℕ) → login_factor plain_services u' typed now db' ≡ (db', ok tt))
unfolding account_by_id
begin_mfa-disables_example =
    begin_mfa-disables plain_services one_owner 1 twelve (9 ∷ []) owner_account refl

abbrev guess : LoginInput
guess = record (with_code "") { password = "hunter2" }

abbrev after_ten : AccountDb
after_ten = record one_owner {
  login_attempts = record { email = "an@example.org"; window_start = 0; attempts = 10 } ∷ [];
}

ten_tried : Guesses plain_services "an@example.org" 0 10 one_owner after_ten
unfolding login
ten_tried = fails guess invalid_credentials refl refl refl (
    fails guess invalid_credentials refl refl refl (
      fails guess invalid_credentials refl refl refl (
        fails guess invalid_credentials refl refl refl (
          fails guess invalid_credentials refl refl refl (
            fails guess invalid_credentials refl refl refl (
              fails guess invalid_credentials refl refl refl (
                fails guess invalid_credentials refl refl refl (
                  fails guess invalid_credentials refl refl refl
                    (fails guess invalid_credentials refl refl refl none_yet)))))))))

attempts_bounded_example :
    (login plain_services (with_code "000003") after_ten).1 ≡ err rate_limited
unfolding address_of
attempts_bounded_example =
    attempts_bounded plain_services "an@example.org" 0 10 one_owner after_ten (with_code "000003")
      ten_tried (omega arith) refl refl

-- A link that was mailed to the owner, who is signed in.
abbrev with_link : AccountDb
with_link = record signed_in_owner {
  codes = one_owner.codes;
  reset_tokens =
      record {
        id = 3;
        user_id = 1;
        token_hash = codes_of (chars "r1");
        expires_at = 99000000000;
        used_at = none;
      }
      ∷ [];
}

complete_reset-IsReset_example :
    IsReset plain_services "r1" "another four words" "ab-cd" [] 62000000000 with_link
      (complete_reset plain_services "r1" "another four words" "ab-cd" [] 62000000000 with_link).0
unfolding complete_reset
complete_reset-IsReset_example =
    complete_reset-IsReset plain_services "r1" "another four words" "ab-cd" [] 62000000000 with_link
      (complete_reset plain_services "r1" "another four words" "ab-cd" [] 62000000000 with_link).0
      refl
