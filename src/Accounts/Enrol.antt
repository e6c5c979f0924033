-- ===== src/Accounts/Enrol.antt =====
-- BeginMFA of internal/modules/iam/app/service.go.
use collectr.Prelude.{ℕ, ◌≡◌, refl, ap, false, some, List, [], ◌∷◌, String, ok, Bytes, arith}
use collectr.Crypto.Envelope.{seal_bytes}
use collectr.Accounts.Tables.{AccountRow, AccountDb, Services, not_found}
use collectr.Accounts.Calls.{modify, or_raise, ◌>>=◌}
use collectr.Accounts.Store.{account_by_id, update_account, set_mfa}
use collectr.Accounts.Factor.{begin_mfa}
use collectr.Accounts.Login.{login_factor}

account_by_id-update_account :
    (f : AccountRow → AccountRow) (l : List AccountRow) (id : ℕ) (u : AccountRow)
    → ((x : AccountRow) → (f x).id ≡ x.id)
    → account_by_id l id ≡ some u
    → account_by_id (update_account f id l) id ≡ some (f u)
unfolding account_by_id update_account
account_by_id-update_account f [] id u keeps q = cc
account_by_id-update_account f (x ∷ l) id u keeps q =
    ground (arith, q, keeps x, account_by_id-update_account f l id u keeps)

-- BeginMFA succeeds for every account, also where a second factor is enabled: it leaves the account without
-- one and its sessions as they are, so that Login then asks for no code.
pub begin_mfa-disables :
    (s : Services) (db : AccountDb) (id : ℕ) (nonce secret : Bytes) (u : AccountRow)
    → account_by_id db.accounts id ≡ some u
    → (u' : AccountRow) × (db' : AccountDb) × (begin_mfa s id nonce secret db ≡ (db', ok tt))
      × (account_by_id db'.accounts id ≡ some u')
      × (u'.password_hash ≡ u.password_hash)
      × (db'.sessions ≡ db.sessions)
      × ((typed : String) (now : ℕ) → login_factor s u' typed now db' ≡ (db', ok tt))
unfolding begin_mfa set_mfa login_factor
begin_mfa-disables s db id nonce secret u q =
    let wrapped = seal_bytes s.cipher s.kek nonce secret in
    let f : AccountRow → AccountRow = λ u. record u { mfa_secret = wrapped; mfa_enabled = false } in
    (
      f u,
      set_mfa id wrapped false db,
      ap (λ o. (or_raise o not_found >>= λ _. modify (set_mfa id wrapped false)) db) q,
      account_by_id-update_account f db.accounts id u (λ x. refl) q,
      refl,
      refl,
      λ typed now. refl,
    )
