-- ===== src/Accounts/Joined.antt =====
-- What AcceptInvitation of internal/modules/iam leaves behind.
use collectr.Prelude.{
  ℕ, ◌≡◌, refl, sym, ap, subst, String, false, not, ◌==◌, Option, none, some, List, [], ◌∷◌, Result,
  ok, ◌>>=◌, >>=-eq-ok, require, ok_injective, Bytes, arith,
}
use collectr.Accounts.Tables.{
  AccountRow, MemberRow, AccountError, not_found, invalid_credentials, Services,
}
use collectr.Accounts.Store.{account_by_email}
use collectr.Accounts.Login.{hash_password}
use collectr.Accounts.Members.{InvitationRow, MemberDb, member_role}
use collectr.Accounts.Invitations.{
  is_open, find_invitation, has_open, put_member, mark_accepted, new_account, join_account, joined,
  accept_invitation, hash_for, or_not_found, accept_by_token,
}

member_role-put_member :
    (m : MemberRow) (l : List MemberRow)
    → member_role m.tenant_id m.user_id (put_member m l) ≡ some m.role
unfolding member_role put_member
member_role-put_member m [] = ground arith
member_role-put_member m (x ∷ l) = ground (arith, member_role-put_member m l)

has_open-mark_accepted :
    (id now later : ℕ) (l : List InvitationRow) → has_open id later (mark_accepted id now l) ≡ false
unfolding has_open mark_accepted is_open
has_open-mark_accepted id now later [] = refl
has_open-mark_accepted id now later (v ∷ l) = ground (arith, has_open-mark_accepted id now later l)

module _ (s : Services) (password : String) (salt : Bytes) where
  -- The account that joins: the one of the address, all accounts as before, or a new one with the hash
  -- of the password.
  abbrev pub HasAccount :
      String → List AccountRow → List AccountRow → ℕ → Option AccountRow → Type 0
  HasAccount email accounts accounts' user (some u) = (user ≡ u.id) × (accounts' ≡ accounts)
  HasAccount email accounts accounts' user none =
      (u : AccountRow) × (accounts' ≡ u ∷ accounts)
      × (u.email ≡ email)
      × (u.id ≡ user)
      × (u.mfa_enabled ≡ false)
      × (hash_password s password salt ≡ ok u.password_hash)

  abbrev pub IsJoined : String → ℕ → MemberDb → MemberDb → ℕ → Type 0
  IsJoined token now db db' user =
      (v : InvitationRow) × (find_invitation (s.sha token) now db.invitations ≡ some v)
      × (member_role v.tenant_id user db'.members ≡ some v.org_role)
      × ((later : ℕ) → has_open v.id later db'.invitations ≡ false)
      × HasAccount v.email db.accounts db'.accounts user (account_by_email db.accounts v.email)

  join_account-HasAccount :
      (o : Option AccountRow) (id : ℕ) (email hash : String) (now : ℕ) (db : MemberDb)
      (a : MemberDb × ℕ)
      → hash_for s o password salt ≡ ok hash
      → join_account o id email hash now db ≡ ok a
      → HasAccount email db.accounts a.0.accounts a.1 o
  unfolding hash_for join_account
  join_account-HasAccount (some u) id email hash now db a h q =
      let e : (db, u.id) ≡ a = ok_injective q in
      (ap (λ p. p.1) (sym e), ap (λ p. p.0.accounts) (sym e))
  join_account-HasAccount none id email hash now db a h q =
      let made : MemberDb × ℕ =
        (record db { accounts = new_account id email hash now ∷ db.accounts }, id) in
      let next : Unit {0} → Result AccountError (MemberDb × ℕ) = λ _. ok made in
      let (t, given, q1) = >>=-eq-ok (require (not (hash == "")) invalid_credentials) next q in
      let e : made ≡ a = ok_injective q1 in
      unfold new_account in
      (
        new_account id email hash now,
        ap (λ p. p.0.accounts) (sym e),
        refl,
        ap (λ p. p.1) e,
        refl,
        h,
      )

  or_not_found-ok :
      (o : Option InvitationRow) (v : InvitationRow) → or_not_found o ≡ ok v → o ≡ some v
  or_not_found-ok none v q = cc
  or_not_found-ok (some x) v q = cc

  -- Where AcceptInvitation succeeds, its link was open, and it is not afterwards; the user has the role
  -- that was offered; an account of the address keeps its password and all else, and where there
  -- is none the new one has the password that was given.
  pub accept_by_token-IsJoined :
      (token : String) (id now : ℕ) (db db' : MemberDb) (user : ℕ)
      → accept_by_token s token password salt id now db ≡ ok (db', user)
      → IsJoined token now db db' user
  unfolding accept_by_token accept_invitation joined
  accept_by_token-IsJoined token id now db db' user q =
      let (v, found, q1) =
        >>=-eq-ok (or_not_found (find_invitation (s.sha token) now db.invitations))
          (λ v. hash_for s (account_by_email db.accounts v.email) password salt >>= λ hash.
            accept_invitation v id hash now db)
          q in
      let (hash, made, q2) =
        >>=-eq-ok (hash_for s (account_by_email db.accounts v.email) password salt)
          (λ hash. accept_invitation v id hash now db) q1 in
      let join = join_account (account_by_email db.accounts v.email) id v.email hash now db in
      let end : MemberDb × ℕ → Result AccountError (MemberDb × ℕ) =
        λ a. ok (joined v a.1 now a.0, a.1) in
      let (t, pending, q3) =
        >>=-eq-ok (require (has_open v.id now db.invitations) not_found) (λ _. join >>= end) q2 in
      let (a, account, q4) = >>=-eq-ok join end q3 in
      let e : (joined v a.1 now a.0, a.1) ≡ (db', user) = ok_injective q4 in
      let held =
        join_account-HasAccount (account_by_email db.accounts v.email) id v.email hash now db a made
          account in
      (
        v,
        or_not_found-ok (find_invitation (s.sha token) now db.invitations) v found,
        subst (λ p. member_role v.tenant_id p.1 p.0.members ≡ some v.org_role) e
            (member_role-put_member
              (record { tenant_id = v.tenant_id; user_id = a.1; role = v.org_role }) a.0.members),
        λ later.
            subst (λ p. has_open v.id later p.0.invitations ≡ false) e
              (has_open-mark_accepted v.id now later a.0.invitations),
        subst
            (λ p.
              HasAccount v.email db.accounts p.0.accounts p.1
                (account_by_email db.accounts v.email))
            e held,
      )
