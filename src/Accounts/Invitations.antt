-- ===== src/Accounts/Invitations.antt =====
-- Invitations: internal/modules/iam/store/invitations.go and app/invitations.go. Each function of the
-- store is one transaction. The mail of Invite is not modelled; what is drawn and the clock are
-- arguments.
use collectr.Prelude.{
  ℕ, ◌+◌, ◌*◌, String, Bool, true, false, ◌&&◌, not, Option, none, some, List, [], ◌∷◌, ◌==◌, eqb,
  ltb, if◌then◌else◌, contains_text, Result, ok, err, ◌>>=◌, require, Bytes, eq_bytes,
}
use collectr.Iam.Roles.{OrgRole, ProjectRole, valid_org_role, valid_project_role}
use collectr.Accounts.Tables.{
  AccountRow, MemberRow, AccountError, not_found, invalid_credentials, already_member,
  invalid_input, Services,
}
use collectr.Accounts.Store.{is_null, account_by_email}
use collectr.Accounts.Factor.{one_second}
use collectr.Accounts.Login.{address_of, hash_password}
use collectr.Accounts.Members.{ProjectMemberRow, InvitationRow, MemberDb, is_row, member_role}

abbrev pub invitation_ttl : ℕ
invitation_ttl = 604800 * one_second

-- accepted_at IS NULL AND expires_at > now()
unfoldable pub is_open : ℕ → InvitationRow → Bool
is_open now v = is_null v.accepted_at && ltb now v.expires_at

-- FindInvitation
unfoldable pub find_invitation : Bytes → ℕ → List InvitationRow → Option InvitationRow
unfolding eq_bytes is_open
find_invitation hash now [] = none
find_invitation hash now (v ∷ rest) =
    let later = find_invitation hash now rest in
    if eq_bytes v.token_hash hash && is_open now v then some v else later

abbrev pub is_some_role : Option OrgRole → Bool
is_some_role none = false
is_some_role (some _) = true

unfoldable pub is_member_of : List MemberRow → ℕ → Option AccountRow → Bool
unfolding member_role
is_member_of members tenant none = false
is_member_of members tenant (some u) = is_some_role (member_role tenant u.id members)

unfoldable pub without_pending : ℕ → String → List InvitationRow → List InvitationRow
without_pending tenant email [] = []
without_pending tenant email (v ∷ rest) =
    let later = without_pending tenant email rest in
    if eqb v.tenant_id tenant && (v.email == email) && is_null v.accepted_at
    then later
    else v ∷ later

-- CreateInvitation, of the row that is to be stored.
unfoldable pub create_invitation : InvitationRow → MemberDb → Result AccountError MemberDb
unfolding is_member_of account_by_email without_pending
create_invitation v db = do
  _ ←
      require (not (is_member_of db.members v.tenant_id (account_by_email db.accounts v.email)))
        already_member
  ok (record db { invitations = v ∷ without_pending v.tenant_id v.email db.invitations })

-- ON CONFLICT (tenant_id, user_id) DO UPDATE SET role
unfoldable pub put_member : MemberRow → List MemberRow → List MemberRow
put_member m [] = m ∷ []
put_member m (x ∷ rest) =
    let later = put_member m rest in
    if is_row m.tenant_id m.user_id x then record x { role = m.role } ∷ rest else x ∷ later

-- ON CONFLICT (project_id, user_id) DO UPDATE SET role
unfoldable pub put_project : ProjectMemberRow → List ProjectMemberRow → List ProjectMemberRow
put_project m [] = m ∷ []
put_project m (x ∷ rest) =
    let later = put_project m rest in
    if eqb x.project_id m.project_id && eqb x.user_id m.user_id
    then record x { role = m.role } ∷ rest
    else x ∷ later

unfoldable pub put_grants :
    ℕ → ℕ → List (ℕ × ProjectRole) → List ProjectMemberRow → List ProjectMemberRow
unfolding put_project
put_grants tenant user [] rows = rows
put_grants tenant user ((project, role) ∷ rest) rows = put_grants tenant user rest (
    put_project (record { tenant_id = tenant; project_id = project; user_id = user; role = role })
      rows)

unfoldable pub has_open : ℕ → ℕ → List InvitationRow → Bool
unfolding is_open
has_open id now [] = false
has_open id now (v ∷ rest) =
    let later = has_open id now rest in if eqb v.id id && is_open now v then true else later

unfoldable pub mark_accepted : ℕ → ℕ → List InvitationRow → List InvitationRow
mark_accepted id now [] = []
mark_accepted id now (v ∷ rest) =
    let later = mark_accepted id now rest in
    if eqb v.id id then record v { accepted_at = some now } ∷ later else v ∷ later

-- The columns that are not given have their defaults.
unfoldable pub new_account : ℕ → String → String → ℕ → AccountRow
new_account id email hash now = record {
  id = id;
  email = email;
  password_hash = hash;
  mfa_secret = [];
  mfa_enabled = false;
  status = "active";
  created_at = now;
}

-- The account of the address, or a new one with this id.
unfoldable pub join_account :
    Option AccountRow → ℕ → String → String → ℕ → MemberDb → Result AccountError (MemberDb × ℕ)
unfolding new_account
join_account (some u) id email hash now db = ok (db, u.id)
join_account none id email hash now db = do
  _ ← require (not (hash == "")) invalid_credentials
  ok (record db { accounts = new_account id email hash now ∷ db.accounts }, id)

-- AcceptInvitation, after the account.
unfoldable pub joined : InvitationRow → ℕ → ℕ → MemberDb → MemberDb
unfolding put_member put_grants mark_accepted
joined v user now db = record db {
  members =
      put_member (record { tenant_id = v.tenant_id; user_id = user; role = v.org_role }) db.members;
  project_members = put_grants v.tenant_id user v.grants db.project_members;
  invitations = mark_accepted v.id now db.invitations;
}

-- AcceptInvitation of the store.
unfoldable pub accept_invitation :
    InvitationRow → ℕ → String → ℕ → MemberDb → Result AccountError (MemberDb × ℕ)
unfolding has_open account_by_email join_account joined
accept_invitation v id hash now db = do
  _ ← require (has_open v.id now db.invitations) not_found
  account ← join_account (account_by_email db.accounts v.email) id v.email hash now db
  ok (joined v account.1 now account.0, account.1)

-- RevokeInvitation, which sees the rows of one organisation.
unfoldable pub has_pending : ℕ → ℕ → List InvitationRow → Bool
has_pending tenant id [] = false
has_pending tenant id (v ∷ rest) =
    let later = has_pending tenant id rest in
    if eqb v.tenant_id tenant && eqb v.id id && is_null v.accepted_at then true else later

unfoldable pub without_invitation : ℕ → ℕ → List InvitationRow → List InvitationRow
without_invitation tenant id [] = []
without_invitation tenant id (v ∷ rest) =
    let later = without_invitation tenant id rest in
    if eqb v.tenant_id tenant && eqb v.id id && is_null v.accepted_at then later else v ∷ later

unfoldable pub revoke_invitation : ℕ → ℕ → MemberDb → Result AccountError MemberDb
unfolding has_pending without_invitation
revoke_invitation tenant id db = do
  _ ← require (has_pending tenant id db.invitations) not_found
  ok (record db { invitations = without_invitation tenant id db.invitations })

unfoldable pub purge_invitations : ℕ → List InvitationRow → List InvitationRow
purge_invitations now [] = []
purge_invitations now (v ∷ rest) =
    let later = purge_invitations now rest in
    if is_null v.accepted_at && ltb v.expires_at now then later else v ∷ later

unfoldable pub grants_valid : List (ℕ × ProjectRole) → Bool
unfolding valid_project_role
grants_valid [] = true
grants_valid ((_, role) ∷ rest) = valid_project_role role && grants_valid rest

-- Invite; the empty text has no @ either.
unfoldable pub invite :
    Services
    → ℕ
    → String
    → OrgRole
    → List (ℕ × ProjectRole)
    → ℕ
    → String
    → ℕ
    → MemberDb
    → Result AccountError MemberDb
unfolding address_of contains_text valid_org_role grants_valid create_invitation
invite s tenant typed role grants id raw now db = do
  _ ← require (contains_text (address_of s typed) "@") invalid_input
  _ ← require (valid_org_role role) invalid_input
  _ ← require (grants_valid grants) invalid_input
  create_invitation
      (record {
        id = id;
        tenant_id = tenant;
        email = address_of s typed;
        org_role = role;
        grants = grants;
        token_hash = s.sha raw;
        expires_at = now + invitation_ttl;
        accepted_at = none;
      })
      db

-- The hash that a new account needs.
unfoldable pub hash_for : Services → Option AccountRow → String → Bytes → Result AccountError String
unfolding hash_password
hash_for s (some _) password salt = ok ""
hash_for s none password salt = hash_password s password salt

abbrev pub or_not_found : Option InvitationRow → Result AccountError InvitationRow
or_not_found none = err not_found
or_not_found (some v) = ok v

-- AcceptInvitation of the service.
unfoldable pub accept_by_token :
    Services → String → String → Bytes → ℕ → ℕ → MemberDb → Result AccountError (MemberDb × ℕ)
unfolding find_invitation account_by_email hash_for accept_invitation
accept_by_token s token password salt id now db = do
  v ← or_not_found (find_invitation (s.sha token) now db.invitations)
  hash ← hash_for s (account_by_email db.accounts v.email) password salt
  accept_invitation v id hash now db
