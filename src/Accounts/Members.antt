-- ===== src/Accounts/Members.antt =====
-- Members of organisations: RemoveMember of internal/modules/iam/store/invitations.go, one transaction,
-- on the rows of all organisations.
use collectr.Prelude.{
  ℕ, suc, String, Bool, true, false, ◌&&◌, Option, none, some, List, [], ◌∷◌, eqb, leb,
  if◌then◌else◌, Result, ok, err, Bytes,
}
use collectr.Iam.Roles.{OrgRole, owner, ProjectRole}
use collectr.Accounts.Tables.{
  AccountRow, SessionRow, MemberRow, AccountError, not_found, last_owner,
}
use collectr.Accounts.Store.{is_null, revoke_where}

-- iam.project_members
pub record ProjectMemberRow : Type 0 where
  pub tenant_id : ℕ
  pub project_id : ℕ
  pub user_id : ℕ
  pub role : ProjectRole

-- iam.api_keys
pub record ApiKeyRow : Type 0 where
  pub tenant_id : ℕ
  pub created_by : ℕ
  pub revoked_at : Option ℕ

-- iam.invitations
pub record InvitationRow : Type 0 where
  pub id : ℕ
  pub tenant_id : ℕ
  pub email : String
  pub org_role : OrgRole
  pub grants : List (ℕ × ProjectRole)
  pub token_hash : Bytes
  pub expires_at : ℕ
  pub accepted_at : Option ℕ

pub record MemberDb : Type 0 where
  pub accounts : List AccountRow
  pub members : List MemberRow
  pub project_members : List ProjectMemberRow
  pub sessions : List SessionRow
  pub api_keys : List ApiKeyRow
  pub invitations : List InvitationRow

abbrev pub is_row : ℕ → ℕ → MemberRow → Bool
is_row tenant user m = eqb m.tenant_id tenant && eqb m.user_id user

unfoldable pub member_role : ℕ → ℕ → List MemberRow → Option OrgRole
member_role tenant user [] = none
member_role tenant user (m ∷ rest) =
    let later = member_role tenant user rest in if is_row tenant user m then some m.role else later

abbrev pub is_owner : OrgRole → Bool
is_owner owner = true
is_owner _ = false

unfoldable pub count_owners : ℕ → List MemberRow → ℕ
count_owners tenant [] = 0
count_owners tenant (m ∷ rest) =
    let later = count_owners tenant rest in
    if eqb m.tenant_id tenant && is_owner m.role then suc later else later

unfoldable pub without_member : ℕ → ℕ → List MemberRow → List MemberRow
without_member tenant user [] = []
without_member tenant user (m ∷ rest) =
    let later = without_member tenant user rest in if is_row tenant user m then later else m ∷ later

unfoldable pub without_projects : ℕ → ℕ → List ProjectMemberRow → List ProjectMemberRow
without_projects tenant user [] = []
without_projects tenant user (m ∷ rest) =
    let later = without_projects tenant user rest in
    if eqb m.tenant_id tenant && eqb m.user_id user then later else m ∷ later

unfoldable pub revoke_keys : ℕ → ℕ → ℕ → List ApiKeyRow → List ApiKeyRow
revoke_keys tenant user now [] = []
revoke_keys tenant user now (k ∷ rest) =
    let later = revoke_keys tenant user now rest in
    if eqb k.tenant_id tenant && eqb k.created_by user && is_null k.revoked_at
    then record k { revoked_at = some now } ∷ later
    else k ∷ later

-- The sessions of a user in an organisation.
abbrev pub in_tenant : ℕ → ℕ → SessionRow → Bool
in_tenant tenant user s = eqb s.user_id user && eqb s.tenant_id tenant

-- The four statements at the end of RemoveMember.
unfoldable pub removed : ℕ → ℕ → ℕ → MemberDb → MemberDb
unfolding without_member without_projects revoke_where revoke_keys
removed tenant user now db = record db {
  members = without_member tenant user db.members;
  project_members = without_projects tenant user db.project_members;
  sessions = revoke_where (in_tenant tenant user) now db.sessions;
  api_keys = revoke_keys tenant user now db.api_keys;
}

unfoldable pub remove_as : ℕ → ℕ → ℕ → MemberDb → Option OrgRole → Result AccountError MemberDb
unfolding count_owners removed
remove_as tenant user now db none = err not_found
remove_as tenant user now db (some role) =
    if is_owner role && leb (count_owners tenant db.members) 1
    then err last_owner
    else ok (removed tenant user now db)

-- RemoveMember of the store.
unfoldable pub remove_member : ℕ → ℕ → ℕ → MemberDb → Result AccountError MemberDb
unfolding remove_as member_role
remove_member tenant user now db = remove_as tenant user now db (member_role tenant user db.members)
