-- ===== src/Accounts/Removed.antt =====
-- What RemoveMember of internal/modules/iam/store/invitations.go leaves behind.
use collectr.Prelude.{
  ℕ, suc, ◌+◌, ◌≤◌, ◌≡◌, refl, sym, ap, ◌∙◌, Bool, false, ◌&&◌, ◌||◌, Option, none, some, List, [],
  ◌∷◌, eqb, leb, if◌then◌else◌, Result, ok, err, ok_injective, Bytes, arith, Bool-cases, inl, inr,
  subst,
}
use collectr.Iam.Roles.{OrgRole}
use collectr.Accounts.Tables.{SessionRow, MemberRow, AccountError, last_owner}
use collectr.Accounts.Store.{is_null, live_session}
use collectr.Accounts.Sessions.{
  Quiet, all_revoked-revoke_mine, all_revoked-Quiet, live_session-revoked,
}
use collectr.Accounts.Members.{
  ProjectMemberRow, ApiKeyRow, MemberDb, is_row, member_role, is_owner, count_owners,
  without_member, without_projects, revoke_keys, in_tenant, removed, remove_as, remove_member,
}

-- The rows of a user in an organisation, and those that make the user an owner.
unfoldable pub count_rows : ℕ → ℕ → List MemberRow → ℕ
count_rows tenant user [] = 0
count_rows tenant user (m ∷ rest) =
    let later = count_rows tenant user rest in if is_row tenant user m then suc later else later

unfoldable count_owned : ℕ → ℕ → List MemberRow → ℕ
count_owned tenant user [] = 0
count_owned tenant user (m ∷ rest) =
    let later = count_owned tenant user rest in
    if is_row tenant user m && is_owner m.role then suc later else later

unfoldable pub has_project : ℕ → ℕ → List ProjectMemberRow → Bool
has_project tenant user [] = false
has_project tenant user (m ∷ rest) =
    (eqb m.tenant_id tenant && eqb m.user_id user) || has_project tenant user rest

unfoldable pub holds_key : ℕ → ℕ → List ApiKeyRow → Bool
holds_key tenant user [] = false
holds_key tenant user (k ∷ rest) =
    (eqb k.tenant_id tenant && eqb k.created_by user && is_null k.revoked_at)
    || holds_key tenant user rest

count_owners-without :
    (tenant user : ℕ) (l : List MemberRow)
    → count_owned tenant user l + count_owners tenant (without_member tenant user l)
      ≡ count_owners tenant l
unfolding count_owned count_owners without_member
count_owners-without tenant user [] = refl
count_owners-without tenant user (m ∷ l) = ground (arith, count_owners-without tenant user l)

count_owned_le :
    (tenant user : ℕ) (l : List MemberRow) → count_owned tenant user l ≤ count_rows tenant user l
unfolding count_owned count_rows
count_owned_le tenant user [] = omega arith
count_owned_le tenant user (m ∷ l) = ground (arith, count_owned_le tenant user l)

count_owned-other :
    (tenant user : ℕ) (l : List MemberRow) (r : OrgRole)
    → member_role tenant user l ≡ some r
    → is_owner r ≡ false
    → count_rows tenant user l ≤ 1
    → count_owned tenant user l ≡ 0
unfolding count_owned count_rows member_role
count_owned-other tenant user [] r q o n = refl
count_owned-other tenant user (m ∷ l) r q o n =
    ground (arith, q, o, n, count_owned-other tenant user l r, count_owned_le tenant user l)

member_role-without :
    (tenant user : ℕ) (l : List MemberRow)
    → member_role tenant user (without_member tenant user l) ≡ none
unfolding member_role without_member
member_role-without tenant user [] = refl
member_role-without tenant user (m ∷ l) = ground (arith, member_role-without tenant user l)

member_role-without_other :
    (tenant user t u : ℕ) (l : List MemberRow)
    → eqb t tenant && eqb u user ≡ false
    → member_role t u (without_member tenant user l) ≡ member_role t u l
unfolding member_role without_member
member_role-without_other tenant user t u [] other = refl
member_role-without_other tenant user t u (m ∷ l) other =
    ground (arith, other, member_role-without_other tenant user t u l)

has_project-without :
    (tenant user : ℕ) (l : List ProjectMemberRow)
    → has_project tenant user (without_projects tenant user l) ≡ false
unfolding has_project without_projects
has_project-without tenant user [] = refl
has_project-without tenant user (m ∷ l) = ground (arith, has_project-without tenant user l)

holds_key-revoke :
    (tenant user now : ℕ) (l : List ApiKeyRow)
    → holds_key tenant user (revoke_keys tenant user now l) ≡ false
unfolding holds_key revoke_keys
holds_key-revoke tenant user now [] = refl
holds_key-revoke tenant user now (k ∷ l) = ground (arith, holds_key-revoke tenant user now l)

-- What is left of a member, and of the others.
abbrev pub IsRemoved : ℕ → ℕ → MemberDb → MemberDb → Type 0
IsRemoved tenant user db db' =
    (member_role tenant user db'.members ≡ none)
    × ((t u : ℕ)
        → eqb t tenant && eqb u user ≡ false
        → member_role t u db'.members ≡ member_role t u db.members)
    × (1 ≤ count_owners tenant db.members → 1 ≤ count_owners tenant db'.members)
    × (has_project tenant user db'.project_members ≡ false)
    × (holds_key tenant user db'.api_keys ≡ false)
    × ((l : List SessionRow) (hash : Bytes) (later : ℕ) (x : SessionRow)
        → Quiet (in_tenant tenant user) db'.sessions l
        → live_session hash later l ≡ some x
        → in_tenant tenant user x ≡ false)

module _ (tenant user now : ℕ) (db : MemberDb) where
  owner_stays :
      (r : OrgRole)
      → member_role tenant user db.members ≡ some r
      → count_rows tenant user db.members ≤ 1
      → is_owner r && leb (count_owners tenant db.members) 1 ≡ false
      → 1 ≤ count_owners tenant db.members
      → 1 ≤ count_owners tenant (without_member tenant user db.members)
  owner_stays r q n allowed one =
      let split = count_owners-without tenant user db.members in
      let bound = count_owned_le tenant user db.members in
      elim (Bool-cases (is_owner r)) [
        | inl own ↦ ground (arith, split, bound, n, allowed, own, one)
        | inr other ↦
            let none_owned = count_owned-other tenant user db.members r q other n in
            ground (arith, split, none_owned, one)
      ]

  removed-IsRemoved :
      (r : OrgRole)
      → member_role tenant user db.members ≡ some r
      → count_rows tenant user db.members ≤ 1
      → is_owner r && leb (count_owners tenant db.members) 1 ≡ false
      → IsRemoved tenant user db (removed tenant user now db)
  unfolding removed
  removed-IsRemoved r q n allowed = (
    member_role-without tenant user db.members,
    λ t u other. member_role-without_other tenant user t u db.members other,
    owner_stays r q n allowed,
    has_project-without tenant user db.project_members,
    holds_key-revoke tenant user now db.api_keys,
    λ l hash later x quiet. live_session-revoked (in_tenant tenant user) hash later l x (
        all_revoked-Quiet (in_tenant tenant user) quiet
          (all_revoked-revoke_mine (in_tenant tenant user) now db.sessions)),
  )

  remove_as-IsRemoved :
      (o : Option OrgRole) (db' : MemberDb)
      → member_role tenant user db.members ≡ o
      → count_rows tenant user db.members ≤ 1
      → remove_as tenant user now db o ≡ ok db'
      → IsRemoved tenant user db db'
  unfolding remove_as
  remove_as-IsRemoved none db' q n r = cc
  remove_as-IsRemoved (some role) db' q n r =
      let done = removed tenant user now db in
      let verdict : Bool → Result AccountError MemberDb =
        λ b. if b then err last_owner else ok done in
      let test = is_owner role && leb (count_owners tenant db.members) 1 in
      elim (Bool-cases test) [
        | inl last ↦ absurd (ground (arith, sym (ap verdict last) ∙ r))
        | inr allowed ↦
            subst (IsRemoved tenant user db) (ok_injective (sym (ap verdict allowed) ∙ r))
              (removed-IsRemoved role q n allowed)
      ]

  -- Where RemoveMember succeeds, the user is no member of the organisation any more, has no role in its
  -- projects and no API key of it, and no token resolves to a session of the user in it until one is created;
  -- every other membership is as before, and an organisation that had an owner still has one, if the
  -- table has at most one row for the user.
  pub remove_member-IsRemoved :
      (db' : MemberDb)
      → count_rows tenant user db.members ≤ 1
      → remove_member tenant user now db ≡ ok db'
      → IsRemoved tenant user db db'
  unfolding remove_member
  remove_member-IsRemoved db' n q =
      remove_as-IsRemoved (member_role tenant user db.members) db' refl n q
