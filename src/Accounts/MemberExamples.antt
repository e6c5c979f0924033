-- ===== src/Accounts/MemberExamples.antt =====
-- Organisations to run the functions on members and invitations on.
use collectr.Prelude.{◌≡◌, refl, false, none, some, [], ◌∷◌, ok, err, arith}
use collectr.Iam.Roles.{owner, admin, member, manager}
use collectr.Accounts.Tables.{last_owner, already_member}
use collectr.Accounts.Examples.{plain_services, owner_account}
use collectr.Accounts.Members.{MemberDb, remove_member}
use collectr.Accounts.Invitations.{invite, accept_by_token}
use collectr.Accounts.Removed.{count_rows, IsRemoved, remove_member-IsRemoved}
use collectr.Accounts.Joined.{IsJoined, accept_by_token-IsJoined}

-- One owner and one member, who has a project, a session and a key.
abbrev team : MemberDb
team = record {
  accounts =
      owner_account
      ∷ record owner_account { id = 2; email = "binh@example.org"; mfa_enabled = false }
      ∷ [];
  members =
      record { tenant_id = 5; user_id = 1; role = owner }
      ∷ record { tenant_id = 5; user_id = 2; role = admin }
      ∷ [];
  project_members = record { tenant_id = 5; project_id = 6; user_id = 2; role = manager } ∷ [];
  sessions =
      record {
        id = 7;
        user_id = 2;
        token_hash = 1 ∷ [];
        tenant_id = 5;
        expires_at = 90;
        revoked_at = none;
      }
      ∷ [];
  api_keys = record { tenant_id = 5; created_by = 2; revoked_at = none } ∷ [];
  invitations = [];
}

only_owner : remove_member 5 1 10 team ≡ err last_owner
unfolding remove_member
only_owner = refl

already_there :
    invite plain_services 5 "binh@example.org" member [] 8 "i1" 0 team ≡ err already_member
unfolding invite
already_there = refl

abbrev without_binh : MemberDb
without_binh = record team {
  members = record { tenant_id = 5; user_id = 1; role = owner } ∷ [];
  project_members = [];
  sessions =
      record {
        id = 7;
        user_id = 2;
        token_hash = 1 ∷ [];
        tenant_id = 5;
        expires_at = 90;
        revoked_at = some 10;
      }
      ∷ [];
  api_keys = record { tenant_id = 5; created_by = 2; revoked_at = some 10 } ∷ [];
}

remove_member-IsRemoved_example : IsRemoved 5 2 team without_binh
unfolding count_rows remove_member
remove_member-IsRemoved_example =
    remove_member-IsRemoved 5 2 10 team without_binh (omega arith) refl

-- A link for an address without an account.
abbrev invited : MemberDb
invited = record team {
  invitations =
      record {
        id = 8;
        tenant_id = 5;
        email = "chi@example.org";
        org_role = member;
        grants = (6, manager) ∷ [];
        token_hash = plain_services.sha "i1";
        expires_at = 604800000000000;
        accepted_at = none;
      }
      ∷ [];
}

invited_now :
    invite plain_services 5 " chi@example.org" member ((6, manager) ∷ []) 8 "i1" 0 team ≡ ok invited
unfolding invite
invited_now = refl

abbrev with_chi : MemberDb
with_chi = record invited {
  accounts =
      record {
        id = 3;
        email = "chi@example.org";
        password_hash = "a long password";
        mfa_secret = [];
        mfa_enabled = false;
        status = "active";
        created_at = 20;
      }
      ∷ team.accounts;
  members =
      record { tenant_id = 5; user_id = 1; role = owner }
      ∷ record { tenant_id = 5; user_id = 2; role = admin }
      ∷ record { tenant_id = 5; user_id = 3; role = member }
      ∷ [];
  project_members =
      record { tenant_id = 5; project_id = 6; user_id = 2; role = manager }
      ∷ record { tenant_id = 5; project_id = 6; user_id = 3; role = manager }
      ∷ [];
  invitations =
      record {
        id = 8;
        tenant_id = 5;
        email = "chi@example.org";
        org_role = member;
        grants = (6, manager) ∷ [];
        token_hash = plain_services.sha "i1";
        expires_at = 604800000000000;
        accepted_at = some 20;
      }
      ∷ [];
}

accept_by_token-IsJoined_example :
    IsJoined plain_services "a long password" [] "i1" 20 invited with_chi 3
unfolding accept_by_token
accept_by_token-IsJoined_example =
    accept_by_token-IsJoined plain_services "a long password" [] "i1" 3 20 invited with_chi 3 refl
