-- ===== src/Iam/Examples.antt =====
-- Memberships, and the theorems on capabilities at these.
use collectr.Prelude.{some, has, ◌≡◌, refl, Bool, true, false, ◌||◌, ◌&&◌, List, [], ◌∷◌, ltb, not}
use Prim.Native.Nat.{Ordering}
use Prim.Native.String.{compare as compare_text}
use collectr.Iam.Roles.{
  Capability, member, manager, analyst, viewer, link_read, form_read, submission_read,
  submission_read_sensitive, submission_export, analytics_read, everything, capability_text, rank,
  has_cap, org_capabilities, project_capabilities, capabilities,
}
use collectr.Iam.Actor.{
  Membership, Account, may, resolve, can, in_project, is_barred, role_list, project_ids, grants_any,
  may-resolve,
}
use collectr.Iam.Canonical.{capabilities_canonical}
use collectr.Iam.Grants.{granted, or_swap, has_cap-capabilities}

-- The ranks are the order of the texts.
abbrev text_lt : Capability → Capability → Bool
text_lt c d = elim (compare_text (capability_text c) (capability_text d)) [
  | Ordering.lt ↦ true
  | _ ↦ false
]

abbrev agrees : Bool → Bool → Bool
agrees true b = b
agrees false b = not b

abbrev agrees_with : Capability → List Capability → Bool
agrees_with c [] = true
agrees_with c (d ∷ ds) = agrees (text_lt c d) (ltb (rank c) (rank d)) && agrees_with c ds

abbrev all_agree : List Capability → Bool
all_agree [] = true
all_agree (c ∷ cs) = agrees_with c everything && all_agree cs

ranks_sort : all_agree everything ≡ true
unfolding rank capability_text
ranks_sort = refl

analyst_list :
    capabilities member (analyst ∷ viewer ∷ [])
    ≡ analytics_read ∷ form_read ∷ link_read ∷ submission_export ∷ submission_read ∷ []
unfolding capabilities
analyst_list = refl

has_cap-capabilities_example :
    has_cap (capabilities member (analyst ∷ viewer ∷ [])) submission_export ≡ (
      has_cap (org_capabilities member) submission_export
      || granted (analyst ∷ viewer ∷ []) submission_export)
has_cap-capabilities_example = has_cap-capabilities member (analyst ∷ viewer ∷ []) submission_export

capabilities_canonical_example :
    capabilities member (viewer ∷ analyst ∷ []) ≡ capabilities member (analyst ∷ viewer ∷ [])
unfolding granted has_cap org_capabilities
capabilities_canonical_example =
    capabilities_canonical member member (viewer ∷ analyst ∷ []) (analyst ∷ viewer ∷ []) (λ c.
      or_swap (has_cap (project_capabilities viewer) c) (has_cap (project_capabilities analyst) c)
        false)

-- Manages the project "a" and only views "b".
abbrev both_projects : Membership
both_projects = record { org_role = member; project_roles = ("a", manager) ∷ ("b", viewer) ∷ [] }

abbrev account : Account
account = record { mfa_enabled = false; created_at = some 0 }

-- The role of "a" counts in "b".
reads_in_b : may (resolve both_projects account 5 10) submission_read_sensitive "b" ≡ true
unfolding may resolve can in_project
reads_in_b = refl

may-resolve_example : may (resolve both_projects account 5 10) submission_read_sensitive "b" ≡ (
    not (is_barred member account 5 10)
    && (has_cap (org_capabilities member) submission_read_sensitive
        || granted (role_list both_projects) submission_read_sensitive)
    && (grants_any (org_capabilities member) || has (project_ids both_projects) "b"))
may-resolve_example = may-resolve both_projects account 5 10 submission_read_sensitive "b"
