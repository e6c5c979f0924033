-- ===== src/Iam/Roles.antt =====
-- internal/modules/iam/domain/roles.go: what roles grant. Roles are data types whose last
-- constructor holds any other text; capabilities are the constants of
-- internal/platform/authn/authn.go, named by data and ordered as their texts are.
use collectr.Prelude.{ℕ, String, Bool, true, false, ◌||◌, List, [], ◌∷◌, leb, eqb, if◌then◌else◌}

pub data Capability : Type 0 where
  link_read link_write link_delete form_read form_write form_publish : Capability
  submission_read submission_read_sensitive submission_export analytics_read : Capability
  consent_manage dsr_handle audit_read apikey_manage webhook_manage member_manage : Capability

unfoldable pub capability_text : Capability → String
capability_text c = elim c [
  | link_read ↦ "link.read"
  | link_write ↦ "link.write"
  | link_delete ↦ "link.delete"
  | form_read ↦ "form.read"
  | form_write ↦ "form.write"
  | form_publish ↦ "form.publish"
  | submission_read ↦ "submission.read"
  | submission_read_sensitive ↦ "submission.read_sensitive"
  | submission_export ↦ "submission.export"
  | analytics_read ↦ "analytics.read"
  | consent_manage ↦ "consent.manage"
  | dsr_handle ↦ "dsr.handle"
  | audit_read ↦ "audit.read"
  | apikey_manage ↦ "apikey.manage"
  | webhook_manage ↦ "webhook.manage"
  | member_manage ↦ "member.manage"
]

-- The place among the texts in their order.
unfoldable pub rank : Capability → ℕ
rank c = elim c [
  | analytics_read ↦ 0
  | apikey_manage ↦ 1
  | audit_read ↦ 2
  | consent_manage ↦ 3
  | dsr_handle ↦ 4
  | form_publish ↦ 5
  | form_read ↦ 6
  | form_write ↦ 7
  | link_delete ↦ 8
  | link_read ↦ 9
  | link_write ↦ 10
  | member_manage ↦ 11
  | submission_export ↦ 12
  | submission_read ↦ 13
  | submission_read_sensitive ↦ 14
  | webhook_manage ↦ 15
]

pub data OrgRole : Type 0 where
  owner admin member dpo : OrgRole
  unknown : String → OrgRole

pub data ProjectRole : Type 0 where
  manager editor analyst viewer : ProjectRole
  unknown : String → ProjectRole

-- The lists of orgCapabilities for the owner and for the admin, which are the same.
abbrev pub everything : List Capability
everything =
    link_read ∷ link_write ∷ link_delete ∷ form_read ∷ form_write ∷ form_publish ∷ submission_read
    ∷ submission_read_sensitive ∷ submission_export ∷ analytics_read ∷ consent_manage ∷ dsr_handle
    ∷ audit_read ∷ apikey_manage ∷ webhook_manage ∷ member_manage ∷ []

-- orgCapabilities; a missing key reads as the empty list.
unfoldable pub org_capabilities : OrgRole → List Capability
org_capabilities r = elim r [
  | owner ↦ everything
  | admin ↦ everything
  | member ↦ []
  | dpo ↦
      audit_read ∷ dsr_handle ∷ consent_manage ∷ submission_read ∷ form_read ∷ analytics_read ∷ []
  | unknown s ↦ []
]

unfoldable pub project_capabilities : ProjectRole → List Capability
project_capabilities r = elim r [
  | manager ↦
      link_read ∷ link_write ∷ link_delete ∷ form_read ∷ form_write ∷ form_publish ∷ submission_read
      ∷ submission_read_sensitive ∷ submission_export ∷ analytics_read ∷ apikey_manage
      ∷ webhook_manage ∷ []
  | editor ↦
      link_read ∷ link_write ∷ form_read ∷ form_write ∷ form_publish ∷ submission_read
      ∷ analytics_read ∷ []
  | analyst ↦ link_read ∷ form_read ∷ submission_read ∷ submission_export ∷ analytics_read ∷ []
  | viewer ↦ link_read ∷ form_read ∷ submission_read ∷ analytics_read ∷ []
  | unknown s ↦ []
]

-- MFARequiredRoles and RequiresMFA.
unfoldable pub requires_mfa : OrgRole → Bool
requires_mfa r = elim r [ owner ↦ true | admin ↦ true | dpo ↦ true | _ ↦ false ]

unfoldable pub valid_org_role : OrgRole → Bool
valid_org_role r = elim r [ unknown s ↦ false | _ ↦ true ]

unfoldable pub valid_project_role : ProjectRole → Bool
valid_project_role r = elim r [ unknown s ↦ false | _ ↦ true ]

unfoldable pub has_cap : List Capability → Capability → Bool
unfolding rank
has_cap [] c = false
has_cap (x ∷ xs) c = eqb (rank x) (rank c) || has_cap xs c

-- `seen[c] = struct{}{}` for each capability, on a set without repeats.
unfoldable pub add_all : List Capability → List Capability → List Capability
unfolding has_cap
add_all [] seen = seen
add_all (c ∷ rest) seen = add_all rest (if has_cap seen c then seen else c ∷ seen)

unfoldable pub add_projects : List ProjectRole → List Capability → List Capability
unfolding add_all project_capabilities
add_projects [] seen = seen
add_projects (r ∷ rest) seen = add_projects rest (add_all (project_capabilities r) seen)

-- slices.Sort
unfoldable pub insert_cap : Capability → List Capability → List Capability
unfolding rank
insert_cap c [] = c ∷ []
insert_cap c (x ∷ xs) =
    let later = insert_cap c xs in if leb (rank c) (rank x) then c ∷ x ∷ xs else x ∷ later

unfoldable pub sort_caps : List Capability → List Capability
unfolding insert_cap
sort_caps [] = []
sort_caps (c ∷ cs) = insert_cap c (sort_caps cs)

unfoldable pub capabilities : OrgRole → List ProjectRole → List Capability
unfolding sort_caps add_projects add_all org_capabilities
capabilities org projects = sort_caps (add_projects projects (add_all (org_capabilities org) []))
