-- ===== src/Iam/Actor.antt =====
-- Who may do what where: Actor of internal/platform/authn/authn.go, Membership of
-- internal/modules/iam/store/store.go, and Resolve of internal/modules/iam/app/service.go, after its
-- queries. The cache of capabilities is not modelled; times are ℕ, and a zero time is `none`.
use collectr.Prelude.{
  ℕ, ◌+◌, ◌≡◌, refl, String, Bool, true, false, not, ◌&&◌, ◌||◌, Option, none, some, List, [], ◌∷◌,
  ◌==◌, ltb, if◌then◌else◌, has, Bool-cases, inl, inr,
}
use collectr.Iam.Roles.{
  Capability, OrgRole, ProjectRole, has_cap, org_capabilities, capabilities, requires_mfa,
}
use collectr.Iam.Grants.{granted, has_cap-capabilities}

pub data Kind : Type 0 where
  user api_key : Kind

-- The fields that Can and InProject read.
pub record Actor : Type 0 where
  pub kind : Kind
  pub project_id : Option String
  pub caps : List Capability
  pub org_wide : Bool
  pub projects : List String

unfoldable pub can : Actor → Capability → Bool
unfolding has_cap
can a c = has_cap a.caps c

unfoldable pub in_project : Actor → String → Bool
unfolding has
in_project a project = elim a.project_id [
  | some id ↦ id == project
  | none ↦ elim a.kind [ api_key ↦ true | user ↦ a.org_wide || has a.projects project ]
]

unfoldable pub new_actor : Kind → Option String → List Capability → Actor
new_actor kind project caps = record {
  kind = kind;
  project_id = project;
  caps = caps;
  org_wide = false;
  projects = [];
}

unfoldable pub with_project_scope : Actor → Bool → List String → Actor
with_project_scope a org_wide projects = record a { org_wide = org_wide; projects = projects }

-- `project_roles` is a Go map from projects.
pub record Membership : Type 0 where
  pub org_role : OrgRole
  pub project_roles : List (String × ProjectRole)

abbrev pub ids_of : List (String × ProjectRole) → List String
ids_of [] = []
ids_of ((id, _) ∷ rest) = id ∷ ids_of rest

abbrev pub roles_of : List (String × ProjectRole) → List ProjectRole
roles_of [] = []
roles_of ((_, r) ∷ rest) = r ∷ roles_of rest

unfoldable pub project_ids : Membership → List String
project_ids m = ids_of m.project_roles

unfoldable pub role_list : Membership → List ProjectRole
role_list m = roles_of m.project_roles

abbrev pub grants_any : List Capability → Bool
grants_any [] = false
grants_any (_ ∷ _) = true

-- What Resolve reads of an account.
pub record Account : Type 0 where
  pub mfa_enabled : Bool
  pub created_at : Option ℕ

-- The role needs a second factor, there is none, and the grace window is over.
unfoldable pub is_barred : OrgRole → Account → ℕ → ℕ → Bool
unfolding requires_mfa
is_barred role account grace now =
    requires_mfa role
    && not account.mfa_enabled
    && elim account.created_at [ none ↦ false | some t ↦ not (ltb now (t + grace)) ]

unfoldable pub resolve : Membership → Account → ℕ → ℕ → Actor
unfolding is_barred capabilities org_capabilities role_list project_ids new_actor with_project_scope
resolve m account grace now =
    let caps = capabilities m.org_role (role_list m) in
    let held = if is_barred m.org_role account grace now then [] else caps in
    with_project_scope (new_actor user none held) (grants_any (org_capabilities m.org_role))
      (project_ids m)

-- The two tests that handlers make.
unfoldable pub may : Actor → Capability → String → Bool
unfolding can in_project
may a c project = can a c && in_project a project

can-resolve :
    (m : Membership) (account : Account) (grace now : ℕ) (c : Capability)
    → can (resolve m account grace now) c ≡ (
        not (is_barred m.org_role account grace now)
        && (has_cap (org_capabilities m.org_role) c || granted (role_list m) c))
unfolding can resolve with_project_scope new_actor
can-resolve m account grace now c = elim (Bool-cases (is_barred m.org_role account grace now)) [
  | inl t ↦ rw t refl
  | inr f ↦ rw f (has_cap-capabilities m.org_role (role_list m) c)
]

in_project-resolve :
    (m : Membership) (account : Account) (grace now : ℕ) (project : String)
    → in_project (resolve m account grace now) project
      ≡ (grants_any (org_capabilities m.org_role) || has (project_ids m) project)
unfolding in_project resolve with_project_scope new_actor
in_project-resolve m account grace now project = refl

-- A signed-in user may use a capability in a project exactly where no second factor is missing, the
-- organisation role or the role in some project, be it another one, grants the capability, and the
-- organisation role grants something or the user has some role in the project.
pub may-resolve :
    (m : Membership) (account : Account) (grace now : ℕ) (c : Capability) (project : String)
    → may (resolve m account grace now) c project ≡ (
        not (is_barred m.org_role account grace now)
        && (has_cap (org_capabilities m.org_role) c || granted (role_list m) c)
        && (grants_any (org_capabilities m.org_role) || has (project_ids m) project))
unfolding may
may-resolve m account grace now c project =
    rw (can-resolve m account grace now c, in_project-resolve m account grace now project) refl
