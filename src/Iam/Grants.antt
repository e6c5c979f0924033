-- ===== src/Iam/Grants.antt =====
-- Which capabilities a membership of internal/modules/iam/domain/roles.go holds.
use collectr.Prelude.{
  ◌≡◌, refl, Bool, true, false, ◌||◌, List, [], ◌∷◌, leb, eqb, if◌then◌else◌, arith, Bool-cases,
  inl, inr,
}
use collectr.Iam.Roles.{
  Capability, OrgRole, ProjectRole, owner, admin, member, dpo, unknown, manager, editor, analyst,
  viewer, submission_read, submission_read_sensitive, rank, has_cap, add_all, add_projects,
  insert_cap, sort_caps, capabilities, org_capabilities, project_capabilities, requires_mfa,
}

-- Some role of the list grants it.
unfoldable pub granted : List ProjectRole → Capability → Bool
unfolding has_cap project_capabilities
granted [] c = false
granted (r ∷ rest) c = has_cap (project_capabilities r) c || granted rest c

has_cap-rank :
    (xs : List Capability) (c d : Capability) → rank c ≡ rank d → has_cap xs c ≡ has_cap xs d
unfolding has_cap
has_cap-rank [] c d h = refl
has_cap-rank (x ∷ xs) c d h = rw (h, has_cap-rank xs c d h) refl

has_cap-add :
    (x : Capability) (seen : List Capability) (c : Capability)
    → has_cap (if has_cap seen x then seen else x ∷ seen) c
      ≡ (has_cap seen c || eqb (rank x) (rank c))
unfolding has_cap
has_cap-add x seen c = ground (arith, has_cap-rank seen x c)

has_cap-add_all :
    (cs seen : List Capability) (c : Capability)
    → has_cap (add_all cs seen) c ≡ (has_cap seen c || has_cap cs c)
unfolding add_all has_cap
has_cap-add_all [] seen c = ground arith
has_cap-add_all (x ∷ xs) seen c =
    let s = if has_cap seen x then seen else x ∷ seen in
    ground (arith, has_cap-add_all xs s c, has_cap-add x seen c)

has_cap-add_projects :
    (rs : List ProjectRole) (seen : List Capability) (c : Capability)
    → has_cap (add_projects rs seen) c ≡ (has_cap seen c || granted rs c)
unfolding add_projects granted
has_cap-add_projects [] seen c = ground arith
has_cap-add_projects (r ∷ rs) seen c = ground (
  arith,
  has_cap-add_projects rs (add_all (project_capabilities r) seen) c,
  has_cap-add_all (project_capabilities r) seen c,
)

pub or_swap : (a b c : Bool) → (a || (b || c)) ≡ (b || (a || c))
or_swap true true c = refl
or_swap true false c = refl
or_swap false true c = refl
or_swap false false c = refl

has_cap-insert_cap :
    (x : Capability) (xs : List Capability) (c : Capability)
    → has_cap (insert_cap x xs) c ≡ has_cap (x ∷ xs) c
unfolding insert_cap has_cap
has_cap-insert_cap x [] c = refl
has_cap-insert_cap x (y ∷ ys) c = elim (Bool-cases (leb (rank x) (rank y))) [
  | inl t ↦ rw t refl
  | inr f ↦
      rw (f, has_cap-insert_cap x ys c)
        (or_swap (eqb (rank y) (rank c)) (eqb (rank x) (rank c)) (has_cap ys c))
]

pub has_cap-sort_caps :
    (xs : List Capability) (c : Capability) → has_cap (sort_caps xs) c ≡ has_cap xs c
unfolding sort_caps has_cap
has_cap-sort_caps [] c = refl
has_cap-sort_caps (x ∷ xs) c =
    ground (arith, has_cap-insert_cap x (sort_caps xs) c, has_cap-sort_caps xs c)

-- A membership holds a capability exactly where its organisation role or one of its project roles
-- grants it: there are no deny rules and no order.
pub has_cap-capabilities :
    (org : OrgRole) (projects : List ProjectRole) (c : Capability)
    → has_cap (capabilities org projects) c
      ≡ (has_cap (org_capabilities org) c || granted projects c)
unfolding capabilities has_cap
has_cap-capabilities org projects c = ground (
  arith,
  has_cap-sort_caps (add_projects projects (add_all (org_capabilities org) [])) c,
  has_cap-add_projects projects (add_all (org_capabilities org) []) c,
  has_cap-add_all (org_capabilities org) [] c,
)

-- A second factor is required of exactly the organisation roles that read submissions of the whole
-- organisation.
requires_mfa-reads : (r : OrgRole) → requires_mfa r ≡ has_cap (org_capabilities r) submission_read
unfolding requires_mfa org_capabilities has_cap
requires_mfa-reads owner = refl
requires_mfa-reads admin = refl
requires_mfa-reads member = refl
requires_mfa-reads dpo = refl
requires_mfa-reads (unknown s) = refl

pub is_operator : OrgRole → Bool
is_operator r = elim r [ owner ↦ true | admin ↦ true | _ ↦ false ]

pub is_manager : ProjectRole → Bool
is_manager r = elim r [ manager ↦ true | _ ↦ false ]

pub any_manager : List ProjectRole → Bool
any_manager [] = false
any_manager (r ∷ rest) = is_manager r || any_manager rest

granted_sensitive :
    (projects : List ProjectRole)
    → granted projects submission_read_sensitive ≡ any_manager projects
unfolding granted project_capabilities has_cap any_manager is_manager
granted_sensitive [] = refl
granted_sensitive (manager ∷ rest) = refl
granted_sensitive (editor ∷ rest) = granted_sensitive rest
granted_sensitive (analyst ∷ rest) = granted_sensitive rest
granted_sensitive (viewer ∷ rest) = granted_sensitive rest
granted_sensitive (ProjectRole.unknown s ∷ rest) = granted_sensitive rest

operator_sensitive :
    (org : OrgRole) → has_cap (org_capabilities org) submission_read_sensitive ≡ is_operator org
unfolding is_operator org_capabilities has_cap
operator_sensitive owner = refl
operator_sensitive admin = refl
operator_sensitive member = refl
operator_sensitive dpo = refl
operator_sensitive (unknown s) = refl

-- Sensitive fields are read by owners and admins, and by who manages some project, and by no one
-- else: neither a data protection officer nor an analyst who may export.
sensitive_readers :
    (org : OrgRole) (projects : List ProjectRole)
    → has_cap (capabilities org projects) submission_read_sensitive
      ≡ (is_operator org || any_manager projects)
sensitive_readers org projects =
    let held = has_cap-capabilities org projects submission_read_sensitive in
    rw (held, operator_sensitive org, granted_sensitive projects) refl
