-- ===== src/Iam/Canonical.antt =====
-- The list that Capabilities of internal/modules/iam/domain/roles.go returns is sorted, has no
-- repeats, and depends on nothing but what is granted.
use collectr.Prelude.{
  ℕ, zero, suc, ◌≤◌, ◌<◌, ◌≡◌, refl, sym, ap, ◌∙◌, true, false, ◌||◌, List, [], ◌∷◌, leb,
  if◌then◌else◌, arith, Bool-cases, inl, inr, All,
}
use collectr.Iam.Roles.{
  analytics_read, apikey_manage, audit_read, consent_manage, dsr_handle, form_publish, form_read,
  form_write, link_delete, link_read, link_write, member_manage, submission_export, webhook_manage,
  Capability, OrgRole, ProjectRole, submission_read, submission_read_sensitive, rank, has_cap,
  add_all, add_projects, insert_cap, sort_caps, capabilities, org_capabilities,
  project_capabilities,
}
use collectr.Iam.Grants.{granted, has_cap-capabilities, has_cap-sort_caps}

-- A capability stands above all of a list.
abbrev Below : ℕ → List Capability → Type 0
Below n = All (λ x. n < rank x)

-- Sorted, and without repeats.
abbrev pub IsStrict : List Capability → Type 0
IsStrict [] = Unit
IsStrict (x ∷ xs) = Below (rank x) xs × IsStrict xs

insert-Below :
    (n : ℕ) (x : Capability) (xs : List Capability)
    → n < rank x
    → Below n xs
    → Below n (insert_cap x xs)
unfolding insert_cap
insert-Below n x [] h b = (h, tt)
insert-Below n x (y ∷ ys) h b = ground (arith, insert-Below n x ys h b.1)

Below-weaken : (m n : ℕ) (xs : List Capability) → m ≤ n → Below n xs → Below m xs
Below-weaken m n [] h b = tt
Below-weaken m n (x ∷ xs) h b = (omega arith, Below-weaken m n xs h b.1)

insert-IsStrict :
    (x : Capability) (xs : List Capability)
    → has_cap xs x ≡ false
    → IsStrict xs
    → IsStrict (insert_cap x xs)
unfolding insert_cap has_cap
insert-IsStrict x [] h s = (tt, tt)
insert-IsStrict x (y ∷ ys) h s = elim (Bool-cases (leb (rank x) (rank y))) [
  | inl t ↦
      let lt : rank x < rank y = ground (arith, h, t) in
      rw t ((lt, Below-weaken (rank x) (rank y) ys (omega arith) s.0), s)
  | inr f ↦
      let gt : rank y < rank x = ground (arith, f) in
      let rest : has_cap ys x ≡ false = ground (arith, h) in
      rw f (insert-Below (rank y) x ys gt s.0, insert-IsStrict x ys rest s.1)
]

abbrev IsDistinct : List Capability → Type 0
IsDistinct [] = Unit
IsDistinct (x ∷ xs) = (has_cap xs x ≡ false) × IsDistinct xs

add-IsDistinct :
    (x : Capability) (seen : List Capability)
    → IsDistinct seen
    → IsDistinct (if has_cap seen x then seen else x ∷ seen)
add-IsDistinct x seen d = elim (Bool-cases (has_cap seen x)) [
  | inl t ↦ rw t d
  | inr f ↦ rw f (f, d)
]

add_all-IsDistinct : (cs seen : List Capability) → IsDistinct seen → IsDistinct (add_all cs seen)
unfolding add_all
add_all-IsDistinct [] seen d = d
add_all-IsDistinct (x ∷ xs) seen d =
    add_all-IsDistinct xs (if has_cap seen x then seen else x ∷ seen) (add-IsDistinct x seen d)

add_projects-IsDistinct :
    (rs : List ProjectRole) (seen : List Capability)
    → IsDistinct seen
    → IsDistinct (add_projects rs seen)
unfolding add_projects
add_projects-IsDistinct [] seen d = d
add_projects-IsDistinct (r ∷ rs) seen d =
    add_projects-IsDistinct rs (add_all (project_capabilities r) seen)
      (add_all-IsDistinct (project_capabilities r) seen d)

sort_caps-IsStrict : (xs : List Capability) → IsDistinct xs → IsStrict (sort_caps xs)
unfolding sort_caps
sort_caps-IsStrict [] d = tt
sort_caps-IsStrict (x ∷ xs) (f, d) =
    insert-IsStrict x (sort_caps xs) (has_cap-sort_caps xs x ∙ f) (sort_caps-IsStrict xs d)

capabilities-IsStrict :
    (org : OrgRole) (projects : List ProjectRole) → IsStrict (capabilities org projects)
unfolding capabilities
capabilities-IsStrict org projects =
    sort_caps-IsStrict (add_projects projects (add_all (org_capabilities org) [])) (
      add_projects-IsDistinct projects (add_all (org_capabilities org) [])
        (add_all-IsDistinct (org_capabilities org) [] tt))

Below-has_cap :
    (n : ℕ) (xs : List Capability) (c : Capability) → Below n xs → rank c ≤ n → has_cap xs c ≡ false
unfolding has_cap
Below-has_cap n [] c b h = refl
Below-has_cap n (x ∷ xs) c b h = ground (arith, Below-has_cap n xs c b.1 h)

pick : List Capability → ℕ → Capability
pick [] n = webhook_manage
pick (c ∷ cs) zero = c
pick (c ∷ cs) (suc n) = pick cs n

abbrev in_order : List Capability
in_order =
    analytics_read ∷ apikey_manage ∷ audit_read ∷ consent_manage ∷ dsr_handle ∷ form_publish
    ∷ form_read ∷ form_write ∷ link_delete ∷ link_read ∷ link_write ∷ member_manage
    ∷ submission_export ∷ submission_read ∷ submission_read_sensitive ∷ webhook_manage ∷ []

pick-rank : (c : Capability) → pick in_order (rank c) ≡ c
unfolding pick rank
pick-rank analytics_read = refl
pick-rank apikey_manage = refl
pick-rank audit_read = refl
pick-rank consent_manage = refl
pick-rank dsr_handle = refl
pick-rank form_publish = refl
pick-rank form_read = refl
pick-rank form_write = refl
pick-rank link_delete = refl
pick-rank link_read = refl
pick-rank link_write = refl
pick-rank member_manage = refl
pick-rank submission_export = refl
pick-rank submission_read = refl
pick-rank submission_read_sensitive = refl
pick-rank webhook_manage = refl

rank_injective : (c d : Capability) → rank c ≡ rank d → c ≡ d
rank_injective c d h = sym (pick-rank c) ∙ ap (pick in_order) h ∙ pick-rank d

-- The first of a sorted list is the least of its members.
heads_le :
    (x y : Capability) (ys : List Capability)
    → IsStrict (y ∷ ys)
    → has_cap (y ∷ ys) x ≡ true
    → rank y ≤ rank x
unfolding has_cap
heads_le x y ys s h = elim (Bool-cases (leb (rank y) (rank x))) [
  | inl t ↦ ground arith
  | inr f ↦ absurd (ground (arith, Below-has_cap (rank y) ys x s.0))
]

strict_tails :
    (x y : Capability) (xs ys : List Capability)
    → IsStrict (x ∷ xs)
    → IsStrict (y ∷ ys)
    → rank x ≡ rank y
    → (c : Capability) → has_cap (x ∷ xs) c ≡ has_cap (y ∷ ys) c
    → has_cap xs c ≡ has_cap ys c
unfolding has_cap
strict_tails x y xs ys s s' e c h =
    ground (arith, h, e, Below-has_cap (rank x) xs c s.0, Below-has_cap (rank y) ys c s'.0)

strict_ext :
    (xs ys : List Capability)
    → IsStrict xs
    → IsStrict ys
    → ((c : Capability) → has_cap xs c ≡ has_cap ys c)
    → xs ≡ ys
unfolding has_cap
strict_ext [] [] s s' h = refl
strict_ext [] (y ∷ ys) s s' h = absurd (ground (arith, h y))
strict_ext (x ∷ xs) [] s s' h = absurd (ground (arith, h x))
strict_ext (x ∷ xs) (y ∷ ys) s s' h =
    let ground_x : has_cap (y ∷ ys) x ≡ true = ground (arith, h x) in
    let ground_y : has_cap (x ∷ xs) y ≡ true = ground (arith, h y) in
    let e : rank x ≡ rank y =
      omega (arith, heads_le x y ys s' ground_x, heads_le y x xs s ground_y) in
    let same = rank_injective x y e in
    let tails = strict_ext xs ys s.1 s'.1 (λ c. strict_tails x y xs ys s s' e c (h c)) in
    cc (same, tails)

-- The list of capabilities depends on nothing but what is granted: two memberships with the same
-- grants, in whatever roles and order, resolve to the same list.
pub capabilities_canonical :
    (org org' : OrgRole) (projects projects' : List ProjectRole)
    → ((c : Capability)
        → (has_cap (org_capabilities org) c || granted projects c)
          ≡ (has_cap (org_capabilities org') c || granted projects' c))
    → capabilities org projects ≡ capabilities org' projects'
capabilities_canonical org org' projects projects' h =
    strict_ext (capabilities org projects) (capabilities org' projects')
      (capabilities-IsStrict org projects) (capabilities-IsStrict org' projects')
      (λ c. has_cap-capabilities org projects c ∙ h c ∙ sym (has_cap-capabilities org' projects' c))
