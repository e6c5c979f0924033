-- ===== src/Forms/Safety/Verdict.antt =====
-- What a verdict of Validate without errors says of the pages and the rules.
use collectr.Prelude.{
  ◌≡◌, ◌≢◌, refl, ap, subst, String, true, false, ◌&&◌, not, List, [], ◌∷◌, ◌++◌, ◌==◌, eq_iff,
  eq_refl, arith, if◌then◌else◌, Bool-cases, inl, inr, has, lookup, All, All-has, Option-cases,
}
use collectr.Forms.Schema.{
  FieldId, PageId, Page, Op, Action, ActionKind, Rule, Schema, goto, end, show, unknown, has_field,
  is_some, page,
}
use collectr.Forms.Engine.Path.{page_ids, find_page-has}
use collectr.Forms.Engine.Pages.{next_after, first_id}
use collectr.Forms.Validate.Issues.{
  has_errors, error, no_errors_left, no_errors_right, no_error_if, add_if, dangling_reference,
  duplicate_id,
}
use collectr.Forms.Validate.Placement.{Homes, place_fields, page_issues, place_pages}
use collectr.Forms.Validate.Rules.{
  known_op, validate_condition, validate_action, validate_actions, rule_issues, rules_issues,
}
use collectr.Forms.Validate.Edges.{goto_to, goes_to}

module _ {F : Type 0} where
  abbrev pub FieldsDefined : Schema F → Page → Type 0
  FieldsDefined s p = All (λ fid. has_field s fid ≡ true) p.fields

  abbrev pub NextDefined : Schema F → Page → Type 0
  NextDefined s p = p.next ≢ "" → has (page_ids s.pages) p.next ≡ true

  abbrev pub PageFits : Schema F → Page → Type 0
  PageFits s p = FieldsDefined s p × NextDefined s p

  place_fields_clean :
      (s : Schema F) (pid : PageId) (fs : List FieldId) (homes : Homes)
      → has_errors (place_fields s pid fs homes).1 ≡ false
      → All (λ fid. has_field s fid ≡ true) fs
  unfolding place_fields has_errors
  place_fields_clean s pid [] homes h = tt
  place_fields_clean s pid (fid ∷ rest) homes h = (
    elim (Bool-cases (has_field s fid)) [
      | inl t ↦ t
      | inr f ↦ absurd (
          ground (
            arith,
            no_errors_left
                (if not (has_field s fid)
                  then add_if true dangling_reference error fid
                  else add_if (is_some (lookup fid homes)) duplicate_id error fid)
                _ h,
          ))
    ],
    place_fields_clean s pid rest _ (
        no_errors_right
          (if not (has_field s fid)
            then add_if true dangling_reference error fid
            else add_if (is_some (lookup fid homes)) duplicate_id error fid)
          _ h),
  )

  page_issues_clean :
      (s : Schema F) (p : Page) (ids : List PageId)
      → All (λ id. has (page_ids s.pages) id ≡ true) (p.id ∷ ids)
      → has_errors (page_issues s p ids) ≡ false
      → NextDefined s p
  unfolding page_issues has_errors
  page_issues_clean s p ids known h ne =
      let unknown_next =
        no_error_if
          (not (p.next == "") && not (has (p.id ∷ ids) p.next) && not (is_some (page s p.next)))
          dangling_reference p.id
          (no_errors_right (add_if (has ids p.id) duplicate_id error p.id) _ h) in
      elim (Bool-cases (has (p.id ∷ ids) p.next)) [
        | inl t ↦ All-has (λ id. has (page_ids s.pages) id ≡ true) (p.id ∷ ids) p.next known t
        | inr f ↦ elim (Option-cases (page s p.next)) [
          | inl n ↦ absurd (ground (arith, unknown_next, eq_iff p.next ""))
          | inr (q, found) ↦ find_page-has s.pages p.next q found
        ]
      ]

  -- Every page that was placed fits, given that the ids before it are pages of the form.
  pub place_pages_clean :
      (s : Schema F) (ps : List Page) (ids : List PageId) (homes : Homes)
      → All (λ id. has (page_ids s.pages) id ≡ true) ids
      → All (λ p. has (page_ids s.pages) p.id ≡ true) ps
      → has_errors (place_pages s ps ids homes).2 ≡ false
      → All (PageFits s) ps
  unfolding place_pages
  place_pages_clean s [] ids homes known mine h = tt
  place_pages_clean s (p ∷ rest) ids homes known mine h =
      let later = no_errors_right (page_issues s p ids) _ h in
      (
        (
          place_fields_clean s p.id p.fields homes (no_errors_left _ _ later),
          page_issues_clean s p ids (mine.0, known) (no_errors_left (page_issues s p ids) _ h),
        ),
        place_pages_clean s rest (p.id ∷ ids) (place_fields s p.id p.fields homes).0 (mine.0, known)
            mine.1 (no_errors_right (place_fields s p.id p.fields homes).1 _ later),
      )

  -- The set of page ids that the loop leaves.
  pub place_pages-ids :
      (s : Schema F) (ps : List Page) (ids : List PageId) (homes : Homes)
      → All (λ id. has (page_ids s.pages) id ≡ true) ids
      → All (λ p. has (page_ids s.pages) p.id ≡ true) ps
      → All (λ id. has (page_ids s.pages) id ≡ true) (place_pages s ps ids homes).0
  unfolding place_pages
  place_pages-ids s [] ids homes known mine = known
  place_pages-ids s (p ∷ rest) ids homes known mine =
      place_pages-ids s rest (p.id ∷ ids) (place_fields s p.id p.fields homes).0 (mine.0, known)
        mine.1

  abbrev pub ActionDefined : Schema F → Action → Type 0
  ActionDefined s a =
      ((x : String) → a.action ≢ unknown x)
      × (goto_to a.action a.target a.target ≡ true → has (page_ids s.pages) a.target ≡ true)

  pub record RuleDefined (s : Schema F) (r : Rule F) : Type 0 where
    pub op_known : (x : String) → r.when.op ≢ Op.unknown x
    pub actions_defined : All (ActionDefined s) (r.then_actions ++ r.else_actions)

  unknown_op_reported :
      (s : Schema F) (r : Rule F)
      → known_op r.when.op ≡ false
      → has_errors (validate_condition s r) ≡ true
  unfolding validate_condition has_errors
  unknown_op_reported s r h = rw h refl

  module _ (s : Schema F) (ids : List PageId)
      (known : All (λ id. has (page_ids s.pages) id ≡ true) ids) where
    action_clean :
        (id : String) (from : PageId) (k : ActionKind) (target : String)
        → has_errors (validate_action s id from k target ids) ≡ false
        → ((x : String) → k ≢ unknown x)
          × (goto_to k target target ≡ true → has (page_ids s.pages) target ≡ true)
    unfolding validate_action has_errors goto_to
    action_clean id from goto target h = (
      (λ x e. cc),
      λ _. All-has (λ id. has (page_ids s.pages) id ≡ true) ids target known (ground arith),
    )
    action_clean id from (unknown y) target h = absurd (cc)
    action_clean id from end target h = ((λ x e. cc), λ e. absurd (cc))
    action_clean id from show target h = ((λ x e. cc), λ e. absurd (cc))
    action_clean id from _ target h = ((λ x e. cc), λ e. absurd (cc))

    actions_clean :
        (r : Rule F) (actions : List Action)
        → has_errors (validate_actions s r actions ids) ≡ false
        → All (ActionDefined s) actions
    unfolding validate_actions
    actions_clean r [] h = tt
    actions_clean r (a ∷ rest) h = (
      action_clean r.id r.on_page a.action a.target
          (no_errors_left (validate_action s r.id r.on_page a.action a.target ids) _ h),
      actions_clean r rest
          (no_errors_right (validate_action s r.id r.on_page a.action a.target ids) _ h),
    )

    rule_clean : (r : Rule F) → has_errors (rule_issues s r ids) ≡ false → RuleDefined s r
    unfolding rule_issues
    rule_clean r h =
        let h1 =
          no_errors_right (add_if (not (has ids r.on_page)) dangling_reference error r.id) _ h in
        let h2 =
          no_errors_right
            (add_if (not (r.when.field == "") && not (has_field s r.when.field)) dangling_reference
              error r.id)
            _ h1 in
        record {
          op_known = λ x e. cc (
            unknown_op_reported s r (ap known_op e),
            no_errors_left (validate_condition s r) _ h2,
          );
          actions_defined =
              actions_clean r (r.then_actions ++ r.else_actions)
                (no_errors_right (validate_condition s r) _ h2);
        }

    pub rules_clean :
        (rules : List (Rule F))
        → has_errors (rules_issues s rules ids) ≡ false
        → All (RuleDefined s) rules
    unfolding rules_issues
    rules_clean [] h = tt
    rules_clean (r ∷ rest) h = (
      rule_clean r (no_errors_left (rule_issues s r ids) _ h),
      rules_clean rest (no_errors_right (rule_issues s r ids) _ h),
    )

own_ids_in :
    (ps all : List Page)
    → ((k : PageId) → has (page_ids ps) k ≡ true → has (page_ids all) k ≡ true)
    → All (λ p. has (page_ids all) p.id ≡ true) ps
unfolding has
own_ids_in [] all h = tt
own_ids_in (p ∷ rest) all h =
    (h p.id (ground (arith, eq_refl p.id)), own_ids_in rest all (λ k m. h k (ground arith)))

-- The id of a page of the form is the id of a page of the form.
pub own_ids : (ps : List Page) → All (λ p. has (page_ids ps) p.id ≡ true) ps
own_ids ps = own_ids_in ps ps (λ k h. h)

module _ {F : Type 0} where
  -- The successor of a page when no rule decides is a page of the form.
  pub default_defined :
      (s : Schema F) (ps : List Page) (c : PageId)
      → All (PageFits s) ps
      → All (λ p. has (page_ids s.pages) p.id ≡ true) ps
      → next_after ps c ≢ ""
      → has (page_ids s.pages) (next_after ps c) ≡ true
  unfolding next_after first_id
  default_defined s [] c fits mine ne = absurd (ne refl)
  default_defined s (p ∷ []) c fits mine ne = ground (arith, fits.0.1, eq_iff p.next "")
  default_defined s (p ∷ q ∷ rest) c fits mine ne =
      ground
        (arith, fits.0.1, mine.1.0, eq_iff p.next "", default_defined s (q ∷ rest) c fits.1 mine.1)

  goto_defined :
      (s : Schema F) (k : ActionKind) (target : String) (to : PageId)
      → (goto_to k target target ≡ true → has (page_ids s.pages) target ≡ true)
      → goto_to k target to ≡ true
      → has (page_ids s.pages) to ≡ true
  unfolding goto_to
  goto_defined s goto target to d h =
      subst (λ t. has (page_ids s.pages) t ≡ true) ((eq_iff target to).0 h) (d (eq_refl target))
  goto_defined s show target to d h = absurd (cc)
  goto_defined s _ target to d h = absurd (cc)

  -- So is the target of every goto.
  pub gotos_defined :
      (s : Schema F) (actions : List Action)
      → All (ActionDefined s) actions
      → (to : PageId) → goes_to actions to ≡ true
      → has (page_ids s.pages) to ≡ true
  unfolding goes_to
  gotos_defined s [] d to h = absurd (cc)
  gotos_defined s (a ∷ rest) d to h = elim (Bool-cases (goto_to a.action a.target to)) [
    | inl t ↦ goto_defined s a.action a.target to d.0.1 t
    | inr f ↦ gotos_defined s rest d.1 to (ground arith)
  ]
