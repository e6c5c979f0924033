-- ===== src/Forms/Safety/Next.antt =====
-- Every step of Evaluate from a page to the next one is an edge of the graph that walkGraph searches.
use collectr.Prelude.{
  ◌≡◌, ◌≢◌, refl, String, Bool, true, false, ◌||◌, List, [], ◌∷◌, ◌++◌, eq_iff, eq_refl, arith,
  if◌then◌else◌, Option-cases, inl, inr, some, has, All, All-map, ok, map_err, Returns,
  Returns-bind, Returns-eq,
}
use collectr.Forms.Schema.{
  FieldId, Field, PageId, Page, Action, ActionKind, Rule, Schema, goto, end, show, find_page,
}
use collectr.Forms.Engine.Conditions.{Floats, eval_condition, in_rule}
use collectr.Forms.Engine.Pages.{
  Answers, PageState, PageResult, declare, field_of, declare_fields, perform, perform_all, run_rule,
  run_rules, eval_page, next_after, blank_state,
}
use collectr.Forms.Engine.Walk.{by_page, visit_page}
use collectr.Forms.Validate.Graph.{edges_of}
use collectr.Forms.Validate.Edges.{goto_to, goes_to, rules_go, edges_of-default, edges_of-goto}
use collectr.Forms.Safety.Groups.{by_page-All}

-- A decided jump leads along `Leads`, where it leads anywhere.
abbrev JumpFits : (PageId → Type 0) → PageState → Type 0
JumpFits Leads st = st.jump ≢ "" → Leads st.jump

-- Every goto among the actions does.
abbrev pub GotosFit : (PageId → Type 0) → List Action → Type 0
GotosFit Leads actions = (to : PageId) → goes_to actions to ≡ true → Leads to

module _ (Leads : PageId → Type 0) where
  declare_fields-JumpFits :
      (pid : PageId) (fields : List (FieldId × Field)) (fs : List FieldId) (st : PageState)
      → JumpFits Leads st
      → Returns (JumpFits Leads) (declare_fields pid fields fs st)
  unfolding declare_fields
  declare_fields-JumpFits pid fields [] st j = j
  declare_fields-JumpFits pid fields (fid ∷ rest) st j =
      Returns-bind (JumpFits Leads) (field_of pid fields fid) _
        (λ f _. declare_fields-JumpFits pid fields rest (declare fid f st) j)

  perform-JumpFits :
      (id : String) (k : ActionKind) (t : String) (st : PageState)
      → JumpFits Leads st
      → (goto_to k t t ≡ true → Leads t)
      → Returns (JumpFits Leads) (perform id k t st)
  unfolding perform goto_to
  perform-JumpFits id goto t st j g = λ ne. g (eq_refl t)
  perform-JumpFits id end t st j g = λ ne. absurd (ne refl)
  perform-JumpFits id show t st j g = j
  perform-JumpFits id ActionKind.hide t st j g = j
  perform-JumpFits id ActionKind.require t st j g = j
  perform-JumpFits id ActionKind.optional t st j g = j
  perform-JumpFits id (ActionKind.unknown _) t st j g = tt

  perform_all-JumpFits :
      (id : String) (actions : List Action) (st : PageState)
      → JumpFits Leads st
      → GotosFit Leads actions
      → Returns (JumpFits Leads) (perform_all id actions st)
  unfolding perform_all goes_to
  perform_all-JumpFits id [] st j g = j
  perform_all-JumpFits id (a ∷ rest) st j g =
      Returns-bind (JumpFits Leads) (perform id a.action a.target st) _ (λ st' q.
        perform_all-JumpFits id rest st'
          (Returns-eq (JumpFits Leads) (perform id a.action a.target st)
            (perform-JumpFits id a.action a.target st j (λ h. g a.target (ground arith))) q)
          (λ to h. g to (ground arith)))

goes_to-append :
    (xs ys : List Action) (to : PageId) → goes_to (xs ++ ys) to ≡ (goes_to xs to || goes_to ys to)
unfolding goes_to
goes_to-append [] ys to = refl
goes_to-append (x ∷ xs) ys to = ground (arith, goes_to-append xs ys to)

module _ (fl : Floats) (Leads : PageId → Type 0) where
  open fl use {Float}

  abbrev RuleLeads : Rule Float → Type 0
  RuleLeads r = GotosFit Leads (r.then_actions ++ r.else_actions)

  run_rule-JumpFits :
      (r : Rule Float) (answers : Answers fl) (st : PageState)
      → JumpFits Leads st
      → RuleLeads r
      → Returns (JumpFits Leads) (run_rule fl r answers st)
  unfolding run_rule
  run_rule-JumpFits r answers st j g =
      Returns-bind (JumpFits Leads) (map_err (in_rule r.id) (eval_condition fl r.when answers)) _
        (λ match _.
          elim match
            as (λ b.
              Returns (JumpFits Leads)
                (perform_all r.id (if b then r.then_actions else r.else_actions) st)) [
                  | true ↦ perform_all-JumpFits Leads r.id r.then_actions st j (λ to h.
                      g to (ground (arith, goes_to-append r.then_actions r.else_actions to)))
                  | false ↦ perform_all-JumpFits Leads r.id r.else_actions st j (λ to h.
                      g to (ground (arith, goes_to-append r.then_actions r.else_actions to)))
                ])

  run_rules-JumpFits :
      (rules : List (Rule Float)) (answers : Answers fl) (st : PageState)
      → JumpFits Leads st
      → All RuleLeads rules
      → Returns (JumpFits Leads) (run_rules fl rules answers st)
  unfolding run_rules
  run_rules-JumpFits [] answers st j g = j
  run_rules-JumpFits (r ∷ rest) answers st j g =
      Returns-bind (JumpFits Leads) (run_rule fl r answers st) _ (λ st' q.
        run_rules-JumpFits rest answers st'
          (Returns-eq (JumpFits Leads) (run_rule fl r answers st)
            (run_rule-JumpFits r answers st j g.0) q)
          g.1)

  next-Leads :
      (decided ended : Bool) (jump default : PageId)
      → (jump ≢ "" → Leads jump)
      → (default ≢ "" → Leads default)
      → let to = if decided then (if ended then "" else jump) else default in to ≢ "" → Leads to
  next-Leads true true jump default j d ne = absurd (ne refl)
  next-Leads true false jump default j d ne = j ne
  next-Leads false ended jump default j d ne = d ne

  eval_page-Leads :
      (s : Schema Float) (p : Page) (rules : List (Rule Float)) (answers : Answers fl)
      → All RuleLeads rules
      → (next_after s.pages p.id ≢ "" → Leads (next_after s.pages p.id))
      → Returns (λ r. r.next ≢ "" → Leads r.next) (eval_page fl s p rules answers)
  unfolding eval_page
  eval_page-Leads s p rules answers g d =
      Returns-bind _ (declare_fields p.id s.fields p.fields blank_state) _ (λ declared q.
        Returns-bind _ (run_rules fl rules answers declared) _ (λ st q'.
          let j =
            Returns-eq (JumpFits Leads) (run_rules fl rules answers declared)
              (run_rules-JumpFits rules answers declared
                (Returns-eq (JumpFits Leads) (declare_fields p.id s.fields p.fields blank_state)
                  (declare_fields-JumpFits Leads p.id s.fields p.fields blank_state
                    (λ ne. absurd (ne refl)))
                  q)
                g)
              q' in
          next-Leads st.decided st.ended st.jump (next_after s.pages p.id) j d))

module _ {F : Type 0} where
  gotos_of_rules :
      (rules all : List (Rule F))
      → ((from to : PageId) → rules_go rules from to ≡ true → rules_go all from to ≡ true)
      → All
          (λ r.
            (to : PageId)
            → goes_to (r.then_actions ++ r.else_actions) to ≡ true
            → rules_go all r.on_page to ≡ true)
          rules
  unfolding rules_go
  gotos_of_rules [] all h = tt
  gotos_of_rules (r ∷ rest) all h = (
    (λ to g. h r.on_page to (ground (arith, eq_refl r.on_page))),
    gotos_of_rules rest all (λ from to g. h from to (ground arith)),
  )

find_page-id : (ps : List Page) (id : PageId) (p : Page) → find_page ps id ≡ some p → p.id ≡ id
unfolding find_page
find_page-id [] id p h = cc
find_page-id (q ∷ ps) id p h = ground (arith, find_page-id ps id p, eq_iff q.id id)

module _ (fl : Floats) where
  open fl use {Float}

  -- Where a visited page leads to another: what holds of its default successor and of the targets
  -- of the gotos on it holds of the page that follows.
  pub visit_page-Leads :
      (L : PageId → PageId → Type 0) (s : Schema Float) (answers : Answers fl) (c : PageId)
      (seen : List PageId) (r : PageResult)
      → All (λ r. GotosFit (L r.on_page) (r.then_actions ++ r.else_actions)) s.rules
      → (next_after s.pages c ≢ "" → L c (next_after s.pages c))
      → visit_page fl s answers c seen ≡ ok r
      → r.next ≢ ""
      → L c r.next
  unfolding visit_page
  visit_page-Leads L s answers c seen r gotos default q ne =
      elim (Option-cases (find_page s.pages c)) [
        | inl none_found ↦ absurd (ground (arith, none_found))
        | inr (p, found) ↦
            Returns-eq (λ r. r.next ≢ "" → L c r.next) (eval_page fl s p (by_page s c) answers)
              {a = r}
              (eval_page-Leads fl (L c) s p (by_page s c) answers
                (by_page-All (λ k r. GotosFit (L k) (r.then_actions ++ r.else_actions)) s gotos c)
                (rw (find_page-id s.pages c p found) default))
              (ground (arith, found)) ne
      ]

  -- walkGraph has an edge for every such step.
  pub visit_page-edge :
      (s : Schema Float) (answers : Answers fl) (c : PageId) (seen : List PageId) (r : PageResult)
      → visit_page fl s answers c seen ≡ ok r
      → r.next ≢ ""
      → has (edges_of s c) r.next ≡ true
  visit_page-edge s answers c seen r =
      visit_page-Leads (λ k to. has (edges_of s k) to ≡ true) s answers c seen r
        (All-map _ _ s.rules (λ r g to h. edges_of-goto s r.on_page to (g to h))
          (gotos_of_rules s.rules s.rules (λ _ _ h. h)))
        (edges_of-default s c)
