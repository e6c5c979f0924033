-- ===== src/Forms/Safety/Published.antt =====
-- The promise of Validate: once it accepts a draft, Evaluate runs it to an end on any answers.
use collectr.Prelude.{
  ℕ, suc, ◌≡◌, ◌≢◌, refl, subst, true, false, not, none, some, List, [], ◌∷◌, ◌++◌, ◌==◌, eq_iff,
  arith, Bool-cases, Option-cases, inl, inr, has, has-append, Fails-intro, length, All, All-map,
  err, Fails, Fails-eq, Ensures, Ensures-err,
}
use collectr.Forms.Schema.{PageId, Page, Schema, find_page}
use collectr.Forms.Engine.Conditions.{
  Floats, Error, page_not_defined, navigation_cycle, navigation_exceeded, undefined_field,
}
use collectr.Forms.Engine.Pages.{Answers, eval_page}
use collectr.Forms.Engine.Walk.{by_page, visit_page, walk, start, evaluate, no_pages}
use collectr.Forms.Engine.Errors.{RuleFits, eval_page-Fails}
use collectr.Forms.Engine.Loop.{walk_inv}
use collectr.Forms.Engine.Path.{page_ids, of_page, eval_page-of_page, evaluate-IsPath, IsPath}
use collectr.Forms.Validate.Issues.{
  Issue, Code, has_errors, no_errors_left, no_errors_right, no_error_if, add_if, error,
}
use collectr.Forms.Validate.Placement.{Homes, place_pages, field_issues}
use collectr.Forms.Validate.Rules.{rules_issues}
use collectr.Forms.Validate.Graph.{page_nodes, rule_nodes, Search, edges_of, nodes}
use collectr.Forms.Validate.Publish.{
  ValidationResult, validate, validate_pages, conclude, graph_issues, local_issues, limit_issues,
}
use collectr.Forms.Safety.Groups.{by_page-All}
use collectr.Forms.Safety.Next.{visit_page-Leads}
use collectr.Forms.Safety.Acyclic.{Clean, walk-NoCycle, NoCycle, StaysIn, walk_graph_total}
use collectr.Forms.Safety.Verdict.{
  PageFits, FieldsDefined, RuleDefined, own_ids, default_defined, place_pages_clean,
  place_pages-ids, rules_clean, gotos_defined,
}
use collectr.Forms.Safety.Fits.{BadBetween, Checked, fields_fit, rules_fit}

module _ (fl : Floats) where
  open fl use {Float}

  -- The errors that a walk over a checked form may give, before cycles are excluded.
  abbrev MayFail : Schema Float → Error → Type 0
  MayFail s e = (of_page e ≡ true → BadBetween s.rules e) × ((x : PageId) → e ≢ page_not_defined x)

  page_fits :
      (s : Schema Float) (ps : List Page) (id : PageId) (p : Page)
      → All (PageFits s) ps
      → find_page ps id ≡ some p
      → FieldsDefined s p
  unfolding find_page
  page_fits s [] id p h q = absurd (cc)
  page_fits s (r ∷ rest) id p h q = elim (Bool-cases (r.id == id)) [
    | inl t ↦ subst (FieldsDefined s) {x = r} {y = p} (ground arith) h.0.0
    | inr f ↦ page_fits s rest id p h.1 (ground arith)
  ]

  has-find_page :
      (ps : List Page) (id : PageId) → has (page_ids ps) id ≡ true → find_page ps id ≢ none
  unfolding has find_page
  has-find_page [] id h = absurd (cc)
  has-find_page (p ∷ ps) id h = ground (arith, has-find_page ps id)

  visit-MayFail :
      (s : Schema Float) (answers : Answers fl) (c : PageId) (seen : List PageId) (e : Error)
      → Checked s
      → has (page_ids s.pages) c ≡ true
      → visit_page fl s answers c seen ≡ err e
      → MayFail s e
  unfolding visit_page
  visit-MayFail s answers c seen e k h q = elim (Option-cases (find_page s.pages c)) [
    | inl n ↦ absurd (has-find_page s.pages c h n)
    | inr (p, found) ↦ elim (Bool-cases (has seen c)) [
      | inl b ↦
          let same : navigation_cycle c ≡ e = ground (arith, found, b) in
          ((λ o. absurd (cc)), (λ x d. cc))
      | inr b ↦
          let run : eval_page fl s p (by_page s c) answers ≡ err e = ground (arith, found, b) in
          let of_p : of_page e ≡ true =
            Fails-eq (λ e. of_page e ≡ true) (eval_page fl s p (by_page s c) answers)
              (eval_page-of_page fl s p (by_page s c) answers) run in
          (
            λ _.
                Fails-eq (BadBetween s.rules) (eval_page fl s p (by_page s c) answers)
                  (eval_page-Fails fl (BadBetween s.rules) s p (by_page s c) answers
                    (fields_fit fl s (BadBetween s.rules) p.id p.fields
                      (page_fits s s.pages c p k.pages_fit found))
                    (by_page-All (λ _ r. RuleFits fl (BadBetween s.rules) r) s
                      (rules_fit fl s s.rules s.rules (λ e b. b) k.rules_defined) c))
                  run,
            λ x d. cc,
          )
    ]
  ]

  walk-MayFail :
      (s : Schema Float) (answers : Answers fl) (n : ℕ) (c : PageId)
      → Checked s
      → has (page_ids s.pages) c ≡ true
      → Ensures (λ _. Unit {0}) (MayFail s) (walk fl s answers n c [] no_pages)
  walk-MayFail s answers n c k h =
      walk_inv fl s answers (λ m c seen res. has (page_ids s.pages) c ≡ true) (MayFail s)
        (λ _. Unit) (λ c seen res i. ((λ o. absurd (cc)), (λ x d. cc)))
        (λ m c seen res e i q. visit-MayFail s answers c seen e k i q) (λ m c seen res r i q t. tt)
        (λ m c seen res r i q f.
          visit_page-Leads fl (λ _ to. has (page_ids s.pages) to ≡ true) s answers c seen r
            (All-map (RuleDefined s) _ s.rules
              (λ r d to g.
                gotos_defined s (r.then_actions ++ r.else_actions) d.actions_defined to g)
              k.rules_defined)
            (default_defined s s.pages c k.pages_fit (own_ids s.pages)) q
            (λ e. ground (arith, eq_iff r.next "")))
        n c [] no_pages h

  -- An error that is no walk's error and no unknown page is a bad `between`.
  only_between :
      (s : Schema Float) (e : Error)
      → MayFail s e
      → NoCycle fl e
      → e ≢ navigation_exceeded
      → BadBetween s.rules e
  only_between s (page_not_defined x) m n x' = absurd (m.1 x refl)
  only_between s (navigation_cycle x) m n x' = absurd (n x refl)
  only_between s navigation_exceeded m n x' = absurd (x' refl)
  only_between s (undefined_field _ _) m n x' = m.0 refl
  only_between s _ m n x' = m.0 refl

  -- An accepted draft: its first page, and the pages that the search entered.
  abbrev pub Accepted : Schema Float → List Page → Type 0
  Accepted s [] = ⊥
  Accepted s (p ∷ _) = Checked s × ((reachable : List PageId) × Clean (edges_of s) p.id reachable)

  graph_clean :
      (s : Schema Float) (homes : Homes) (w : Search) (cycle : PageId)
      → has_errors (graph_issues s homes w cycle) ≡ false
      → cycle ≡ ""
  unfolding graph_issues
  graph_clean s homes w cycle h =
      let t : not (cycle == "") ≡ false =
        no_error_if (not (cycle == "")) Code.navigation_cycle cycle
          (no_errors_left (add_if (not (cycle == "")) Code.navigation_cycle error cycle) _ h) in
      (eq_iff cycle "").0 (ground arith)

  conclude_accepted :
      (s : Schema Float) (first : PageId) (homes : Homes) (issues : List Issue)
      (res : ValidationResult)
      → has (nodes s) first ≡ true
      → conclude fl s first homes issues ≡ some res
      → res.ok ≡ true
      → (has_errors issues ≡ false)
        × ((reachable : List PageId) × Clean (edges_of s) first reachable)
  unfolding conclude graph_issues
  conclude_accepted s first homes issues res u q accepted = elim (Bool-cases (has_errors issues)) [
    | inl bad ↦ absurd (ground (arith, bad))
    | inr good ↦
        let (w, cycle, found, clean) = walk_graph_total s first u in
        let all : has_errors (issues ++ graph_issues s homes w cycle) ≡ false =
          ground (arith, good, found) in
        (good, (w.reachable, clean (graph_clean s homes w cycle (no_errors_right issues _ all))))
  ]

  pub in_nodes :
      (s : Schema Float) (id : PageId)
      → has (page_nodes s.pages) id ≡ true
      → has (nodes s) id ≡ true
  unfolding nodes
  in_nodes s id h = ground (arith, has-append (page_nodes s.pages) (rule_nodes s.rules) id)

  pub has-nodes :
      (ps : List Page) (id : PageId) → has (page_ids ps) id ≡ true → has (page_nodes ps) id ≡ true
  unfolding has page_nodes
  has-nodes [] id h = absurd (cc)
  has-nodes (p ∷ rest) id h = ground (arith, has-nodes rest id)

  local_clean :
      (s : Schema Float) (ids : List PageId) (homes : Homes) (placing : List Issue)
      → has_errors (local_issues fl s ids homes placing) ≡ false
      → (has_errors placing ≡ false) × (has_errors (rules_issues s s.rules ids) ≡ false)
  unfolding local_issues
  local_clean s ids homes placing h =
      let h1 = no_errors_right (limit_issues s) _ h in
      let h2 = no_errors_right placing _ h1 in
      (no_errors_left placing _ h1, no_errors_right (field_issues fl s.fields homes) _ h2)

  validate-Accepted :
      (s : Schema Float) (ps : List Page) (res : ValidationResult)
      → All (λ p. has (page_ids s.pages) p.id ≡ true) ps
      → validate_pages fl s ps ≡ some res
      → res.ok ≡ true
      → Accepted s ps
  unfolding validate_pages
  validate-Accepted s [] res mine q accepted = absurd (ground arith)
  validate-Accepted s (p ∷ rest) res mine q accepted =
      let (ids, homes, placing) = place_pages s s.pages [] [] in
      let u : has (nodes s) p.id ≡ true = in_nodes s p.id (has-nodes s.pages p.id mine.0) in
      let (good, clean) =
        conclude_accepted s p.id homes (local_issues fl s ids homes placing) res u q accepted in
      let (placed, ruled) = local_clean s ids homes placing good in
      let known = own_ids s.pages in
      (
        record {
          pages_fit = place_pages_clean s s.pages [] [] tt known placed;
          rules_defined =
              rules_clean s ids (place_pages-ids s s.pages [] [] tt known) s.rules ruled;
        },
        clean,
      )

  start-Accepted :
      (s : Schema Float) (answers : Answers fl) (ps : List Page) (e : Error)
      → All (λ p. has (page_ids s.pages) p.id ≡ true) ps
      → Accepted s ps
      → start fl s answers ps ≡ err e
      → e ≢ navigation_exceeded
      → BadBetween s.rules e
  unfolding start
  start-Accepted s answers [] e mine a q x = absurd a
  start-Accepted s answers (p ∷ rest) e mine (k, (reachable, clean)) q x =
      only_between s e
        (Ensures-err (λ _. Unit {0}) (MayFail s) _ {e = e}
          (walk-MayFail s answers (suc (length s.pages)) p.id k mine.0) q)
        (Ensures-err (StaysIn fl reachable) (NoCycle fl) _ {e = e}
          (walk-NoCycle fl s answers p.id reachable (suc (length s.pages)) clean) q)
        x

  -- If Validate accepts a draft, then on any answers Evaluate gives a result, unless it meets a
  -- rule whose `between` compares with a value that is not a list of two: there is no cycle, no
  -- missing page or field, no unknown action or operator, and never too many pages.
  pub validate-evaluate :
      (s : Schema Float) (res : ValidationResult) (answers : Answers fl)
      → validate fl s ≡ some res
      → res.ok ≡ true
      → Fails (BadBetween s.rules) (evaluate fl s answers)
  unfolding validate evaluate
  validate-evaluate s res answers q accepted =
      Fails-intro (BadBetween s.rules) (evaluate fl s answers) (λ e run.
        start-Accepted s answers s.pages e (own_ids s.pages)
          (validate-Accepted s s.pages res (own_ids s.pages) q accepted) run
          (Ensures-err (IsPath fl s) (λ e. e ≢ navigation_exceeded) (evaluate fl s answers) {e = e}
            (evaluate-IsPath fl s answers) run))
