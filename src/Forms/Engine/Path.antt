-- ===== src/Forms/Engine/Path.antt =====
-- The path of a walk: it ends, it repeats no page, and it stays on the form's pages.
use collectr.Prelude.{
  ℕ, suc, ◌<◌, ◌≡◌, ◌≢◌, refl, String, Bool, true, false, some, List, [], ◌∷◌, ◌++◌, arith,
  Bool-cases, Option-cases, inl, inr, length, has, has-append, distinct, missing, missing_none,
  missing-cons_lt, distinct-snoc, Fails-eq, All-append, Ensures, ok, err, ap, ◌∙◌, All, Fails,
}
use collectr.Forms.Schema.{FieldId, PageId, Page, Rule, Schema, Field, Action, find_page}
use collectr.Forms.Engine.Conditions.{
  Floats, Error, page_not_defined, navigation_cycle, navigation_exceeded,
}
use collectr.Forms.Engine.Pages.{Answers, PageResult, eval_page}
use collectr.Forms.Engine.Errors.{FieldFits, ActionFits, RuleFits, eval_page-Fails}
use collectr.Forms.Engine.Loop.{walk_inv}
use collectr.Forms.Engine.Walk.{start, Evaluation, extend, by_page, visit_page, evaluate, no_pages}

abbrev pub page_ids : List Page → List PageId
page_ids [] = []
page_ids (p ∷ ps) = p.id ∷ page_ids ps

pub find_page-has :
    (ps : List Page) (id : PageId) (p : Page)
    → find_page ps id ≡ some p
    → has (page_ids ps) id ≡ true
unfolding find_page has
find_page-has [] id p h = cc
find_page-has (q ∷ ps) id p h = ground (arith, find_page-has ps id p)

length-page_ids : (ps : List Page) → length (page_ids ps) ≡ length ps
length-page_ids [] = refl
length-page_ids (p ∷ ps) = ap suc (length-page_ids ps)

same-snoc :
    (path seen : List String) (c k : String)
    → has path k ≡ has seen k
    → has (path ++ c ∷ []) k ≡ has (c ∷ seen) k
unfolding has
same-snoc path seen c k h = ground (arith, has-append path (c ∷ []) k)

-- The errors of one page, as opposed to those of the walk.
abbrev pub of_page : Error → Bool
of_page (page_not_defined _) = false
of_page (navigation_cycle _) = false
of_page navigation_exceeded = false
of_page _ = true

FieldFits-of_page :
    (pid : PageId) (fields : List (FieldId × Field)) (fs : List FieldId)
    → All (FieldFits (λ e. of_page e ≡ true) pid fields) fs
FieldFits-of_page pid fields [] = tt
FieldFits-of_page pid fields (f ∷ fs) = ((λ _. refl), FieldFits-of_page pid fields fs)

ActionFits-of_page :
    (id : String) (actions : List Action) → All (ActionFits (λ e. of_page e ≡ true) id) actions
ActionFits-of_page id [] = tt
ActionFits-of_page id (a ∷ rest) = ((λ _ _. refl), ActionFits-of_page id rest)

module _ (fl : Floats) where
  open fl use {Float}

  RuleFits-of_page : (rules : List (Rule Float)) → All (RuleFits fl (λ e. of_page e ≡ true)) rules
  RuleFits-of_page [] = tt
  RuleFits-of_page (r ∷ rest) = (
    record {
      op_fits = λ _ _. refl;
      between_fits = λ _ _. refl;
      then_fits = ActionFits-of_page r.id r.then_actions;
      else_fits = ActionFits-of_page r.id r.else_actions;
    },
    RuleFits-of_page rest,
  )

  pub eval_page-of_page :
      (s : Schema Float) (p : Page) (rules : List (Rule Float)) (answers : Answers fl)
      → Fails (λ e. of_page e ≡ true) (eval_page fl s p rules answers)
  eval_page-of_page s p rules answers =
      eval_page-Fails fl (λ e. of_page e ≡ true) s p rules answers
        (FieldFits-of_page p.id s.fields p.fields) (RuleFits-of_page rules)

  -- What a visit has checked when it succeeds.
  pub visit_page_ok :
      (s : Schema Float) (answers : Answers fl) (current : PageId) (seen : List PageId)
      (r : PageResult)
      → visit_page fl s answers current seen ≡ ok r
      → (has (page_ids s.pages) current ≡ true) × (has seen current ≡ false)
  unfolding visit_page
  visit_page_ok s answers current seen r h = elim (Option-cases (find_page s.pages current)) [
    | inl q ↦ absurd (ground (arith, q))
    | inr (p, q) ↦ ground (arith, find_page-has s.pages current p)
  ]

  visit_page-ne-exceeded :
      (s : Schema Float) (answers : Answers fl) (current : PageId) (seen : List PageId) (e : Error)
      → visit_page fl s answers current seen ≡ err e
      → e ≢ navigation_exceeded
  unfolding visit_page
  visit_page-ne-exceeded s answers current seen e h x =
      elim (Option-cases (find_page s.pages current)) [
        | inl q ↦ ground (arith, q)
        | inr (p, q) ↦ elim (Bool-cases (has seen current)) [
          | inl b ↦ ground arith
          | inr b ↦ ground (
            arith,
            Fails-eq (λ e. of_page e ≡ true) _ {e = e}
                (eval_page-of_page s p (by_page s current) answers),
          )
        ]
      ]

  record PathInv (s : Schema Float) (n : ℕ) (seen : List PageId) (res : Evaluation) : Type 0 where
    bounded : missing (page_ids s.pages) seen < n
    same : (k : PageId) → has res.path k ≡ has seen k
    no_repeat : distinct res.path ≡ true
    on_form : All (λ id. has (page_ids s.pages) id ≡ true) res.path

  pub IsPath : Schema Float → Evaluation → Type 0
  IsPath s res = (distinct res.path ≡ true) × All (λ id. has (page_ids s.pages) id ≡ true) res.path

  visit-PathInv :
      (s : Schema Float) (answers : Answers fl) (n : ℕ) (c : PageId) (seen : List PageId)
      (res : Evaluation) (r : PageResult)
      → PathInv s (suc n) seen res
      → visit_page fl s answers c seen ≡ ok r
      → PathInv s n (c ∷ seen) (extend res c r)
  unfolding extend has
  visit-PathInv s answers n c seen res r i q =
      let v = visit_page_ok s answers c seen r q in
      record {
        bounded = omega (arith, i.bounded, missing-cons_lt (page_ids s.pages) seen c v.0 v.1);
        same = λ k. same-snoc res.path seen c k (i.same k);
        no_repeat = distinct-snoc res.path c i.no_repeat (i.same c ∙ v.1);
        on_form = All-append _ res.path (c ∷ []) i.on_form (v.0, tt);
      }

  start-PathInv : (s : Schema Float) → PathInv s (suc (length s.pages)) [] no_pages
  unfolding has
  start-PathInv s = record {
    bounded = omega (arith, missing_none (page_ids s.pages), length-page_ids s.pages);
    same = λ k. refl;
    no_repeat = refl;
    on_form = tt;
  }

  start-IsPath :
      (s : Schema Float) (answers : Answers fl) (ps : List Page)
      → Ensures (IsPath s) (λ e. e ≢ navigation_exceeded) (start fl s answers ps)
  unfolding start IsPath
  start-IsPath s answers [] = (refl, tt)
  start-IsPath s answers (p ∷ _) =
      walk_inv fl s answers (λ n c seen res. PathInv s n seen res) (λ e. e ≢ navigation_exceeded)
        (IsPath s) (λ c seen res i. absurd (omega (arith, i.bounded)))
        (λ n c seen res e i q. visit_page-ne-exceeded s answers c seen e q)
        (λ n c seen res r i q t.
          let j = visit-PathInv s answers n c seen res r i q in (j.no_repeat, j.on_form))
        (λ n c seen res r i q f. visit-PathInv s answers n c seen res r i q) (suc (length s.pages))
        p.id [] no_pages (start-PathInv s)

  -- Every evaluation ends within its rounds: the error "navigation exceeded" is never returned.
  -- The path of one that succeeds visits no page twice, and only pages of the form.
  pub evaluate-IsPath :
      (s : Schema Float) (answers : Answers fl)
      → Ensures (IsPath s) (λ e. e ≢ navigation_exceeded) (evaluate fl s answers)
  unfolding evaluate
  evaluate-IsPath s answers = start-IsPath s answers s.pages

module _ (fl : Floats) where
  -- A visit reports a cycle only at a page that was visited before.
  pub visit_page_cycle :
      (s : Schema fl.Float) (answers : Answers fl) (current : PageId) (seen : List PageId)
      (x : PageId)
      → visit_page fl s answers current seen ≡ err (navigation_cycle x)
      → has seen current ≡ true
  unfolding visit_page
  visit_page_cycle s answers current seen x h = elim (Option-cases (find_page s.pages current)) [
    | inl q ↦ absurd (ground (arith, q))
    | inr (p, q) ↦ elim (Bool-cases (has seen current)) [
      | inl b ↦ b
      | inr b ↦ ground (
        arith,
        Fails-eq (λ e. of_page e ≡ true) _ {e = navigation_cycle x}
            (eval_page-of_page fl s p (by_page s current) answers),
      )
    ]
  ]
