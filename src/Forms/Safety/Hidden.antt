-- ===== src/Forms/Safety/Hidden.antt =====
-- What `everShown` of internal/modules/forms/domain/validate.go tells of a hidden field.
use collectr.Prelude.{
  suc, ◌≡◌, refl, sym, ◌∙◌, subst, String, true, false, ◌&&◌, ◌||◌, some, List, [], ◌∷◌, ◌++◌, ◌==◌,
  if◌then◌else◌, arith, eq_iff, Bool-cases, Option-cases, inl, inr, has, has-append, lookup, All,
  ok, ◌>>=◌, map_err, Returns, Returns-bind, Returns-eq, Ensures, Ensures-ok, length,
}
use mathlib.Core.Option.{some-injective}
use collectr.Forms.Schema.{
  FieldId, PageId, Field, Page, Schema, Rule, Action, ActionKind, show, hide, require, optional,
  goto, end, unknown,
}
use collectr.Forms.Engine.Conditions.{Floats, in_rule, eval_condition}
use collectr.Forms.Engine.Pages.{
  Answers, PageState, PageResult, blank_state, field_of, declare, declare_fields, perform,
  perform_all, run_rule, run_rules, shown_fields, eval_page,
}
use collectr.Forms.Engine.Walk.{Evaluation, by_page, extend, visit_page, start, evaluate, no_pages}
use collectr.Forms.Engine.Loop.{walk_inv}
use collectr.Forms.Engine.Shown.{result_of, visit_page-page}
use collectr.Forms.Validate.Rules.{show_of, shows, ever_shown, ever_shown_by}
use collectr.Forms.Safety.Groups.{by_page-All}

abbrev IsOff : FieldId → PageState → Type 0
IsOff k st = st.shown k ≡ false

perform-IsOff :
    (k : FieldId) (id : String) (kind : ActionKind) (target : String) (st : PageState)
    → (show_of kind && target == k) ≡ false
    → IsOff k st
    → Returns (IsOff k) (perform id kind target st)
unfolding perform show_of
perform-IsOff k id show target st n h = ground (arith, n, h)
perform-IsOff k id hide target st n h = ground (arith, h)
perform-IsOff k id require target st n h = h
perform-IsOff k id optional target st n h = h
perform-IsOff k id goto target st n h = h
perform-IsOff k id end target st n h = h
perform-IsOff k id (unknown a) target st n h = tt

perform_all-IsOff :
    (k : FieldId) (id : String) (actions : List Action) (st : PageState)
    → shows actions k ≡ false
    → IsOff k st
    → Returns (IsOff k) (perform_all id actions st)
unfolding perform_all shows
perform_all-IsOff k id [] st n h = h
perform_all-IsOff k id (a ∷ rest) st n h =
    Returns-bind (IsOff k) (perform id a.action a.target st) (perform_all id rest) (λ st' q.
      perform_all-IsOff k id rest st' (ground (arith, n)) (
        Returns-eq (IsOff k) (perform id a.action a.target st)
          (perform-IsOff k id a.action a.target st (ground (arith, n)) h) q))

shows-append : (xs ys : List Action) (k : FieldId) → shows (xs ++ ys) k ≡ (shows xs k || shows ys k)
unfolding shows
shows-append [] ys k = refl
shows-append (x ∷ xs) ys k = ground (arith, shows-append xs ys k)

field_of-some :
    (pid : PageId) (fields : List (FieldId × Field)) (x : FieldId) (g : Field)
    → field_of pid fields x ≡ ok g
    → lookup x fields ≡ some g
unfolding field_of
field_of-some pid fields x g h = elim (Option-cases (lookup x fields)) [
  | inl q ↦ absurd (ground (arith, h, q))
  | inr (f, q) ↦ ground (arith, h, q)
]

declare-IsOff :
    (k : FieldId) (f g : Field) (fields : List (FieldId × Field)) (x : FieldId) (st : PageState)
    → lookup k fields ≡ some f
    → f.hidden ≡ true
    → lookup x fields ≡ some g
    → IsOff k st
    → IsOff k (declare x g st)
declare-IsOff k f g fields x st q hid e h = elim (Bool-cases (x == k)) [
  | inl t ↦
      let same : x ≡ k = (eq_iff x k).0 t in
      let found : lookup k fields ≡ some g = subst (λ z. lookup z fields ≡ some g) same e in
      let eq : f ≡ g = some-injective f g (sym q ∙ found) in
      let off : g.hidden ≡ true = subst (λ z. z.hidden ≡ true) eq hid in rw (t, off) refl
  | inr n ↦ rw n h
]

declare_fields-IsOff :
    (k : FieldId) (f : Field) (pid : PageId) (fields : List (FieldId × Field)) (fs : List FieldId)
    (st : PageState)
    → lookup k fields ≡ some f
    → f.hidden ≡ true
    → IsOff k st
    → Returns (IsOff k) (declare_fields pid fields fs st)
unfolding declare_fields
declare_fields-IsOff k f pid fields [] st q hid h = h
declare_fields-IsOff k f pid fields (x ∷ rest) st q hid h =
    Returns-bind (IsOff k) (field_of pid fields x)
      (λ g. declare_fields pid fields rest (declare x g st))
      (λ g e.
        declare_fields-IsOff k f pid fields rest (declare x g st) q hid
          (declare-IsOff k f g fields x st q hid (field_of-some pid fields x g e) h))

shown_fields-off :
    (k : FieldId) (st : PageState) (fs : List FieldId)
    → IsOff k st
    → has (shown_fields st fs) k ≡ false
unfolding shown_fields has
shown_fields-off k st [] h = refl
shown_fields-off k st (x ∷ xs) h = elim (Bool-cases (st.shown x)) [
  | inl t ↦ rw t (ground (arith, t, h, eq_iff x k, shown_fields-off k st xs h))
  | inr n ↦ rw n (shown_fields-off k st xs h)
]

module _ (fl : Floats) where
  open fl use {Float}

  -- No action of the rule shows the field.
  abbrev Silent : FieldId → Rule Float → Type 0
  Silent k r = shows (r.then_actions ++ r.else_actions) k ≡ false

  run_rule-IsOff :
      (k : FieldId) (r : Rule Float) (answers : Answers fl) (st : PageState)
      → Silent k r
      → IsOff k st
      → Returns (IsOff k) (run_rule fl r answers st)
  unfolding run_rule
  run_rule-IsOff k r answers st n h =
      Returns-bind (IsOff k) (map_err (in_rule r.id) (eval_condition fl r.when answers))
        (λ b. perform_all r.id (if b then r.then_actions else r.else_actions) st)
        (λ b _.
          perform_all-IsOff k r.id (if b then r.then_actions else r.else_actions) st
            (ground (arith, n, shows-append r.then_actions r.else_actions k)) h)

  run_rules-IsOff :
      (k : FieldId) (rules : List (Rule Float)) (answers : Answers fl) (st : PageState)
      → All (Silent k) rules
      → IsOff k st
      → Returns (IsOff k) (run_rules fl rules answers st)
  unfolding run_rules
  run_rules-IsOff k [] answers st n h = h
  run_rules-IsOff k (r ∷ rest) answers st n h =
      Returns-bind (IsOff k) (run_rule fl r answers st) (run_rules fl rest answers) (λ st' q.
        run_rules-IsOff k rest answers st' n.1
          (Returns-eq (IsOff k) (run_rule fl r answers st) (run_rule-IsOff k r answers st n.0 h) q))

  -- The page does not show the field.
  abbrev IsUnseen : FieldId → PageResult → Type 0
  IsUnseen k r = has r.visible k ≡ false

  eval_page-IsUnseen :
      (k : FieldId) (f : Field) (s : Schema Float) (p : Page) (rules : List (Rule Float))
      (answers : Answers fl)
      → lookup k s.fields ≡ some f
      → f.hidden ≡ true
      → All (Silent k) rules
      → Returns (IsUnseen k) (eval_page fl s p rules answers)
  unfolding eval_page result_of
  eval_page-IsUnseen k f s p rules answers q hid n =
      let declared = declare_fields p.id s.fields p.fields blank_state in
      Returns-bind (IsUnseen k) declared
        (λ d. run_rules fl rules answers d >>= λ st. ok (result_of s p st))
        (λ d e.
          Returns-bind (IsUnseen k) (run_rules fl rules answers d) (λ st. ok (result_of s p st))
            (λ st e'.
              let off =
                Returns-eq (IsOff k) declared
                  (declare_fields-IsOff k f p.id s.fields p.fields blank_state q hid refl) e in
              shown_fields-off k st p.fields (
                Returns-eq (IsOff k) (run_rules fl rules answers d)
                  (run_rules-IsOff k rules answers d n off) e')))

  All-Silent :
      (k : FieldId) (rules : List (Rule Float))
      → ever_shown_by rules k ≡ false
      → All (Silent k) rules
  unfolding ever_shown_by
  All-Silent k [] h = tt
  All-Silent k (r ∷ rest) h = (ground (arith, h), All-Silent k rest (ground (arith, h)))

  abbrev Unseen : FieldId → Evaluation → Type 0
  Unseen k res = has res.visible k ≡ false

  extend-Unseen :
      (k : FieldId) (f : Field) (s : Schema Float) (answers : Answers fl) (c : PageId)
      (seen : List PageId) (res : Evaluation) (r : PageResult)
      → lookup k s.fields ≡ some f
      → f.hidden ≡ true
      → All (Silent k) s.rules
      → Unseen k res
      → visit_page fl s answers c seen ≡ ok r
      → Unseen k (extend res c r)
  unfolding extend
  extend-Unseen k f s answers c seen res r q hid n i v =
      let (p, found, e) = visit_page-page fl s answers c seen r v in
      let rules = by_page s c in
      let unseen =
        Returns-eq (IsUnseen k) (eval_page fl s p rules answers)
          (eval_page-IsUnseen k f s p rules answers q hid (by_page-All (λ _ r'. Silent k r') s n c))
          e in
      ground (arith, has-append res.visible r.visible k, i, unseen)

  start-Unseen :
      (k : FieldId) (f : Field) (s : Schema Float) (answers : Answers fl) (ps : List Page)
      → lookup k s.fields ≡ some f
      → f.hidden ≡ true
      → All (Silent k) s.rules
      → Ensures (Unseen k) (λ e. Unit) (start fl s answers ps)
  unfolding start has
  start-Unseen k f s answers [] q hid n = refl
  start-Unseen k f s answers (p ∷ _) q hid n =
      walk_inv fl s answers (λ _ c seen res. Unseen k res) (λ e. Unit) (Unseen k)
        (λ c seen res i. tt) (λ m c seen res e i v. tt)
        (λ m c seen res r i v t. extend-Unseen k f s answers c seen res r q hid n i v)
        (λ m c seen res r i v t. extend-Unseen k f s answers c seen res r q hid n i v)
        (suc (length s.pages)) p.id [] no_pages refl

  -- A field that is declared hidden and that no action shows, by everShown, is shown to no one: where
  -- Evaluate succeeds, on whatever answers, it is not among the visible fields.
  pub hidden-ever_shown :
      (s : Schema Float) (answers : Answers fl) (k : FieldId) (f : Field) (res : Evaluation)
      → lookup k s.fields ≡ some f
      → f.hidden ≡ true
      → ever_shown s k ≡ false
      → evaluate fl s answers ≡ ok res
      → has res.visible k ≡ false
  unfolding evaluate ever_shown
  hidden-ever_shown s answers k f res q hid n e =
      Ensures-ok (Unseen k) (λ e. Unit) (start fl s answers s.pages)
        (start-Unseen k f s answers s.pages q hid (All-Silent k s.rules n)) e
