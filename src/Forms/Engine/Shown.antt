-- ===== src/Forms/Engine/Shown.antt =====
-- What Evaluate of internal/modules/forms/engine/engine.go shows: fields of the pages on the path,
-- and requires only of those.
use collectr.Prelude.{
  suc, ◌≡◌, sym, subst, Bool, true, false, ◌&&◌, ◌||◌, some, List, [], ◌∷◌, ◌++◌, ◌==◌, arith,
  eq_iff, eq_refl, Bool-cases, Option-cases, inl, inr, has, has-append, All, All-map, All-append,
  ok, ◌>>=◌, Returns, Returns-bind, Returns-eq, Ensures, Ensures-ok, length,
}
use collectr.Forms.Schema.{FieldId, PageId, Page, Schema, Rule, page, find_page}
use collectr.Forms.Engine.Conditions.{Floats}
use collectr.Forms.Engine.Pages.{
  Answers, PageState, PageResult, blank_state, declare_fields, run_rules, shown_fields,
  required_fields, next_page, eval_page,
}
use collectr.Forms.Engine.Walk.{Evaluation, by_page, extend, visit_page, start, evaluate, no_pages}
use collectr.Forms.Engine.Loop.{walk_inv}

-- Some page of the form that is on the path lists the field.
pub listed : List Page → List PageId → FieldId → Bool
listed [] path k = false
listed (p ∷ ps) path k = has path p.id && has p.fields k || listed ps path k

shown_listed :
    (st : PageState) (fs : List FieldId) → All (λ k. has fs k ≡ true) (shown_fields st fs)
unfolding shown_fields has
shown_listed st [] = tt
shown_listed st (f ∷ fs) =
    let later =
      All-map (λ k. has fs k ≡ true) (λ k. has (f ∷ fs) k ≡ true) (shown_fields st fs)
        (λ k h. ground (arith, h)) (shown_listed st fs) in
    elim (Bool-cases (st.shown f)) [
      | inl t ↦ rw t (ground (arith, eq_refl f), later)
      | inr n ↦ rw n later
    ]

required_shown :
    (st : PageState) (fs : List FieldId)
    → All (λ k. has (shown_fields st fs) k ≡ true) (required_fields st fs)
unfolding shown_fields required_fields has
required_shown st [] = tt
required_shown st (f ∷ fs) = elim (Bool-cases (st.shown f)) [
  | inl t ↦
      let later =
        All-map (λ k. has (shown_fields st fs) k ≡ true)
          (λ k. has (f ∷ shown_fields st fs) k ≡ true) (required_fields st fs)
          (λ k h. ground (arith, h)) (required_shown st fs) in
      elim (Bool-cases (st.must f)) [
        | inl m ↦ rw (t, m) (ground (arith, eq_refl f), later)
        | inr m ↦ rw (t, m) later
      ]
  | inr n ↦ rw n (required_shown st fs)
]

abbrev PageShown : List FieldId → PageResult → Type 0
PageShown fs r = All (λ k. has r.visible k ≡ true) r.required × All (λ k. has fs k ≡ true) r.visible

unfoldable pub result_of : {F : Type 0} → Schema F → Page → PageState → PageResult
unfolding shown_fields required_fields next_page
result_of s p st = record {
  visible = shown_fields st p.fields;
  required = required_fields st p.fields;
  next = next_page s p.id st;
}

listed_longer :
    (ps : List Page) (path : List PageId) (c : PageId) (k : FieldId)
    → listed ps path k ≡ true
    → listed ps (path ++ c ∷ []) k ≡ true
unfolding listed has
listed_longer [] path c k h = h
listed_longer (p ∷ ps) path c k h =
    ground (arith, h, has-append path (c ∷ []) p.id, listed_longer ps path c k)

listed_here :
    (ps : List Page) (path : List PageId) (c : PageId) (p : Page) (k : FieldId)
    → find_page ps c ≡ some p
    → has p.fields k ≡ true
    → listed ps (path ++ c ∷ []) k ≡ true
unfolding listed find_page has
listed_here [] path c p k q h = absurd (ground (arith, q))
listed_here (x ∷ ps) path c p k q h = elim (Bool-cases (x.id == c)) [
  | inl t ↦
      let same : x ≡ p = ground (arith, q, t) in
      let there : has x.fields k ≡ true = subst (λ y. has y.fields k ≡ true) (sym same) h in
      ground (arith, there, t, has-append path (c ∷ []) x.id, eq_iff x.id c, eq_iff c x.id)
  | inr f ↦ ground (arith, listed_here ps path c p k (ground (arith, q, f)) h)
]

module _ (fl : Floats) where
  open fl use {Float}

  eval_page-PageShown :
      (s : Schema Float) (p : Page) (rules : List (Rule Float)) (answers : Answers fl)
      → Returns (PageShown p.fields) (eval_page fl s p rules answers)
  unfolding eval_page result_of
  eval_page-PageShown s p rules answers =
      let result = result_of s p in
      Returns-bind (PageShown p.fields) (declare_fields p.id s.fields p.fields blank_state)
        (λ d. run_rules fl rules answers d >>= λ st. ok (result st))
        (λ d _.
          Returns-bind (PageShown p.fields) (run_rules fl rules answers d) (λ st. ok (result st))
            (λ st _. (required_shown st p.fields, shown_listed st p.fields)))

  pub visit_page-page :
      (s : Schema Float) (answers : Answers fl) (c : PageId) (seen : List PageId) (r : PageResult)
      → visit_page fl s answers c seen ≡ ok r
      → (p : Page) × (find_page s.pages c ≡ some p)
        × (eval_page fl s p (by_page s c) answers ≡ ok r)
  unfolding visit_page page
  visit_page-page s answers c seen r h = elim (Option-cases (find_page s.pages c)) [
    | inl q ↦ absurd (ground (arith, h, q))
    | inr (p, q) ↦ elim (Bool-cases (has seen c)) [
      | inl b ↦ absurd (ground (arith, h, q, b))
      | inr b ↦ (p, q, ground (arith, h, q, b))
    ]
  ]

  -- The required fields are shown, and the shown ones stand on a page of the path.
  abbrev pub IsShown : Schema Float → Evaluation → Type 0
  IsShown s res =
      All (λ k. has res.visible k ≡ true) res.required
      × All (λ k. listed s.pages res.path k ≡ true) res.visible

  extend-IsShown :
      (s : Schema Float) (answers : Answers fl) (c : PageId) (seen : List PageId) (res : Evaluation)
      (r : PageResult)
      → IsShown s res
      → visit_page fl s answers c seen ≡ ok r
      → IsShown s (extend res c r)
  unfolding extend
  extend-IsShown s answers c seen res r (req, vis) q =
      let (p, found, e) = visit_page-page s answers c seen r q in
      let (req', vis') =
        Returns-eq (PageShown p.fields) (eval_page fl s p (by_page s c) answers)
          (eval_page-PageShown s p (by_page s c) answers) e in
      let old_required =
        All-map _ (λ k. has (res.visible ++ r.visible) k ≡ true) res.required
          (λ k h. ground (arith, h, has-append res.visible r.visible k)) req in
      let new_required =
        All-map _ (λ k. has (res.visible ++ r.visible) k ≡ true) r.required
          (λ k h. ground (arith, h, has-append res.visible r.visible k)) req' in
      let old_visible =
        All-map _ (λ k. listed s.pages (res.path ++ c ∷ []) k ≡ true) res.visible
          (λ k h. listed_longer s.pages res.path c k h) vis in
      let new_visible =
        All-map _ (λ k. listed s.pages (res.path ++ c ∷ []) k ≡ true) r.visible
          (λ k h. listed_here s.pages res.path c p k found h) vis' in
      (
        All-append _ res.required r.required old_required new_required,
        All-append _ res.visible r.visible old_visible new_visible,
      )

  start-IsShown :
      (s : Schema Float) (answers : Answers fl) (ps : List Page)
      → Ensures (IsShown s) (λ e. Unit) (start fl s answers ps)
  unfolding start
  start-IsShown s answers [] = (tt, tt)
  start-IsShown s answers (p ∷ _) =
      walk_inv fl s answers (λ n c seen res. IsShown s res) (λ e. Unit) (IsShown s)
        (λ c seen res i. tt) (λ n c seen res e i q. tt)
        (λ n c seen res r i q t. extend-IsShown s answers c seen res r i q)
        (λ n c seen res r i q f. extend-IsShown s answers c seen res r i q) (suc (length s.pages))
        p.id [] no_pages (tt, tt)

  -- Where Evaluate succeeds, every field it requires is one that it shows, and every field it shows
  -- is listed by a page of the form that is on the path.
  pub evaluate-IsShown :
      (s : Schema Float) (answers : Answers fl) (res : Evaluation)
      → evaluate fl s answers ≡ ok res
      → IsShown s res
  unfolding evaluate
  evaluate-IsShown s answers res q =
      Ensures-ok (IsShown s) (λ e. Unit) (start fl s answers s.pages)
        (start-IsShown s answers s.pages) q
