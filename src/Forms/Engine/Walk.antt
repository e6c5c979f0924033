-- ===== src/Forms/Engine/Walk.antt =====
-- Evaluate of engine.go: the walk from page to page, bounded by its visited set.
use collectr.Prelude.{
  ℕ, zero, suc, Bool, true, false, none, some, List, [], ◌∷◌, ◌++◌, ◌==◌, if◌then◌else◌, length,
  has, Result, ok, err, ◌>>=◌,
}
use collectr.Forms.Schema.{FieldId, PageId, Page, Rule, Schema, page}
use collectr.Forms.Engine.Conditions.{
  Floats, Error, page_not_defined, navigation_cycle, navigation_exceeded,
}
use collectr.Forms.Engine.Pages.{Answers, PageResult, update, eval_page}

-- The `Result` of engine.go.
pub record Evaluation : Type 0 where
  pub visible : List FieldId
  pub required : List FieldId
  pub path : List PageId

abbrev pub no_pages : Evaluation
no_pages = record { visible = []; required = []; path = [] }

-- Result.IsVisible
unfoldable pub is_visible : Evaluation → FieldId → Bool
unfolding has
is_visible r id = has r.visible id

unfoldable pub extend : Evaluation → PageId → PageResult → Evaluation
extend res id r = record {
  visible = res.visible ++ r.visible;
  required = res.required ++ r.required;
  path = res.path ++ id ∷ [];
}

module _ {F : Type 0} where
  -- `byPage[r.OnPage] = append(byPage[r.OnPage], r)` for each rule
  unfoldable pub group_rules : List (Rule F) → (PageId → List (Rule F)) → PageId → List (Rule F)
  group_rules [] groups = groups
  group_rules (r ∷ rest) groups =
      group_rules rest (update groups r.on_page (groups r.on_page ++ r ∷ []))

  unfoldable pub by_page : Schema F → PageId → List (Rule F)
  unfolding group_rules
  by_page s = group_rules s.rules (λ _. [])

module _ (fl : Floats) where
  open fl use {Float}

  -- The body of the loop, before `next` is read.
  unfoldable pub visit_page :
      Schema Float → Answers fl → PageId → List PageId → Result Error PageResult
  unfolding page has by_page
  visit_page s answers current seen = elim (page s current) [
    | none ↦ err (page_not_defined current)
    | some p ↦
        if has seen current
        then err (navigation_cycle current)
        else eval_page fl s p (by_page s current) answers
  ]

  -- `for range len(s.Pages) + 1`: the first argument is the rounds that are left.
  unfoldable pub walk :
      Schema Float → Answers fl → ℕ → PageId → List PageId → Evaluation → Result Error Evaluation
  unfolding visit_page extend
  walk s answers zero current seen res = err navigation_exceeded
  walk s answers (suc rounds) current seen res = do
    r ← visit_page s answers current seen
    elim (r.next == "") [
      | true ↦ ok (extend res current r)
      | false ↦ walk s answers rounds r.next (current ∷ seen) (extend res current r)
    ]

  unfoldable pub start : Schema Float → Answers fl → List Page → Result Error Evaluation
  unfolding walk
  start s answers [] = ok no_pages
  start s answers (p ∷ _) = walk s answers (suc (length s.pages)) p.id [] no_pages

  unfoldable pub evaluate : Schema Float → Answers fl → Result Error Evaluation
  unfolding start
  evaluate s answers = start s answers s.pages
