-- ===== src/Forms/Safety/Groups.antt =====
-- The rules that Evaluate groups by page: what holds of every rule on its own page holds of a group.
use collectr.Prelude.{
  ◌≡◌, refl, sym, ◌∙◌, subst, List, [], ◌∷◌, ◌++◌, ◌==◌, eq_iff, if◌then◌else◌, Bool-cases, inl,
  inr, All, All-append,
}
use mathlib.Core.List.{append-nil, append_assoc}
use collectr.Forms.Schema.{PageId, Rule, Schema}
use collectr.Forms.Engine.Pages.{update}
use collectr.Forms.Engine.Walk.{group_rules, by_page}

module _ {F : Type 0} where
  group_rules-All :
      (P : PageId → Rule F → Type 0) (rules : List (Rule F)) (groups : PageId → List (Rule F))
      → All (λ r. P r.on_page r) rules
      → ((k : PageId) → All (P k) (groups k))
      → (c : PageId) → All (P c) (group_rules rules groups c)
  unfolding group_rules
  group_rules-All P [] groups h g c = g c
  group_rules-All P (r ∷ rest) groups h g c =
      group_rules-All P rest (update groups r.on_page (groups r.on_page ++ r ∷ [])) h.1
        (λ k. elim (Bool-cases (r.on_page == k)) [
          | inl t ↦ rw t (
              subst (λ j. All (P j) (groups r.on_page ++ r ∷ [])) ((eq_iff r.on_page k).0 t)
                (All-append (P r.on_page) (groups r.on_page) (r ∷ []) (g r.on_page) (h.0, tt)))
          | inr f ↦ rw f (g k)
        ])
        c

  pub by_page-All :
      (P : PageId → Rule F → Type 0) (s : Schema F)
      → All (λ r. P r.on_page r) s.rules
      → (c : PageId) → All (P c) (by_page s c)
  unfolding by_page
  by_page-All P s h c = group_rules-All P s.rules (λ _. []) h (λ _. tt) c

  -- The rules of one page, in declaration order.
  pub on_the_page : List (Rule F) → PageId → List (Rule F)
  on_the_page [] c = []
  on_the_page (r ∷ rest) c =
      let later = on_the_page rest c in if r.on_page == c then r ∷ later else later

  group_rules-eq :
      (rules : List (Rule F)) (groups : PageId → List (Rule F)) (c : PageId)
      → group_rules rules groups c ≡ groups c ++ on_the_page rules c
  unfolding group_rules on_the_page
  group_rules-eq [] groups c = sym (append-nil (groups c))
  group_rules-eq (r ∷ rest) groups c =
      group_rules-eq rest (update groups r.on_page (groups r.on_page ++ r ∷ [])) c
      ∙ elim (Bool-cases (r.on_page == c)) [
        | inl t ↦ rw t (
            subst
              (λ k. (groups k ++ r ∷ []) ++ on_the_page rest c ≡ groups c ++ r ∷ on_the_page rest c)
              (sym ((eq_iff r.on_page c).0 t))
              (append_assoc (groups c) (r ∷ []) (on_the_page rest c)))
        | inr f ↦ rw f refl
      ]

  -- Grouping once gives each page the rules that a scan for that page would find, in order.
  pub by_page-eq-scan : (s : Schema F) (c : PageId) → by_page s c ≡ on_the_page s.rules c
  unfolding by_page
  by_page-eq-scan s c = group_rules-eq s.rules (λ _. []) c
