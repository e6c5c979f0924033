-- ===== src/Forms/Engine/Loop.antt =====
-- The invariant rule of the loop of `Evaluate`.
use collectr.Prelude.{
  ℕ, zero, suc, ◌≡◌, true, false, List, ◌∷◌, inl, inr, Bool-cases, ◌==◌, ok, err, Ensures,
  Ensures-bind,
}
use collectr.Forms.Schema.{PageId, Schema}
use collectr.Forms.Engine.Conditions.{Floats, Error, navigation_exceeded}
use collectr.Forms.Engine.Pages.{Answers, PageResult}
use collectr.Forms.Engine.Walk.{Evaluation, extend, visit_page, walk}

module _ (fl : Floats) (s : Schema fl.Float) (answers : Answers fl)
    (I : ℕ → PageId → List PageId → Evaluation → Type 0) (P : Error → Type 0)
    (Q : Evaluation → Type 0)
    (exhausted : (c : PageId) (seen : List PageId) (res : Evaluation)
      → I 0 c seen res
      → P navigation_exceeded)
    (fails : (n : ℕ) (c : PageId) (seen : List PageId) (res : Evaluation) (e : Error)
      → I (suc n) c seen res
      → visit_page fl s answers c seen ≡ err e
      → P e)
    (stops : (n : ℕ) (c : PageId) (seen : List PageId) (res : Evaluation) (r : PageResult)
      → I (suc n) c seen res
      → visit_page fl s answers c seen ≡ ok r
      → (r.next == "") ≡ true
      → Q (extend res c r))
    (goes : (n : ℕ) (c : PageId) (seen : List PageId) (res : Evaluation) (r : PageResult)
      → I (suc n) c seen res
      → visit_page fl s answers c seen ≡ ok r
      → (r.next == "") ≡ false
      → I n r.next (c ∷ seen) (extend res c r)) where
  pub walk_inv :
      (n : ℕ) (c : PageId) (seen : List PageId) (res : Evaluation)
      → I n c seen res
      → Ensures Q P (walk fl s answers n c seen res)
  unfolding walk
  walk_inv zero c seen res i = exhausted c seen res i
  walk_inv (suc n) c seen res i =
      Ensures-bind Q P (visit_page fl s answers c seen) _ (λ e q. fails n c seen res e i q)
        (λ r q. elim (Bool-cases (r.next == "")) [
          | inl t ↦ rw (t, Ensures) (stops n c seen res r i q t)
          | inr f ↦
              rw (f, Ensures)
                (walk_inv n r.next (c ∷ seen) (extend res c r) (goes n c seen res r i q f))
        ])
