-- ===== src/Forms/Validate/Search.antt =====
-- The depth-first search ends, and where it finds no cycle every walk along the edges ends.
use collectr.Prelude.{
  ℕ, zero, suc, ◌≤◌, ◌<◌, ◌≡◌, ◌≢◌, ◌⊎◌, refl, subst, ap, ◌∙◌, Bool, true, false, Option, some,
  List, [], ◌∷◌, ◌==◌, eq_iff, Bool-cases, inl, inr, has, has_head, missing, missing-cons_lt,
  missing-cons_le, arith,
}
use collectr.Forms.Schema.{PageId}
use collectr.Forms.Validate.Graph.{
  Edges, Colour, white, grey, black, Search, enter, blacken, visit_each, finish, visit,
}

-- Every walk from the page along edges to pages with an id comes to an end.
pub data Safe (edges : Edges) : PageId → Type 0 where
  safe :
      (x : PageId) → ((y : PageId) → has (edges x) y ≡ true → y ≢ "" → Safe edges y) → Safe edges x

Colour-cases : (c : Colour) → (c ≡ white) ⊎ ((c ≡ grey) ⊎ (c ≡ black))
Colour-cases white = inl refl
Colour-cases grey = inr (inl refl)
Colour-cases black = inr (inr refl)

abbrev pub was_entered : Colour → Bool
was_entered white = false
was_entered _ = true

module _ (edges : Edges) where
  pub record SearchInv (w : Search) : Type 0 where
    pub entered : (k : PageId) → has w.reachable k ≡ was_entered (w.colour k)
    pub black_safe : (k : PageId) → w.colour k ≡ black → Safe edges k
    pub black_closed :
        (k y : PageId) → w.colour k ≡ black → has (edges k) y ≡ true → has w.reachable y ≡ true

  -- What a part of the search leaves: more is entered, and no page newly on the stack.
  pub record After (universe : List PageId) (w w' : Search) (found : PageId) : Type 0 where
    pub inv : SearchInv w'
    pub fewer : missing universe w'.reachable ≤ missing universe w.reachable
    pub grows : (k : PageId) → has w.reachable k ≡ true → has w'.reachable k ≡ true
    pub greys : found ≡ "" → (k : PageId) → w'.colour k ≡ grey → w.colour k ≡ grey

  -- The pages `next` were explored.
  abbrev pub Explored : Search → PageId → PageId → Type 0
  Explored w' found y = (found ≡ "" → y ≢ "" → Safe edges y) × (has w'.reachable y ≡ true)

  abbrev pub VisitOk : List PageId → Search → PageId → Option (Search × PageId) → Type 0
  VisitOk universe w id r =
      (w' : Search) × (found : PageId) × (r ≡ some (w', found))
      × After universe w w' found
      × Explored w' found id

  abbrev EachOk : List PageId → Search → List PageId → Option (Search × PageId) → Type 0
  EachOk universe w ids r =
      (w' : Search) × (found : PageId) × (r ≡ some (w', found))
      × After universe w w' found
      × (found ≡ "" → (y : PageId) → has ids y ≡ true → Explored w' found y)

  After-refl :
      (universe : List PageId) (w : Search) (found : PageId)
      → SearchInv w
      → After universe w w found
  After-refl universe w found i = record {
    inv = i;
    fewer = omega arith;
    grows = λ k h. h;
    greys = λ _ k h. h;
  }

  After-trans :
      (universe : List PageId) (a b c : Search) (found : PageId)
      → After universe a b ""
      → After universe b c found
      → After universe a c found
  After-trans universe a b c found p q = record {
    inv = q.inv;
    fewer = omega (arith, p.fewer, q.fewer);
    grows = λ k h. q.grows k (p.grows k h);
    greys = λ e k h. p.greys refl k (q.greys e k h);
  }

  enter-SearchInv :
      (id : PageId) (w : Search) → SearchInv w → w.colour id ≡ white → SearchInv (enter id w)
  unfolding has
  enter-SearchInv id w i white_id = record {
    entered = λ k. ground (arith, i.entered k);
    black_safe = λ k h. i.black_safe k (ground (arith, eq_iff id k));
    black_closed = λ k y h e. ground (arith, i.black_closed k y, eq_iff id k);
  }

  -- `id` is finished: what it leads to is safe and entered.
  blacken-SearchInv :
      (id : PageId) (w : Search)
      → SearchInv w
      → has w.reachable id ≡ true
      → ((y : PageId)
          → has (edges id) y ≡ true
          → (y ≢ "" → Safe edges y) × (has w.reachable y ≡ true))
      → SearchInv (blacken id w)
  blacken-SearchInv id w i h done = record {
    entered = λ k. ground (arith, i.entered k, eq_iff id k);
    black_safe = λ k b. elim (Bool-cases (id == k)) [
      | inl q ↦ subst (Safe edges) ((eq_iff id k).0 q) (safe id (λ y e ne. (done y e).0 ne))
      | inr q ↦ i.black_safe k (ground arith)
    ];
    black_closed = λ k y b e. elim (Bool-cases (id == k)) [
      | inl q ↦ (done y (ground (arith, eq_iff id k))).1
      | inr q ↦ i.black_closed k y (ground arith) e
    ];
  }

  module _ (universe : List PageId) where
    -- One page explored with no cycle, then the rest of the list.
    each-After :
        (w w1 : Search) (id : PageId) (rest : List PageId) (r : Option (Search × PageId))
        → After universe w w1 ""
        → (id ≢ "" → Safe edges id)
        → has w1.reachable id ≡ true
        → EachOk universe w1 rest r
        → EachOk universe w (id ∷ rest) r
    unfolding has
    each-After w w1 id rest r a s h (w2, found, q, b, x) = (
      w2,
      found,
      q,
      After-trans universe w w1 w2 found a b,
      λ e y hy. elim (Bool-cases (id == y)) [
        | inl t ↦
            let same = (eq_iff id y).0 t in
            (
              λ _. subst (λ k. k ≢ "" → Safe edges k) same s,
              b.grows y (subst (λ k. has w1.reachable k ≡ true) same h),
            )
        | inr f ↦ x e y (ground arith)
      ],
    )

    -- The step of the loop, on what the visit of its head has left.
    each_step :
        (explore : PageId → Search → Option (Search × PageId)) (w : Search) (id : PageId)
        (rest : List PageId)
        → VisitOk universe w id (explore id w)
        → ((w1 : Search)
            → After universe w w1 ""
            → EachOk universe w1 rest (visit_each explore rest w1))
        → EachOk universe w (id ∷ rest) (visit_each explore (id ∷ rest) w)
    unfolding visit_each
    each_step explore w id rest (w1, found, q, a, (s, h)) rec = elim (Bool-cases (found == "")) [
      | inl t ↦
          let e = (eq_iff found "").0 t in
          let a' = subst (After universe w w1) e a in
          rw (q, visit_each, t)
            (each-After w w1 id rest (visit_each explore rest w1) a' (s e) h (rec w1 a'))
      | inr f ↦
          rw (q, visit_each, f) (w1, found, refl, a, λ e. absurd (ground (arith, eq_iff found "")))
    ]

    visit_each_lem :
        (explore : PageId → Search → Option (Search × PageId)) (bound : ℕ)
        (ih : (id : PageId) (w : Search)
          → SearchInv w
          → has universe id ≡ true
          → missing universe w.reachable < bound
          → VisitOk universe w id (explore id w))
        (ids : List PageId) (w : Search)
        → SearchInv w
        → ((y : PageId) → has ids y ≡ true → has universe y ≡ true)
        → missing universe w.reachable < bound
        → EachOk universe w ids (visit_each explore ids w)
    unfolding visit_each has
    visit_each_lem explore bound ih [] w i u m =
        (w, "", refl, After-refl universe w "" i, λ _ y h. absurd (cc))
    visit_each_lem explore bound ih (id ∷ rest) w i u m =
        each_step explore w id rest (ih id w i (u id (has_head id rest)) m) (λ w1 a.
          visit_each_lem explore bound ih rest w1 a.inv (λ y h. u y (ground arith))
            (omega (arith, a.fewer)))

    After-blacken :
        (w w' : Search) (id : PageId)
        → After universe (enter id w) w' ""
        → SearchInv (blacken id w')
        → After universe w (blacken id w') ""
    unfolding has
    After-blacken w w' id a i = record {
      inv = i;
      fewer = omega (arith, a.fewer, missing-cons_le universe w.reachable id);
      grows = λ k h. a.grows k (ground arith);
      greys = λ e k h. ground (arith, a.greys refl k, eq_iff id k);
    }

    After-enter :
        (w w' : Search) (id found : PageId)
        → found ≢ ""
        → After universe (enter id w) w' found
        → After universe w w' found
    unfolding has
    After-enter w w' id found ne a = record {
      inv = a.inv;
      fewer = omega (arith, a.fewer, missing-cons_le universe w.reachable id);
      grows = λ k h. a.grows k (ground arith);
      greys = λ e. absurd (ne e);
    }

    -- A page with all its edges explored is finished.
    finish_lem :
        (w : Search) (id : PageId) (r : Option (Search × PageId))
        → SearchInv w
        → w.colour id ≡ white
        → EachOk universe (enter id w) (edges id) r
        → VisitOk universe w id (finish id r)
    unfolding finish
    finish_lem w id r i white_id (w', found, q, a, x) = elim (Bool-cases (found == "")) [
      | inl t ↦
          let e = (eq_iff found "").0 t in
          let a' = subst (After universe (enter id w) w') e a in
          let here = a.grows id (has_head id w.reachable) in
          let i' = blacken-SearchInv id w' a.inv here (λ y hy. ((x e y hy).0 e, (x e y hy).1)) in
          rw (q, finish, t)
            (
              blacken id w',
              "",
              refl,
              After-blacken w w' id a' i',
              ((λ _ _. safe id (λ y hy. (x e y hy).0 e)), here),
            )
      | inr f ↦
          let ne : found ≢ "" = λ e. ground (arith, eq_iff found "") in
          rw (q, finish, f)
            (
              w',
              found,
              refl,
              After-enter w w' id found ne a,
              ((λ e. absurd (ne e)), a.grows id (has_head id w.reachable)),
            )
    ]

    module _ (closed : (k y : PageId) → has (edges k) y ≡ true → has universe y ≡ true) where
      -- With more fuel than pages not yet entered, a visit ends, and is as it should be.
      pub visit_lem :
          (n : ℕ) (id : PageId) (w : Search)
          → SearchInv w
          → has universe id ≡ true
          → missing universe w.reachable < n
          → VisitOk universe w id (visit n edges id w)
      unfolding visit
      visit_lem zero id w i u m = absurd (omega arith)
      visit_lem (suc n) id w i u m = elim (Colour-cases (w.colour id)) [
        | inl c ↦
            rw (c, visit)
              (finish_lem w id (visit_each (visit n edges) (edges id) (enter id w)) i c (
                visit_each_lem (visit n edges) n (visit_lem n) (edges id) (enter id w)
                  (enter-SearchInv id w i c) (closed id)
                  (omega (
                    arith,
                    missing-cons_lt universe w.reachable id u (i.entered id ∙ ap was_entered c),
                  ))))
        | inr (inl c) ↦
            rw (c, visit)
              (
                w,
                id,
                refl,
                After-refl universe w id i,
                ((λ e ne. absurd (ne e)), i.entered id ∙ ap was_entered c),
              )
        | inr (inr c) ↦
            rw (c, visit)
              (
                w,
                "",
                refl,
                After-refl universe w "" i,
                ((λ _ _. i.black_safe id c), i.entered id ∙ ap was_entered c),
              )
      ]
