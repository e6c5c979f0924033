-- ===== src/Forms/Safety/Acyclic.antt =====
-- walkGraph always ends; where it reports no cycle, no evaluation of the form meets one.
use collectr.Prelude.{
  ℕ, suc, ◌≡◌, ◌≢◌, ◌⊎◌, refl, sym, subst, ap, ◌∙◌, true, false, some, List, [], ◌∷◌, ◌==◌, eq_iff,
  arith, Bool-cases, inl, inr, has, length, missing_none, All, All-append, ok, err, Ensures,
}
use collectr.Forms.Schema.{PageId, Schema}
use collectr.Forms.Engine.Conditions.{Floats, Error, navigation_cycle}
use collectr.Forms.Engine.Pages.{Answers, PageResult}
use collectr.Forms.Engine.Walk.{Evaluation, extend, visit_page, walk, no_pages}
use collectr.Forms.Engine.Loop.{walk_inv}
use collectr.Forms.Engine.Path.{visit_page_cycle}
use collectr.Forms.Validate.Graph.{
  Edges, Search, white, grey, black, Colour, unvisited, nodes, edges_of, walk_graph,
}
use collectr.Forms.Validate.Search.{Safe, safe, SearchInv, visit_lem, was_entered}
use collectr.Forms.Validate.Edges.{edges_of-EdgesIn}
use collectr.Forms.Safety.Next.{visit_page-edge}

-- A walk of one or more edges, through pages with an id.
pub data Leads (edges : Edges) (x : PageId) : PageId → Type 0 where
  one : (y : PageId) → has (edges x) y ≡ true → y ≢ "" → Leads edges x y
  more : (y z : PageId) → Leads edges x y → has (edges y) z ≡ true → z ≢ "" → Leads edges x z

module _ (edges : Edges) where
  -- The first edge of a walk, and what is left.
  first_edge :
      (x z : PageId)
      → Leads edges x z
      → (y : PageId) × (has (edges x) y ≡ true) × (y ≢ "") × ((y ≡ z) ⊎ Leads edges y z)
  first_edge x z (one _ h ne) = (z, h, ne, inl refl)
  first_edge x z (more y _ l h ne) =
      let (f, hf, nf, rest) = first_edge x y l in
      (
        f,
        hf,
        nf,
        elim rest [
          | inl e ↦ inr (subst (λ k. Leads edges k z) (sym e) (one z h ne))
          | inr l' ↦ inr (more y z l' h ne)
        ],
      )

  -- No walk leads from a safe page back to it.
  Safe-no_cycle : (x : PageId) → Safe edges x → Leads edges x x → ⊥
  Safe-no_cycle x (safe _ below) l =
      let (y, h, ne, rest) = first_edge x x l in
      elim rest [
        | inl e ↦
            Safe-no_cycle y (below y h ne)
              (one y (subst (λ k. has (edges k) y ≡ true) (sym e) h) ne)
        | inr back ↦ Safe-no_cycle y (below y h ne) (more x y back h ne)
      ]

  Safe-step : (x y : PageId) → Safe edges x → has (edges x) y ≡ true → y ≢ "" → Safe edges y
  Safe-step x y (safe _ below) h ne = below y h ne

unvisited-SearchInv : (edges : Edges) → SearchInv edges unvisited
unfolding has
unvisited-SearchInv edges = record {
  entered = λ k. refl;
  black_safe = λ k b. absurd (cc);
  black_closed = λ k y b h. absurd (cc);
}

-- What walkGraph knows when it reports no cycle.
pub record Clean (edges : Edges) (first : PageId) (reachable : List PageId) : Type 0 where
  pub start_safe : Safe edges first
  pub start_in : has reachable first ≡ true
  pub closed :
      (k y : PageId) → has reachable k ≡ true → has (edges k) y ≡ true → has reachable y ≡ true

not_grey : (c : Colour) → was_entered c ≡ true → (c ≡ grey → ⊥) → c ≡ black
not_grey white h n = absurd (cc)
not_grey grey h n = absurd (n refl)
not_grey black h n = refl

module _ {F : Type 0} where
  -- The search always ends with an answer, and an answer without a cycle is `Clean`.
  pub walk_graph_total :
      (s : Schema F) (first : PageId)
      → has (nodes s) first ≡ true
      → (w : Search) × (cycle : PageId) × (walk_graph s first ≡ some (w, cycle))
        × (cycle ≡ "" → Clean (edges_of s) first w.reachable)
  unfolding walk_graph
  walk_graph_total s first u =
      let (w, cycle, q, a, (_, h)) =
        visit_lem (edges_of s) (nodes s) (edges_of-EdgesIn s) (suc (length (nodes s))) first
          unvisited (unvisited-SearchInv (edges_of s)) u (omega (arith, missing_none (nodes s))) in
      (
        w,
        cycle,
        q,
        λ e.
            let finished = λ (k : PageId) (hk : has w.reachable k ≡ true).
              not_grey (w.colour k) (sym (a.inv.entered k) ∙ hk) (λ g. cc (a.greys e k g)) in
            record {
              start_safe = a.inv.black_safe first (finished first h);
              start_in = h;
              closed = λ k y hk hy. a.inv.black_closed k y (finished k hk) hy;
            },
      )

module _ (fl : Floats) where
  open fl use {Float}

  -- Where the walk stands: behind it are pages that lead here, and none of what is ahead is behind.
  record OnTrack (s : Schema Float) (reachable : List PageId) (c : PageId) (seen : List PageId)
      (res : Evaluation) : Type 0 where
    is_safe : Safe (edges_of s) c
    behind : (k : PageId) → has seen k ≡ true → Leads (edges_of s) k c
    here_in : has reachable c ≡ true
    path_in : All (λ id. has reachable id ≡ true) res.path

  OnTrack-next :
      (s : Schema Float) (answers : Answers fl) (first : PageId) (reachable : List PageId)
      (c : PageId) (seen : List PageId) (res : Evaluation) (r : PageResult)
      → Clean (edges_of s) first reachable
      → OnTrack s reachable c seen res
      → visit_page fl s answers c seen ≡ ok r
      → (r.next == "") ≡ false
      → OnTrack s reachable r.next (c ∷ seen) (extend res c r)
  unfolding extend has
  OnTrack-next s answers first reachable c seen res r k t q f =
      let ne : r.next ≢ "" = λ e. ground (arith, eq_iff r.next "") in
      let edge = visit_page-edge fl s answers c seen r q ne in
      record {
        is_safe = Safe-step (edges_of s) c r.next t.is_safe edge ne;
        behind = λ j h. elim (Bool-cases (c == j)) [
          | inl e ↦ subst (λ x. Leads (edges_of s) x r.next) ((eq_iff c j).0 e) (one r.next edge ne)
          | inr e ↦ more c r.next (t.behind j (ground arith)) edge ne
        ];
        here_in = k.closed c r.next t.here_in edge;
        path_in =
            All-append (λ id. has reachable id ≡ true) res.path (c ∷ []) t.path_in (t.here_in, tt);
      }

  -- The path stays among the reachable pages, and no error is a cycle.
  abbrev pub StaysIn : List PageId → Evaluation → Type 0
  StaysIn reachable r = All (λ id. has reachable id ≡ true) r.path

  abbrev pub NoCycle : Error → Type 0
  NoCycle e = (x : PageId) → e ≢ navigation_cycle x

  pub walk-NoCycle :
      (s : Schema Float) (answers : Answers fl) (first : PageId) (reachable : List PageId) (n : ℕ)
      → Clean (edges_of s) first reachable
      → Ensures (StaysIn reachable) NoCycle (walk fl s answers n first [] no_pages)
  unfolding has extend
  walk-NoCycle s answers first reachable n k =
      walk_inv fl s answers (λ m c seen res. OnTrack s reachable c seen res) NoCycle
        (StaysIn reachable) (λ c seen res t x. λ e. cc)
        (λ m c seen res e t q x same.
          Safe-no_cycle (edges_of s) c t.is_safe
            (t.behind c (visit_page_cycle fl s answers c seen x (q ∙ ap err same))))
        (λ m c seen res r t q stop.
          All-append (λ id. has reachable id ≡ true) res.path (c ∷ []) t.path_in (t.here_in, tt))
        (λ m c seen res r t q f. OnTrack-next s answers first reachable c seen res r k t q f) n
        first [] no_pages
        (record {
          is_safe = k.start_safe;
          behind = λ j h. absurd (cc);
          here_in = k.start_in;
          path_in = tt;
        })
