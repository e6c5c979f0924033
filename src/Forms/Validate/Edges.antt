-- ===== src/Forms/Validate/Edges.antt =====
-- What the graph of walkGraph contains: the default successor of every page, and every goto target.
use collectr.Prelude.{
  ◌≡◌, ◌≢◌, refl, String, Bool, true, false, ◌||◌, ◌&&◌, List, [], ◌∷◌, ◌++◌, arith, ◌==◌, eq_iff,
  eq_refl, if◌then◌else◌, subst, Bool-cases, inl, inr, has, has-append,
}
use collectr.Forms.Schema.{PageId, Page, Action, ActionKind, goto, show, Rule, Schema}
use collectr.Forms.Engine.Pages.{next_after}
use collectr.Forms.Validate.Graph.{
  Edges, add_edge, page_edges, action_edge, action_edges, rule_edges, edges_of, page_nodes,
  action_nodes, rule_nodes, nodes,
}

-- Every edge leads into `universe`.
abbrev pub EdgesIn : List PageId → Edges → Type 0
EdgesIn universe edges = (k y : PageId) → has (edges k) y ≡ true → has universe y ≡ true

-- Every edge of the first graph is one of the second.
abbrev pub Extends : Edges → Edges → Type 0
Extends a b = (k y : PageId) → has (a k) y ≡ true → has (b k) y ≡ true

add_edge-Extends : (edges : Edges) (from to : PageId) → Extends edges (add_edge edges from to)
add_edge-Extends edges from to k y h =
    ground (arith, has-append (edges from) (to ∷ []) y, eq_iff from k)

add_edge-has : (edges : Edges) (from to : PageId) → has (add_edge edges from to from) to ≡ true
unfolding has
add_edge-has edges from to =
    ground (arith, has-append (edges from) (to ∷ []) to, eq_refl from, eq_refl to)

add_edge-EdgesIn :
    (universe : List PageId) (edges : Edges) (from to : PageId)
    → EdgesIn universe edges
    → has universe to ≡ true
    → EdgesIn universe (add_edge edges from to)
unfolding has
add_edge-EdgesIn universe edges from to i u k y h =
    ground (arith, i k y, i from y, has-append (edges from) (to ∷ []) y, eq_iff from k, eq_iff to y)

pub page_edges-Extends : (ps : List Page) (edges : Edges) → Extends edges (page_edges ps edges)
unfolding page_edges
page_edges-Extends [] edges k y h = h
page_edges-Extends (p ∷ []) edges k y h = ground (arith, add_edge-Extends edges p.id p.next k y)
page_edges-Extends (p ∷ q ∷ rest) edges k y h =
    page_edges-Extends (q ∷ rest) (add_edge edges p.id (if p.next == "" then q.id else p.next)) k y
      (add_edge-Extends edges p.id (if p.next == "" then q.id else p.next) k y h)

-- The page after `id` when no rule decides is a successor of `id`.
pub next_after-has :
    (ps : List Page) (edges : Edges) (id : PageId)
    → next_after ps id ≢ ""
    → has (page_edges ps edges id) (next_after ps id) ≡ true
unfolding next_after page_edges
next_after-has [] edges id ne = absurd (ne refl)
next_after-has (p ∷ []) edges id ne = ground (arith, eq_iff p.id id, add_edge-has edges p.id p.next)
next_after-has (p ∷ q ∷ rest) edges id ne =
    let to = if p.next == "" then q.id else p.next in
    let kept =
      page_edges-Extends (q ∷ rest) (add_edge edges p.id to) p.id to (add_edge-has edges p.id to) in
    elim (Bool-cases (p.id == id)) [
      | inl t ↦ rw t (
          subst (λ k. has (page_edges (q ∷ rest) (add_edge edges p.id to) k) to ≡ true)
            ((eq_iff p.id id).0 t) kept)
      | inr f ↦ rw f (next_after-has (q ∷ rest) (add_edge edges p.id to) id (rw f at ne))
    ]

page_edges-EdgesIn :
    (universe : List PageId) (ps : List Page) (edges : Edges)
    → EdgesIn universe edges
    → ((y : PageId) → has (page_nodes ps) y ≡ true → has universe y ≡ true)
    → EdgesIn universe (page_edges ps edges)
unfolding page_edges page_nodes has
page_edges-EdgesIn universe [] edges i u k y h = i k y h
page_edges-EdgesIn universe (p ∷ []) edges i u k y h = ground (
  arith,
  i k y,
  add_edge-EdgesIn universe edges p.id p.next i (u p.next (ground (arith, eq_refl p.next))) k y,
)
page_edges-EdgesIn universe (p ∷ q ∷ rest) edges i u k y h =
    page_edges-EdgesIn universe (q ∷ rest)
      (add_edge edges p.id (if p.next == "" then q.id else p.next))
      (add_edge-EdgesIn universe edges p.id (if p.next == "" then q.id else p.next) i
        (ground (arith, eq_refl p.next, eq_refl q.id, u p.next, u q.id)))
      (λ y h. u y (ground arith)) k y h

action_edge-Extends :
    (from : PageId) (k : ActionKind) (to : String) (edges : Edges)
    → Extends edges (action_edge from k to edges)
unfolding action_edge
action_edge-Extends from goto to edges = add_edge-Extends edges from to
action_edge-Extends from show to edges = λ k y h. h
action_edge-Extends from _ to edges = λ k y h. h

action_edges-Extends :
    (from : PageId) (actions : List Action) (edges : Edges)
    → Extends edges (action_edges from actions edges)
unfolding action_edges
action_edges-Extends from [] edges k y h = h
action_edges-Extends from (a ∷ rest) edges k y h =
    action_edges-Extends from rest (action_edge from a.action a.target edges) k y
      (action_edge-Extends from a.action a.target edges k y h)

action_edge-EdgesIn :
    (universe : List PageId) (from : PageId) (k : ActionKind) (to : String) (edges : Edges)
    → EdgesIn universe edges
    → has universe to ≡ true
    → EdgesIn universe (action_edge from k to edges)
unfolding action_edge
action_edge-EdgesIn universe from goto to edges i u = add_edge-EdgesIn universe edges from to i u
action_edge-EdgesIn universe from show to edges i u = i
action_edge-EdgesIn universe from _ to edges i u = i

action_edges-EdgesIn :
    (universe : List PageId) (from : PageId) (actions : List Action) (edges : Edges)
    → EdgesIn universe edges
    → ((y : PageId) → has (action_nodes actions) y ≡ true → has universe y ≡ true)
    → EdgesIn universe (action_edges from actions edges)
unfolding action_edges action_nodes has
action_edges-EdgesIn universe from [] edges i u = i
action_edges-EdgesIn universe from (a ∷ rest) edges i u =
    action_edges-EdgesIn universe from rest (action_edge from a.action a.target edges)
      (action_edge-EdgesIn universe from a.action a.target edges i
        (u a.target (ground (arith, eq_refl a.target))))
      (λ y h. u y (ground arith))

-- The page is the target of a goto among the actions.
unfoldable pub goto_to : ActionKind → String → PageId → Bool
goto_to goto target to = target == to
goto_to _ target to = false

unfoldable pub goes_to : List Action → PageId → Bool
unfolding goto_to
goes_to [] to = false
goes_to (a ∷ rest) to = goto_to a.action a.target to || goes_to rest to

action_edge-has :
    (from : PageId) (k : ActionKind) (target : String) (edges : Edges) (to : PageId)
    → goto_to k target to ≡ true
    → has (action_edge from k target edges from) to ≡ true
unfolding action_edge goto_to
action_edge-has from goto target edges to h =
    subst (λ t. has (add_edge edges from target from) t ≡ true) ((eq_iff target to).0 h)
      (add_edge-has edges from target)
action_edge-has from show target edges to h = cc
action_edge-has from _ target edges to h = cc

action_edges-has :
    (from : PageId) (actions : List Action) (edges : Edges) (to : PageId)
    → goes_to actions to ≡ true
    → has (action_edges from actions edges from) to ≡ true
unfolding action_edges goes_to
action_edges-has from [] edges to h = cc
action_edges-has from (a ∷ rest) edges to h = elim (Bool-cases (goto_to a.action a.target to)) [
  | inl t ↦
      action_edges-Extends from rest (action_edge from a.action a.target edges) from to
        (action_edge-has from a.action a.target edges to t)
  | inr f ↦ action_edges-has from rest (action_edge from a.action a.target edges) to (ground arith)
]

module _ {F : Type 0} where
  rule_edges-Extends :
      (rules : List (Rule F)) (edges : Edges) → Extends edges (rule_edges rules edges)
  unfolding rule_edges
  rule_edges-Extends [] edges k y h = h
  rule_edges-Extends (r ∷ rest) edges k y h =
      rule_edges-Extends rest (action_edges r.on_page (r.then_actions ++ r.else_actions) edges) k y
        (action_edges-Extends r.on_page (r.then_actions ++ r.else_actions) edges k y h)

  rule_edges-EdgesIn :
      (universe : List PageId) (rules : List (Rule F)) (edges : Edges)
      → EdgesIn universe edges
      → ((y : PageId) → has (rule_nodes rules) y ≡ true → has universe y ≡ true)
      → EdgesIn universe (rule_edges rules edges)
  unfolding rule_edges rule_nodes
  rule_edges-EdgesIn universe [] edges i u = i
  rule_edges-EdgesIn universe (r ∷ rest) edges i u =
      let nodes_here = action_nodes (r.then_actions ++ r.else_actions) in
      rule_edges-EdgesIn universe rest
        (action_edges r.on_page (r.then_actions ++ r.else_actions) edges)
        (action_edges-EdgesIn universe r.on_page (r.then_actions ++ r.else_actions) edges i
          (λ y h. u y (ground (arith, has-append nodes_here (rule_nodes rest) y))))
        (λ y h. u y (ground (arith, has-append nodes_here (rule_nodes rest) y)))

  -- A rule of the page `from` has a goto to the page `to`.
  unfoldable pub rules_go : List (Rule F) → PageId → PageId → Bool
  unfolding goes_to
  rules_go [] from to = false
  rules_go (r ∷ rest) from to =
      r.on_page == from && goes_to (r.then_actions ++ r.else_actions) to || rules_go rest from to

  rule_edges-has :
      (rules : List (Rule F)) (edges : Edges) (from to : PageId)
      → rules_go rules from to ≡ true
      → has (rule_edges rules edges from) to ≡ true
  unfolding rule_edges rules_go
  rule_edges-has [] edges from to h = cc
  rule_edges-has (r ∷ rest) edges from to h =
      let actions = r.then_actions ++ r.else_actions in
      elim (Bool-cases (r.on_page == from && goes_to actions to)) [
        | inl t ↦ rule_edges-Extends rest (action_edges r.on_page actions edges) from to (
            subst (λ k. has (action_edges r.on_page actions edges k) to ≡ true)
              ((eq_iff r.on_page from).0 (ground arith))
              (action_edges-has r.on_page actions edges to (ground arith)))
        | inr f ↦ rule_edges-has rest (action_edges r.on_page actions edges) from to (ground arith)
      ]

  -- The universe of the search holds every edge.
  pub edges_of-EdgesIn : (s : Schema F) → EdgesIn (nodes s) (edges_of s)
  unfolding edges_of nodes has
  edges_of-EdgesIn s =
      let n = page_nodes s.pages in
      let m = rule_nodes s.rules in
      rule_edges-EdgesIn (n ++ m) s.rules (page_edges s.pages (λ _. []))
        (page_edges-EdgesIn (n ++ m) s.pages (λ _. []) (λ k y h. absurd (cc))
          (λ y h. ground (arith, has-append n m y)))
        (λ y h. ground (arith, has-append n m y))

  pub edges_of-default :
      (s : Schema F) (id : PageId)
      → next_after s.pages id ≢ ""
      → has (edges_of s id) (next_after s.pages id) ≡ true
  unfolding edges_of
  edges_of-default s id ne =
      rule_edges-Extends s.rules (page_edges s.pages (λ _. [])) id (next_after s.pages id)
        (next_after-has s.pages (λ _. []) id ne)

  pub edges_of-goto :
      (s : Schema F) (from to : PageId)
      → rules_go s.rules from to ≡ true
      → has (edges_of s from) to ≡ true
  unfolding edges_of
  edges_of-goto s from to h = rule_edges-has s.rules (page_edges s.pages (λ _. [])) from to h
