-- ===== src/Forms/Validate/Graph.antt =====
-- walkGraph of validate.go: a depth-first search over the pages, three colours.
-- Its map `terminal` is written and never read, and is left out.
use collectr.Prelude.{
  ℕ, zero, suc, String, true, false, Option, none, some, List, [], ◌∷◌, ◌++◌, ◌==◌, length,
  if◌then◌else◌,
}
use collectr.Forms.Schema.{PageId, Page, Action, ActionKind, goto, Rule, Schema}
use collectr.Forms.Engine.Pages.{update}

abbrev pub Edges : Type 0
Edges = PageId → List PageId

-- `edges[from] = append(edges[from], to)`
abbrev pub add_edge : Edges → PageId → PageId → Edges
add_edge edges from to = update edges from (edges from ++ to ∷ [])

unfoldable pub page_edges : List Page → Edges → Edges
page_edges [] edges = edges
page_edges (p ∷ []) edges = if p.next == "" then edges else add_edge edges p.id p.next
page_edges (p ∷ q ∷ rest) edges =
    page_edges (q ∷ rest) (add_edge edges p.id (if p.next == "" then q.id else p.next))

unfoldable pub action_edge : PageId → ActionKind → String → Edges → Edges
action_edge from goto target edges = add_edge edges from target
action_edge from _ target edges = edges

unfoldable pub action_edges : PageId → List Action → Edges → Edges
unfolding action_edge
action_edges from [] edges = edges
action_edges from (a ∷ rest) edges =
    action_edges from rest (action_edge from a.action a.target edges)

module _ {F : Type 0} where
  unfoldable pub rule_edges : List (Rule F) → Edges → Edges
  unfolding action_edges
  rule_edges [] edges = edges
  rule_edges (r ∷ rest) edges =
      rule_edges rest (action_edges r.on_page (r.then_actions ++ r.else_actions) edges)

  unfoldable pub edges_of : Schema F → Edges
  unfolding page_edges rule_edges
  edges_of s = rule_edges s.rules (page_edges s.pages (λ _. []))

pub data Colour : Type 0 where
  white grey black : Colour

pub record Search : Type 0 where
  pub reachable : List PageId
  pub colour : PageId → Colour

abbrev pub unvisited : Search
unvisited = record { reachable = []; colour = λ _. white }

abbrev pub enter : PageId → Search → Search
enter id w = record { reachable = id ∷ w.reachable; colour = update w.colour id grey }

abbrev pub blacken : PageId → Search → Search
blacken id w = record w { colour = update w.colour id black }

-- The loop over `edges[id]`: the first page found on a cycle ends it. `none` is fuel run out.
unfoldable pub visit_each :
    (PageId → Search → Option (Search × PageId)) → List PageId → Search → Option (Search × PageId)
visit_each visit [] w = some (w, "")
visit_each visit (next ∷ rest) w = elim (visit next w) [
  | none ↦ none
  | some (w', found) ↦ elim (found == "") [
    | true ↦ visit_each visit rest w'
    | false ↦ some (w', found)
  ]
]

unfoldable pub finish : PageId → Option (Search × PageId) → Option (Search × PageId)
finish id none = none
finish id (some (w, found)) = if found == "" then some (blacken id w, "") else some (w, found)

-- The closure `visit`; its fuel is the depth of the calls.
unfoldable pub visit : ℕ → Edges → PageId → Search → Option (Search × PageId)
unfolding visit_each finish
visit zero edges id w = none
visit (suc n) edges id w = elim (w.colour id) [
  | grey ↦ some (w, id)
  | black ↦ some (w, "")
  | white ↦ finish id (visit_each (visit n edges) (edges id) (enter id w))
]

-- Every page that can be on the stack: the pages, and the targets of their `Next` and of the rules.
unfoldable pub page_nodes : List Page → List PageId
page_nodes [] = []
page_nodes (p ∷ rest) = p.id ∷ p.next ∷ page_nodes rest

unfoldable pub action_nodes : List Action → List PageId
action_nodes [] = []
action_nodes (a ∷ rest) = a.target ∷ action_nodes rest

module _ {F : Type 0} where
  unfoldable pub rule_nodes : List (Rule F) → List PageId
  unfolding action_nodes
  rule_nodes [] = []
  rule_nodes (r ∷ rest) = action_nodes (r.then_actions ++ r.else_actions) ++ rule_nodes rest

  unfoldable pub nodes : Schema F → List PageId
  unfolding page_nodes rule_nodes
  nodes s = page_nodes s.pages ++ rule_nodes s.rules

  unfoldable pub walk_graph : Schema F → PageId → Option (Search × PageId)
  unfolding visit nodes edges_of
  walk_graph s first = visit (suc (length (nodes s))) (edges_of s) first unvisited
