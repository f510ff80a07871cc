-- ===== src/Flow/Graph/Changes.antt =====
-- The effect of `AddEdge` and `RemoveEdge` on the three records of an edge.
use thunder_fork.Prelude.{
  String, ◌≡◌, false, Option, none, some, List, [], ◌∷◌, ◌++◌, ◌==◌, remove_first, if◌then◌else◌,
  arith, refl, ap, ◌∙◌, eq_iff,
}
use thunder_fork.Prelude.Result.{ok}
use thunder_fork.Prelude.Assoc.{Assoc, lookup, insert, lookup-insert}
use thunder_fork.Flow.{Node}
use thunder_fork.Flow.Nodes.{add_id, remove_id}
use thunder_fork.Flow.Graph.{Graph, targets, edges_or_nil, add_edge, remove_edge}
use thunder_fork.Flow.Graph.Edges.{
  next_list, previous_list, next_ids, previous_ids, changed_nodes, next-changed, previous-changed,
}

-- What a successful call of `add_edge` does to the three records of an edge.
module _ (from to : String) (graph added : Graph) (h : add_edge from to graph ≡ ok added) where
  pub add_edge-ids : ((from == "") ≡ false) × ((to == "") ≡ false)
  add_edge-ids = unfold add_edge in (ground (arith, h), ground (arith, h))

  add_edge-nodes :
      (m : Node) × (n : Node) × (lookup from graph.nodes ≡ some m)
      × (lookup to graph.nodes ≡ some n)
      × (added.nodes ≡ changed_nodes from to (add_id to) (add_id from) graph.nodes)
      × (added.edges ≡ insert from (targets from graph ++ (to ∷ [])) graph.edges)
  add_edge-nodes = by_nodes (lookup from graph.nodes) (lookup to graph.nodes) refl refl
    where
      by_nodes :
          (o p : Option Node)
          → lookup from graph.nodes ≡ o
          → lookup to graph.nodes ≡ p
          → (m : Node) × (n : Node) × (lookup from graph.nodes ≡ some m)
            × (lookup to graph.nodes ≡ some n)
            × (added.nodes ≡ changed_nodes from to (add_id to) (add_id from) graph.nodes)
            × (added.edges ≡ insert from (targets from graph ++ (to ∷ [])) graph.edges)
      by_nodes none p e e' = absurd (unfold add_edge in ground (arith, e, h))
      by_nodes (some m) none e e' = absurd (unfold add_edge in ground (arith, e, e', h))
      by_nodes (some m) (some n) e e' = (
        m,
        n,
        e,
        e',
        unfold add_edge in ground (arith, e, e', h),
        unfold add_edge in ground (arith, e, e', h),
      )

  pub add_edge-next_ids :
      (k : String)
      → next_ids k added ≡ (if from == k then add_id to (next_ids k graph) else next_ids k graph)
  add_edge-next_ids k =
      let (m, n, e, e', nodes, edges) = add_edge-nodes in
      ap (λ ns. next_list (lookup k ns)) nodes
      ∙ next-changed from to (add_id to) (add_id from) graph.nodes k m e

  pub add_edge-previous_ids :
      (k : String)
      → previous_ids k added
        ≡ (if to == k then add_id from (previous_ids k graph) else previous_ids k graph)
  add_edge-previous_ids k =
      let (m, n, e, e', nodes, edges) = add_edge-nodes in
      ap (λ ns. previous_list (lookup k ns)) nodes
      ∙ previous-changed from to (add_id to) (add_id from) graph.nodes k n e'

  pub add_edge-targets :
      (k : String)
      → targets k added ≡ (if from == k then targets k graph ++ (to ∷ []) else targets k graph)
  add_edge-targets k =
      let (m, n, e, e', nodes, edges) = add_edge-nodes in
      ap (λ es. edges_or_nil (lookup k es)) edges
      ∙ ground
          (arith, lookup-insert from k (targets from graph ++ (to ∷ [])) graph.edges, eq_iff from k)

-- The map of edges after a removal.
abbrev pub edges_without : String → String → Graph → Assoc (List String)
edges_without from to graph = elim (lookup from graph.edges) [
  | none ↦ graph.edges
  | some ids ↦ insert from (remove_first to ids) graph.edges
]

-- What a successful call of `remove_edge` does to the three records of an edge.
module _ (from to : String) (graph removed : Graph)
    (h : remove_edge from to graph ≡ ok removed) where
  pub remove_edge-ids : ((from == "") ≡ false) × ((to == "") ≡ false)
  remove_edge-ids = unfold remove_edge in (ground (arith, h), ground (arith, h))

  remove_edge-nodes :
      (m : Node) × (n : Node) × (lookup from graph.nodes ≡ some m)
      × (lookup to graph.nodes ≡ some n)
      × (removed.nodes ≡ changed_nodes from to (remove_id to) (remove_id from) graph.nodes)
      × (removed.edges ≡ edges_without from to graph)
  remove_edge-nodes = by_nodes (lookup from graph.nodes) (lookup to graph.nodes) refl refl
    where
      by_nodes :
          (o p : Option Node)
          → lookup from graph.nodes ≡ o
          → lookup to graph.nodes ≡ p
          → (m : Node) × (n : Node) × (lookup from graph.nodes ≡ some m)
            × (lookup to graph.nodes ≡ some n)
            × (removed.nodes ≡ changed_nodes from to (remove_id to) (remove_id from) graph.nodes)
            × (removed.edges ≡ edges_without from to graph)
      by_nodes none p e e' = absurd (unfold remove_edge in ground (arith, e, h))
      by_nodes (some m) none e e' = absurd (unfold remove_edge in ground (arith, e, e', h))
      by_nodes (some m) (some n) e e' = (
        m,
        n,
        e,
        e',
        unfold remove_edge in ground (arith, e, e', h),
        unfold remove_edge in ground (arith, e, e', h),
      )

  pub remove_edge-next_ids :
      (k : String)
      → next_ids k removed
        ≡ (if from == k then remove_id to (next_ids k graph) else next_ids k graph)
  remove_edge-next_ids k =
      let (m, n, e, e', nodes, edges) = remove_edge-nodes in
      ap (λ ns. next_list (lookup k ns)) nodes
      ∙ next-changed from to (remove_id to) (remove_id from) graph.nodes k m e

  pub remove_edge-previous_ids :
      (k : String)
      → previous_ids k removed
        ≡ (if to == k then remove_id from (previous_ids k graph) else previous_ids k graph)
  remove_edge-previous_ids k =
      let (m, n, e, e', nodes, edges) = remove_edge-nodes in
      ap (λ ns. previous_list (lookup k ns)) nodes
      ∙ previous-changed from to (remove_id to) (remove_id from) graph.nodes k n e'

  pub remove_edge-targets :
      (k : String)
      → targets k removed
        ≡ (if from == k then remove_first to (targets k graph) else targets k graph)
  remove_edge-targets k =
      let (m, n, e, e', nodes, edges) = remove_edge-nodes in
      ap (λ es. edges_or_nil (lookup k es)) edges ∙ by_edges (lookup from graph.edges) refl
    where
      by_edges :
          (o : Option (List String))
          → lookup from graph.edges ≡ o
          → edges_or_nil (lookup k (edges_without from to graph))
            ≡ (if from == k then remove_first to (targets k graph) else targets k graph)
      by_edges none e =
          rw (e, edges_without) (unfold remove_first in ground (arith, e, eq_iff from k))
      by_edges (some ids) e =
          rw (e, edges_without)
            (ground
              (arith, e, lookup-insert from k (remove_first to ids) graph.edges, eq_iff from k))
