-- ===== src/Flow/Graph/Consistent.antt =====
-- Whether the three records of an edge agree after `AddEdge` and `RemoveEdge`.
use thunder_fork.Prelude.{
  String, ◌≡◌, true, false, List, [], ◌∷◌, ◌++◌, contains, remove_first, NoDup, contains-append,
  contains-remove_first, arith, ◌∙◌, eq_iff, eq_refl,
}
use thunder_fork.Prelude.Result.{ok}
use thunder_fork.Flow.Nodes.{add_id}
use thunder_fork.Flow.Graph.{Graph, targets, add_edge, remove_edge}
use thunder_fork.Flow.Graph.Edges.{
  IsConsistent, next_ids, previous_ids, contains-add_id, contains-remove_id,
}
use thunder_fork.Flow.Graph.Changes.{
  add_edge-ids, add_edge-next_ids, add_edge-previous_ids, add_edge-targets, remove_edge-ids,
  remove_edge-next_ids, remove_edge-previous_ids, remove_edge-targets,
}

-- The addition of an edge between two nodes of a graph keeps its records in agreement: the map of
-- edges, the next nodes of the one node, and the previous nodes of the other.
pub add_edge-IsConsistent :
    (from to : String) (graph added : Graph)
    → add_edge from to graph ≡ ok added
    → IsConsistent graph
    → IsConsistent added
unfolding contains
add_edge-IsConsistent from to graph added h c = record {
  next_agrees = λ k t. ground (
    arith,
    add_edge-ids from to graph added h,
    add_edge-next_ids from to graph added h k,
    add_edge-targets from to graph added h k,
    contains-add_id to t (next_ids k graph),
    contains-append t (targets k graph) (to ∷ []),
    c.next_agrees k t,
  );
  previous_agrees = λ k t. ground (
    arith,
    add_edge-ids from to graph added h,
    add_edge-previous_ids from to graph added h t,
    add_edge-targets from to graph added h k,
    contains-add_id from k (previous_ids t graph),
    contains-append t (targets k graph) (to ∷ []),
    c.previous_agrees k t,
    eq_iff from k,
    eq_iff to t,
  );
}

-- No list of the graph names a node twice.
pub record IsSimple (graph : Graph) : Type 0 where
  pub next_simple : (k : String) → NoDup (next_ids k graph)
  pub previous_simple : (k : String) → NoDup (previous_ids k graph)
  pub targets_simple : (k : String) → NoDup (targets k graph)

-- The removal of an edge keeps the records in agreement, and each list without duplicates, if no list
-- of the graph has duplicates.
pub remove_edge-IsConsistent :
    (from to : String) (graph removed : Graph)
    → remove_edge from to graph ≡ ok removed
    → IsSimple graph
    → IsConsistent graph
    → IsConsistent removed
remove_edge-IsConsistent from to graph removed h simple c = record {
  next_agrees = λ k t. ground (
    arith,
    remove_edge-ids from to graph removed h,
    remove_edge-next_ids from to graph removed h k,
    remove_edge-targets from to graph removed h k,
    contains-remove_id to t (next_ids k graph) (remove_edge-ids from to graph removed h).1
        (simple.next_simple k),
    contains-remove_first to t (targets k graph) (simple.targets_simple k),
    c.next_agrees k t,
  );
  previous_agrees = λ k t. ground (
    arith,
    remove_edge-ids from to graph removed h,
    remove_edge-previous_ids from to graph removed h t,
    remove_edge-targets from to graph removed h k,
    contains-remove_id from k (previous_ids t graph) (remove_edge-ids from to graph removed h).0
        (simple.previous_simple t),
    contains-remove_first to t (targets k graph) (simple.targets_simple k),
    c.previous_agrees k t,
    eq_iff from k,
    eq_iff to t,
  );
}

contains-remove_first_append :
    (a : String) (xs : List String)
    → contains a xs ≡ true
    → contains a (remove_first a (xs ++ (a ∷ []))) ≡ true
unfolding contains remove_first
contains-remove_first_append a [] h = cc h
contains-remove_first_append a (x ∷ xs) h = ground (
  arith,
  contains-append a xs (a ∷ []),
  contains-remove_first_append a xs,
  eq_iff x a,
  eq_iff a a,
)

listed-add_id : (id : String) (ids : List String) → contains id ids ≡ true → add_id id ids ≡ ids
unfolding add_id
listed-add_id id ids h = ground (arith, h)

-- An edge that is added once more, where it was there already, survives its removal in the map of
-- edges, but not in the list of the node: the records no longer agree.
pub stale_edge :
    (from to : String) (graph added removed : Graph)
    → add_edge from to graph ≡ ok added
    → remove_edge from to added ≡ ok removed
    → contains to (targets from graph) ≡ true
    → IsSimple graph
    → IsConsistent graph
    → (contains to (targets from removed) ≡ true) × (contains to (next_ids from removed) ≡ false)
unfolding contains
stale_edge from to graph added removed h h' there simple c =
    let same : add_id to (next_ids from graph) ≡ next_ids from graph =
      listed-add_id to (next_ids from graph) (c.next_agrees from to ∙ there) in
    (
      ground (
        arith,
        remove_edge-targets from to added removed h' from,
        add_edge-targets from to graph added h from,
        contains-remove_first_append to (targets from graph) there,
        eq_refl from,
      ),
      ground (
        arith,
        add_edge-ids from to graph added h,
        remove_edge-next_ids from to added removed h' from,
        add_edge-next_ids from to graph added h from,
        same,
        contains-remove_id to to (next_ids from graph) (add_edge-ids from to graph added h).1
            (simple.next_simple from),
        eq_refl from,
        eq_refl to,
      ),
    )
