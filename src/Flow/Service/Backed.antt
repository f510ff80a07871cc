-- ===== src/Flow/Service/Backed.antt =====
-- Contexts whose application and graph the services of a flow know, flowexec/service.go.
use thunder_fork.Prelude.{String, ◌≡◌, false, Option, none, some, ◌==◌, arith, refl, ap, subst, ◌∙◌}
use thunder_fork.Prelude.Assoc.{Assoc, lookup}
use thunder_fork.Prelude.Result.{Result, ok, err}
use thunder_fork.Flow.{FlowType}
use thunder_fork.Flow.Graph.{Graph}
use thunder_fork.Flow.Context.{EngineContext}
use thunder_fork.Flow.Engine.Same.{SameFlow}
use thunder_fork.Flow.Stored.{FlowContextRow, to_engine_context}
use thunder_fork.Flow.Stored.Reload.{refetched}
use thunder_fork.Flow.Store.{FlowRows, get_flow_context}
use thunder_fork.Flow.Service.{
  ServiceError, Services, get_flow_graph, set_application_to_context, init_context, new_context,
  load_new_context, context_of_row, load_context_from_store, prepare_context, validate_flow_type,
}
use thunder_fork.Flow.Service.Loading.{set_application-same}

-- A graph is found under its own id.
abbrev pub FindsById : Services → Type 0
FindsById services =
    (id : String) (graph : Graph) → services.get_graph id ≡ some graph → graph.id ≡ id

-- The context that is left of another in the store.
abbrev pub reloaded : Graph → EngineContext → EngineContext
reloaded graph ctx = record ctx {
  current_node = refetched graph ctx.current_node;
  current_node_response = none;
}

module _ (services : Services) where
  -- A context whose application and graph the services know, as the graph of `graph_id`.
  pub record IsBacked (ctx : EngineContext) (graph : Graph) (graph_id : String) : Type 0 where
    pub of_graph : ctx.graph ≡ some graph
    pub of_type : ctx.flow_type ≡ graph.graph_type
    pub at_id : services.get_graph graph_id ≡ some graph
    pub with_app : set_application_to_context services ctx ≡ ok ctx

  -- The application of a context counts only by its id.
  with_app-same :
      (ctx other : EngineContext)
      → other.app_id ≡ ctx.app_id
      → set_application_to_context services ctx ≡ ok ctx
      → set_application_to_context services other ≡ ok other
  unfolding set_application_to_context
  with_app-same ctx other e h = rw e (ground arith)

  pub context_of_row-IsBacked :
      (row : FlowContextRow) (ctx : EngineContext)
      → context_of_row services row ≡ ok ctx
      → (graph : Graph) × IsBacked ctx graph row.graph_id × (ctx ≡ to_engine_context row graph)
  unfolding context_of_row to_engine_context
  context_of_row-IsBacked row ctx h = by_graph (services.get_graph row.graph_id) refl
    where
      by_graph :
          (o : Option Graph)
          → services.get_graph row.graph_id ≡ o
          → (graph : Graph) × IsBacked ctx graph row.graph_id × (ctx ≡ to_engine_context row graph)
      by_graph none e = absurd (ground arith)
      by_graph (some graph) e =
          let set : set_application_to_context services (to_engine_context row graph) ≡ ok ctx =
            ground arith in
          let same : ctx ≡ to_engine_context row graph =
            set_application-same services (to_engine_context row graph) ctx set in
          (
            graph,
            record {
              of_graph = ap (λ c. c.graph) same;
              of_type = ap (λ c. c.flow_type) same;
              at_id = e;
              with_app = ap (set_application_to_context services) same ∙ set;
            },
            same,
          )

  -- What a request adds to a context leaves it as it is backed.
  pub prepared-IsBacked :
      (action_id : String) (input_data : Assoc String) (ctx : EngineContext) (graph : Graph)
      (graph_id : String)
      → IsBacked ctx graph graph_id
      → IsBacked (prepare_context action_id input_data ctx) graph graph_id
  unfolding prepare_context
  prepared-IsBacked action_id input_data ctx graph graph_id b = record {
    of_graph = b.of_graph;
    of_type = b.of_type;
    at_id = b.at_id;
    with_app = with_app-same ctx (prepare_context action_id input_data ctx) refl b.with_app;
  }

  pub SameFlow-IsBacked :
      (ctx after : EngineContext) (graph : Graph) (graph_id : String)
      → SameFlow ctx after
      → IsBacked ctx graph graph_id
      → IsBacked after graph graph_id
  SameFlow-IsBacked ctx after graph graph_id same b = record {
    of_graph = same.same_graph ∙ b.of_graph;
    of_type = same.same_type ∙ b.of_type;
    at_id = b.at_id;
    with_app = with_app-same ctx after same.same_app b.with_app;
  }

  -- A row that stands for a context is loaded as that context, reloaded.
  pub load-stored :
      (id : String) (rows : FlowRows) (row : FlowContextRow) (ctx : EngineContext) (graph : Graph)
      → (id == "") ≡ false
      → lookup id rows ≡ some row
      → IsBacked ctx graph row.graph_id
      → to_engine_context row graph ≡ reloaded graph ctx
      → load_context_from_store services false id rows ≡ ok (reloaded graph ctx)
  unfolding load_context_from_store get_flow_context context_of_row
  load-stored id rows row ctx graph n at b e =
      let known : set_application_to_context services (reloaded graph ctx)
          ≡ ok (reloaded graph ctx) =
        with_app-same ctx (reloaded graph ctx) refl b.with_app in
      simp (n, at, b.at_id, e, known)

  init_context-IsBacked :
      (uuid app_id : String) (flow_type : FlowType) (ctx : EngineContext)
      → init_context services uuid app_id flow_type ≡ ok ctx
      → (graph : Graph) × (graph_id : String) × IsBacked ctx graph graph_id
  unfolding init_context
  init_context-IsBacked uuid app_id flow_type ctx h =
      by_id (get_flow_graph services app_id flow_type) refl
    where
      by_id :
          (r : Result ServiceError String)
          → get_flow_graph services app_id flow_type ≡ r
          → (graph : Graph) × (graph_id : String) × IsBacked ctx graph graph_id
      by_id (err e) q = absurd (ground arith)
      by_id (ok graph_id) q = by_graph (services.get_graph graph_id) refl
        where
          by_graph :
              (o : Option Graph)
              → services.get_graph graph_id ≡ o
              → (graph : Graph) × (graph_id : String) × IsBacked ctx graph graph_id
          by_graph none e = absurd (ground arith)
          by_graph (some graph) e =
              let fresh = new_context services uuid app_id graph in
              let set : set_application_to_context services fresh ≡ ok ctx = ground arith in
              let same : ctx ≡ fresh = set_application-same services fresh ctx set in
              (
                graph,
                graph_id,
                record {
                  of_graph = ap (λ c. c.graph) same;
                  of_type = ap (λ c. c.flow_type) same;
                  at_id = e;
                  with_app = ap (set_application_to_context services) same ∙ set;
                },
              )

  pub load_new-IsBacked :
      (uuid app_id action_id flow_type : String) (input_data : Assoc String) (ctx : EngineContext)
      → load_new_context services uuid app_id action_id flow_type input_data ≡ ok ctx
      → (graph : Graph) × (graph_id : String) × IsBacked ctx graph graph_id
  unfolding load_new_context
  load_new-IsBacked uuid app_id action_id flow_type input_data ctx h =
      by_type (validate_flow_type flow_type) refl
    where
      by_type :
          (r : Result ServiceError FlowType)
          → validate_flow_type flow_type ≡ r
          → (graph : Graph) × (graph_id : String) × IsBacked ctx graph graph_id
      by_type (err e) q = absurd (ground arith)
      by_type (ok type) q = by_context (init_context services uuid app_id type) refl
        where
          by_context :
              (r : Result ServiceError EngineContext)
              → init_context services uuid app_id type ≡ r
              → (graph : Graph) × (graph_id : String) × IsBacked ctx graph graph_id
          by_context (err e) p = absurd (ground arith)
          by_context (ok fresh) p =
              let (graph, graph_id, b) = init_context-IsBacked uuid app_id type fresh p in
              let same : prepare_context action_id input_data fresh ≡ ctx = ground arith in
              (
                graph,
                graph_id,
                subst (λ c. IsBacked c graph graph_id) same
                    (prepared-IsBacked action_id input_data fresh graph graph_id b),
              )
