-- ===== src/Lib.antt =====
-- A model of the core of Thunder, an identity server: its caches (backend/internal/system/cache),
-- the OAuth 2.0 grants with authorization codes, PKCE and tokens (backend/internal/oauth/oauth2),
-- the engine and the service that drive a user through the nodes of a login or registration flow
-- (backend/internal/flow), the schemas of the attributes of users
-- (backend/internal/userschema/model), the organization units that users and groups are in
-- (backend/internal/ou), and the roles that give them permissions (backend/internal/role).
--
-- The parts and how they meet. An authorization request is validated against an application
-- (Oauth.Authz, Oauth.App) and its PKCE challenge (Oauth.Pkce). A flow then runs in the engine
-- (Flow.Engine), which executes nodes (Flow.Nodes) of a graph (Flow.Graph) until it needs the user
-- again; the service (Flow.Service) loads the context of the flow from its store (Flow.Store)
-- before and keeps it after. What a user registers is tested against the schema of the type of user
-- (UserSchema). The code that comes of it is stored and later redeemed (Oauth.Code,
-- Oauth.CodeGrant) for tokens (Oauth.Tokens), which can be refreshed (Oauth.RefreshGrant) or
-- exchanged (Oauth.Exchange); the token endpoint authenticates the client first (Oauth.ClientAuth).
-- What the user may do follows from the roles assigned to it and to its groups (Role). The stores
-- of the server read through caches (Cache).
--
-- Files:
--   Prelude: shared names, Boolean tests, Go slices of texts, maps as association lists, results
--   Cache: inmemorycache.go: InMemoryCache with set, get, delete, clear, cleanup_expired for Set,
--     Get, Delete, Clear, CleanupExpired; evict, evict_oldest, evict_least_frequent and
--     delete_entry for the unexported ones. Its children: Heap, Synced, Evict, Lookup, Calls,
--     History, Writes, Found hold the lemmas by what they are about
--   Cache.Facade: cache.go and the cache part of system/config/config.go; Cache.Wired has its
--     theorems
--   Oauth.Pkce: pkce/pkce.go, function by function in snake case
--   Oauth.App: backend/internal/application/model/oauth_app.go and the token configuration of
--     application.go
--   Oauth.Authz: authz/validator.go
--   Oauth.Code: authz/auth_code_store.go over the list of rows of its table, and authz/service.go
--   Oauth.Scopes, Oauth.Tokens, Oauth.Tokens.Service: tokenservice/utils.go, builder.go,
--     validator.go and model.go, and the payload of GenerateJWT of system/jwt/service.go;
--     Oauth.Tokens.Claims, Attributes, Refreshed and Signed hold the lemmas
--   Oauth.CodeGrant: granthandlers/authorization_code.go; Race has two requests at the same time
--   Oauth.RefreshGrant: granthandlers/refresh_token.go
--   Oauth.ClientAuth: clientauth/clientauth.go: authenticate, with a function for each of its
--     stages, and extract_basic_auth_credentials
--   Flow: flow/common and core/model.go; Flow.Placeholder: core/utils.go; Flow.Nodes: core/node.go,
--     prompt_node.go, decision_node.go, task_execution_node.go; Flow.Graph: core/graph.go
--   Flow.Context: EngineContext of flowexec/model.go, and the functions of flowexec/engine.go that
--     bring it up to date with the response of a node
--   Flow.Engine: the rest of flowexec/engine.go: execute for Execute, run_nodes for its loop,
--     engine_turn for one turn of it, and one function for each of the other functions
--   Flow.Stored: the row of a context in the database, and its conversions, of flowexec/model.go
--   Flow.Store: flowexec/store.go and queries.go: the rows of the two tables, and one function for
--     each method of the store
--   Flow.Service: flowexec/service.go: run_flow for Execute, initiate_flow for InitiateFlow, and
--     one function for each of the functions that they call
--   Oauth.Exchange: granthandlers/token_exchange.go and ValidateSubjectToken of
--     tokenservice/validator.go
--   UserSchema: userschema/model: validate for Validate of a schema, validate_value for
--     validateValue of the types of property; UserSchema.Compile: compile_user_schema and one
--     function for each type; UserSchema.Unique: validate_uniqueness
--   OrgUnit: backend/internal/ou: model.go, store.go and storeconstants.go; OrgUnit.Service:
--     service.go, create_unit for CreateOrganizationUnit and so on, climb for the two loops over
--     the parents; OrgUnit.Pages: its lists. OrgUnit.Tree, OrgUnit.Siblings, OrgUnit.Paths,
--     OrgUnit.Pages.Laws and OrgUnit.Pages.Follow hold the lemmas
--   Role: backend/internal/role: model.go, store.go and the query of the permissions of
--     storeconstants.go; Role.Service: service.go, create for CreateRole, delete for DeleteRole,
--     add and remove for AddAssignments and RemoveAssignments; Role.Read: GetRoleWithPermissions.
--     Role.Authorized, Role.Removed and Role.Sound hold the lemmas
--   Prelude.Int: integers of 64 bits, and the conversion of a float64 to one
--   Prelude.Json, Prelude.Result: JSON values, whose numbers are the 64 bits of the floating-point
--     number, and results
--   Cache.Examples, Oauth.Examples, Oauth.TokenExamples, Oauth.ClientExamples,
--     Oauth.ExchangeExamples, Flow.Examples, Flow.GraphExamples, Flow.ServiceExamples,
--     UserSchema.Examples, OrgUnit.Examples, Role.Examples: concrete inputs and tests
--
-- Conventions. Go strings are native texts; a nil or an error is an Option, or a result type where
-- the caller sees which error it is. Integers and instants are natural numbers, but where the code
-- can leave them they are ints of 64 bits: the lists of organization units take such an offset and
-- limit, and the sums in their links wrap; a number of a claim, which is read from a float64,
-- becomes an int64 as on amd64 (Prelude.Int), where a number that no int64 holds becomes the least
-- one. The deletion of a row of the database deletes the rows that refer to it where the schema
-- says so; that SQLite has this switched on in every connection is taken for granted. A mutex makes
-- a call one step, so a method is a function of the state. A row, a node or a context that the code
-- changes through a pointer is written back explicitly. The map of runtime data, which an executor
-- shares with the engine, is an argument and a result of the executor.
--
-- Parameters: url.Parse, SHA-256 and the thumbprint (Platform), the decoder of base64, the look-up
-- of an application, the JWT service, the token builder and the user service of the grants, the
-- executors and their registry, the applications and graphs that the flow service looks up, the
-- test that a regular expression makes, the look-up of a user by one attribute, the services of
-- units, users and groups that the roles ask, and the order in which the database lists rows. Where
-- a theorem needs what they document, it is a hypothesis.
--
-- Fuel. The loop of the engine has no bound of its own in Go; run_nodes takes fuel, one unit for
-- each node, and a rank of an acyclic graph bounds what it needs; the service passes its fuel on,
-- and answers `running` when that is not enough. The climb over the parents of a unit has no bound
-- in Go either; climb takes one unit of fuel for each unit on the way, and the depth of the unit is
-- enough. All other loops recur on a list or a text.
--
-- Not modelled: logging, observability events, statistics of the caches, times in the history of a
-- flow, JSON and SQL texts, the HTTP handlers, the services around user schemas, users, resources
-- and groups, the lists of roles, the executors, and the cryptography.
mod Prelude
pub mod Cache
pub mod Oauth
pub mod Flow
pub mod UserSchema
pub mod OrgUnit
pub mod Role
