-- ===== src/Api/Router.antt =====
-- `NewServer`, `buildRouter` and `cors` of go/internal/api/server.go: which handler answers which request, and
-- behind which middleware. The matching of paths is that of the router, github.com/go-chi/chi.
pub mod Admission
use boilerhouse.Common.{
  ℕ, String, Bool, true, false, List, [], ◌∷◌, ◌++◌, Option, none, some, ◌==◌, ◌||◌, map,
  if◌then◌else◌,
}
use boilerhouse.Common.Time.{TimeFormat}
use boilerhouse.Common.Split.{split}
use boilerhouse.Types.Pod.{Secret}
use boilerhouse.Scope
use boilerhouse.Api.Auth.{Context, Verdict, passed, refused, require_admin, require_scope, behind}
use boilerhouse.Api.TokenStore.{Entries, trimmed_parts}
use boilerhouse.Api.Authenticate.{authenticate}

pub data Handler : Type 0 where
  web_socket get_health get_stats : Handler
  create_workload list_workloads get_workload update_workload delete_workload : Handler
  list_workload_snapshots list_snapshots : Handler
  claim_instance release_instance get_tenant list_tenants : Handler
  list_instances get_instance get_instance_logs exec_in_instance destroy_instance : Handler
  list_debug_resources : Handler
  list_triggers get_trigger create_trigger delete_trigger : Handler

-- The middleware before a handler.
pub data Access : Type 0 where
  anyone : Access
  admins : Access
  holders : String → Access

pub record Route : Type 0 where
  pub method : String
  pub path : String
  pub access : Access
  pub handler : Handler

abbrev route : String → String → Access → Handler → Route
route method path access handler = record {
  method = method;
  path = path;
  access = access;
  handler = handler;
}

unfoldable pub open_routes : List Route
open_routes =
    route "GET" "/ws" anyone web_socket
    ∷ route "GET" "/api/v1/health" anyone get_health
    ∷ route "GET" "/api/v1/stats" anyone get_stats
    ∷ []

unfoldable pub admin_routes : List Route
admin_routes =
    route "POST" "/api/v1/workloads" admins create_workload
    ∷ route "GET" "/api/v1/workloads" admins list_workloads
    ∷ route "GET" "/api/v1/workloads/{name}" admins get_workload
    ∷ route "PUT" "/api/v1/workloads/{name}" admins update_workload
    ∷ route "DELETE" "/api/v1/workloads/{name}" admins delete_workload
    ∷ route "GET" "/api/v1/workloads/{name}/snapshots" admins list_workload_snapshots
    ∷ route "GET" "/api/v1/snapshots" admins list_snapshots
    ∷ route "POST" "/api/v1/tenants/{id}/claim" admins claim_instance
    ∷ route "POST" "/api/v1/tenants/{id}/release" admins release_instance
    ∷ route "GET" "/api/v1/tenants/{id}" admins get_tenant
    ∷ route "GET" "/api/v1/tenants" admins list_tenants
    ∷ route "GET" "/api/v1/instances" admins list_instances
    ∷ route "GET" "/api/v1/instances/{id}" admins get_instance
    ∷ route "GET" "/api/v1/instances/{id}/logs" admins get_instance_logs
    ∷ route "POST" "/api/v1/instances/{id}/exec" admins exec_in_instance
    ∷ route "POST" "/api/v1/instances/{id}/destroy" admins destroy_instance
    ∷ route "GET" "/api/v1/debug/resources" admins list_debug_resources
    ∷ []

unfoldable pub trigger_routes : List Route
trigger_routes =
    route "GET" "/api/v1/triggers" (holders Scope.agent_triggers_read) list_triggers
    ∷ route "GET" "/api/v1/triggers/{id}" (holders Scope.agent_triggers_read) get_trigger
    ∷ route "POST" "/api/v1/triggers" (holders Scope.agent_triggers_write) create_trigger
    ∷ route "DELETE" "/api/v1/triggers/{id}" (holders Scope.agent_triggers_write) delete_trigger
    ∷ []

unfoldable pub build_router : List Route
unfolding open_routes admin_routes trigger_routes
build_router = open_routes ++ admin_routes ++ trigger_routes

-- What the middleware of a route does with a request: its bearer token is the header.
module _ (hash : String → String) (time : TimeFormat) (clock : ℕ)
    (secrets : Option (List Secret)) where
  unfoldable pub admit : Access → String → String → Option Entries → Verdict
  unfolding authenticate behind require_admin require_scope
  admit anyone api_key header tokens = passed none
  admit admins api_key header tokens =
      behind (authenticate hash time clock secrets api_key header tokens).0 require_admin
  admit (holders s) api_key header tokens =
      behind (authenticate hash time clock secrets api_key header tokens).0 (require_scope s)

-- The parts of `CORS_ORIGIN`.
unfoldable pub cors_origins : String → List String
unfolding trimmed_parts
cors_origins v = if v == "" then [] else trimmed_parts (split 44 v)

unfoldable pub is_allowed : String → List String → Bool
is_allowed origin [] = false
is_allowed origin (o ∷ os) = if o == "*" || o == origin then true else is_allowed origin os

-- The origin that the response names, if any; and whether the request ends there, as a preflight with status 204.
unfoldable pub cors : List String → String → String → Option String × Bool
unfolding is_allowed
cors [] method origin = (none, false)
cors (o ∷ os) method origin =
    (if is_allowed origin (o ∷ os) then some origin else none, method == "OPTIONS")
