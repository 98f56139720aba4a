-- ===== src/Tests/Routes.antt =====
-- The routes of the API, run with the token of a claim and on one claim.
use boilerhouse.Common.{ℕ, ◌+◌, ◌≤◌, ◌*◌, true, [], ◌∷◌, none, some, ◌≡◌, refl, arith, ◌<>◌, All}
use boilerhouse.Types.Meta.{second}
use boilerhouse.Types.Trigger.{TriggerSpec, active}
use boilerhouse.Trigger.Tenant.{Raw, resolve_tenant_id}
use boilerhouse.Cluster.{
  Env, Trace, trace_of, Event, event, Response, Request, Result, ok, err, returns, ◌>>=◌, call, now,
  sleep, get_trigger,
}
use boilerhouse.Cluster
use boilerhouse.Api.Auth.{AuthContext, scoped}
use boilerhouse.Api.Reply.{Server, wrote}
use boilerhouse.Api.Triggers.{
  TriggerRequest, TriggerResponse, scoped_refusal, create_trigger_route, delete_trigger_route,
  list_triggers_route, get_trigger_route, is_static_tenant, trigger_owns_scope,
}
use boilerhouse.Api.Triggers.Isolation.{Confined, Owned, trigger_routes-Confined}
use boilerhouse.Api.Triggers.Prefix.{with_prefix, scoped_refusal-prefix}
use boilerhouse.Api.Router.{build_router}
use boilerhouse.Api.Router.Admission.{RouteServes, build_router-Serves}
use boilerhouse.Api.Claims.{poll_claim, poll_loop}
use boilerhouse.Api.Claims.Polling.{Advances, poll_claim-enough}
use boilerhouse.Api.Claims.Acquiring.{Careful}
use boilerhouse.Api.Tenants.{ClaimRequest, workload_name, claim_instance, group_of, group_claims}
use boilerhouse.Api.Tenants.Grouping.{of_tenant, group_claims-of_tenant}
use boilerhouse.Api.Tenants.Claiming.{claim_instance-Careful}
use boilerhouse.Api.System.{count_at, stats_of}
use boilerhouse.Api.System.Counts.{occurrences, sum_counts, stats_of-counts}
use boilerhouse.Tests.Fixtures.{any_time, claim, world, meta_named}

abbrev server : Server
server = record { namespace = "default"; time = any_time }

abbrev ann : AuthContext
ann = record {
  kind = scoped;
  tenant_id = "ann";
  workload = "shell";
  claim_id = "claim-ann-shell";
  scopes = "agent-triggers:read" ∷ "agent-triggers:write" ∷ [];
}

abbrev cron_spec : TriggerSpec
cron_spec = record {
  type = "cron";
  workload_ref = "shell";
  tenant = some (record { static = "ann"; from = ""; prefix = "" });
  driver = "";
  driver_options = none;
  guards = [];
  config = none;
}

abbrev request : TriggerRequest
request = record { name = "nightly"; spec = cron_spec }

-- In this world the triggers are the tenant's own.
abbrev own_world : Env
own_world t (Cluster.get_trigger key) = ok (record {
  meta = meta_named "nightly" [];
  spec = cron_spec;
  status = record { phase = active; detail = "" };
})
own_world t r = world t r

trigger_routes-Confined_example :
    Confined ann (trace_of (create_trigger_route server (some ann) (ok request) own_world []))
    × Confined ann (trace_of (delete_trigger_route server (some ann) "nightly" own_world []))
    × Confined ann (trace_of (list_triggers_route server (some ann) own_world []))
    × ((code : ℕ) (r : TriggerResponse) (h : Trace)
        → get_trigger_route server (some ann) "nightly" own_world [] ≡ returns (wrote code r) h
        → Owned ann r.spec)
trigger_routes-Confined_example =
    trigger_routes-Confined server ann (ok request) "nightly" own_world refl

cron_spec_passes : scoped_refusal ann cron_spec ≡ none
unfolding scoped_refusal is_static_tenant trigger_owns_scope
cron_spec_passes = refl

scoped_refusal-prefix_example :
    (scoped_refusal ann (with_prefix ann cron_spec "bob-") ≡ none)
    × ((raw : Raw)
        → resolve_tenant_id (with_prefix ann cron_spec "bob-").tenant raw
          ≡ ok ("bob-" <> ann.tenant_id))
scoped_refusal-prefix_example = scoped_refusal-prefix ann cron_spec "bob-" cron_spec_passes refl

build_router-Serves_example :
    All (RouteServes (λ token. token) any_time 1 none "key" "Bearer key" []) build_router
build_router-Serves_example =
    build_router-Serves (λ token. token) any_time 1 none "key" "Bearer key" [] refl

-- How long the sleeps took that were not cut short.
abbrev elapsed : Trace → ℕ
elapsed [] = 0
elapsed (event (sleep d) true ∷ t) = elapsed t + d
elapsed (_ ∷ t) = elapsed t

abbrev timed_world : Env
timed_world t Cluster.now = elapsed t
timed_world t r = world t r

elapsed_more : (t : Trace) (e : Event) → elapsed t ≤ elapsed (e ∷ t)
elapsed_more t (event (sleep d) true) = omega arith
elapsed_more t (event _ x) = omega arith

timed_world-Advances : Advances timed_world
timed_world-Advances = record { forward = elapsed_more; asleep = λ t d. omega arith }

poll_claim-enough_example :
    poll_claim server "claim-ann-shell" (30 * second) (500_000_000) timed_world []
    ≡ (call now >>= λ clock.
          poll_loop server "claim-ann-shell" (clock + 30 * second) 500_000_000 100)
        timed_world []
poll_claim-enough_example =
    poll_claim-enough timed_world server "claim-ann-shell" (30 * second) 500_000_000 100 []
      timed_world-Advances (omega arith) (omega arith)

group_claims-of_tenant_example :
    group_of "ann" (group_claims server [] (claim ∷ claim ∷ []))
    ≡ of_tenant server "ann" (claim ∷ claim ∷ [])
group_claims-of_tenant_example = group_claims-of_tenant server "ann" (claim ∷ claim ∷ [])

abbrev claim_request : ClaimRequest
claim_request = record { workload = "shell"; workload_ref = ""; resume = some true }

claim_instance-Careful_example :
    Careful server "ann"
      (workload_name claim_request)
      claim_request.resume
      (trace_of (claim_instance server "ann" (ok claim_request) world []))
claim_instance-Careful_example = claim_instance-Careful server "ann" claim_request world

stats_of-counts_example :
    (count_at "Active" (stats_of ("Active" ∷ "Pending" ∷ "Active" ∷ [])).by_phase
      ≡ occurrences "Active" ("Active" ∷ "Pending" ∷ "Active" ∷ []))
    × (sum_counts (stats_of ("Active" ∷ "Pending" ∷ "Active" ∷ [])).by_phase
        ≡ (stats_of ("Active" ∷ "Pending" ∷ "Active" ∷ [])).total)
stats_of-counts_example = stats_of-counts ("Active" ∷ "Pending" ∷ "Active" ∷ []) "Active"
