-- ===== src/Api/Triggers/Prefix.antt =====
-- The tenant that a trigger of a scoped caller acts for, once go/internal/trigger/tenant_resolution.go reads it.
use boilerhouse.Common.{String, false, none, some, ◌==◌, ◌≡◌, refl, ==_self, ◌<>◌}
use boilerhouse.Types.Trigger.{TriggerSpec}
use boilerhouse.Cluster.{ok}
use boilerhouse.Trigger.Tenant.{Raw, resolve_tenant_id}
use boilerhouse.Api.Auth.{AuthContext}
use boilerhouse.Api.Triggers.{scoped_refusal, is_static_tenant}
use boilerhouse.Api.Triggers.Isolation.{not_refused-Owned}

-- The same trigger with another prefix before its tenant.
abbrev pub with_prefix : AuthContext → TriggerSpec → String → TriggerSpec
with_prefix a spec p = record spec {
  tenant = some (record { static = a.tenant_id; from = ""; prefix = p });
}

-- Whatever trigger the API lets a scoped caller create, it lets the caller create with any prefix too, and the
-- gateway then handles its events for that prefix followed by the caller's tenant, whatever the event: for a
-- tenant other than the caller's, wherever the prefix is not empty.
pub scoped_refusal-prefix :
    (a : AuthContext) (spec : TriggerSpec) (p : String)
    → scoped_refusal a spec ≡ none
    → (a.tenant_id == "") ≡ false
    → (scoped_refusal a (with_prefix a spec p) ≡ none)
      × ((raw : Raw) → resolve_tenant_id (with_prefix a spec p).tenant raw ≡ ok (p <> a.tenant_id))
unfolding scoped_refusal is_static_tenant resolve_tenant_id
scoped_refusal-prefix a spec p passes named =
    let (cron, (mine, owned)) = not_refused-Owned a spec passes in
    (rw (cron, mine, ==_self a.workload, ==_self a.tenant_id) refl, λ raw. rw named refl)
