-- ===== src/Trigger/Tenant.antt =====
-- go/internal/trigger/tenant_resolution.go.
use boilerhouse.Common.{String, Option, none, some, ◌==◌, ◌<>◌, if◌then◌else◌}
use boilerhouse.Common.Dict.{Dict, lookup}
use boilerhouse.Types.Trigger.{TriggerTenant}
use boilerhouse.Sidecar.{quote}
use boilerhouse.Cluster.{Result, ok, err, message}

-- The raw payload of an event, as far as `ResolveTenantId` tells values apart.
pub data Value : Type 0 where
  text : String → Value
  no_text : Value

pub data Raw : Type 0 where
  object : Dict Value → Raw
  no_object : Raw

unfoldable pub text_field : TriggerTenant → Option Value → Result String
text_field tenant none = err (message ("field " <> quote tenant.from <> " not found in payload"))
text_field tenant (some no_text) =
    err (message ("field " <> quote tenant.from <> " is not a string"))
text_field tenant (some (text s)) = ok (tenant.prefix <> s)

unfoldable pub from_payload : TriggerTenant → Raw → Result String
unfolding lookup text_field
from_payload tenant no_object =
    err (message "cannot extract tenant from payload: raw is not an object")
from_payload tenant (object fields) = text_field tenant (lookup tenant.from fields)

unfoldable pub resolve_tenant_id : Option TriggerTenant → Raw → Result String
unfolding from_payload
resolve_tenant_id none raw = err (message "tenant configuration is required")
resolve_tenant_id (some tenant) raw =
    if tenant.static == ""
    then (if tenant.from == ""
        then err (message "tenant.static or tenant.from must be set")
        else from_payload tenant raw)
    else ok (tenant.prefix <> tenant.static)
