-- ===== src/Tests/Workloads.antt =====
-- Workloads and triggers, run on one of each.
use boilerhouse.Common.{List, [], ◌∷◌, refl}
use boilerhouse.Types.Meta.{Key}
use boilerhouse.Cluster.{trace_of}
use boilerhouse.Translate.Objects.{build_labels}
use boilerhouse.Translate.Container.{main_container, build_container}
use boilerhouse.Translate.Build.{TranslateResult, translated, pod_of, translate, build_pod}
use boilerhouse.Translate.Isolation.{Isolates, translate-Isolates}
use boilerhouse.Workload.Reconcile.{reconcile_workload}
use boilerhouse.Workload.Readiness.{IsSound, reconcile_workload-IsSound}
use boilerhouse.Trigger.Tenant.{Raw, object, text, resolve_tenant_id}
use boilerhouse.Trigger.Guards.{Guard, allowlist, api_guard}
use boilerhouse.Trigger.Gateway.{handle_event, claim_key}
use boilerhouse.Trigger.Clearing.{Guarded}
use boilerhouse.Trigger.Forwarding.{handle_event-Guarded}
use boilerhouse.Trigger.Reconcile.{reconcile_trigger}
use boilerhouse.Trigger.Activity.{IsHonest, reconcile_trigger-IsHonest}
use boilerhouse.Common.Dict.{lookup}
use boilerhouse.Common.Int.{pos}
use boilerhouse.Tests.Fixtures.{workload, reconciler, world, trigger, translate_opts}

abbrev image_key : Key
image_key = record { name = "image"; namespace = "default" }

reconcile_workload-IsSound_example : IsSound (trace_of (reconcile_workload image_key world []))
reconcile_workload-IsSound_example = reconcile_workload-IsSound image_key world

reconcile_trigger-IsHonest_example : IsHonest (trace_of (reconcile_trigger image_key world []))
reconcile_trigger-IsHonest_example = reconcile_trigger-IsHonest image_key world

abbrev shell_objects : TranslateResult
shell_objects = translated workload.spec translate_opts (build_labels translate_opts) (
    pod_of workload.spec translate_opts (build_labels translate_opts)
      (main_container workload.spec translate_opts))

translate-Isolates_example : Isolates workload.spec.network shell_objects
unfolding translate build_pod build_container
translate-Isolates_example =
    translate-Isolates reconciler.decode_env workload.spec translate_opts shell_objects refl

abbrev guards : List Guard
guards =
    allowlist ("t-ann" ∷ []) ""
    ∷ api_guard (record {
      trigger_name = "hook";
      url = "http://guard";
      timeout = pos 2_000_000_000;
      token = "";
      misconfigured = "";
    })
    ∷ []

abbrev payload : Raw
payload = object (("user", text "ann") ∷ [])

handle_event-Guarded_example :
    Guarded "t-ann"
      (claim_key "default" "t-ann" "shell")
      guards
      (trace_of (handle_event "default" trigger guards payload world []))
unfolding resolve_tenant_id lookup
handle_event-Guarded_example =
    handle_event-Guarded "default" trigger guards payload "t-ann" world refl
