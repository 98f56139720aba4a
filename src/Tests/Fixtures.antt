-- ===== src/Tests/Fixtures.antt =====
-- A claim of a tenant on a workload, its Pod, and a world that answers for them.
use boilerhouse.Common.{◌*◌, String, true, false, List, [], ◌∷◌, none, some}
use boilerhouse.Common.Int.{pos}
use boilerhouse.Common.Time.{TimeFormat}
use boilerhouse.Types.Meta.{ObjectMeta, second}
use boilerhouse.Types.Workload.{Workload, hibernate, ready}
use boilerhouse.Types.Trigger.{Trigger, TriggerPhase}
use boilerhouse.Types.Workload.{creating}
use boilerhouse.Translate.Objects.{TranslateOpts}
use boilerhouse.Cluster.{replied, exited}
use boilerhouse.Types.Json.{Object, field, nothing}
use boilerhouse.Types.Json
use boilerhouse.Common.{if◌then◌else◌, ◌==◌}
use boilerhouse.Types.Claim.{Claim, active, cold}
use boilerhouse.Types.Pool.{Pool, PoolPhase}
use boilerhouse.Types.Pod.{Pod, running}
use boilerhouse.Translate.Objects.{label_tenant, label_workload, label_pool_status}
use boilerhouse.Cluster.{Env, Trace, Request, Response, ok, err, api, message, not_found, get_claim}
use boilerhouse.Cluster
use boilerhouse.Claim.Reconciler.{Reconciler, finalizer_name}

abbrev pub any_time : TimeFormat
any_time = record { parse = λ text. some 86_400_000_000_003; format = λ time. "1970" }

abbrev pub meta_named : String → List String → ObjectMeta
meta_named name finalizers = record {
  name = name;
  namespace = "default";
  labels = [];
  annotations = [];
  finalizers = finalizers;
  owners = [];
  deletion_timestamp = none;
  creation_timestamp = none;
  generation = 1;
}

abbrev pub reconciler : Reconciler
reconciler = record {
  snapshots = true;
  namespace = "default";
  api_service_url = "";
  extract_retry_backoff = 1 ∷ 2 ∷ [];
  time = any_time;
  decode_env = λ raw. ok [];
}

abbrev pub claim : Claim
claim = record {
  meta = meta_named "claim-ann-shell" (finalizer_name ∷ []);
  spec = record { tenant_id = "ann"; workload_ref = "shell"; resume = none };
  status = record {
    phase = active;
    instance_id = "shell-ann-1";
    endpoint = none;
    source = cold;
    claimed_at = some 5;
    detail = "";
  };
}

abbrev pub workload : Workload
workload = record {
  meta = meta_named "shell" (finalizer_name ∷ []);
  spec = record {
    version = "1";
    image = record { ref = "shell:1"; dockerfile = "" };
    resources = record { vcpus = pos 1; memory_mb = pos 512; disk_gb = pos 1 };
    network = none;
    filesystem = some (record { overlay_dirs = "/home" ∷ [] });
    idle = some (record { timeout_seconds = pos 60; action = hibernate });
    health = none;
    entrypoint = none;
    api_access = none;
  };
  status = record { phase = ready; detail = ""; observed_generation = 1 };
}

abbrev pub pod : Pod
pod = record {
  meta = record (meta_named "shell-ann-1" []) {
    labels = (label_tenant, "ann") ∷ (label_workload, "shell") ∷ (label_pool_status, "ready") ∷ [];
  };
  containers = [];
  init_containers = [];
  volumes = [];
  automount_token = false;
  phase = running;
  pod_ip = "10.0.0.1";
  conditions = [];
}

abbrev pub pool : Pool
pool = record {
  meta = meta_named "shells" (finalizer_name ∷ []);
  spec = record { workload_ref = "shell"; size = 3; max_fill_concurrency = none };
  status = record { ready = 0; warming = 0; phase = PoolPhase.unset };
}

-- A workload whose image is being built.
abbrev pub image_workload : Workload
image_workload = record workload {
  spec = record (workload.spec) { image = record { ref = ""; dockerfile = "shell/Dockerfile" } };
  status = record { phase = creating; detail = ""; observed_generation = 1 };
}

abbrev pub trigger : Trigger
trigger = record {
  meta = meta_named "hook" (finalizer_name ∷ []);
  spec = record {
    type = "webhook";
    workload_ref = "shell";
    tenant = some (record { static = ""; from = "user"; prefix = "t-" });
    driver = "";
    driver_options = none;
    guards = [];
    config = none;
  };
  status = record { phase = TriggerPhase.active; detail = "" };
}

abbrev pub translate_opts : TranslateOpts
translate_opts = record {
  instance_id = "shell-ann-1";
  workload_name = "shell";
  tenant_id = "ann";
  namespace = "default";
  pool_status = "";
  image_ref = "shell:1";
  proxy_config = none;
  claim_token_secret = "";
  api_service_url = "";
}

-- A message of a user without a name, in chat 7.
abbrev pub update : Object
update =
    ("update_id", Json.number (pos 5))
    ∷ (
      "message",
      Json.object (
          field "text" (Json.text "hi") (
            field "chat" (Json.object (field "id" (Json.number (pos 7)) nothing))
              (field "from" (Json.object (field "id" (Json.number (pos 42)) nothing)) nothing))),
    )
    ∷ []

-- A world where everything exists and every write succeeds.
abbrev pub world : Env
world t (Cluster.get_claim key) = ok claim
world t (Cluster.get_workload key) = ok (if key.name == "image" then image_workload else workload)
world t (Cluster.get_pool key) = ok pool
world t (Cluster.get_trigger key) = ok trigger
world t (Cluster.get_pod key) = ok pod
world t (Cluster.get_secret key) = err (api (not_found "no secret"))
world t (Cluster.list_pods ns labels) = ok (pod ∷ [])
world t (Cluster.update_pod p) = ok p
world t (Cluster.create_pod p) = ok p
world t (Cluster.has_snapshot tenant w) = ok true
world t (Cluster.sleep d) = true
world t (Cluster.call_guard url tenant) = ok (replied 200 (ok (some true, "")))
world t (Cluster.send_event url tenant) = ok "done"
world t Cluster.tick = true
world t (Cluster.generate_tls domains) = ok (record { ca_cert = "ca"; certs = [] })
world t Cluster.now = 120 * second
world t Cluster.random_suffix = "a1"
world t Cluster.random_token = ok "secret"
world t (Cluster.create_trigger created) = ok created
world t (Cluster.create_workload created) = ok created
world t (Cluster.list_triggers ns labels) = ok (trigger ∷ [])
world t (Cluster.list_claims ns labels) = ok (claim ∷ [])
world t (Cluster.list_workloads ns) = ok (workload ∷ [])
world t (Cluster.kubectl args stdin) = exited 0 "" ""
world t Cluster.running = true
world t (Cluster.get_updates token offset timeout types) = ok (update ∷ [])
world t (Cluster.dispatch payload) = ok (Json.text "done")
world t _ = none
