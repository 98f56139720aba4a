-- ===== src/Api/Workloads.antt =====
-- go/internal/api/routes_workload.go.
use boilerhouse.Common.{String, List, ◌==◌, map, if◌then◌else◌}
use boilerhouse.Types.Meta.{Key}
use boilerhouse.Types.Workload.{Workload, WorkloadSpec, WorkloadStatus, WorkloadPhase}
use boilerhouse.Cluster.{
  M, Result, ◌>>=◌, pure, call, get_workload, create_workload, update_workload, delete_workload,
  list_workloads,
}
use boilerhouse.Api.Reply.{Reply, wrote, refused, Server, or_refuse, unless_refused, show_time}
use boilerhouse.Api.Claims.{bare_meta}

pub record WorkloadRequest : Type 0 where
  pub name : String
  pub spec : WorkloadSpec

pub record WorkloadResponse : Type 0 where
  pub name : String
  pub spec : WorkloadSpec
  pub status : WorkloadStatus
  pub created_at : String

unfoldable pub to_workload_response : Server → Workload → WorkloadResponse
unfolding show_time
to_workload_response s wl = record {
  name = wl.meta.name;
  spec = wl.spec;
  status = wl.status;
  created_at = show_time s.time wl.meta.creation_timestamp;
}

unfoldable pub workload_key : Server → String → Key
workload_key s name = record { name = name; namespace = s.namespace }

unfoldable pub new_workload : Server → WorkloadRequest → Workload
unfolding bare_meta workload_key
new_workload s req = record {
  meta = bare_meta (workload_key s req.name);
  spec = req.spec;
  status = record { phase = WorkloadPhase.unset; detail = ""; observed_generation = 0 };
}

unfoldable pub create_workload_route : Server → Result WorkloadRequest → M (Reply WorkloadResponse)
unfolding or_refuse new_workload to_workload_response
create_workload_route s body = or_refuse 400 "invalid JSON: " body (λ req.
    if req.name == "" then pure (refused 400 "name is required") else (do
      answer ← call (create_workload (new_workload s req))
      or_refuse 500 "failed to create workload: " answer
          (λ wl. pure (wrote 201 (to_workload_response s wl)))))

unfoldable pub list_workloads_route : Server → M (Reply (List WorkloadResponse))
unfolding or_refuse to_workload_response
list_workloads_route s = do
  answer ← call (list_workloads s.namespace)
  or_refuse 500 "failed to list workloads: " answer
      (λ found. pure (wrote 200 (map (to_workload_response s) found)))

unfoldable pub get_workload_route : Server → String → M (Reply WorkloadResponse)
unfolding or_refuse to_workload_response workload_key
get_workload_route s name = do
  answer ← call (get_workload (workload_key s name))
  or_refuse 404 "workload not found: " answer (λ wl. pure (wrote 200 (to_workload_response s wl)))

-- The spec of the object that was read is replaced.
unfoldable pub update_workload_route :
    Server → String → Result WorkloadRequest → M (Reply WorkloadResponse)
unfolding or_refuse unless_refused to_workload_response workload_key
update_workload_route s name body = or_refuse 400 "invalid JSON: " body (λ req. do
  answer ← call (get_workload (workload_key s name))
  or_refuse 404 "workload not found: " answer (λ wl. do
    let changed = record wl { spec = req.spec }
    outcome ← call (update_workload changed)
    unless_refused 500 "failed to update workload: " outcome
        (pure (wrote 200 (to_workload_response s changed)))))

unfoldable pub delete_workload_route : Server → String → M (Reply String)
unfolding unless_refused workload_key
delete_workload_route s name = do
  outcome ← call (delete_workload (workload_key s name))
  unless_refused 404 "workload not found: " outcome (pure (wrote 200 "deleted"))
