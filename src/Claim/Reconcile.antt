-- ===== src/Claim/Reconcile.antt =====
-- go/internal/operator/claim_controller.go: routing by phase, and claims that are not active yet.
use boilerhouse.Common.{ℕ, ◌*◌, String, Option, none, some, if◌then◌else◌}
use boilerhouse.Types.Meta.{Key, second}
use boilerhouse.Types.Workload.{Workload, WorkloadPhase}
use boilerhouse.Types.Claim.{Claim, Phase, Source, pending, active, released, release_failed}
use boilerhouse.Types.Pod.{Pod, PodPhase}
use boilerhouse.Cluster.{
  M, Result, ok, err, is_not_found, Requeue, stop, again, after, ◌>>=◌, ◌>>◌, pure, raise, call,
  succeed, unless_missing, get_claim, get_workload, update_claim, delete_pod,
}
use boilerhouse.Claim.Reconciler.{Reconciler, write_status, contains_finalizer, add_finalizer}
use boilerhouse.Claim.Release.{workload_key, find_tenant_pod, find_pool_pod}
use boilerhouse.Claim.Deletion.{handle_deletion}
use boilerhouse.Claim.Activate.{activate_claim}
use boilerhouse.Claim.Pods.{claim_from_pool, cold_boot}
use boilerhouse.Claim.Idle.{handle_active}

unfoldable pub set_claim_error : Claim → String → M Requeue
unfolding write_status
set_claim_error claim detail = do
  write_status claim (record (claim.status) { phase = Phase.error; detail = detail })
  pure stop

unfoldable pub take_pool_pod : Reconciler → Claim → Workload → Option Pod → M Requeue
unfolding claim_from_pool cold_boot
take_pool_pod r claim wl (some pod) = claim_from_pool r claim pod
take_pool_pod r claim wl none = cold_boot r claim wl

unfoldable pub obtain_pod : Reconciler → Claim → Workload → M Requeue
unfolding take_pool_pod find_pool_pod
obtain_pod r claim wl = do
  pod ← find_pool_pod claim.meta.namespace claim.spec.workload_ref
  take_pool_pod r claim wl pod

-- A terminal Pod is deleted and replaced.
unfoldable pub replace_pod : Reconciler → Claim → Workload → Pod → M Requeue
unfolding obtain_pod
replace_pod r claim wl pod = do
  outcome ← call (delete_pod pod)
  succeed (unless_missing outcome)
  obtain_pod r claim wl

-- Any other phase waits for the Pod rather than creating another.
unfoldable pub use_pod : Reconciler → Claim → Workload → Pod → PodPhase → M Requeue
unfolding replace_pod activate_claim
use_pod r claim wl pod PodPhase.running = activate_claim claim pod Source.existing
use_pod r claim wl pod PodPhase.failed = replace_pod r claim wl pod
use_pod r claim wl pod PodPhase.succeeded = replace_pod r claim wl pod
use_pod r claim wl pod _ = pure (after (2 * second))

unfoldable pub use_existing : Reconciler → Claim → Workload → Option Pod → M Requeue
unfolding use_pod obtain_pod
use_existing r claim wl none = obtain_pod r claim wl
use_existing r claim wl (some pod) = use_pod r claim wl pod pod.phase

unfoldable pub provide_pod : Reconciler → Claim → Workload → M Requeue
unfolding use_existing find_tenant_pod
provide_pod r claim wl = do
  pod ← find_tenant_pod claim.meta.namespace claim.spec.tenant_id claim.spec.workload_ref
  use_existing r claim wl pod

unfoldable pub if_ready : Reconciler → Claim → Workload → WorkloadPhase → M Requeue
unfolding set_claim_error provide_pod
if_ready r claim wl WorkloadPhase.ready = provide_pod r claim wl
if_ready r claim wl _ = set_claim_error claim "workload not ready"

unfoldable pub with_workload : Reconciler → Claim → Result Workload → M Requeue
unfolding set_claim_error if_ready
with_workload r claim (err e) =
    if is_not_found e then set_claim_error claim "workload not found" else raise e
with_workload r claim (ok wl) = if_ready r claim wl wl.status.phase

unfoldable pub pend : Claim → M Requeue
unfolding write_status
pend claim = do write_status claim (record (claim.status) { phase = pending }); pure again

unfoldable pub find_workload : Reconciler → Claim → M Requeue
unfolding with_workload workload_key
find_workload r claim = do
  answer ← call (get_workload (workload_key claim))
  with_workload r claim answer

unfoldable pub pend_first : Reconciler → Claim → Phase → M Requeue
unfolding pend find_workload
pend_first r claim pending = find_workload r claim
pend_first r claim _ = pend claim

unfoldable pub handle_new_claim : Reconciler → Claim → M Requeue
unfolding pend_first
handle_new_claim r claim =
    if contains_finalizer claim.meta then pend_first r claim claim.status.phase else do
      outcome ← call (update_claim (record claim { meta = add_finalizer claim.meta }))
      succeed outcome
      pure again

-- Released claims and failed releases are left alone.
unfoldable pub by_phase : Reconciler → Claim → Phase → M Requeue
unfolding handle_active handle_new_claim
by_phase r claim active = handle_active r claim
by_phase r claim released = pure stop
by_phase r claim release_failed = pure stop
by_phase r claim _ = handle_new_claim r claim

unfoldable pub by_deletion : Reconciler → Claim → Option ℕ → M Requeue
unfolding handle_deletion by_phase
by_deletion r claim (some t) = handle_deletion r claim
by_deletion r claim none = by_phase r claim claim.status.phase

unfoldable pub route : Reconciler → Claim → M Requeue
unfolding by_deletion
route r claim = by_deletion r claim claim.meta.deletion_timestamp

unfoldable pub route_found : Reconciler → Result Claim → M Requeue
unfolding route
route_found r (ok claim) = route r claim
route_found r (err e) = if is_not_found e then pure stop else raise e

unfoldable pub reconcile : Reconciler → Key → M Requeue
unfolding route_found
reconcile r key = do answer ← call (get_claim key); route_found r answer
