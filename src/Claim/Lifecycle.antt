-- ===== src/Claim/Lifecycle.antt =====
-- Every reconciliation keeps to the life cycle: one lemma for each handler of claim_*.go.
mod Writes
mod Active
mod New
use boilerhouse.Common.{
  ℕ, String, ◌≡◌, refl, Option, none, some, All, [], Bool-cases, inl, inr, arith, ◌==◌, eq_iff,
}
use boilerhouse.Types.Meta.{Key}
use boilerhouse.Types.Workload.{Workload, WorkloadPhase, IdleAction, WorkloadIdle}
use boilerhouse.Types.Claim.{
  Claim, ClaimStatus, Phase, Source, pending, active, released, release_failed, existing, cold,
}
use boilerhouse.Types.Pod.{Pod, PodPhase}
use boilerhouse.Cluster.{
  Env, Result, ok, err, Request, trace_of, call, ◌>>=◌, now, get_claim, update_claim_status,
  update_claim, get_pod, get_workload, delete_pod, update_pod,
}
use boilerhouse.Cluster.Keeps.{
  Keeps, Keeps-call, Keeps-bind, Keeps-if, Keeps-pure, Keeps-raise, Keeps-succeed, Keeps-wrapping,
  Keeps-or_wrap,
}
use boilerhouse.Claim.Reconciler.{Reconciler, write_status}
use boilerhouse.Claim.Quiet
use boilerhouse.Claim.Phases.{
  IsNew, Transition, enroll, activate, reject, release, fail_release, Connectable, Allowed,
  Allowed-Quiet,
}
use boilerhouse.Claim.Activate.{activate_claim, await_address, active_status}
use boilerhouse.Claim.Release.{
  mark_release_failed, mark_released, after_extract, release_pod, release_claim, Extracted,
}
use boilerhouse.Claim.Deletion
use boilerhouse.Claim.Deletion.{finish_deletion, delete_pod_of, handle_deletion}
use boilerhouse.Claim.Pods.{claim_from_pool, cold_boot}
use boilerhouse.Claim.Idle.{
  check_idle, monitor_idle, monitor, watch_idle, mark_lost, after_pod, handle_active,
}
use boilerhouse.Claim.Reconcile.{
  set_claim_error, take_pool_pod, obtain_pod, replace_pod, use_pod, use_existing, provide_pod,
  if_ready, with_workload, pend, find_workload, pend_first, handle_new_claim, by_phase, by_deletion,
  route, reconcile,
}
use boilerhouse.Claim.Lifecycle.Writes.{
  Quiet-call, deletes, write_status-Keeps, mark_release_failed-Keeps, mark_released-Keeps,
  after_extract-Keeps, release_pod-Keeps, release_claim-Keeps, finish_deletion-Keeps,
  after_deletion_extract-Keeps, delete_pod_of-Keeps, handle_deletion-Keeps,
}
use boilerhouse.Claim.Lifecycle.Active.{
  mark_lost-Keeps, check_idle-Keeps, monitor_idle-Keeps, monitor-Keeps, watch_idle-Keeps,
  after_pod-Keeps, handle_active-Keeps,
}
use boilerhouse.Claim.Lifecycle.New.{
  await_address-Keeps, activate_claim-Keeps, set_claim_error-Keeps, claim_from_pool-Keeps,
  cold_boot-Keeps, take_pool_pod-Keeps, obtain_pod-Keeps, replace_pod-Keeps, use_pod-Keeps,
  use_existing-Keeps, provide_pod-Keeps, if_ready-Keeps, with_workload-Keeps, pend-Keeps,
  find_workload-Keeps, pend_first-Keeps, handle_new_claim-Keeps,
}

module _ (claim : Claim) where
  by_phase-Keeps :
      (r : Reconciler) (p : Phase)
      → claim.status.phase ≡ p
      → Keeps (All (Allowed claim)) (by_phase r claim p)
  unfolding by_phase
  by_phase-Keeps r active h = handle_active-Keeps claim r h
  by_phase-Keeps r released h = Keeps-pure _
  by_phase-Keeps r release_failed h = Keeps-pure _
  by_phase-Keeps r _ h = handle_new_claim-Keeps claim r (ground arith)

  by_deletion-Keeps :
      (r : Reconciler) (o : Option ℕ) → Keeps (All (Allowed claim)) (by_deletion r claim o)
  unfolding by_deletion
  by_deletion-Keeps r (some t) = handle_deletion-Keeps claim r
  by_deletion-Keeps r none = by_phase-Keeps r _ refl

  pub route-Keeps : (r : Reconciler) → Keeps (All (Allowed claim)) (route r claim)
  unfolding route
  route-Keeps r = by_deletion-Keeps r _

-- A reconciliation that reads the claim `claim` writes claims only along the life cycle, in any world:
-- every status that it writes keeps the metadata and the spec and makes one step of `Transition` from
-- the phase that was read, an `active` status has an endpoint with a host, every other write leaves
-- spec and status alone, and no claim is created or deleted.
pub reconcile-Allowed :
    (r : Reconciler) (key : Key) (env : Env) (claim : Claim)
    → env [] (get_claim key) ≡ ok claim
    → All (Allowed claim) (trace_of (reconcile r key env []))
unfolding reconcile ◌>>=◌
reconcile-Allowed r key env claim h = rw h ((route-Keeps claim r).at env _ (tt, tt))
