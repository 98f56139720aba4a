-- ===== src/Claim/Idle.antt =====
-- go/internal/operator/claim_activate.go: `handleActive`.
use boilerhouse.Common.{ℕ, ◌+◌, ◌-◌, ◌*◌, Option, none, some, ◌==◌, leb, if◌then◌else◌}
use boilerhouse.Common.Dict.{lookup}
use boilerhouse.Common.Int.{is_positive, pos_part}
use boilerhouse.Types.Meta.{second}
use boilerhouse.Types.Workload.{Workload, WorkloadIdle, IdleAction, unset, hibernate}
use boilerhouse.Types.Claim.{Claim, released}
use boilerhouse.Types.Pod.{Pod}
use boilerhouse.Cluster.{
  M, Result, ok, err, is_not_found, Requeue, stop, after, ◌>>=◌, ◌>>◌, pure, raise, call, get_pod,
  get_workload, now,
}
use boilerhouse.Claim.Reconciler.{
  Reconciler, write_status, annotation_last_activity, idle_check_interval,
}
use boilerhouse.Claim.Release.{workload_key, release_claim}

-- The last activity that is on record: the annotation, or else the time of the claim.
unfoldable pub last_activity : Reconciler → Claim → Option ℕ
unfolding lookup
last_activity r claim =
    let noted : Option ℕ = elim (lookup annotation_last_activity claim.meta.annotations) [
      | none ↦ none
      | some text ↦ if text == "" then none else r.time.parse text
    ] in
    elim noted [ some t ↦ some t | none ↦ claim.status.claimed_at ]

unfoldable pub idle_action : WorkloadIdle → IdleAction
idle_action idle = elim idle.action [ unset ↦ hibernate | other ↦ other ]

-- `elapsed >= timeout` with both sides moved, so that an activity in the future needs no negative
-- number.
unfoldable pub check_idle : Reconciler → Claim → WorkloadIdle → Option ℕ → M Requeue
unfolding idle_action
check_idle r claim idle none = pure (after idle_check_interval)
check_idle r claim idle (some last) = do
  let deadline = last + pos_part idle.timeout_seconds * second
  clock ← call now
  if leb deadline clock
      then release_claim r claim (idle_action idle)
      else pure (after (deadline - clock))

unfoldable pub monitor_idle : Reconciler → Claim → Option WorkloadIdle → M Requeue
unfolding check_idle last_activity
monitor_idle r claim none = pure stop
monitor_idle r claim (some idle) =
    if is_positive idle.timeout_seconds
    then check_idle r claim idle (last_activity r claim)
    else pure stop

unfoldable pub monitor : Reconciler → Claim → Result Workload → M Requeue
unfolding monitor_idle
monitor r claim (err e) = if is_not_found e then pure stop else raise e
monitor r claim (ok wl) = monitor_idle r claim wl.spec.idle

unfoldable pub watch_idle : Reconciler → Claim → M Requeue
unfolding monitor workload_key
watch_idle r claim = do answer ← call (get_workload (workload_key claim)); monitor r claim answer

-- A claim whose Pod is gone points at a dead endpoint.
unfoldable pub mark_lost : Claim → M Requeue
unfolding write_status
mark_lost claim = do
  write_status claim (record (claim.status) {
    phase = released;
    detail = "backing pod no longer exists";
    endpoint = none;
  })
  pure stop

-- Only a Pod that is known to be missing counts; any other error is passed over.
unfoldable pub after_pod : Reconciler → Claim → Result Pod → M Requeue
unfolding mark_lost watch_idle
after_pod r claim (ok pod) = watch_idle r claim
after_pod r claim (err e) = if is_not_found e then mark_lost claim else watch_idle r claim

unfoldable pub handle_active : Reconciler → Claim → M Requeue
unfolding after_pod
handle_active r claim = if claim.status.instance_id == "" then watch_idle r claim else do
  answer ←
      call (get_pod (record { name = claim.status.instance_id; namespace = claim.meta.namespace }))
  after_pod r claim answer
