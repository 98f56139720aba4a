-- ===== src/Claim/Lifecycle/Active.antt =====
-- The handler of active claims (claim_activate.go) writes claims along the life cycle.
use boilerhouse.Common.{ℕ, ◌≡◌, refl, Option, none, some, All}
use boilerhouse.Types.Workload.{Workload, WorkloadIdle}
use boilerhouse.Types.Claim.{Claim, active}
use boilerhouse.Types.Pod.{Pod}
use boilerhouse.Cluster.{Result, ok, err, now, get_pod, get_workload}
use boilerhouse.Cluster.Keeps.{Keeps, Keeps-bind, Keeps-if, Keeps-pure, Keeps-raise}
use boilerhouse.Claim.Reconciler.{Reconciler}
use boilerhouse.Claim.Phases.{release, Allowed}
use boilerhouse.Claim.Idle.{
  check_idle, monitor_idle, monitor, watch_idle, mark_lost, after_pod, handle_active,
}
use boilerhouse.Claim.Lifecycle.Writes.{Quiet-call, write_status-Keeps, release_claim-Keeps}

module _ (claim : Claim) where
  pub mark_lost-Keeps : claim.status.phase ≡ active → Keeps (All (Allowed claim)) (mark_lost claim)
  unfolding mark_lost
  mark_lost-Keeps h =
      Keeps-bind _ _ (write_status-Keeps claim _ (release h refl) tt) (λ _. Keeps-pure _)

  pub check_idle-Keeps :
      (r : Reconciler) (idle : WorkloadIdle) (o : Option ℕ)
      → claim.status.phase ≡ active
      → Keeps (All (Allowed claim)) (check_idle r claim idle o)
  unfolding check_idle
  check_idle-Keeps r idle none h = Keeps-pure _
  check_idle-Keeps r idle (some last) h =
      Keeps-bind _ _ (Quiet-call claim now tt)
        (λ clock. Keeps-if _ _ _ (release_claim-Keeps claim r _ h) (Keeps-pure _))

  pub monitor_idle-Keeps :
      (r : Reconciler) (o : Option WorkloadIdle)
      → claim.status.phase ≡ active
      → Keeps (All (Allowed claim)) (monitor_idle r claim o)
  unfolding monitor_idle
  monitor_idle-Keeps r none h = Keeps-pure _
  monitor_idle-Keeps r (some idle) h = Keeps-if _ _ _ (check_idle-Keeps r idle _ h) (Keeps-pure _)

  pub monitor-Keeps :
      (r : Reconciler) (wl : Result Workload)
      → claim.status.phase ≡ active
      → Keeps (All (Allowed claim)) (monitor r claim wl)
  unfolding monitor
  monitor-Keeps r (err e) h = Keeps-if _ _ _ (Keeps-pure _) (Keeps-raise e)
  monitor-Keeps r (ok wl) h = monitor_idle-Keeps r _ h

  pub watch_idle-Keeps :
      (r : Reconciler)
      → claim.status.phase ≡ active
      → Keeps (All (Allowed claim)) (watch_idle r claim)
  unfolding watch_idle
  watch_idle-Keeps r h =
      Keeps-bind _ _ (Quiet-call claim (get_workload _) tt) (λ wl. monitor-Keeps r wl h)

  pub after_pod-Keeps :
      (r : Reconciler) (x : Result Pod)
      → claim.status.phase ≡ active
      → Keeps (All (Allowed claim)) (after_pod r claim x)
  unfolding after_pod
  after_pod-Keeps r (ok pod) h = watch_idle-Keeps r h
  after_pod-Keeps r (err e) h = Keeps-if _ _ _ (mark_lost-Keeps h) (watch_idle-Keeps r h)

  pub handle_active-Keeps :
      (r : Reconciler)
      → claim.status.phase ≡ active
      → Keeps (All (Allowed claim)) (handle_active r claim)
  unfolding handle_active
  handle_active-Keeps r h =
      Keeps-if _ _ _ (watch_idle-Keeps r h)
        (Keeps-bind _ _ (Quiet-call claim (get_pod _) tt) (λ x. after_pod-Keeps r x h))
