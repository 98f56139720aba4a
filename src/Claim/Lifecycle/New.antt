-- ===== src/Claim/Lifecycle/New.antt =====
-- The handlers of new claims (claim_controller.go, claim_pods.go, claim_activate.go) write claims along the life
-- cycle.
use boilerhouse.Common.{
  String, ◌≡◌, refl, Option, none, some, All, Bool-cases, inl, inr, arith, ◌==◌, eq_iff,
}
use boilerhouse.Types.Workload.{Workload, WorkloadPhase}
use boilerhouse.Types.Claim.{Claim, Phase, Source, pending, existing, cold}
use boilerhouse.Types.Pod.{Pod, PodPhase}
use boilerhouse.Cluster.{Result, ok, err, now, update_claim, get_workload, update_pod}
use boilerhouse.Cluster.Keeps.{
  Keeps, Keeps-call, Keeps-bind, Keeps-if, Keeps-pure, Keeps-raise, Keeps-succeed, Keeps-wrapping,
  Keeps-or_wrap,
}
use boilerhouse.Claim.Reconciler.{Reconciler}
use boilerhouse.Claim.Quiet
use boilerhouse.Claim.Phases.{IsNew, enroll, activate, reject, Allowed, Allowed-Quiet}
use boilerhouse.Claim.Activate.{activate_claim, await_address, active_status}
use boilerhouse.Claim.Pods.{claim_from_pool, cold_boot}
use boilerhouse.Claim.Reconcile.{
  set_claim_error, take_pool_pod, obtain_pod, replace_pod, use_pod, use_existing, provide_pod,
  if_ready, with_workload, pend, find_workload, pend_first, handle_new_claim,
}
use boilerhouse.Claim.Lifecycle.Writes.{Quiet-call, deletes, write_status-Keeps}

module _ (claim : Claim) where
  pub await_address-Keeps :
      (pod : Pod) (source : Source)
      → claim.status.phase ≡ pending
      → Keeps (All (Allowed claim)) (await_address claim pod source)
  unfolding await_address
  await_address-Keeps pod source h =
      Keeps-if _ _ _
        (Keeps-bind _ _ (write_status-Keeps claim _ (enroll (ground arith) h) (rw h tt))
          (λ _. Keeps-pure _))
        (Keeps-pure _)

  pub activate_claim-Keeps :
      (pod : Pod) (source : Source)
      → claim.status.phase ≡ pending
      → Keeps (All (Allowed claim)) (activate_claim claim pod source)
  unfolding activate_claim
  activate_claim-Keeps pod source h = elim (Bool-cases (pod.pod_ip == "")) [
    | inl empty ↦ rw empty (await_address-Keeps pod source h)
    | inr filled ↦ rw filled (
        Keeps-bind _ _ (Quiet-call claim now tt) (λ clock.
          Keeps-bind _ _
            (write_status-Keeps claim _ (activate h refl)
              (unfold active_status in λ bad. cc (filled, (eq_iff pod.pod_ip "").1 bad)))
            (λ _. Keeps-pure _)))
  ]

  pub set_claim_error-Keeps :
      (detail : String)
      → claim.status.phase ≡ pending
      → Keeps (All (Allowed claim)) (set_claim_error claim detail)
  unfolding set_claim_error
  set_claim_error-Keeps detail h =
      Keeps-bind _ _ (write_status-Keeps claim _ (reject h refl) tt) (λ _. Keeps-pure _)

  pub claim_from_pool-Keeps :
      (r : Reconciler) (pod : Pod)
      → claim.status.phase ≡ pending
      → Keeps (All (Allowed claim)) (claim_from_pool r claim pod)
  unfolding claim_from_pool
  claim_from_pool-Keeps r pod h = Keeps-bind _ _ (Quiet-call claim (update_pod _) tt) (λ x.
      Keeps-bind _ _ (Keeps-or_wrap _ x) (λ p.
        Keeps-bind _ _ (Quiet.restore_snapshot-Keeps (Allowed-Quiet claim) r claim p)
          (λ source. activate_claim-Keeps p source h)))

  pub cold_boot-Keeps :
      (r : Reconciler) (wl : Workload)
      → claim.status.phase ≡ pending
      → Keeps (All (Allowed claim)) (cold_boot r claim wl)
  unfolding cold_boot
  cold_boot-Keeps r wl h =
      Keeps-bind _ _
        (Keeps-wrapping _ _ (Quiet.ensure_claim_token-Keeps (Allowed-Quiet claim) r claim wl))
        (λ token.
          Keeps-bind _ _ (Quiet.create_tenant_pod-Keeps (Allowed-Quiet claim) r claim wl _)
            (λ p. activate_claim-Keeps p cold h))

  module _ (r : Reconciler) (wl : Workload) (h : claim.status.phase ≡ pending) where
    pub take_pool_pod-Keeps :
        (o : Option Pod) → Keeps (All (Allowed claim)) (take_pool_pod r claim wl o)
    unfolding take_pool_pod
    take_pool_pod-Keeps none = cold_boot-Keeps r wl h
    take_pool_pod-Keeps (some pod) = claim_from_pool-Keeps r pod h

    pub obtain_pod-Keeps : Keeps (All (Allowed claim)) (obtain_pod r claim wl)
    unfolding obtain_pod
    obtain_pod-Keeps =
        Keeps-bind _ _ (Quiet.find_pool_pod-Keeps (Allowed-Quiet claim) _ _) take_pool_pod-Keeps

    pub replace_pod-Keeps : (pod : Pod) → Keeps (All (Allowed claim)) (replace_pod r claim wl pod)
    unfolding replace_pod
    replace_pod-Keeps pod =
        Keeps-bind _ _ (deletes claim pod)
          (λ o. Keeps-bind _ _ (Keeps-succeed _) (λ _. obtain_pod-Keeps))

    pub use_pod-Keeps :
        (pod : Pod) (phase : PodPhase) → Keeps (All (Allowed claim)) (use_pod r claim wl pod phase)
    unfolding use_pod
    use_pod-Keeps pod PodPhase.running = activate_claim-Keeps pod existing h
    use_pod-Keeps pod PodPhase.failed = replace_pod-Keeps pod
    use_pod-Keeps pod PodPhase.succeeded = replace_pod-Keeps pod
    use_pod-Keeps pod _ = Keeps-pure _

    pub use_existing-Keeps :
        (o : Option Pod) → Keeps (All (Allowed claim)) (use_existing r claim wl o)
    unfolding use_existing
    use_existing-Keeps none = obtain_pod-Keeps
    use_existing-Keeps (some pod) = use_pod-Keeps pod _

    pub provide_pod-Keeps : Keeps (All (Allowed claim)) (provide_pod r claim wl)
    unfolding provide_pod
    provide_pod-Keeps =
        Keeps-bind _ _ (Quiet.find_tenant_pod-Keeps (Allowed-Quiet claim) _ _ _) use_existing-Keeps

    pub if_ready-Keeps :
        (phase : WorkloadPhase) → Keeps (All (Allowed claim)) (if_ready r claim wl phase)
    unfolding if_ready
    if_ready-Keeps WorkloadPhase.ready = provide_pod-Keeps
    if_ready-Keeps _ = set_claim_error-Keeps _ h

  pub with_workload-Keeps :
      (r : Reconciler) (x : Result Workload)
      → claim.status.phase ≡ pending
      → Keeps (All (Allowed claim)) (with_workload r claim x)
  unfolding with_workload
  with_workload-Keeps r (err e) h = Keeps-if _ _ _ (set_claim_error-Keeps _ h) (Keeps-raise e)
  with_workload-Keeps r (ok wl) h = if_ready-Keeps r wl h _

  pub pend-Keeps : IsNew claim.status.phase → Keeps (All (Allowed claim)) (pend claim)
  unfolding pend
  pend-Keeps h = Keeps-bind _ _ (write_status-Keeps claim _ (enroll h refl) tt) (λ _. Keeps-pure _)

  pub find_workload-Keeps :
      (r : Reconciler)
      → claim.status.phase ≡ pending
      → Keeps (All (Allowed claim)) (find_workload r claim)
  unfolding find_workload
  find_workload-Keeps r h =
      Keeps-bind _ _ (Quiet-call claim (get_workload _) tt) (λ x. with_workload-Keeps r x h)

  pub pend_first-Keeps :
      (r : Reconciler) (p : Phase)
      → claim.status.phase ≡ p
      → IsNew p
      → Keeps (All (Allowed claim)) (pend_first r claim p)
  unfolding pend_first
  pend_first-Keeps r pending h n = find_workload-Keeps r h
  pend_first-Keeps r _ h n = pend-Keeps (ground arith)

  pub handle_new_claim-Keeps :
      (r : Reconciler)
      → IsNew claim.status.phase
      → Keeps (All (Allowed claim)) (handle_new_claim r claim)
  unfolding handle_new_claim
  handle_new_claim-Keeps r n = Keeps-if _ _ _ (pend_first-Keeps r _ refl n) (
      Keeps-bind _ _ (Keeps-call (update_claim _) (λ t x p. ((refl, refl), p)))
        (λ o. Keeps-bind _ _ (Keeps-succeed o) (λ _. Keeps-pure _)))
