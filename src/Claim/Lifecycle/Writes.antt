-- ===== src/Claim/Lifecycle/Writes.antt =====
-- The handlers of claim_release.go write claims along the life cycle.
use boilerhouse.Common.{String, ◌≡◌, refl, Option, none, some, All}
use boilerhouse.Types.Workload.{Workload, IdleAction}
use boilerhouse.Types.Claim.{Claim, ClaimStatus, active}
use boilerhouse.Types.Pod.{Pod}
use boilerhouse.Cluster.{
  Result, Request, call, update_claim_status, update_claim, get_workload, delete_pod,
}
use boilerhouse.Cluster.Keeps.{
  Keeps, Keeps-call, Keeps-bind, Keeps-if, Keeps-pure, Keeps-succeed, Keeps-wrapping,
}
use boilerhouse.Claim.Reconciler.{Reconciler, write_status}
use boilerhouse.Claim.Quiet
use boilerhouse.Claim.Phases.{
  Transition, release, fail_release, Connectable, Allowed, Allowed-Quiet,
}
use boilerhouse.Claim.Release.{
  mark_release_failed, mark_released, after_extract, release_pod, release_claim, Extracted,
}
use boilerhouse.Claim.Deletion
use boilerhouse.Claim.Deletion.{finish_deletion, delete_pod_of, handle_deletion}

module _ (claim : Claim) where
  pub Quiet-call : (r : Request) → Quiet.Quiet r → Keeps (All (Allowed claim)) (call r)
  Quiet-call = Quiet.Keeps-Quiet (Allowed-Quiet claim)

  pub deletes : (pod : Pod) → Keeps (All (Allowed claim)) (call (delete_pod pod))
  deletes pod = Keeps-call (delete_pod pod) (λ t x p. (tt, p))

  pub write_status-Keeps :
      (status : ClaimStatus)
      → Transition claim.status.phase status.phase
      → Connectable status.phase status.endpoint
      → Keeps (All (Allowed claim)) (write_status claim status)
  unfolding write_status
  write_status-Keeps status step connectable =
      Keeps-bind _ _
        (Keeps-call (update_claim_status (record claim { status = status })) (λ t x p. (
          record { same_meta = refl; same_spec = refl; step = step; connectable = connectable },
          p,
        )))
        (λ o. Keeps-succeed o)

  pub mark_release_failed-Keeps :
      (detail : String)
      → claim.status.phase ≡ active
      → Keeps (All (Allowed claim)) (mark_release_failed claim detail)
  unfolding mark_release_failed
  mark_release_failed-Keeps detail h =
      Keeps-bind _ _ (write_status-Keeps _ (fail_release h refl) tt) (λ _. Keeps-pure _)

  pub mark_released-Keeps :
      (action : IdleAction)
      → claim.status.phase ≡ active
      → Keeps (All (Allowed claim)) (mark_released action claim)
  unfolding mark_released
  mark_released-Keeps action h =
      Keeps-bind _ _
        (Keeps-wrapping _ _ (Quiet.delete_claim_token-Keeps (Allowed-Quiet claim) claim))
        (λ _. Keeps-bind _ _ (write_status-Keeps _ (release h refl) tt) (λ _. Keeps-pure _))

  pub after_extract-Keeps :
      (r : Reconciler) (action : IdleAction) (pod : Pod) (x : Extracted)
      → claim.status.phase ≡ active
      → Keeps (All (Allowed claim)) (after_extract r action claim pod x)
  unfolding after_extract
  after_extract-Keeps r action pod (some e) h = mark_release_failed-Keeps _ h
  after_extract-Keeps r action pod none h =
      Keeps-bind _ _
        (Quiet.remove_pod-Keeps (Allowed-Quiet claim) r action _ claim pod (deletes pod))
        (λ _. mark_released-Keeps action h)

  pub release_pod-Keeps :
      (r : Reconciler) (action : IdleAction) (o : Option Pod)
      → claim.status.phase ≡ active
      → Keeps (All (Allowed claim)) (release_pod r action claim o)
  unfolding release_pod
  release_pod-Keeps r action none h = mark_released-Keeps action h
  release_pod-Keeps r action (some pod) h =
      Keeps-bind _ _ (Quiet.extract_first-Keeps (Allowed-Quiet claim) r action claim pod)
        (λ x. after_extract-Keeps r action pod x h)

  pub release_claim-Keeps :
      (r : Reconciler) (action : IdleAction)
      → claim.status.phase ≡ active
      → Keeps (All (Allowed claim)) (release_claim r claim action)
  unfolding release_claim
  release_claim-Keeps r action h =
      Keeps-bind _ _ (Quiet.find_tenant_pod-Keeps (Allowed-Quiet claim) _ _ _)
        (λ o. release_pod-Keeps r action o h)

  pub finish_deletion-Keeps : Keeps (All (Allowed claim)) (finish_deletion claim)
  unfolding finish_deletion
  finish_deletion-Keeps =
      Keeps-bind _ _
        (Keeps-wrapping _ _ (Quiet.delete_claim_token-Keeps (Allowed-Quiet claim) claim))
        (λ _.
          Keeps-bind _ _ (Keeps-call (update_claim _) (λ t x p. ((refl, refl), p)))
            (λ o. Keeps-bind _ _ (Keeps-succeed o) (λ _. Keeps-pure _)))

  pub after_deletion_extract-Keeps :
      (r : Reconciler) (action : IdleAction) (pod : Pod) (x : Extracted)
      → Keeps (All (Allowed claim)) (Deletion.after_extract r action claim pod x)
  unfolding Deletion.after_extract
  after_deletion_extract-Keeps r action pod (some e) = Keeps-pure _
  after_deletion_extract-Keeps r action pod none =
      Keeps-bind _ _
        (Quiet.remove_pod-Keeps (Allowed-Quiet claim) r action _ claim pod (deletes pod))
        (λ _. finish_deletion-Keeps)

  pub delete_pod_of-Keeps :
      (r : Reconciler) (wl : Result Workload) (o : Option Pod)
      → Keeps (All (Allowed claim)) (delete_pod_of r wl claim o)
  unfolding delete_pod_of
  delete_pod_of-Keeps r wl none = finish_deletion-Keeps
  delete_pod_of-Keeps r wl (some pod) =
      Keeps-bind _ _ (Quiet.extract_before_deletion-Keeps (Allowed-Quiet claim) r _ claim pod _)
        (λ x. after_deletion_extract-Keeps r _ pod x)

  pub handle_deletion-Keeps :
      (r : Reconciler) → Keeps (All (Allowed claim)) (handle_deletion r claim)
  unfolding handle_deletion
  handle_deletion-Keeps r =
      Keeps-if _ _ _
        (Keeps-bind _ _ (Quiet-call (get_workload _) tt) (λ wl.
          Keeps-bind _ _ (Quiet.find_tenant_pod-Keeps (Allowed-Quiet claim) _ _ _)
            (λ o. delete_pod_of-Keeps r wl o)))
        (Keeps-pure _)
