-- ===== src/Claim/Deletion.antt =====
-- go/internal/operator/claim_release.go: `handleDeletion`.
use boilerhouse.Common.{String, List, [], Option, none, some, if◌then◌else◌}
use boilerhouse.Types.Workload.{Workload, IdleAction, unset, hibernate}
use boilerhouse.Types.Claim.{Claim}
use boilerhouse.Types.Pod.{Pod}
use boilerhouse.Translate.Build.{overlay_dirs}
use boilerhouse.Cluster.{
  M, wrapping, Result, ok, err, Requeue, stop, after, ◌>>=◌, ◌>>◌, pure, call, succeed,
  get_workload, update_claim,
}
use boilerhouse.Claim.Reconciler.{
  Reconciler, contains_finalizer, remove_finalizer, release_failed_requeue,
}
use boilerhouse.Claim.Token.{delete_claim_token}
use boilerhouse.Claim.Release.{Extracted, workload_key, find_tenant_pod, extract_dirs, remove_pod}

-- The idle action of the workload; `hibernate` where it is not set or the workload cannot be read.
unfoldable pub deletion_action : Result Workload → IdleAction
deletion_action (err e) = hibernate
deletion_action (ok wl) = elim wl.spec.idle [
  | none ↦ hibernate
  | some idle ↦ elim idle.action [ unset ↦ hibernate | other ↦ other ]
]

-- A workload that cannot be read leaves `wl` empty, which has no overlay directories.
unfoldable pub deletion_dirs : Result Workload → List String
deletion_dirs (err e) = []
deletion_dirs (ok wl) = overlay_dirs wl.spec

unfoldable pub extract_before_deletion :
    Reconciler → IdleAction → Claim → Pod → List String → M Extracted
unfolding extract_dirs
extract_before_deletion r hibernate claim pod dirs =
    if r.snapshots then extract_dirs r claim pod dirs else pure none
extract_before_deletion r action claim pod dirs = pure none

unfoldable pub finish_deletion : Claim → M Requeue
unfolding delete_claim_token
finish_deletion claim = do
  wrapping "revoking claim token on deletion" (delete_claim_token claim)
  outcome ← call (update_claim (record claim { meta = remove_finalizer claim.meta }))
  succeed outcome
  pure stop

unfoldable pub after_extract : Reconciler → IdleAction → Claim → Pod → Extracted → M Requeue
unfolding remove_pod finish_deletion
after_extract r action claim pod (some e) = pure (after release_failed_requeue)
after_extract r action claim pod none = do
  remove_pod r action "deleting pod on claim deletion" claim pod
  finish_deletion claim

unfoldable pub delete_pod_of : Reconciler → Result Workload → Claim → Option Pod → M Requeue
unfolding deletion_action deletion_dirs extract_before_deletion finish_deletion after_extract
delete_pod_of r wl claim none = finish_deletion claim
delete_pod_of r wl claim (some pod) = do
  extracted ← extract_before_deletion r (deletion_action wl) claim pod (deletion_dirs wl)
  after_extract r (deletion_action wl) claim pod extracted

unfoldable pub handle_deletion : Reconciler → Claim → M Requeue
unfolding delete_pod_of find_tenant_pod workload_key
handle_deletion r claim =
    if contains_finalizer claim.meta
    then (do
      wl ← call (get_workload (workload_key claim))
      pod ← find_tenant_pod claim.meta.namespace claim.spec.tenant_id claim.spec.workload_ref
      delete_pod_of r wl claim pod)
    else pure stop
