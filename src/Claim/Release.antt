-- ===== src/Claim/Release.antt =====
-- go/internal/operator/claim_release.go: `releaseClaim`, `extractWithRetry`, `markReleaseFailed` and
-- `handleDeletion`; and the pod lookups of claim_pods.go that they share.
use boilerhouse.Common.{ℕ, ◌*◌, String, List, [], ◌∷◌, Option, none, some, ◌<>◌, if◌then◌else◌}
use boilerhouse.Types.Meta.{Key, second}
use boilerhouse.Types.Workload.{Workload, IdleAction, hibernate, destroy}
use boilerhouse.Types.Claim.{Claim, released, release_failed}
use boilerhouse.Types.Pod.{Pod}
use boilerhouse.Translate.Objects.{label_tenant, label_workload, label_pool_status}
use boilerhouse.Translate.Build.{overlay_dirs}
use boilerhouse.Cluster.{
  M, Error, message, error_text, wrapping, Result, ok, err, Requeue, stop, after, ◌>>=◌, ◌>>◌, pure,
  call, or_fail, succeed_or_wrap, unless_missing, list_pods, get_workload, delete_pod,
  extract_and_store, delete_snapshot, sleep,
}
use boilerhouse.Claim.Reconciler.{Reconciler, write_status, release_failed_requeue}
use boilerhouse.Claim.Token.{delete_claim_token}

first_pod : List Pod → Option Pod
first_pod [] = none
first_pod (p ∷ ps) = some p

unfoldable pub find_tenant_pod : String → String → String → M (Option Pod)
unfolding first_pod
find_tenant_pod ns tenant workload = do
  answer ← call (list_pods ns ((label_tenant, tenant) ∷ (label_workload, workload) ∷ []))
  pods ← or_fail answer
  pure (first_pod pods)

unfoldable pub find_pool_pod : String → String → M (Option Pod)
unfolding first_pod
find_pool_pod ns workload = do
  answer ← call (list_pods ns ((label_workload, workload) ∷ (label_pool_status, "ready") ∷ []))
  pods ← or_fail answer
  pure (first_pod pods)

abbrev pub default_extract_retry_backoff : List ℕ
default_extract_retry_backoff = (1 * second) ∷ (4 * second) ∷ (16 * second) ∷ []

-- What `extractWithRetry` returns: nothing on success, the last error, or the context's.
abbrev pub Extracted : Type 0
Extracted = Option Error

abbrev pub context_canceled : Error
context_canceled = message "context canceled"

-- After a failed attempt: sleep, then go on, unless the context ends first.
unfoldable pub retry : ℕ → M Extracted → Extracted → M Extracted
retry d next none = pure none
retry d next (some e) = do
  slept ← call (sleep d)
  if slept then next else pure (some context_canceled)

-- One round for each delay; the last delay is not slept.
unfoldable pub extract_loop : String → String → String → List String → List ℕ → M Extracted
unfolding retry
extract_loop pod tenant workload dirs [] = pure none
extract_loop pod tenant workload dirs (d ∷ []) = call (extract_and_store pod tenant workload dirs)
extract_loop pod tenant workload dirs (d ∷ d' ∷ rest) = do
  outcome ← call (extract_and_store pod tenant workload dirs)
  retry d (extract_loop pod tenant workload dirs (d' ∷ rest)) outcome

unfoldable pub or_default : List ℕ → List ℕ
or_default [] = default_extract_retry_backoff
or_default (d ∷ ds) = d ∷ ds

unfoldable pub extract_with_retry :
    Reconciler → String → String → String → List String → M Extracted
unfolding extract_loop or_default
extract_with_retry r pod tenant workload dirs =
    extract_loop pod tenant workload dirs (or_default r.extract_retry_backoff)

unfoldable pub mark_release_failed : Claim → String → M Requeue
unfolding write_status
mark_release_failed claim detail = do
  write_status claim (record (claim.status) { phase = release_failed; detail = detail })
  pure (after release_failed_requeue)

-- `if action == "destroy" && r.Snapshots != nil`: a failure is logged only.
unfoldable pub delete_stored : Reconciler → IdleAction → Claim → M (Unit {0})
delete_stored r destroy claim =
    if r.snapshots
    then (do outcome ← call (delete_snapshot claim.spec.tenant_id claim.spec.workload_ref); pure tt)
    else pure tt
delete_stored r action claim = pure tt

-- The end of both paths: the stored snapshot goes with `destroy`, then the Pod is deleted.
unfoldable pub remove_pod : Reconciler → IdleAction → String → Claim → Pod → M (Unit {0})
unfolding delete_stored
remove_pod r action text claim pod = do
  delete_stored r action claim
  outcome ← call (delete_pod pod)
  succeed_or_wrap text (unless_missing outcome)

-- Extraction for a `hibernate`: of no directories there is nothing to extract.
unfoldable pub extract_dirs : Reconciler → Claim → Pod → List String → M Extracted
unfolding extract_with_retry
extract_dirs r claim pod [] = pure none
extract_dirs r claim pod (d ∷ ds) =
    extract_with_retry r pod.meta.name claim.spec.tenant_id claim.spec.workload_ref (d ∷ ds)

unfoldable pub extract_of : Reconciler → Claim → Pod → Result Workload → M Extracted
unfolding extract_dirs
extract_of r claim pod (err e) = pure none
extract_of r claim pod (ok wl) = extract_dirs r claim pod (overlay_dirs wl.spec)

unfoldable pub workload_key : Claim → Key
workload_key claim = record { name = claim.spec.workload_ref; namespace = claim.meta.namespace }

unfoldable pub extract_first : Reconciler → IdleAction → Claim → Pod → M Extracted
unfolding extract_of workload_key
extract_first r hibernate claim pod =
    if r.snapshots
    then (do answer ← call (get_workload (workload_key claim)); extract_of r claim pod answer)
    else pure none
extract_first r action claim pod = pure none

abbrev pub action_text : IdleAction → String
action_text hibernate = "hibernate"
action_text destroy = "destroy"
action_text _ = ""

unfoldable pub mark_released : IdleAction → Claim → M Requeue
unfolding delete_claim_token write_status
mark_released action claim = do
  wrapping "revoking claim token" (delete_claim_token claim)
  write_status claim (record (claim.status) {
    phase = released;
    detail = "idle timeout (" <> action_text action <> ")";
  })
  pure stop

unfoldable pub after_extract : Reconciler → IdleAction → Claim → Pod → Extracted → M Requeue
unfolding mark_release_failed remove_pod mark_released
after_extract r action claim pod (some e) =
    mark_release_failed claim ("snapshot extract failed: " <> error_text e)
after_extract r action claim pod none = do
  remove_pod r action "deleting pod on release" claim pod
  mark_released action claim

unfoldable pub release_pod : Reconciler → IdleAction → Claim → Option Pod → M Requeue
unfolding extract_first after_extract mark_released
release_pod r action claim none = mark_released action claim
release_pod r action claim (some pod) = do
  extracted ← extract_first r action claim pod
  after_extract r action claim pod extracted

unfoldable pub release_claim : Reconciler → Claim → IdleAction → M Requeue
unfolding release_pod find_tenant_pod
release_claim r claim action = do
  pod ← find_tenant_pod claim.meta.namespace claim.spec.tenant_id claim.spec.workload_ref
  release_pod r action claim pod
