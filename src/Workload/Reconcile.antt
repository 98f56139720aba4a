-- ===== src/Workload/Reconcile.antt =====
-- go/internal/operator/workload_controller.go: the reconciler. The image is built by external programs, which
-- `build_image` stands for.
use boilerhouse.Common.{
  ℕ, String, Bool, true, false, not, ◌&&◌, List, [], ◌∷◌, ◌++◌, Option, none, some, ◌==◌, ◌<>◌,
  nat_eq, if◌then◌else◌,
}
use boilerhouse.Common.Int.{is_positive}
use boilerhouse.Common.Text.{join}
use boilerhouse.Types.Meta.{Key}
use boilerhouse.Types.Workload.{Workload, WorkloadSpec, WorkloadPhase, creating, ready}
use boilerhouse.Types.Pod.{Pod}
use boilerhouse.Translate.Objects.{label_workload}
use boilerhouse.Claim.Reconciler.{contains_finalizer, add_finalizer, remove_finalizer}
use boilerhouse.Cluster.{
  M, Error, error_text, Result, ok, err, is_not_found, wrapping, Requeue, stop, again, ◌>>=◌, ◌>>◌,
  pure, raise, call, or_fail, succeed, unless_missing, get_workload, list_pods, delete_pod,
  update_workload, update_workload_status, build_image,
}

abbrev keep_if : Bool → String → List String
keep_if b text = if b then text ∷ [] else []

unfoldable pub validate_workload_spec : WorkloadSpec → List String
validate_workload_spec spec =
    keep_if ((spec.image.ref == "") && (spec.image.dockerfile == ""))
      "either image.ref or image.dockerfile must be set"
    ++ keep_if (not (spec.image.ref == "") && not (spec.image.dockerfile == ""))
        "image.ref and image.dockerfile are mutually exclusive"
    ++ keep_if (not (is_positive spec.resources.vcpus)) "resources.vcpus must be > 0"
    ++ keep_if (not (is_positive spec.resources.memory_mb)) "resources.memoryMb must be > 0"

-- `return reconcile.Result{}, r.Status().Update(ctx, &wl)` with the phase and the detail set.
unfoldable pub set_status : Workload → WorkloadPhase → String → M (Unit {0})
set_status wl phase detail = do
  outcome ← call (
      update_workload_status (record wl {
        status = record {
          phase = phase;
          detail = detail;
          observed_generation = wl.meta.generation;
        };
      }))
  succeed outcome

unfoldable pub finish : Workload → WorkloadPhase → String → M Requeue
unfolding set_status
finish wl phase detail = do set_status wl phase detail; pure stop

unfoldable pub image_tag : Workload → String
image_tag wl = "boilerhouse/" <> wl.meta.name <> ":" <> wl.spec.version

unfoldable pub after_build : Workload → Option Error → M Requeue
unfolding finish
after_build wl none = finish wl ready ""
after_build wl (some e) = finish wl WorkloadPhase.error ("image build failed: " <> error_text e)

abbrev pub is_creating : WorkloadPhase → Bool
is_creating creating = true
is_creating _ = false

unfoldable pub build : Workload → M Requeue
unfolding set_status image_tag after_build
build wl =
    if is_creating wl.status.phase
    then (do
      outcome ← call (build_image wl.spec.image.dockerfile (image_tag wl))
      after_build wl outcome)
    else (do set_status wl creating ("building image " <> image_tag wl); pure again)

unfoldable pub prepare : Workload → M Requeue
unfolding build finish
prepare wl = if wl.spec.image.dockerfile == "" then finish wl ready "" else build wl

unfoldable pub by_errors : Workload → List String → M Requeue
unfolding prepare finish join
by_errors wl [] = prepare wl
by_errors wl (e ∷ es) = finish wl WorkloadPhase.error (join "; " (e ∷ es))

abbrev pub is_ready : WorkloadPhase → Bool
is_ready ready = true
is_ready _ = false

unfoldable pub check_spec : Workload → M Requeue
unfolding by_errors
check_spec wl =
    if is_ready wl.status.phase && nat_eq wl.status.observed_generation wl.meta.generation
    then pure stop
    else by_errors wl (validate_workload_spec wl.spec)

unfoldable pub delete_all : List Pod → M (Unit {0})
delete_all [] = pure tt
delete_all (p ∷ ps) = do
  outcome ← call (delete_pod p)
  succeed (unless_missing outcome)
  delete_all ps

unfoldable pub delete_owned_pods : String → String → M (Unit {0})
unfolding delete_all
delete_owned_pods ns workload = do
  answer ← call (list_pods ns ((label_workload, workload) ∷ []))
  pods ← or_fail answer
  delete_all pods

unfoldable pub finalize_workload : Workload → M Requeue
unfolding delete_owned_pods
finalize_workload wl =
    if contains_finalizer wl.meta
    then (do
      wrapping "cleaning up pods" (delete_owned_pods wl.meta.namespace wl.meta.name)
      outcome ← call (update_workload (record wl { meta = remove_finalizer wl.meta }))
      succeed outcome
      pure stop)
    else pure stop

unfoldable pub enroll : Workload → M Requeue
unfolding check_spec
enroll wl = if contains_finalizer wl.meta then check_spec wl else (do
  outcome ← call (update_workload (record wl { meta = add_finalizer wl.meta }))
  succeed outcome
  pure again)

unfoldable pub ending_or_live : Workload → Option ℕ → M Requeue
unfolding finalize_workload enroll
ending_or_live wl (some time) = finalize_workload wl
ending_or_live wl none = enroll wl

unfoldable pub answer_workload : Result Workload → M Requeue
unfolding ending_or_live
answer_workload (err e) = if is_not_found e then pure stop else raise e
answer_workload (ok wl) = ending_or_live wl wl.meta.deletion_timestamp

unfoldable pub reconcile_workload : Key → M Requeue
unfolding answer_workload
reconcile_workload key = do answer ← call (get_workload key); answer_workload answer
