-- ===== src/Claim/Reconciler.antt =====
-- The fields of `ClaimReconciler` (go/internal/operator/claim_controller.go), and the helpers of
-- controller-runtime that read and write an object's finalizers.
use boilerhouse.Common.{
  ℕ, ◌*◌, String, Bool, true, false, List, [], ◌∷◌, ◌++◌, ◌==◌, ◌<>◌, if◌then◌else◌,
}
use boilerhouse.Common.Time.{TimeFormat}
use boilerhouse.Types.Meta.{ObjectMeta, second}
use boilerhouse.Types.Claim.{Claim, ClaimStatus}
use boilerhouse.Translate.Container.{DecodeEnv}
use boilerhouse.Cluster.{M, ◌>>=◌, call, succeed, update_claim_status}

-- `snapshots` says whether the `Snapshots` field is set; the store itself is behind the calls of
-- `Cluster`. The last two fields are the standard library's time texts and JSON decoding.
pub record Reconciler : Type 0 where
  pub snapshots : Bool
  pub namespace : String
  pub api_service_url : String
  pub extract_retry_backoff : List ℕ
  pub time : TimeFormat
  pub decode_env : DecodeEnv

unfoldable pub api_service_url_of : Reconciler → String
api_service_url_of r =
    let ns = if r.namespace == "" then "boilerhouse" else r.namespace in
    if r.api_service_url == ""
    then "http://boilerhouse-api." <> ns <> ".svc:3000"
    else r.api_service_url

abbrev pub finalizer_name : String
finalizer_name = "boilerhouse.dev/cleanup"

abbrev pub annotation_last_activity : String
annotation_last_activity = "boilerhouse.dev/last-activity"

abbrev pub idle_check_interval : ℕ
idle_check_interval = 30 * second

abbrev pub release_failed_requeue : ℕ
release_failed_requeue = 300 * second

unfoldable pub contains : String → List String → Bool
contains f [] = false
contains f (g ∷ rest) = if g == f then true else contains f rest

unfoldable pub without : String → List String → List String
without f [] = []
without f (g ∷ rest) = let kept = without f rest in if g == f then kept else g ∷ kept

-- `controllerutil.ContainsFinalizer`, `AddFinalizer` and `RemoveFinalizer`
abbrev pub contains_finalizer : ObjectMeta → Bool
contains_finalizer meta = contains finalizer_name meta.finalizers

abbrev pub add_finalizer : ObjectMeta → ObjectMeta
add_finalizer meta =
    if contains_finalizer meta
    then meta
    else record meta { finalizers = meta.finalizers ++ finalizer_name ∷ [] }

abbrev pub remove_finalizer : ObjectMeta → ObjectMeta
remove_finalizer meta = record meta { finalizers = without finalizer_name meta.finalizers }

-- `claim.Status = …; if err := r.Status().Update(ctx, claim); err != nil { return …, err }`
unfoldable pub write_status : Claim → ClaimStatus → M (Unit {0})
write_status claim status = do
  outcome ← call (update_claim_status (record claim { status = status }))
  succeed outcome
