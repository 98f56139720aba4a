-- ===== src/Trigger/Reconcile.antt =====
-- go/internal/operator/trigger_controller.go: the reconciler of triggers.
use boilerhouse.Common.{
  ℕ, String, Bool, true, false, not, ◌&&◌, List, [], ◌∷◌, ◌++◌, Option, none, some, ◌==◌, ◌<>◌,
  if◌then◌else◌,
}
use boilerhouse.Common.Text.{join}
use boilerhouse.Types.Meta.{Key}
use boilerhouse.Types.Workload.{Workload}
use boilerhouse.Types.Trigger.{Trigger, TriggerSpec, TriggerTenant, TriggerPhase, active}
use boilerhouse.Sidecar.{quote}
use boilerhouse.Claim.Reconciler.{contains_finalizer, add_finalizer, remove_finalizer}
use boilerhouse.Cluster.{
  M, Result, ok, err, is_not_found, Requeue, stop, ◌>>=◌, ◌>>◌, pure, raise, call, or_fail, succeed,
  get_trigger, get_workload, update_trigger, update_trigger_status,
}

unfoldable pub is_valid_type : String → Bool
is_valid_type type =
    if type == "webhook"
    then true
    else if type == "slack"
    then true
    else if type == "telegram"
    then true
    else type == "cron"

unfoldable pub is_tenant_missing : Option TriggerTenant → Bool
is_tenant_missing none = false
is_tenant_missing (some tenant) = (tenant.static == "") && (tenant.from == "")

abbrev report_if : Bool → String → List String
report_if b text = if b then text ∷ [] else []

unfoldable pub validate_trigger_spec : TriggerSpec → List String
unfolding is_valid_type is_tenant_missing
validate_trigger_spec spec =
    report_if (spec.workload_ref == "") "workloadRef must be set"
    ++ report_if (not (is_valid_type spec.type)) (
        "type "
        <> quote spec.type
        <> " is not valid; must be one of: webhook, slack, telegram, cron")
    ++ report_if (is_tenant_missing spec.tenant)
        "tenant.static or tenant.from must be set when tenant is specified"

unfoldable pub set_trigger_status : Trigger → TriggerPhase → String → M Requeue
set_trigger_status trigger phase detail = do
  outcome ← call (
      update_trigger_status (record trigger { status = record { phase = phase; detail = detail } }))
  succeed outcome
  pure stop

unfoldable pub with_referenced : Trigger → Result Workload → M Requeue
unfolding set_trigger_status
with_referenced trigger (ok wl) = set_trigger_status trigger active ""
with_referenced trigger (err e) =
    if is_not_found e
    then set_trigger_status trigger TriggerPhase.error
        ("referenced workload " <> quote trigger.spec.workload_ref <> " not found")
    else raise e

unfoldable pub by_trigger_errors : Trigger → List String → M Requeue
unfolding with_referenced join
by_trigger_errors trigger [] = do
  answer ← call (
      get_workload
        (record { name = trigger.spec.workload_ref; namespace = trigger.meta.namespace }))
  with_referenced trigger answer
by_trigger_errors trigger (e ∷ es) =
    set_trigger_status trigger TriggerPhase.error (join "; " (e ∷ es))

unfoldable pub validate_trigger : Trigger → M Requeue
unfolding by_trigger_errors
validate_trigger trigger = by_trigger_errors trigger (validate_trigger_spec trigger.spec)

-- The trigger is read again after its finalizer was added.
unfoldable pub enroll_trigger : Key → Trigger → M Requeue
unfolding validate_trigger
enroll_trigger key trigger =
    if contains_finalizer trigger.meta then validate_trigger trigger else (do
      outcome ← call (update_trigger (record trigger { meta = add_finalizer trigger.meta }))
      succeed outcome
      answer ← call (get_trigger key)
      fresh ← or_fail answer
      validate_trigger fresh)

unfoldable pub end_or_enroll : Key → Trigger → Option ℕ → M Requeue
unfolding enroll_trigger
end_or_enroll key trigger none = enroll_trigger key trigger
end_or_enroll key trigger (some time) =
    if contains_finalizer trigger.meta
    then (do
      outcome ← call (update_trigger (record trigger { meta = remove_finalizer trigger.meta }))
      succeed outcome
      pure stop)
    else pure stop

unfoldable pub answer_trigger : Key → Result Trigger → M Requeue
unfolding end_or_enroll
answer_trigger key (err e) = if is_not_found e then pure stop else raise e
answer_trigger key (ok trigger) = end_or_enroll key trigger trigger.meta.deletion_timestamp

unfoldable pub reconcile_trigger : Key → M Requeue
unfolding answer_trigger
reconcile_trigger key = do answer ← call (get_trigger key); answer_trigger key answer
