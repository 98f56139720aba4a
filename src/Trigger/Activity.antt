-- ===== src/Trigger/Activity.antt =====
-- When `TriggerReconciler.Reconcile` calls a trigger active.
use boilerhouse.Common.{ℕ, String, List, [], ◌∷◌, Option, none, some, ◌≡◌, refl, inl}
use boilerhouse.Types.Meta.{Key}
use boilerhouse.Types.Workload.{Workload}
use boilerhouse.Types.Trigger.{Trigger, TriggerPhase, active}
use boilerhouse.Claim.Reconciler.{contains_finalizer}
use boilerhouse.Cluster.{
  Env, Result, ok, err, event, Had, Trace, trace_of, is_not_found, get_trigger, get_workload,
  update_trigger, update_trigger_status,
}
use boilerhouse.Cluster.Keeps.{
  Keeps, keeps_rules, Keeps-call, Keeps-bind, Keeps-if, Keeps-pure, Keeps-raise, Keeps-succeed,
  Keeps-or_fail,
}
use boilerhouse.Cluster.Triple.{
  Triple, Triple-Keeps, Keeps-Triple, Triple-call, Triple-bind, Triple-pre,
}
use boilerhouse.Trigger.Reconcile.{
  validate_trigger_spec, set_trigger_status, with_referenced, by_trigger_errors, validate_trigger,
  enroll_trigger, end_or_enroll, answer_trigger, reconcile_trigger,
}

-- What a phase says of a trigger, with the history before it.
abbrev pub Vouched : TriggerPhase → Trigger → Trace → Type 0
Vouched active trigger t =
    (validate_trigger_spec trigger.spec ≡ [])
    × ((wl : Workload) × Had
          (event
            (get_workload
              (record { name = trigger.spec.workload_ref; namespace = trigger.meta.namespace }))
            (ok wl))
          t)
Vouched _ trigger t = Unit

-- Every status that is written is vouched for.
abbrev pub IsHonest : Trace → Type 0
IsHonest [] = Unit
IsHonest (event (update_trigger_status trigger) x ∷ t) =
    Vouched trigger.status.phase trigger t × IsHonest t
IsHonest (_ ∷ t) = IsHonest t

module _ (trigger : Trigger) where
  set_trigger_status-IsHonest :
      (phase : TriggerPhase) (detail : String)
      → Triple IsHonest
          (λ t.
            Vouched phase (record trigger { status = record { phase = phase; detail = detail } }) t
            × IsHonest t)
          (λ _. IsHonest)
          (set_trigger_status trigger phase detail)
  unfolding set_trigger_status
  set_trigger_status-IsHonest phase detail =
      Triple-bind (λ _. IsHonest) (Triple-call (update_trigger_status _) (λ t x h. h))
        (λ outcome. Triple-Keeps (search keeps_rules))

  module _ (valid : validate_trigger_spec trigger.spec ≡ []) where
    with_referenced-IsHonest :
        (x : Result Workload)
        → Triple IsHonest
            (λ t.
              Had
                (event
                  (get_workload (record {
                    name = trigger.spec.workload_ref;
                    namespace = trigger.meta.namespace;
                  }))
                  x)
                t
              × IsHonest t)
            (λ _. IsHonest)
            (with_referenced trigger x)
    unfolding with_referenced
    with_referenced-IsHonest (ok wl) =
        Triple-pre (λ t h. ((valid, (wl, h.0)), h.1)) (set_trigger_status-IsHonest active "")
    with_referenced-IsHonest (err e) =
        Triple-pre (λ t h. h.1)
          (Triple-Keeps (
            Keeps-if (is_not_found e) _ _
              (Keeps-Triple
                (Triple-pre (λ t h. (tt, h)) (set_trigger_status-IsHonest TriggerPhase.error _)))
              (Keeps-raise e)))

  by_trigger_errors-IsHonest :
      (errors : List String)
      → validate_trigger_spec trigger.spec ≡ errors
      → Keeps IsHonest (by_trigger_errors trigger errors)
  unfolding by_trigger_errors
  by_trigger_errors-IsHonest [] valid = Keeps-Triple (
      Triple-bind _ (Triple-call (get_workload _) (λ t x h. (inl refl, h)))
        (with_referenced-IsHonest valid))
  by_trigger_errors-IsHonest (e ∷ es) invalid =
      Keeps-Triple (Triple-pre (λ t h. (tt, h)) (set_trigger_status-IsHonest TriggerPhase.error _))

  validate_trigger-IsHonest : Keeps IsHonest (validate_trigger trigger)
  unfolding validate_trigger
  validate_trigger-IsHonest = by_trigger_errors-IsHonest (validate_trigger_spec trigger.spec) refl

module _ (key : Key) (trigger : Trigger) where
  enroll_trigger-IsHonest : Keeps IsHonest (enroll_trigger key trigger)
  unfolding enroll_trigger
  enroll_trigger-IsHonest =
      Keeps-if (contains_finalizer trigger.meta) _ _ (validate_trigger-IsHonest trigger) (
        Keeps-bind _ _ (Keeps-call (update_trigger _) (λ t x h. h)) (λ outcome.
          Keeps-bind _ _ (Keeps-succeed outcome) (λ _.
            Keeps-bind _ _ (Keeps-call (get_trigger key) (λ t x h. h))
              (λ answer. Keeps-bind _ _ (Keeps-or_fail answer) validate_trigger-IsHonest))))

  end_or_enroll-IsHonest :
      (deletion : Option ℕ) → Keeps IsHonest (end_or_enroll key trigger deletion)
  unfolding end_or_enroll
  end_or_enroll-IsHonest none = enroll_trigger-IsHonest
  end_or_enroll-IsHonest (some time) = search keeps_rules depth 10

answer_trigger-IsHonest : (key : Key) (x : Result Trigger) → Keeps IsHonest (answer_trigger key x)
unfolding answer_trigger
answer_trigger-IsHonest key (err e) = Keeps-if (is_not_found e) _ _ (Keeps-pure _) (Keeps-raise e)
answer_trigger-IsHonest key (ok trigger) =
    end_or_enroll-IsHonest key trigger trigger.meta.deletion_timestamp

-- A trigger is called active only with reason, in any world: every status with that phase that
-- a reconciliation writes is for a spec without validation errors and comes after its workload was read.
pub reconcile_trigger-IsHonest :
    (key : Key) (env : Env) → IsHonest (trace_of (reconcile_trigger key env []))
unfolding reconcile_trigger
reconcile_trigger-IsHonest key env =
    (Keeps-bind _ _ (Keeps-call (get_trigger key) (λ t x h. h)) (answer_trigger-IsHonest key)).at
      env [] tt
