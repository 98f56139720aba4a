-- ===== src/Claim/Patience.antt =====
-- `handleActive` acts on a claim only for a reason: the claim is idle, or its Pod is gone.
use boilerhouse.Common.{
  ℕ, ◌+◌, ◌*◌, ◌≤◌, String, true, [], ◌∷◌, Option, none, some, ◌≡◌, refl, ◌⊎◌, inl, inr, leb, arith,
  Bool-cases, ◌==◌,
}
use boilerhouse.Common.Int.{pos_part, is_positive}
use boilerhouse.Types.Meta.{Key, second}
use boilerhouse.Types.Workload.{Workload, WorkloadIdle, IdleAction}
use boilerhouse.Types.Claim.{Claim}
use boilerhouse.Types.Pod.{Pod}
use boilerhouse.Cluster.{
  Had, M, Env, Error, Result, ok, err, Event, event, Request, Response, Trace, trace_of, call,
  is_not_found, get_pod, get_workload, now, delete_pod,
}
use boilerhouse.Cluster.Keeps.{
  Keeps, keeps_rules, Keeps-call, Keeps-pure, Keeps-raise, Keeps-if, Keeps-bind,
}
use boilerhouse.Cluster.Triple.{
  Triple, Triple-Keeps, Triple-call, Triple-bind, Triple-if, Triple-pure, Triple-pre, Triple-post,
  Triple-within, Keeps-Triple,
}
use boilerhouse.Claim.Reconciler.{Reconciler, write_status}
use boilerhouse.Claim.Token.{delete_claim_token}
use boilerhouse.Claim.Release.{
  Extracted, after_extract, release_pod, release_claim, mark_released, mark_release_failed,
  workload_key,
}
use boilerhouse.Claim.Idle.{
  last_activity, idle_action, check_idle, monitor_idle, monitor, watch_idle, mark_lost, after_pod,
  handle_active,
}
use boilerhouse.Claim.Quiet

module _ (r : Reconciler) (claim : Claim) where
  -- A workload that was read sets an idle timeout, and a clock that was read is past the last activity by it.
  abbrev pub IsIdle : Trace → Type 0
  IsIdle t =
      (key : Key) × (wl : Workload) × (idle : WorkloadIdle) × (last : ℕ) × (clock : ℕ) × Had
        (event (get_workload key) (ok wl)) t
      × (wl.spec.idle ≡ some idle)
      × (is_positive idle.timeout_seconds ≡ true)
      × (last_activity r claim ≡ some last)
      × Had (event now clock) t
      × (last + pos_part idle.timeout_seconds * second ≤ clock)

  -- A Pod was read as missing.
  abbrev pub IsLost : Trace → Type 0
  IsLost t =
      (key : Key) × (e : Error) × (is_not_found e ≡ true) × Had (event (get_pod key) (err e)) t

  abbrev pub Due : Trace → Type 0
  Due t = IsIdle t ⊎ IsLost t

  -- Every call but the three that only look comes after a reason.
  abbrev pub Patient : Trace → Type 0
  Patient [] = Unit
  Patient (event (get_pod key) x ∷ t) = Patient t
  Patient (event (get_workload key) x ∷ t) = Patient t
  Patient (event now x ∷ t) = Patient t
  Patient (event _ x ∷ t) = Due t × Patient t

  Due-cons : (e : Event) (t : Trace) → Due t → Due (e ∷ t)
  Due-cons e t (inl (key, wl, idle, last, clock, read, spec, positive, since, told, past)) =
      inl (key, wl, idle, last, clock, inr read, spec, positive, since, inr told, past)
  Due-cons e t (inr (key, error, missing, read)) = inr (key, error, missing, inr read)

  Patient-cons :
      (q : Request) (x : Response q) (t : Trace) → Due t → Patient t → Patient (event q x ∷ t)
  Patient-cons (get_pod key) x t due p = p
  Patient-cons (get_workload key) x t due p = p
  Patient-cons now x t due p = p
  Patient-cons _ x t due p = (due, p)

  -- With a reason, anything goes.
  abbrev Free : Trace → Type 0
  Free t = Due t × Patient t

  Keeps-Free : (q : Request) → Keeps Free (call q)
  Keeps-Free q = Keeps-call q (λ t x h. (Due-cons _ t h.0, Patient-cons q x t h.0 h.1))

  Free-Quiet : Quiet.IgnoresQuiet Free
  Free-Quiet q x t quiet h = (Due-cons _ t h.0, Patient-cons q x t h.0 h.1)

  Free-token : (c : Claim) → Keeps Free (delete_claim_token c)
  Free-token c = Quiet.delete_claim_token-Keeps Free-Quiet c

  mark_released-Free : (action : IdleAction) → Keeps Free (mark_released action claim)
  unfolding mark_released write_status
  mark_released-Free action = search (keeps_rules, Keeps-Free, Free-token) depth 10

  mark_release_failed-Free : (detail : String) → Keeps Free (mark_release_failed claim detail)
  unfolding mark_release_failed write_status
  mark_release_failed-Free detail = search (keeps_rules, Keeps-Free) depth 10

  after_extract-Free :
      (action : IdleAction) (pod : Pod) (x : Extracted)
      → Keeps Free (after_extract r action claim pod x)
  unfolding after_extract
  after_extract-Free action pod (some e) = mark_release_failed-Free _
  after_extract-Free action pod none =
      Keeps-bind _ _
        (Quiet.remove_pod-Keeps Free-Quiet r action _ claim pod (Keeps-Free (delete_pod pod)))
        (λ _. mark_released-Free action)

  release_pod-Free :
      (action : IdleAction) (o : Option Pod) → Keeps Free (release_pod r action claim o)
  unfolding release_pod
  release_pod-Free action none = mark_released-Free action
  release_pod-Free action (some pod) =
      Keeps-bind _ _ (Quiet.extract_first-Keeps Free-Quiet r action claim pod)
        (after_extract-Free action pod)

  release_claim-Free : (action : IdleAction) → Keeps Free (release_claim r claim action)
  unfolding release_claim
  release_claim-Free action =
      Keeps-bind _ _ (Quiet.find_tenant_pod-Keeps Free-Quiet _ _ _) (release_pod-Free action)

  Free-Patient : {A : Type 0} {m : M A} → Keeps Free m → Triple Patient Free (λ _. Patient) m
  Free-Patient k = Triple-post (λ _ t h. h.1) (Triple-within (λ t h. h.1) k)

  -- The workload that was read.
  abbrev Read : Result Workload → Trace → Type 0
  Read (err e) t = Patient t
  Read (ok wl) t = ((key : Key) × Had (event (get_workload key) (ok wl)) t) × Patient t

  check_idle-Patient :
      (wl : Workload) (idle : WorkloadIdle)
      → wl.spec.idle ≡ some idle
      → is_positive idle.timeout_seconds ≡ true
      → (o : Option ℕ) → last_activity r claim ≡ o
      → Triple Patient (Read (ok wl)) (λ _. Patient) (check_idle r claim idle o)
  unfolding check_idle
  check_idle-Patient wl idle spec positive none since = Triple-pure _ (λ t h. h.1)
  check_idle-Patient wl idle spec positive (some last) since =
      Triple-bind
        (λ clock t.
          ((key : Key) × Had (event (get_workload key) (ok wl)) t)
          × Had (event now clock) t
          × Patient t)
        (Triple-call now (λ t x h. ((h.0.0, inr h.0.1), inl refl, h.1)))
        (λ clock. elim (Bool-cases (leb (last + pos_part idle.timeout_seconds * second) clock)) [
          | inl past ↦ rw past (
              Triple-pre
                (λ t h. (
                  inl (
                    h.0.0,
                    wl,
                    idle,
                    last,
                    clock,
                    h.0.1,
                    spec,
                    positive,
                    since,
                    h.1,
                    ground arith,
                  ),
                  h.2,
                ))
                (Free-Patient (release_claim-Free (idle_action idle))))
          | inr early ↦ rw early (Triple-pure _ (λ t h. h.2))
        ])

  monitor_idle-Patient :
      (wl : Workload) (o : Option WorkloadIdle)
      → wl.spec.idle ≡ o
      → Triple Patient (Read (ok wl)) (λ _. Patient) (monitor_idle r claim o)
  unfolding monitor_idle
  monitor_idle-Patient wl none spec = Triple-pure _ (λ t h. h.1)
  monitor_idle-Patient wl (some idle) spec = elim (Bool-cases (is_positive idle.timeout_seconds)) [
    | inl positive ↦
        rw positive (check_idle-Patient wl idle spec positive (last_activity r claim) refl)
    | inr off ↦ rw off (Triple-pure _ (λ t h. h.1))
  ]

  monitor-Patient :
      (x : Result Workload) → Triple Patient (Read x) (λ _. Patient) (monitor r claim x)
  unfolding monitor
  monitor-Patient (err e) =
      Triple-Keeps (Keeps-if (is_not_found e) _ _ (Keeps-pure _) (Keeps-raise e))
  monitor-Patient (ok wl) = monitor_idle-Patient wl wl.spec.idle refl

  Read-workload :
      (key : Key) (t : Trace) (x : Result Workload)
      → Patient t
      → Read x (event (get_workload key) x ∷ t)
  Read-workload key t (ok wl) h = ((key, inl refl), h)
  Read-workload key t (err e) h = h

  watch_idle-Patient : Triple Patient Patient (λ _. Patient) (watch_idle r claim)
  unfolding watch_idle
  watch_idle-Patient =
      Triple-bind Read
        (Triple-call (get_workload (workload_key claim)) (Read-workload (workload_key claim)))
        monitor-Patient

  mark_lost-Free : Keeps Free (mark_lost claim)
  unfolding mark_lost write_status
  mark_lost-Free = search (keeps_rules, Keeps-Free) depth 10

  after_pod-Patient :
      (x : Result Pod)
      → Triple Patient
          (λ t. ((key : Key) × Had (event (get_pod key) x) t) × Patient t)
          (λ _. Patient)
          (after_pod r claim x)
  unfolding after_pod
  after_pod-Patient (ok pod) = Triple-pre (λ t h. h.1) watch_idle-Patient
  after_pod-Patient (err e) = elim (Bool-cases (is_not_found e)) [
    | inl missing ↦
        rw missing
          (Triple-pre (λ t h. (inr (h.0.0, e, missing, h.0.1), h.1)) (Free-Patient mark_lost-Free))
    | inr other ↦ rw other (Triple-pre (λ t h. h.1) watch_idle-Patient)
  ]

  active-Patient : Triple Patient Patient (λ _. Patient) (handle_active r claim)
  unfolding handle_active
  active-Patient = Triple-if (claim.status.instance_id == "") watch_idle-Patient (
      Triple-bind (λ x t. ((key : Key) × Had (event (get_pod key) x) t) × Patient t)
        (Triple-call (get_pod _) (λ t x h. ((_, inl refl), h))) after_pod-Patient)

pub handle_active-Patient :
    (r : Reconciler) (claim : Claim) (env : Env)
    → Patient r claim (trace_of (handle_active r claim env []))
handle_active-Patient r claim env = (Keeps-Triple (active-Patient r claim)).at env [] tt
