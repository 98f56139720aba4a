-- ===== src/Api/Events.antt =====
-- go/internal/api/websocket.go: the events that the watches of Pods and of claims send. A watch is the sequence of its
-- changes, as they come; objects of another type, which both loops pass over, do not stand in it.
pub mod PerClaim
use boilerhouse.Common.{
  String, Bool, true, false, List, [], ◌∷◌, ◌++◌, Option, none, some, ◌==◌, ◌&&◌, not,
  if◌then◌else◌,
}
use boilerhouse.Common.Dict.{Dict, lookup, insert, remove}
use boilerhouse.Types.Pod.{Pod, PodPhase}
use boilerhouse.Types.Claim.{Claim, Phase, Source, active, released}
use boilerhouse.Translate.Objects.{label_tenant, label_workload, label_pool_status}
use boilerhouse.Api.TokenStore.{value_at}

-- `watch.Added` and `watch.Modified` are treated alike.
pub data Change {ℓ} (A : Type ℓ) : Type ℓ where
  changed deleted : A → Change A

-- `wsEvent` by its type, with the fields that are set; the state `none` is `Deleted`.
pub data WsEvent : Type 0 where
  instance_state : String → Option PodPhase → String → String → WsEvent
  pool_instance_ready : String → String → WsEvent
  tenant_claimed : String → String → String → Source → WsEvent
  tenant_released : String → String → WsEvent

abbrev pub or_empty_text : Option String → String
or_empty_text none = ""
or_empty_text (some s) = s

unfoldable pub ready_events : Pod → String → String → List WsEvent
unfolding value_at
ready_events pod previous current =
    if current == "ready" && not (previous == "ready")
    then pool_instance_ready pod.meta.name (value_at label_workload pod.meta.labels) ∷ []
    else []

-- One round of `watchPods`: what is sent, and the pool status of each Pod that is kept.
unfoldable pub watch_pod : Dict String → Change Pod → List WsEvent × Dict String
unfolding ready_events value_at lookup insert remove
watch_pod statuses (changed pod) =
    let current = value_at label_pool_status pod.meta.labels in
    (
      instance_state pod.meta.name (some pod.phase) (value_at label_workload pod.meta.labels)
            (value_at label_tenant pod.meta.labels)
          ∷ ready_events pod (or_empty_text (lookup pod.meta.name statuses)) current,
      insert pod.meta.name current statuses,
    )
watch_pod statuses (deleted pod) = (
  instance_state pod.meta.name none (value_at label_workload pod.meta.labels)
        (value_at label_tenant pod.meta.labels)
      ∷ [],
  remove pod.meta.name statuses,
)

unfoldable pub watch_pods : Dict String → List (Change Pod) → List WsEvent
unfolding watch_pod
watch_pods statuses [] = []
watch_pods statuses (change ∷ changes) =
    let sent = watch_pod statuses change in sent.0 ++ watch_pods sent.1 changes

abbrev pub is_active_phase : Phase → Bool
is_active_phase active = true
is_active_phase _ = false

abbrev pub is_released_phase : Phase → Bool
is_released_phase released = true
is_released_phase _ = false

-- A claim that was not seen has the empty phase.
abbrev pub or_unset : Option Phase → Phase
or_unset none = Phase.unset
or_unset (some phase) = phase

unfoldable pub claimed_events : Phase → Claim → List WsEvent
claimed_events prev claim =
    if is_active_phase claim.status.phase && not (is_active_phase prev)
    then tenant_claimed claim.meta.name claim.spec.tenant_id claim.spec.workload_ref
        claim.status.source
      ∷ []
    else []

unfoldable pub released_events : Phase → Claim → List WsEvent
released_events prev claim =
    if is_released_phase claim.status.phase && not (is_released_phase prev)
    then tenant_released claim.meta.name claim.spec.tenant_id ∷ []
    else []

unfoldable pub phase_events : Phase → Claim → List WsEvent
unfolding claimed_events released_events
phase_events prev claim = claimed_events prev claim ++ released_events prev claim

-- One round of `watchClaims`.
unfoldable pub watch_claim : Dict Phase → Change Claim → List WsEvent × Dict Phase
unfolding phase_events lookup insert remove
watch_claim phases (changed claim) = (
  phase_events (or_unset (lookup claim.meta.name phases)) claim,
  insert claim.meta.name claim.status.phase phases,
)
watch_claim phases (deleted claim) =
    (tenant_released claim.meta.name claim.spec.tenant_id ∷ [], remove claim.meta.name phases)

unfoldable pub watch_claims : Dict Phase → List (Change Claim) → List WsEvent
unfolding watch_claim
watch_claims phases [] = []
watch_claims phases (change ∷ changes) =
    let sent = watch_claim phases change in sent.0 ++ watch_claims sent.1 changes
