-- ===== src/Trigger/Gateway.antt =====
-- go/internal/trigger/gateway.go: the handling of one event.
use boilerhouse.Common.{
  ℕ, zero, suc, String, Bool, true, false, List, [], Option, none, some, ◌==◌, ◌<>◌, if◌then◌else◌,
}
use boilerhouse.Common.Int.{is_positive}
use boilerhouse.Common.Text.{show_ℤ}
use boilerhouse.Types.Meta.{Key}
use boilerhouse.Types.Claim.{
  Claim, ClaimEndpoint, ClaimStatus, Phase, Source, active, released, releasing,
}
use boilerhouse.Types.Trigger.{Trigger}
use boilerhouse.Trigger.Tenant.{Raw, resolve_tenant_id}
use boilerhouse.Trigger.Guards.{Guard, run_guards}
use boilerhouse.Cluster.{
  M, message, wrap, Result, ok, err, is_not_found, wrapping, ◌>>=◌, ◌>>◌, pure, raise, call,
  or_wrap, succeed_or_wrap, unless_missing, unless_exists, get_claim, delete_claim, create_claim,
  send_event, tick,
}

unfoldable pub format_endpoint : ClaimEndpoint → String
format_endpoint ep =
    if is_positive ep.port
    then "http://" <> ep.host <> ":" <> show_ℤ ep.port
    else "http://" <> ep.host

unfoldable pub endpoint_with_host : Option ClaimEndpoint → Option String
unfolding format_endpoint
endpoint_with_host none = none
endpoint_with_host (some ep) = if ep.host == "" then none else some (format_endpoint ep)

-- The URL of a claim that is active and has a host.
unfoldable pub active_url : ClaimStatus → Option String
unfolding endpoint_with_host
active_url status = elim status.phase [ active ↦ endpoint_with_host status.endpoint | _ ↦ none ]

unfoldable pub by_poll_phase : Key → M String → String → Phase → M String
by_poll_phase key next detail Phase.error =
    raise (message ("claim " <> key.name <> " errored: " <> detail))
by_poll_phase key next detail _ = next

unfoldable pub after_url : Key → M String → Claim → Option String → M String
unfolding by_poll_phase
after_url key next claim (some url) = pure url
after_url key next claim none = by_poll_phase key next claim.status.detail claim.status.phase

-- One look at a claim that is polled: its URL, an error, or neither yet.
unfoldable pub look : Key → M String → Result Claim → M String
unfolding active_url after_url
look key next (err e) = next
look key next (ok claim) = after_url key next claim (active_url claim.status)

-- The ticks that fit into a timeout bound the rounds; the context may end before.
unfoldable pub wait_for_claim : Key → ℕ → M String
unfolding look
wait_for_claim key zero =
    raise (message ("timed out waiting for claim " <> key.name <> " to become active"))
wait_for_claim key (suc rounds) = do
  ticked ← call tick
  if ticked
      then (do answer ← call (get_claim key); look key (wait_for_claim key rounds) answer)
      else raise (message ("timed out waiting for claim " <> key.name <> " to become active"))

abbrev pub is_missing : Result Claim → Bool
is_missing (ok claim) = false
is_missing (err e) = is_not_found e

unfoldable pub wait_for_claim_deleted : Key → ℕ → M (Unit {0})
wait_for_claim_deleted key zero =
    raise (message ("timed out waiting for claim " <> key.name <> " to delete"))
wait_for_claim_deleted key (suc rounds) = do
  ticked ← call tick
  if ticked
      then (do
        answer ← call (get_claim key)
        if is_missing answer then pure tt else wait_for_claim_deleted key rounds)
      else raise (message ("timed out waiting for claim " <> key.name <> " to delete"))

abbrev pub claim_poll_rounds : ℕ
claim_poll_rounds = 120

abbrev pub delete_poll_rounds : ℕ
delete_poll_rounds = 60

-- The claim that the gateway creates.
unfoldable pub new_claim : Key → String → String → Claim
new_claim key tenant workload = record {
  meta = record {
    name = key.name;
    namespace = key.namespace;
    labels = [];
    annotations = [];
    finalizers = [];
    owners = [];
    deletion_timestamp = none;
    creation_timestamp = none;
    generation = 0;
  };
  spec = record { tenant_id = tenant; workload_ref = workload; resume = some true };
  status = record {
    phase = Phase.unset;
    instance_id = "";
    endpoint = none;
    source = Source.unset;
    claimed_at = none;
    detail = "";
  };
}

unfoldable pub create_and_wait : Key → String → String → M String
unfolding new_claim wait_for_claim
create_and_wait key tenant workload = do
  outcome ← call (create_claim (new_claim key tenant workload))
  succeed_or_wrap "create claim" (unless_exists outcome)
  wait_for_claim key claim_poll_rounds

unfoldable pub replace_claim : Key → String → String → String → Claim → M String
unfolding wait_for_claim_deleted create_and_wait
replace_claim key tenant workload phase claim = do
  outcome ← call (delete_claim claim)
  succeed_or_wrap ("delete terminal claim (phase=" <> phase <> ")") (unless_missing outcome)
  wrapping "waiting for terminal claim delete" (wait_for_claim_deleted key delete_poll_rounds)
  create_and_wait key tenant workload

-- A claim that will not become active is replaced; any other is waited for.
unfoldable pub by_claim_phase : Key → String → String → Claim → Phase → M String
unfolding replace_claim wait_for_claim
by_claim_phase key tenant workload claim released =
    replace_claim key tenant workload "Released" claim
by_claim_phase key tenant workload claim Phase.error =
    replace_claim key tenant workload "Error" claim
by_claim_phase key tenant workload claim releasing =
    replace_claim key tenant workload "Releasing" claim
by_claim_phase key tenant workload claim _ = wait_for_claim key claim_poll_rounds

unfoldable pub use_claim : Key → String → String → Claim → Option String → M String
unfolding by_claim_phase
use_claim key tenant workload claim (some url) = pure url
use_claim key tenant workload claim none =
    by_claim_phase key tenant workload claim claim.status.phase

unfoldable pub by_claim : Key → String → String → Result Claim → M String
unfolding active_url create_and_wait use_claim
by_claim key tenant workload (err e) =
    if is_not_found e then create_and_wait key tenant workload else raise (wrap "get claim" e)
by_claim key tenant workload (ok claim) =
    use_claim key tenant workload claim (active_url claim.status)

unfoldable pub claim_key : String → String → String → Key
claim_key ns tenant workload = record {
  name = "claim-" <> tenant <> "-" <> workload;
  namespace = ns;
}

unfoldable pub ensure_claim : String → String → String → M String
unfolding by_claim claim_key
ensure_claim ns tenant workload = do
  answer ← call (get_claim (claim_key ns tenant workload))
  by_claim (claim_key ns tenant workload) tenant workload answer

unfoldable pub handle_event : String → Trigger → List Guard → Raw → M String
unfolding resolve_tenant_id run_guards ensure_claim
handle_event ns trigger guards raw = do
  tenant ← or_wrap "resolve tenant" (resolve_tenant_id trigger.spec.tenant raw)
  run_guards guards tenant
  url ← wrapping "ensure claim" (ensure_claim ns tenant trigger.spec.workload_ref)
  answer ← call (send_event url tenant)
  or_wrap "driver send" answer
