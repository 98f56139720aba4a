-- ===== src/Claim/Activate.antt =====
-- go/internal/operator/claim_activate.go: `activateClaim`.
use boilerhouse.Common.{ℕ, Bool, true, false, List, [], ◌∷◌, some, ◌==◌, ◌||◌, not, if◌then◌else◌}
use boilerhouse.Common.Int.{ℤ, pos}
use boilerhouse.Types.Meta.{second}
use boilerhouse.Types.Claim.{
  Claim, ClaimStatus, Phase, Source, unset, existing, cold, cold_data, pool, pool_data,
}
use boilerhouse.Types.Pod.{Pod, Container}
use boilerhouse.Cluster.{M, Requeue, after, ◌>>=◌, ◌>>◌, pure, call, now}
use boilerhouse.Claim.Reconciler.{write_status, idle_check_interval}

abbrev pub source_eq : Source → Source → Bool
source_eq unset unset = true
source_eq existing existing = true
source_eq cold cold = true
source_eq cold_data cold_data = true
source_eq pool pool = true
source_eq pool_data pool_data = true
source_eq _ _ = false

-- The first port of the first container, or 0.
unfoldable pub endpoint_port : List Container → ℤ
endpoint_port [] = pos 0
endpoint_port (c ∷ cs) = elim c.ports [ [] ↦ pos 0 | p ∷ ps ↦ p ]

-- An earlier provenance outlives the fallback `existing`.
unfoldable pub final_source : Source → Source → Source
final_source existing unset = existing
final_source existing recorded = recorded
final_source source recorded = source

-- Without an address the provenance is noted and the claim waits.
unfoldable pub await_address : Claim → Pod → Source → M Requeue
unfolding write_status
await_address claim pod source =
    if not (source_eq claim.status.source source) || not (claim.status.instance_id == pod.meta.name)
    then (do
      write_status claim (record (claim.status) { source = source; instance_id = pod.meta.name })
      pure (after second))
    else pure (after second)

unfoldable pub active_status : Claim → Pod → Source → ℕ → ClaimStatus
unfolding final_source endpoint_port
active_status claim pod source clock = record {
  phase = Phase.active;
  instance_id = pod.meta.name;
  endpoint = some (record { host = pod.pod_ip; port = endpoint_port pod.containers });
  source = final_source source claim.status.source;
  claimed_at = some clock;
  detail = "";
}

unfoldable pub activate_claim : Claim → Pod → Source → M Requeue
unfolding await_address active_status write_status
activate_claim claim pod source = if pod.pod_ip == "" then await_address claim pod source else do
  clock ← call now
  write_status claim (active_status claim pod source clock)
  pure (after idle_check_interval)
