-- ===== src/Api/Tenants.antt =====
-- go/internal/api/routes_tenant.go.
pub mod Grouping
pub mod Claiming
use boilerhouse.Common.{
  ℕ, String, Bool, true, false, List, [], ◌∷◌, ◌++◌, ◌*◌, Option, none, some, ◌==◌, ◌<>◌, map,
  if◌then◌else◌,
}
use boilerhouse.Common.Dict.{Dict, lookup, insert}
use boilerhouse.Types.Meta.{second}
use boilerhouse.Types.Claim.{Claim, ClaimEndpoint, ClaimStatus, Phase, Source}
use boilerhouse.Scope
use boilerhouse.Cluster.{M, Result, ok, err, ◌>>=◌, pure, call, attempt, delete_claim, list_claims}
use boilerhouse.Api.Reply.{Reply, wrote, refused, Server, or_refuse, unless_refused, show_time}
use boilerhouse.Api.Claims.{
  AcquireOutcome, created, existing_active, claim_key, claim_name, bare_meta, no_status,
  acquire_claim, poll_claim,
}

pub record ClaimRequest : Type 0 where
  pub workload : String
  pub workload_ref : String
  pub resume : Option Bool

unfoldable pub workload_name : ClaimRequest → String
workload_name c = if c.workload == "" then c.workload_ref else c.workload

pub record ClaimResponse : Type 0 where
  pub tenant_id : String
  pub phase : Phase
  pub instance_id : String
  pub endpoint : Option ClaimEndpoint
  pub source : Source
  pub claimed_at : String
  pub detail : String

unfoldable pub claimed_at_text : Server → Option ℕ → String
claimed_at_text s none = ""
claimed_at_text s (some t) = s.time.format t

unfoldable pub to_claim_response : Server → Claim → ClaimResponse
unfolding claimed_at_text
to_claim_response s c = record {
  tenant_id = c.spec.tenant_id;
  phase = c.status.phase;
  instance_id = c.status.instance_id;
  endpoint = c.status.endpoint;
  source = c.status.source;
  claimed_at = claimed_at_text s c.status.claimed_at;
  detail = c.status.detail;
}

pub record TenantResponse : Type 0 where
  pub tenant_id : String
  pub claims : List ClaimResponse

-- A claim that was created is polled; one that was active is shown as it is.
unfoldable pub show_acquired : Server → Claim → AcquireOutcome → M (Reply ClaimResponse)
unfolding to_claim_response or_refuse
show_acquired s claim existing_active = pure (wrote 200 (to_claim_response s claim))
show_acquired s claim created = do
  result ← attempt (poll_claim s claim.meta.name (30 * second) 500_000_000)
  or_refuse 500 "failed polling claim: " result
      (λ polled. pure (wrote 201 (to_claim_response s polled)))

unfoldable pub claim_instance : Server → String → Result ClaimRequest → M (Reply ClaimResponse)
unfolding or_refuse workload_name show_acquired
claim_instance s tenant body = or_refuse 400 "invalid JSON: " body (λ req.
    if workload_name req == "" then pure (refused 400 "workload is required") else (do
      acquired ← attempt (acquire_claim s tenant (workload_name req) req.resume)
      or_refuse 500 "" acquired (λ pair. show_acquired s pair.0 pair.1)))

-- The object that is deleted has a name only.
unfoldable pub named_claim : Server → String → String → Claim
unfolding claim_key claim_name bare_meta
named_claim s tenant workload = record {
  meta = bare_meta (claim_key s (claim_name tenant workload));
  spec = record { tenant_id = ""; workload_ref = ""; resume = none };
  status = no_status;
}

unfoldable pub release_instance : Server → String → Result ClaimRequest → M (Reply (Dict String))
unfolding or_refuse unless_refused workload_name named_claim
release_instance s tenant body = or_refuse 400 "invalid JSON: " body (λ req.
    if workload_name req == "" then pure (refused 400 "workload is required") else (do
      outcome ← call (delete_claim (named_claim s tenant (workload_name req)))
      unless_refused 404 "claim not found: " outcome
          (pure (wrote 200 (("status", "released") ∷ ("tenantId", tenant) ∷ [])))))

unfoldable pub show_tenant : Server → String → List Claim → M (Reply TenantResponse)
unfolding to_claim_response
show_tenant s tenant [] = pure (refused 404 "tenant not found")
show_tenant s tenant (c ∷ cs) =
    pure (wrote 200 (record { tenant_id = tenant; claims = map (to_claim_response s) (c ∷ cs) }))

unfoldable pub get_tenant : Server → String → M (Reply TenantResponse)
unfolding or_refuse show_tenant
get_tenant s tenant = do
  answer ← call (list_claims s.namespace ((Scope.label_tenant, tenant) ∷ []))
  or_refuse 500 "failed to list claims: " answer (show_tenant s tenant)

-- `byTenant[tid]` of a tenant that is not there is the empty list.
abbrev pub held : Option (List ClaimResponse) → List ClaimResponse
held none = []
held (some claims) = claims

unfoldable pub group_of : String → Dict (List ClaimResponse) → List ClaimResponse
unfolding lookup
group_of tid groups = held (lookup tid groups)

-- The loop that appends each claim to its tenant's group.
unfoldable pub group_claims :
    Server → Dict (List ClaimResponse) → List Claim → Dict (List ClaimResponse)
unfolding insert group_of to_claim_response
group_claims s groups [] = groups
group_claims s groups (c ∷ cs) =
    group_claims s
      (insert c.spec.tenant_id (group_of c.spec.tenant_id groups ++ (to_claim_response s c ∷ []))
        groups)
      cs

unfoldable pub tenant_of : String × List ClaimResponse → TenantResponse
tenant_of (tid, claims) = record { tenant_id = tid; claims = claims }

unfoldable pub list_tenants : Server → M (Reply (List TenantResponse))
unfolding or_refuse group_claims tenant_of
list_tenants s = do
  answer ← call (list_claims s.namespace [])
  or_refuse 500 "failed to list claims: " answer
      (λ claims. pure (wrote 200 (map tenant_of (group_claims s [] claims))))
