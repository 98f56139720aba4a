-- ===== src/Api/System.antt =====
-- go/internal/api/routes_system.go.
pub mod Counts
use boilerhouse.Common.{
  ℕ, ◌+◌, String, List, [], ◌∷◌, Option, none, some, ◌==◌, length, map, if◌then◌else◌,
}
use boilerhouse.Common.Dict.{Dict, lookup, insert}
use boilerhouse.Types.Claim
use boilerhouse.Types.Claim.{Claim}
use boilerhouse.Types.Pod
use boilerhouse.Types.Pod.{Pod}
use boilerhouse.Translate.Objects.{label_managed}
use boilerhouse.Cluster.{M, ◌>>=◌, pure, call, list_pods, list_claims}
use boilerhouse.Api.Reply.{Reply, wrote, Server, or_refuse}

unfoldable pub get_health : M (Reply String)
get_health = pure (wrote 200 "ok")

pub record PhaseStats : Type 0 where
  pub total : ℕ
  pub by_phase : Dict ℕ

pub record StatsResponse : Type 0 where
  pub instances : PhaseStats
  pub claims : PhaseStats

-- A Pod without a phase counts as unknown, and a claim without one as pending.
abbrev pub pod_phase : Pod.PodPhase → String
pod_phase Pod.PodPhase.unset = "Unknown"
pod_phase Pod.PodPhase.pending = "Pending"
pod_phase Pod.PodPhase.running = "Running"
pod_phase Pod.PodPhase.succeeded = "Succeeded"
pod_phase Pod.PodPhase.failed = "Failed"
pod_phase Pod.PodPhase.unknown = "Unknown"

abbrev pub claim_phase : Claim.Phase → String
claim_phase Claim.Phase.unset = "Pending"
claim_phase Claim.Phase.pending = "Pending"
claim_phase Claim.Phase.active = "Active"
claim_phase Claim.Phase.releasing = "Releasing"
claim_phase Claim.Phase.released = "Released"
claim_phase Claim.Phase.release_failed = "ReleaseFailed"
claim_phase Claim.Phase.error = "Error"

-- `m[phase]` of a missing phase is 0.
abbrev pub or_zero : Option ℕ → ℕ
or_zero none = 0
or_zero (some n) = n

unfoldable pub count_at : String → Dict ℕ → ℕ
unfolding lookup
count_at phase m = or_zero (lookup phase m)

-- The loop of `m[phase]++`.
unfoldable pub count_phases : List String → Dict ℕ → Dict ℕ
unfolding insert count_at
count_phases [] m = m
count_phases (p ∷ ps) m = count_phases ps (insert p (count_at p m + 1) m)

unfoldable pub stats_of : List String → PhaseStats
unfolding count_phases
stats_of phases = record { total = length phases; by_phase = count_phases phases [] }

unfoldable pub get_stats : Server → M (Reply StatsResponse)
unfolding or_refuse stats_of
get_stats s = do
  pods ← call (list_pods s.namespace ((label_managed, "true") ∷ []))
  or_refuse 500 "failed to list pods: " pods (λ found. do
    claims ← call (list_claims s.namespace [])
    or_refuse 500 "failed to list claims: " claims (λ held. pure (
        wrote 200 (record {
          instances = stats_of (map (λ (p : Pod). pod_phase p.phase) found);
          claims = stats_of (map (λ (c : Claim). claim_phase c.status.phase) held);
        }))))
