-- ===== src/Types/Claim.antt =====
-- go/api/v1alpha1/claim_types.go. The CRD schema restricts `phase` and `source` to the listed values
-- and the empty string.
use boilerhouse.Common.{ℕ, String, Option, Bool}
use boilerhouse.Common.Int.{ℤ}
use boilerhouse.Types.Meta.{ObjectMeta}

pub record ClaimEndpoint : Type 0 where
  pub host : String
  pub port : ℤ

pub record ClaimSpec : Type 0 where
  pub tenant_id : String
  pub workload_ref : String
  pub resume : Option Bool

pub data Phase : Type 0 where
  unset pending active releasing released release_failed error : Phase

pub data Source : Type 0 where
  unset existing cold cold_data pool pool_data : Source

pub record ClaimStatus : Type 0 where
  pub phase : Phase
  pub instance_id : String
  pub endpoint : Option ClaimEndpoint
  pub source : Source
  pub claimed_at : Option ℕ
  pub detail : String

pub record Claim : Type 0 where
  pub meta : ObjectMeta
  pub spec : ClaimSpec
  pub status : ClaimStatus
