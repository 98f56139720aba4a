-- ===== src/Types/Pool.antt =====
-- go/api/v1alpha1/pool_types.go. The schema bounds `size` and `max_fill_concurrency` from below by 0
-- and 1.
use boilerhouse.Common.{ℕ, String, Option}
use boilerhouse.Types.Meta.{ObjectMeta}

pub record PoolSpec : Type 0 where
  pub workload_ref : String
  pub size : ℕ
  pub max_fill_concurrency : Option ℕ

pub data PoolPhase : Type 0 where
  unset healthy degraded error : PoolPhase

pub record PoolStatus : Type 0 where
  pub ready : ℕ
  pub warming : ℕ
  pub phase : PoolPhase

pub record Pool : Type 0 where
  pub meta : ObjectMeta
  pub spec : PoolSpec
  pub status : PoolStatus
