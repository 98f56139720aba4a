-- ===== src/Tests/Pools.antt =====
-- The reconciler of pools, run on one pool.
use boilerhouse.Common.{[]}
use boilerhouse.Cluster.{trace_of}
use boilerhouse.Pool.Reconcile.{reconcile_found}
use boilerhouse.Pool.Fill.{Bounded}
use boilerhouse.Pool.Bounds.{reconcile_found-bounds}
use boilerhouse.Tests.Fixtures.{pool, reconciler, world}

reconcile_found-bounds_example :
    Bounded pool (trace_of (reconcile_found reconciler.decode_env pool world []))
reconcile_found-bounds_example = reconcile_found-bounds reconciler.decode_env pool world
