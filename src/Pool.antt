-- ===== src/Pool.antt =====
-- go/internal/operator/pool_controller.go: the reconciler of pools.
pub mod Reconcile
pub mod Fill
pub mod Bounds
