-- ===== src/Workload.antt =====
-- go/internal/operator/workload_controller.go: the reconciler of workloads.
pub mod Image
pub mod Reconcile
pub mod Readiness
