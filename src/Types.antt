-- ===== src/Types.antt =====
-- The custom resources of go/api/v1alpha1, and of the Kubernetes objects the fields that the
-- operator, the API server and the trigger gateway read or write.
pub mod Meta
pub mod Workload
pub mod Claim
pub mod Pool
pub mod Trigger
pub mod Pod
pub mod Json
pub mod Adapter
pub mod Volume
