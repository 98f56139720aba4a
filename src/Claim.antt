-- ===== src/Claim.antt =====
-- go/internal/operator/claim_*.go: the reconciler of claims.
pub mod Reconciler
pub mod Token
pub mod Activate
pub mod Release
pub mod Deletion
pub mod Pods
pub mod Idle
pub mod Reconcile
pub mod Reads
pub mod Quiet
pub mod Phases
pub mod Lifecycle
pub mod Patience
pub mod Revocation
pub mod Retries
pub mod Saves
