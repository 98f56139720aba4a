-- ===== src/Api.antt =====
-- go/internal/api: authentication and authorization of the REST API.
pub mod Auth
pub mod TokenStore
pub mod Authenticate
pub mod History
pub mod RoundTrip
pub mod Issued
pub mod Origin
pub mod Reply
pub mod Triggers
pub mod Router
pub mod Claims
pub mod Tenants
pub mod Workloads
pub mod Instances
pub mod System
pub mod Snapshots
pub mod Debug
pub mod Events
