-- ===== src/Trigger.antt =====
-- The triggers: go/internal/operator/trigger_controller.go and go/internal/trigger.
pub mod Reconcile
pub mod Tenant
pub mod Guards
pub mod Gateway
pub mod Clearing
pub mod Forwarding
pub mod Activity
pub mod Telegram
pub mod Configs
pub mod ApiGuard
pub mod Build
pub mod Sync
pub mod Drivers
pub mod Webhook
