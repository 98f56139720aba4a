-- ===== src/Trigger/Telegram.antt =====
-- go/internal/trigger/adapter_telegram.go. The calls of the Telegram Bot API answer from the world: what they
-- decode, or why that failed.
pub mod Config
pub mod Update
pub mod Loop
pub mod Tenants
