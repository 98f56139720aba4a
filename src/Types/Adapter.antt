-- ===== src/Types/Adapter.antt =====
-- The adapters and the payloads of go/internal/trigger, as far as the gateway builds and hands them on.
use boilerhouse.Common.{String}
use boilerhouse.Common.Int.{ℤ}
use boilerhouse.Types.Json.{Json, Object}

-- `NewWebhookAdapter`, `NewCronAdapter` and `NewTelegramAdapter`.
pub data Adapter : Type 0 where
  webhook : String → String → Adapter
  cron : ℤ → String → Adapter
  telegram : Object → Adapter

-- `TriggerPayload`
pub record Payload : Type 0 where
  pub text : String
  pub source : String
  pub raw : Json
