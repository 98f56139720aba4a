-- ===== src/Trigger/Webhook.antt =====
-- go/internal/trigger/adapter_webhook.go: the answer to one request.
pub mod Text
use boilerhouse.Common.{ℕ, String, List, [], ◌∷◌, Option, none, some, ◌==◌, if◌then◌else◌}
use boilerhouse.Types.Json
use boilerhouse.Types.Json.{Json, null}
use boilerhouse.Types.Adapter.{Payload}
use boilerhouse.Cluster.{Result, ok, err, error_text}

-- The body is what reading it gives.
pub record WebhookRequest : Type 0 where
  pub method : String
  pub body : Result String

-- A result is written as JSON with status 200.
pub data Answer : Type 0 where
  encoded : Json → Answer
  failed : ℕ → String → Answer

unfoldable pub or_raw_text : String → Option Json → Json
or_raw_text body none = Json.text body
or_raw_text body (some j) = j

unfoldable pub webhook_payload : Json → Payload
webhook_payload raw = record { text = ""; source = "webhook"; raw = raw }

unfoldable pub answer_of : Result Json → Answer
answer_of (err e) = failed 500 (error_text e)
answer_of (ok result) = encoded result

-- The decoding of JSON, and the handler of the gateway.
module _ (decode : String → Option Json) (handler : Payload → Result Json) where
  unfoldable pub raw_body : String → Json
  unfolding or_raw_text
  raw_body body = if body == "" then null else or_raw_text body (decode body)

  -- The payloads handed over, and the answer.
  unfoldable pub with_body : Result String → List Payload × Answer
  unfolding raw_body webhook_payload answer_of
  with_body (err e) = ([], failed 400 "failed to read body")
  with_body (ok body) =
      let payload = webhook_payload (raw_body body) in (payload ∷ [], answer_of (handler payload))

  unfoldable pub receive : WebhookRequest → List Payload × Answer
  unfolding with_body
  receive r = if r.method == "POST" then with_body r.body else ([], failed 405 "method not allowed")
