-- ===== src/Trigger/Webhook/Text.antt =====
-- The payloads of go/internal/trigger/adapter_webhook.go, as the drivers for the bridges send them on.
use boilerhouse.Common.{
  String, Bool, true, false, Option, ◌==◌, ◌≡◌, refl, ap, none, some, if◌then◌else◌, All, [],
}
use boilerhouse.Types.Json.{Json, null}
use boilerhouse.Types.Adapter.{Payload}
use boilerhouse.Cluster.{Error, Result, ok, err}
use boilerhouse.Trigger.Drivers.{
  Bridge, pi_prompt, prompt_message, init_message, claude_code_init, pi_send, pi_dialled,
  claude_code_send, claude_code_dialled,
}
use boilerhouse.Trigger.Webhook.{
  WebhookRequest, receive, raw_body, failed, with_body, webhook_payload,
}

module _ (b : Bridge) (endpoint tenant : String) where
  -- The drivers do with this payload what they do with one that carries nothing.
  abbrev pub SaysNothing : Payload → Type 0
  SaysNothing payload =
      (pi_send b endpoint payload ≡ pi_send b endpoint (webhook_payload null))
      × (claude_code_send b endpoint tenant payload
          ≡ claude_code_send b endpoint tenant (webhook_payload null))

  pi_dialled-empty :
      (payload : Payload) (o : Option Error)
      → payload.text ≡ ""
      → pi_dialled b endpoint payload o ≡ pi_dialled b endpoint (webhook_payload null) o
  unfolding pi_dialled webhook_payload
  pi_dialled-empty payload (some e) is = refl
  pi_dialled-empty payload none is =
      ap (λ text. pi_prompt b (prompt_message text) b.prompt_written) is

  claude_code_dialled-empty :
      (payload : Payload) (o : Option Error)
      → payload.text ≡ ""
      → claude_code_dialled b endpoint tenant payload o
        ≡ claude_code_dialled b endpoint tenant (webhook_payload null) o
  unfolding claude_code_dialled webhook_payload
  claude_code_dialled-empty payload (some e) is = refl
  claude_code_dialled-empty payload none is =
      ap (λ text. claude_code_init b (init_message tenant) (prompt_message text) b.init_written) is

  same_sent : (payload : Payload) → payload.text ≡ "" → SaysNothing payload
  unfolding pi_send claude_code_send
  same_sent payload is =
      (pi_dialled-empty payload b.dialled is, claude_code_dialled-empty payload b.dialled is)

  with_body-SaysNothing :
      (decode : String → Option Json) (handler : Payload → Result Json) (body : Result String)
      → All SaysNothing (with_body decode handler body).0
  unfolding with_body webhook_payload
  with_body-SaysNothing decode handler (err e) = tt
  with_body-SaysNothing decode handler (ok body) =
      (same_sent (webhook_payload (raw_body decode handler body)) refl, tt)

  -- Whatever a request to the webhook brings, the drivers for the two bridges write and return what they would for an
  -- empty one: the body of the request does not reach an instance.
  pub receive-SaysNothing :
      (decode : String → Option Json) (handler : Payload → Result Json) (r : WebhookRequest)
      → All SaysNothing (receive decode handler r).0
  unfolding receive
  receive-SaysNothing decode handler r = go (r.method == "POST")
    where
      go :
          (post : Bool)
          → All SaysNothing
              (if post
                then with_body decode handler r.body
                else ([], failed 405 "method not allowed")).0
      go true = with_body-SaysNothing decode handler r.body
      go false = tt
