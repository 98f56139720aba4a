-- ===== src/Tests/Drivers.antt =====
-- The webhook, and a conversation with the bridge of an instance: output in two parts, a message of another type between them, and
-- output behind the end.
use boilerhouse.Common.{String, List, [], ◌∷◌, ◌≡◌, none, All}
use boilerhouse.Types.Json
use boilerhouse.Types.Json.{Object, null}
use boilerhouse.Cluster.{message, ok}
use boilerhouse.Trigger.Drivers.{read_reply, pi_exited, Bridge}
use boilerhouse.Trigger.Drivers.Conversation.{
  conclude, before_end, end_of, output_text, read_reply-conclude,
}
use boilerhouse.Trigger.Webhook.{WebhookRequest, receive}
use boilerhouse.Trigger.Webhook.Text.{SaysNothing, receive-SaysNothing}

abbrev of_type : String → Object → Object
of_type type rest = ("type", Json.text type) ∷ rest

abbrev output : String → Object
output text = of_type "output" (("text", Json.text text) ∷ [])

abbrev said : List Object
said = output "a" ∷ of_type "status" [] ∷ output "b" ∷ of_type "idle" [] ∷ output "c" ∷ []

read_reply-conclude_example :
    read_reply "pi" pi_exited (message "closed") "" said
    ≡ conclude "pi" pi_exited (message "closed") (output_text (before_end said)) (end_of said)
read_reply-conclude_example = read_reply-conclude "pi" pi_exited (message "closed") said

abbrev bridge : Bridge
bridge = record {
  dialled = none;
  init_written = none;
  prompt_written = none;
  incoming = of_type "ready" [] ∷ said;
  broken = message "closed";
}

abbrev request : WebhookRequest
request = record { method = "POST"; body = ok "hello" }

receive-SaysNothing_example :
    All
      (SaysNothing bridge "http://10.0.0.7:80" "ann")
      (receive (λ body. none) (λ payload. ok null) request).0
receive-SaysNothing_example =
    receive-SaysNothing bridge "http://10.0.0.7:80" "ann" (λ body. none) (λ payload. ok null)
      request
