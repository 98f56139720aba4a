-- ===== src/Trigger/Drivers.antt =====
-- The drivers of go/internal/trigger/driver_claude_code.go and driver_pi.go: the conversations that they hold with the
-- bridge in an instance.
pub mod Conversation
use boilerhouse.Common.{
  String, Bool, List, [], ◌∷◌, ◌++◌, Option, none, some, ◌==◌, ◌<>◌, if◌then◌else◌,
}
use boilerhouse.Common.Int.{ℤ, pos}
use boilerhouse.Common.Dict.{lookup}
use boilerhouse.Common.Text.{show_ℤ}
use boilerhouse.Common.Split.{trim_slashes, after_prefix}
use boilerhouse.Types.Json
use boilerhouse.Types.Json.{Json, Object, number, object, fields_of, text_at, or_empty}
use boilerhouse.Types.Adapter.{Payload}
use boilerhouse.Cluster.{Error, wrap, message, Result, ok, err}

-- The connection: how the dial and each write end, the messages that come, one after another, and the error of
-- the read after them, a deadline among others. A message `null` is an empty object.
pub record Bridge : Type 0 where
  pub dialled : Option Error
  pub init_written : Option Error
  pub prompt_written : Option Error
  pub incoming : List Object
  pub broken : Error

unfoldable pub endpoint_to_ws : String → String
unfolding trim_slashes after_prefix
endpoint_to_ws endpoint =
    let s = trim_slashes endpoint in
    elim (after_prefix "https://" s) [
      | some rest ↦ "wss://" <> rest <> "/ws"
      | none ↦ elim (after_prefix "http://" s) [
        | some rest ↦ "ws://" <> rest <> "/ws"
        | none ↦ s <> "/ws"
      ]
    ]

unfoldable pub message_type : Object → String
unfolding text_at
message_type m = or_empty (text_at "type" m)

unfoldable pub text_reply : String → Json
unfolding fields_of
text_reply s = object (fields_of (("text", Json.text s) ∷ []))

unfoldable pub code_or_one : Option Json → ℤ
code_or_one (some (number n)) = n
code_or_one _ = pos 1

unfoldable pub exit_code : Object → ℤ
unfolding lookup code_or_one
exit_code m = code_or_one (lookup "code" m)

-- The differences of the two drivers: the name in their errors, and what they say of an exit without output.
module _ (tag : String) (exited : Object → String) (broken : Error) where
  unfoldable pub read_reply : String → List Object → Result Json
  unfolding message_type text_at text_reply
  read_reply sb [] = err (wrap (tag <> ": read") broken)
  read_reply sb (m ∷ ms) =
      let skip = read_reply sb ms in
      let write = read_reply (sb <> or_empty (text_at "text" m)) ms in
      if message_type m == "output"
      then write
      else if message_type m == "idle"
      then ok (text_reply sb)
      else if message_type m == "exit"
      then (if sb == "" then ok (text_reply (exited m)) else ok (text_reply sb))
      else if message_type m == "error"
      then err (message (tag <> ": bridge error: " <> or_empty (text_at "message" m)))
      else skip

unfoldable pub pi_exited : Object → String
unfolding exit_code
pi_exited m = "Pi exited with code " <> show_ℤ (exit_code m)

unfoldable pub claude_code_exited : Object → String
unfolding exit_code text_at
claude_code_exited m =
    let stderr = or_empty (text_at "stderr" m) in
    "Claude Code exited with code "
    <> show_ℤ (exit_code m)
    <> (if stderr == "" then "" else "\n" <> stderr)

abbrev pub prompt_message : String → Object
prompt_message text = ("type", Json.text "prompt") ∷ ("text", Json.text text) ∷ []

abbrev pub init_message : String → Object
init_message tenant = ("type", Json.text "init") ∷ ("tenantId", Json.text tenant) ∷ []

-- What it writes, and what it returns.
abbrev pub Sent : Type 0
Sent = List Object × Result Json

-- The messages behind `ready`, which is waited for.
unfoldable pub wait_for_ready : List Object → Option (List Object)
unfolding message_type
wait_for_ready [] = none
wait_for_ready (m ∷ ms) =
    let rest = wait_for_ready ms in if message_type m == "ready" then some ms else rest

unfoldable pub pi_prompt : Bridge → Object → Option Error → Sent
unfolding read_reply pi_exited
pi_prompt b prompt (some e) = ([], err (wrap "pi: send prompt" e))
pi_prompt b prompt none = (prompt ∷ [], read_reply "pi" pi_exited b.broken "" b.incoming)

unfoldable pub pi_dialled : Bridge → String → Payload → Option Error → Sent
unfolding pi_prompt endpoint_to_ws
pi_dialled b endpoint payload (some e) = ([], err (wrap ("pi: dial " <> endpoint_to_ws endpoint) e))
pi_dialled b endpoint payload none = pi_prompt b (prompt_message payload.text) b.prompt_written

unfoldable pub pi_send : Bridge → String → Payload → Sent
unfolding pi_dialled
pi_send b endpoint payload = pi_dialled b endpoint payload b.dialled

unfoldable pub claude_code_prompt : Bridge → Object → List Object → Option Error → Sent
unfolding read_reply claude_code_exited
claude_code_prompt b prompt ms (some e) = ([], err (wrap "claude-code: send prompt" e))
claude_code_prompt b prompt ms none =
    (prompt ∷ [], read_reply "claude-code" claude_code_exited b.broken "" ms)

unfoldable pub claude_code_ready : Bridge → Object → Option (List Object) → Sent
unfolding claude_code_prompt
claude_code_ready b prompt none = ([], err (wrap "claude-code: handshake" b.broken))
claude_code_ready b prompt (some ms) = claude_code_prompt b prompt ms b.prompt_written

unfoldable pub claude_code_init : Bridge → Object → Object → Option Error → Sent
unfolding claude_code_ready wait_for_ready
claude_code_init b init prompt (some e) = ([], err (wrap "claude-code: send init" e))
claude_code_init b init prompt none =
    let rest = claude_code_ready b prompt (wait_for_ready b.incoming) in (init ∷ rest.0, rest.1)

unfoldable pub claude_code_dialled : Bridge → String → String → Payload → Option Error → Sent
unfolding claude_code_init endpoint_to_ws
claude_code_dialled b endpoint tenant payload (some e) =
    ([], err (wrap ("claude-code: dial " <> endpoint_to_ws endpoint) e))
claude_code_dialled b endpoint tenant payload none =
    claude_code_init b (init_message tenant) (prompt_message payload.text) b.init_written

unfoldable pub claude_code_send : Bridge → String → String → Payload → Sent
unfolding claude_code_dialled
claude_code_send b endpoint tenant payload = claude_code_dialled b endpoint tenant payload b.dialled
