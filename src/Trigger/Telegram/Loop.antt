-- ===== src/Trigger/Telegram/Loop.antt =====
-- `Start` and `pollLoop` of go/internal/trigger/adapter_telegram.go. The loop ends with the context only; here
-- it ends after a number of rounds as well, and what is proved holds for any such number.
pub mod Offsets
pub mod Replies
use boilerhouse.Common.{
  ℕ, zero, suc, String, Bool, true, false, List, [], ◌∷◌, Option, none, some, ◌==◌, ◌*◌, ◌<>◌, leb,
  if◌then◌else◌,
}
use boilerhouse.Common.Int.{ℤ, pos, negsuc}
use boilerhouse.Types.Meta.{second}
use boilerhouse.Types.Json.{Json, text, object, entries, Object, text_at, or_empty}
use boilerhouse.Types.Adapter.{Payload}
use boilerhouse.Cluster.{
  M, Error, Result, ok, err, ◌>>=◌, ◌>>◌, pure, call, or_fail, running, get_me, delete_webhook,
  get_updates, send_message, dispatch, sleep,
}
use boilerhouse.Trigger.Telegram.Config.{
  TelegramConfig, parse_telegram_config, number_at, or_default,
}
use boilerhouse.Trigger.Telegram.Update.{
  ParsedUpdate, parse_telegram_update, telegram_update_to_payload,
}

-- `a <= b` and `a + 1` on int64; the numbers are too small to overflow.
unfoldable pub leb_int : ℤ → ℤ → Bool
leb_int (pos a) (pos b) = leb a b
leb_int (pos a) (negsuc b) = false
leb_int (negsuc a) (pos b) = true
leb_int (negsuc a) (negsuc b) = leb b a

unfoldable pub next_int : ℤ → ℤ
next_int (pos n) = pos (suc n)
next_int (negsuc zero) = pos 0
next_int (negsuc (suc n)) = negsuc n

abbrev pub generic_error_reply : String
generic_error_reply = "Sorry, something went wrong. Please try again later."

unfoldable pub extract_response_text : Json → String
unfolding text_at entries
extract_response_text (text s) = s
extract_response_text (object fields) = or_empty (text_at "text" (entries fields))
extract_response_text _ = ""

-- On any failure and on an empty text, the generic reply.
unfoldable pub reply_text : Result Json → String
unfolding extract_response_text
reply_text (err e) = generic_error_reply
reply_text (ok result) =
    let s = extract_response_text result in if s == "" then generic_error_reply else s

unfoldable pub contains_string : List String → String → Bool
contains_string [] s = false
contains_string (item ∷ list) s = if item == s then true else contains_string list s

unfoldable pub update_id_of : Object → ℤ
unfolding number_at
update_id_of update = or_default (pos 0) (number_at "update_id" update)

unfoldable pub advance : ℤ → ℤ → ℤ
unfolding leb_int next_int
advance offset id = if leb_int offset id then next_int id else offset

-- A failure to send is logged only.
unfoldable pub send_reply : String → Option ℤ → String → M (Unit {0})
send_reply api none reply = pure tt
send_reply api (some chat) reply = do sent ← call (send_message api chat reply); pure tt

unfoldable pub handle_parsed : String → Object → ParsedUpdate → M (Unit {0})
unfolding telegram_update_to_payload reply_text send_reply
handle_parsed api update parsed = do
  result ← call (dispatch (telegram_update_to_payload parsed update))
  send_reply api parsed.chat_id (reply_text result)

-- An update of an unknown kind, or of one that is not asked for, is passed over.
unfoldable pub handle_update : TelegramConfig → String → Object → Option ParsedUpdate → M (Unit {0})
unfolding contains_string handle_parsed
handle_update cfg api update none = pure tt
handle_update cfg api update (some parsed) =
    if contains_string cfg.update_types parsed.update_type
    then handle_parsed api update parsed
    else pure tt

-- The updates of one answer, in order; the offset goes past each.
unfoldable pub handle_updates : TelegramConfig → String → ℤ → List Object → M ℤ
unfolding advance update_id_of parse_telegram_update handle_update
handle_updates cfg api offset [] = pure offset
handle_updates cfg api offset (u ∷ us) =
    handle_update cfg api u (parse_telegram_update u)
    >> handle_updates cfg api (advance offset (update_id_of u)) us

abbrev pub error_backoff : ℕ
error_backoff = 5 * second

unfoldable pub if_slept : M (Unit {0}) → Bool → M (Unit {0})
if_slept next true = next
if_slept next false = pure tt

unfoldable pub back_off : M (Unit {0}) → Bool → M (Unit {0})
unfolding if_slept
back_off next false = pure tt
back_off next true = do slept ← call (sleep error_backoff); if_slept next slept

unfoldable pub after_poll :
    TelegramConfig → String → ℤ → (ℤ → M (Unit {0})) → Result (List Object) → M (Unit {0})
unfolding back_off handle_updates
after_poll cfg api offset next (err e) = do alive ← call running; back_off (next offset) alive
after_poll cfg api offset next (ok updates) = handle_updates cfg api offset updates >>= next

unfoldable pub poll_round : TelegramConfig → String → ℤ → (ℤ → M (Unit {0})) → Bool → M (Unit {0})
unfolding after_poll
poll_round cfg api offset next false = pure tt
poll_round cfg api offset next true = do
  answer ← call (get_updates api offset cfg.poll_timeout cfg.update_types)
  after_poll cfg api offset next answer

unfoldable pub poll_loop : TelegramConfig → String → ℕ → ℤ → M (Unit {0})
unfolding poll_round
poll_loop cfg api zero offset = pure tt
poll_loop cfg api (suc rounds) offset = do
  alive ← call running
  poll_round cfg api offset (poll_loop cfg api rounds) alive

-- A bot that cannot be identified ends the adapter without an error; a webhook that cannot be cleared does not.
unfoldable pub with_bot : TelegramConfig → String → ℕ → Option Error → M (Unit {0})
unfolding poll_loop
with_bot cfg api rounds (some e) = pure tt
with_bot cfg api rounds none = do
  cleared ← call (delete_webhook api)
  poll_loop cfg api rounds (pos 0)

unfoldable pub start : Option Object → ℕ → M (Unit {0})
unfolding parse_telegram_config with_bot
start config rounds = do
  cfg ← or_fail (parse_telegram_config config)
  let api = cfg.api_base_url <> "/bot" <> cfg.bot_token
  me ← call (get_me api)
  with_bot cfg api rounds me
