-- ===== src/Trigger/Telegram/Update.antt =====
-- `parseTelegramUpdate`, `telegramUpdateToPayload` and their helpers in go/internal/trigger/adapter_telegram.go.
use boilerhouse.Common.{String, Option, none, some, ◌==◌, ◌<>◌, if◌then◌else◌}
use boilerhouse.Common.Int.{ℤ, pos}
use boilerhouse.Common.Dict.{insert}
use boilerhouse.Common.Text.{show_ℤ}
use boilerhouse.Types.Json.{fields_of, number, text, object, Object, text_at, object_at, or_empty}
use boilerhouse.Types.Adapter.{Payload}
use boilerhouse.Trigger.Telegram.Config.{number_at, or_default}

pub record ParsedUpdate : Type 0 where
  pub update_type : String
  pub update_id : ℤ
  pub chat_id : Option ℤ
  pub user_id : Option ℤ
  pub text : String
  pub sender_name : String
  pub sender_username : String

-- A field of an object that may be missing.
unfoldable pub number_in : String → Option Object → Option ℤ
unfolding number_at
number_in name none = none
number_in name (some m) = number_at name m

unfoldable pub object_in : String → Option Object → Option Object
unfolding object_at
object_in name none = none
object_in name (some m) = object_at name m

unfoldable pub text_in : String → Option Object → String
unfolding text_at
text_in name none = ""
text_in name (some m) = or_empty (text_at name m)

-- First and last name, the user name where both are empty.
unfoldable pub full_name : String → String → String → String
full_name first last username =
    if first == ""
    then (if last == "" then username else last)
    else if last == ""
    then first
    else first <> " " <> last

unfoldable pub parsed_of : String → Object → Option Object → Option Object → String → ParsedUpdate
unfolding number_in text_in full_name number_at
parsed_of type update chat from body = record {
  update_type = type;
  update_id = or_default (pos 0) (number_at "update_id" update);
  chat_id = number_in "id" chat;
  user_id = number_in "id" from;
  text = body;
  sender_name =
      full_name (text_in "first_name" from) (text_in "last_name" from) (text_in "username" from);
  sender_username = text_in "username" from;
}

unfoldable pub parse_message : String → Object → Object → ParsedUpdate
unfolding parsed_of object_at text_at
parse_message type update msg =
    parsed_of type update (object_at "chat" msg) (object_at "from" msg)
      (or_empty (text_at "text" msg))

unfoldable pub parse_callback : Object → Object → ParsedUpdate
unfolding parsed_of object_at object_in text_at
parse_callback update cb =
    parsed_of "callback_query" update (object_in "chat" (object_at "message" cb))
      (object_at "from" cb) (or_empty (text_at "data" cb))

-- The first of the three kinds that is an object counts.
unfoldable pub parse_by_kind :
    Object → Option Object → Option Object → Option Object → Option ParsedUpdate
unfolding parse_message parse_callback
parse_by_kind update (some m) edited callback = some (parse_message "message" update m)
parse_by_kind update none (some m) callback = some (parse_message "edited_message" update m)
parse_by_kind update none none (some c) = some (parse_callback update c)
parse_by_kind update none none none = none

unfoldable pub parse_telegram_update : Object → Option ParsedUpdate
unfolding parse_by_kind object_at
parse_telegram_update update =
    parse_by_kind update (object_at "message" update) (object_at "edited_message" update)
      (object_at "callback_query" update)

abbrev pub show_or_empty : Option ℤ → String
show_or_empty none = ""
show_or_empty (some n) = show_ℤ n

unfoldable pub username_or_id : ParsedUpdate → String
unfolding show_ℤ
username_or_id p =
    if p.sender_username == ""
    then elim p.user_id [ none ↦ show_or_empty p.chat_id | some n ↦ show_ℤ n ]
    else p.sender_username

abbrev pub insert_number : String → Option ℤ → Object → Object
insert_number name none m = m
insert_number name (some n) m = insert name (number n) m

abbrev pub insert_filled : String → String → Object → Object
insert_filled name s m = if s == "" then m else insert name (text s) m

unfoldable pub enriched : ParsedUpdate → Object → Object
unfolding insert username_or_id
enriched p raw = insert_filled "text" p.text (
    insert "updateType" (text p.update_type) (
      insert "usernameOrId" (text (username_or_id p)) (
        insert_filled "username" p.sender_username
          (insert_number "userId" p.user_id (insert_number "chatId" p.chat_id raw)))))

unfoldable pub telegram_update_to_payload : ParsedUpdate → Object → Payload
unfolding enriched fields_of
telegram_update_to_payload p raw = record {
  text = p.text;
  source = "telegram";
  raw = object (fields_of (enriched p raw));
}
