-- ===== src/Tests/Gateway.antt =====
-- The gateway, its guards and the polling of a Telegram bot, run on one trigger and one update.
use boilerhouse.Common.{String, true, [], ◌∷◌, none, some, ◌≡◌, ◌⊎◌, ◌<>◌}
use boilerhouse.Common.Int.{ℤ, pos}
use boilerhouse.Types.Json
use boilerhouse.Types.Json.{Object}
use boilerhouse.Types.Trigger.{TriggerGuard}
use boilerhouse.Sidecar.{quote}
use boilerhouse.Cluster.{trace_of, message, ok, err}
use boilerhouse.Cluster.Triple.{Ends}
use boilerhouse.Trigger.Tenant.{resolve_tenant_id}
use boilerhouse.Trigger.Configs.{Decoders}
use boilerhouse.Trigger.ApiGuard.{given_config, parse_api_guard}
use boilerhouse.Trigger.ApiGuard.FailClosed.{Usable, Denies, parse_api_guard-FailsClosed}
use boilerhouse.Trigger.Sync.{sync_once, sync}
use boilerhouse.Trigger.Sync.State.{Single, is_running, is_live, is_ended}
use boilerhouse.Trigger.Sync.Running.{sync-Exact}
use boilerhouse.Trigger.Sync.Active.{Follows, sync_once-Follows}
use boilerhouse.Trigger.Sync.Progress.{Progress, sync_once-Progress}
use boilerhouse.Trigger.Telegram.Config.{TelegramConfig}
use boilerhouse.Trigger.Telegram.Update.{ParsedUpdate, username_or_id, telegram_update_to_payload}
use boilerhouse.Trigger.Telegram.Loop.{poll_loop, start}
use boilerhouse.Trigger.Telegram.Loop.Offsets.{Acknowledges, start-Acknowledges}
use boilerhouse.Trigger.Telegram.Loop.Replies.{Discreet, poll_loop-Discreet}
use boilerhouse.Trigger.Telegram.Tenants.{raw_of, telegram-resolve_tenant_id}
use boilerhouse.Tests.Fixtures.{update, world}

abbrev decoders : Decoders
decoders = record {
  webhook_config = λ raw cfg. cfg;
  cron_config = λ raw cfg. cfg;
  allowlist_config = λ raw. record { tenant_ids = raw ∷ []; deny_message = "" };
  any_object = λ raw. some [];
  api_guard_config = λ raw. ok (record {
    url = raw;
    timeout_ms = pos 500;
    secret_ref = some (record { name = "guard"; key = "token" });
  });
  openclaw_options = λ raw. ok (record { gateway_token = raw; gateway_token_secret_ref = none });
  parse_duration = λ text. ok (pos 60_000_000_000);
  url_scheme = λ url. some "https";
}

abbrev guard_spec : TriggerGuard
guard_spec = record { type = "api"; config = some "https://guard" }

parse_api_guard-FailsClosed_example :
    Ends
      (λ g t'. Usable decoders "default" (given_config decoders guard_spec) g t' ⊎ Denies g)
      (λ _. ⊥)
      (parse_api_guard decoders "default" "hook" guard_spec world [])
parse_api_guard-FailsClosed_example =
    parse_api_guard-FailsClosed decoders "default" "hook" guard_spec world []

sync-Exact_example :
    Ends
      (λ adapters t.
        Single t
        × ((name : String) → is_running name adapters ≡ is_live name t)
        × (is_ended t ≡ true → adapters ≡ []))
      (λ _. ⊥)
      (sync decoders "default" 3 world [])
sync-Exact_example = sync-Exact decoders "default" 3 world

sync_once-Follows_example :
    Ends (Follows "default" []) (λ _. Unit) (sync_once decoders "default" [] world [])
sync_once-Follows_example = sync_once-Follows decoders "default" [] world []

sync_once-Progress_example :
    Ends (Progress "default") (λ _. Unit) (sync_once decoders "default" [] world [])
sync_once-Progress_example = sync_once-Progress decoders "default" [] world []

abbrev bot : Object
bot = ("botToken", Json.text "bot") ∷ []

start-Acknowledges_example : Acknowledges (trace_of (start (some bot) 3 world []))
start-Acknowledges_example = start-Acknowledges (some bot) 3 world

abbrev config : TelegramConfig
config = record {
  bot_token = "bot";
  secret_ref = none;
  update_types = "message" ∷ [];
  poll_timeout = pos 30;
  api_base_url = "https://api.telegram.org";
}

poll_loop-Discreet_example :
    Discreet config
      (trace_of (poll_loop config "https://api.telegram.org/botbot" 2 (pos 0) world []))
poll_loop-Discreet_example =
    poll_loop-Discreet config "https://api.telegram.org/botbot" 2 (pos 0) world

abbrev parsed : ParsedUpdate
parsed = record {
  update_type = "message";
  update_id = pos 5;
  chat_id = some (pos 7);
  user_id = some (pos 42);
  text = "hi";
  sender_name = "";
  sender_username = "";
}

telegram-resolve_tenant_id_example :
    (resolve_tenant_id
        (some (record { static = ""; from = "usernameOrId"; prefix = "tg-" }))
        (raw_of (telegram_update_to_payload parsed update).raw)
      ≡ ok ("tg-" <> username_or_id parsed))
    × ((n : ℤ)
        → parsed.chat_id ≡ some n
        → resolve_tenant_id
            (some (record { static = ""; from = "chatId"; prefix = "tg-" }))
            (raw_of (telegram_update_to_payload parsed update).raw)
          ≡ err (message ("field " <> quote "chatId" <> " is not a string")))
telegram-resolve_tenant_id_example = telegram-resolve_tenant_id parsed update "tg-"
