-- ===== src/Trigger/Build.antt =====
-- go/internal/trigger/gateway.go: how the gateway builds the adapter, the guards and the driver of a trigger from
-- its JSON fields.
pub mod Quiet
use boilerhouse.Common.{String, List, [], ◌∷◌, Option, none, some, ◌==◌, ◌<>◌, ◌||◌, if◌then◌else◌}
use boilerhouse.Common.Dict.{insert, remove}
use boilerhouse.Types.Workload.{SecretKeyRef}
use boilerhouse.Types.Trigger.{Trigger, TriggerGuard}
use boilerhouse.Types.Json
use boilerhouse.Types.Json.{Object}
use boilerhouse.Types.Adapter.{Adapter, webhook, cron, telegram}
use boilerhouse.Sidecar.{quote}
use boilerhouse.Cluster.{
  M, message, error_text, Result, ok, err, ◌>>=◌, pure, raise, or_fail, or_wrap, wrapping, attempt,
}
use boilerhouse.Trigger.Guards.{Guard, allowlist, api_guard}
use boilerhouse.Trigger.Telegram.Config.{parse_telegram_config}
use boilerhouse.Trigger.Configs.{
  Decoders, WebhookConfig, CronConfig, OpenclawOptions, Driver, default, claude_code, pi, openclaw,
  misconfigured, resolve_secret,
}
use boilerhouse.Trigger.ApiGuard.{parse_api_guard}

-- The token of a referenced Secret takes the place of the reference.
unfoldable pub with_token : String → Option Object → Option SecretKeyRef → M Adapter
unfolding resolve_secret insert remove
with_token ns none ref = pure (telegram [])
with_token ns (some raw) none = pure (telegram raw)
with_token ns (some raw) (some ref) = do
  token ← wrapping "telegram bot token secret" (resolve_secret ns ref.name ref.key)
  pure (telegram (remove "botTokenSecretRef" (insert "botToken" (Json.text token) raw)))

-- The token given, or the one of the Secret referenced; exactly one of the two is to be set.
unfoldable pub openclaw_token : String → OpenclawOptions → M String
unfolding resolve_secret
openclaw_token ns opts = elim opts.gateway_token_secret_ref [
  | none ↦
      if opts.gateway_token == ""
      then raise (message "openclaw: gatewayToken or gatewayTokenSecretRef is required")
      else pure opts.gateway_token
  | some ref ↦
      if opts.gateway_token == ""
      then wrapping "openclaw gateway token secret" (resolve_secret ns ref.name ref.key)
      else raise (message "openclaw: gatewayToken and gatewayTokenSecretRef are mutually exclusive")
]

unfoldable pub openclaw_driver : Result String → Driver
openclaw_driver (ok token) = openclaw token
openclaw_driver (err e) = misconfigured (error_text e)

module _ (d : Decoders) where
  unfoldable pub parse_webhook_config : Trigger → WebhookConfig
  parse_webhook_config trigger =
      let start : WebhookConfig = record {
        path = "/" <> trigger.meta.name;
        listen_addr = ":8090";
      } in
      let cfg : WebhookConfig = elim trigger.spec.config [
        | none ↦ start
        | some raw ↦ d.webhook_config raw start
      ] in
      if cfg.path == "" then record cfg { path = "/" <> trigger.meta.name } else cfg

  unfoldable pub parse_cron_config : Trigger → CronConfig
  parse_cron_config trigger = elim trigger.spec.config [
    | none ↦ record { interval = "1m"; payload = "" }
    | some raw ↦ d.cron_config raw (record { interval = "1m"; payload = "" })
  ]

  unfoldable pub parse_telegram_adapter_config : Trigger → Option Object
  parse_telegram_adapter_config trigger = elim trigger.spec.config [
    | none ↦ some []
    | some raw ↦ d.any_object raw
  ]

  unfoldable pub build_cron : CronConfig → M Adapter
  build_cron cfg = do
    interval ←
        or_wrap ("invalid cron interval " <> quote cfg.interval) (d.parse_duration cfg.interval)
    pure (cron interval cfg.payload)

  unfoldable pub build_telegram : String → Option Object → M Adapter
  unfolding parse_telegram_config with_token
  build_telegram ns raw = do
    parsed ← or_fail (parse_telegram_config raw)
    with_token ns raw parsed.secret_ref

  unfoldable pub build_adapter : String → Trigger → M Adapter
  unfolding parse_webhook_config parse_cron_config parse_telegram_adapter_config build_cron
      build_telegram
  build_adapter ns trigger =
      if trigger.spec.type == "webhook"
      then (let cfg = parse_webhook_config trigger in pure (webhook cfg.path cfg.listen_addr))
      else if trigger.spec.type == "cron"
      then build_cron (parse_cron_config trigger)
      else if trigger.spec.type == "telegram"
      then build_telegram ns (parse_telegram_adapter_config trigger)
      else raise (message ("unsupported trigger type: " <> trigger.spec.type))

  unfoldable pub parse_allowlist_guard : TriggerGuard → Guard
  parse_allowlist_guard spec = elim spec.config [
    | none ↦ allowlist [] ""
    | some raw ↦ (let cfg = d.allowlist_config raw in allowlist cfg.tenant_ids cfg.deny_message)
  ]

  -- A guard of an unknown type is skipped.
  unfoldable pub build_guards : String → String → List TriggerGuard → M (List Guard)
  unfolding parse_allowlist_guard parse_api_guard
  build_guards ns trigger_name [] = pure []
  build_guards ns trigger_name (spec ∷ specs) =
      if spec.type == "allowlist"
      then (do rest ← build_guards ns trigger_name specs; pure (parse_allowlist_guard spec ∷ rest))
      else if spec.type == "api"
      then (do
        g ← parse_api_guard d ns trigger_name spec
        rest ← build_guards ns trigger_name specs
        pure (api_guard g ∷ rest))
      else build_guards ns trigger_name specs

  unfoldable pub resolve_openclaw_token : String → Trigger → M String
  unfolding openclaw_token
  resolve_openclaw_token ns trigger = elim trigger.spec.driver_options [
    | none ↦ openclaw_token ns (record { gateway_token = ""; gateway_token_secret_ref = none })
    | some raw ↦ (do
      opts ← or_wrap "openclaw driverOptions parse" (d.openclaw_options raw)
      openclaw_token ns opts)
  ]

  unfoldable pub build_driver : String → Trigger → M Driver
  unfolding resolve_openclaw_token openclaw_driver
  build_driver ns trigger =
      if trigger.spec.driver == "" || trigger.spec.driver == "default"
      then pure default
      else if trigger.spec.driver == "claude-code"
      then pure claude_code
      else if trigger.spec.driver == "pi"
      then pure pi
      else if trigger.spec.driver == "openclaw"
      then (do token ← attempt (resolve_openclaw_token ns trigger); pure (openclaw_driver token))
      else pure (misconfigured ("unknown driver " <> quote trigger.spec.driver))
