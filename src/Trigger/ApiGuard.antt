-- ===== src/Trigger/ApiGuard.antt =====
-- go/internal/trigger/guard_api.go: how an API guard is built. A guard that cannot be is misconfigured.
pub mod FailClosed
use boilerhouse.Common.{
  ℕ, zero, suc, String, Bool, true, false, List, [], ◌∷◌, Option, none, some, ◌==◌, ◌<>◌, ◌||◌,
  ◌&&◌, not, if◌then◌else◌,
}
use boilerhouse.Common.Int.{ℤ, pos, negsuc, mul_int}
use boilerhouse.Common.Dict.{lookup, insert, remove}
use boilerhouse.Common.Text.{show_ℤ}
use boilerhouse.Types.Meta.{Key}
use boilerhouse.Types.Workload.{SecretKeyRef}
use boilerhouse.Types.Trigger.{Trigger, TriggerGuard}
use boilerhouse.Types.Pod.{Secret}
use boilerhouse.Types.Json
use boilerhouse.Types.Json.{Object}
use boilerhouse.Types.Adapter.{Adapter, webhook, cron, telegram}
use boilerhouse.Sidecar.{quote}
use boilerhouse.Cluster.{
  M, Error, message, error_text, Result, ok, err, ◌>>=◌, pure, raise, call, or_fail, or_wrap,
  wrapping, attempt, get_secret,
}
use boilerhouse.Trigger.Guards.{Guard, allowlist, api_guard, ApiGuard}
use boilerhouse.Trigger.Telegram.Config.{TelegramConfig, parse_telegram_config}
use boilerhouse.Trigger.Configs.{Decoders, ApiGuardConfig}

abbrev pub new_guard : String → ApiGuard
new_guard trigger_name = record {
  trigger_name = trigger_name;
  url = "";
  timeout = pos 2_000_000_000;
  token = "";
  misconfigured = "";
}

unfoldable pub misconfigure : ApiGuard → String → ApiGuard
misconfigure g reason = record g { misconfigured = reason }

unfoldable pub token_guard : ApiGuard → SecretKeyRef → Result Secret → ApiGuard
unfolding lookup misconfigure
token_guard g ref (err e) = misconfigure g ("guard secret unavailable: " <> error_text e)
token_guard g ref (ok secret) = elim (lookup ref.key secret.entries) [
  | none ↦ misconfigure g (
      "guard secret unavailable: key "
      <> quote ref.key
      <> " not found in secret "
      <> quote ref.name)
  | some token ↦ record g { token = token }
]

unfoldable pub guard_with_secret : String → ApiGuard → Option SecretKeyRef → M ApiGuard
unfolding token_guard misconfigure
guard_with_secret ns g none = pure g
guard_with_secret ns g (some ref) =
    if ref.name == "" || ref.key == ""
    then pure (misconfigure g "secretRef requires both name and key")
    else (do
      answer ← call (get_secret (record { name = ref.name; namespace = ns }))
      pure (token_guard g ref answer))

-- 0 keeps the default timeout.
unfoldable pub guard_with_timeout : String → ApiGuard → ApiGuardConfig → ℤ → M ApiGuard
unfolding guard_with_secret misconfigure
guard_with_timeout ns g cfg (negsuc n) =
    pure (misconfigure g ("timeoutMs must be > 0, got " <> show_ℤ (negsuc n)))
guard_with_timeout ns g cfg (pos zero) = guard_with_secret ns g cfg.secret_ref
guard_with_timeout ns g cfg (pos (suc n)) =
    guard_with_secret ns (record g { timeout = mul_int (pos (suc n)) 1_000_000 }) cfg.secret_ref

-- The URL is one with scheme `http` or `https`.
unfoldable pub is_web_url : Option String → Bool
is_web_url none = false
is_web_url (some scheme) = scheme == "http" || scheme == "https"

module _ (d : Decoders) where
  unfoldable pub guard_with_config : String → ApiGuard → Result ApiGuardConfig → M ApiGuard
  unfolding guard_with_timeout is_web_url misconfigure
  guard_with_config ns g (err e) = pure (misconfigure g ("invalid config: " <> error_text e))
  guard_with_config ns g (ok cfg) =
      if cfg.url == ""
      then pure (misconfigure g "url is required")
      else if is_web_url (d.url_scheme cfg.url)
      then guard_with_timeout ns (record g { url = cfg.url }) cfg cfg.timeout_ms
      else pure (misconfigure g ("invalid url " <> quote cfg.url))

  -- The configuration is empty where none is given.
  unfoldable pub given_config : TriggerGuard → Result ApiGuardConfig
  given_config spec = elim spec.config [
    | none ↦ ok (record { url = ""; timeout_ms = pos 0; secret_ref = none })
    | some raw ↦ d.api_guard_config raw
  ]

  unfoldable pub parse_api_guard : String → String → TriggerGuard → M ApiGuard
  unfolding guard_with_config given_config
  parse_api_guard ns trigger_name spec =
      guard_with_config ns (new_guard trigger_name) (given_config spec)
