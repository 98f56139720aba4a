-- ===== src/Trigger/Configs.antt =====
-- go/internal/trigger: the structures that the JSON fields of a trigger are decoded to, and the reading of
-- Secrets. `json.Unmarshal` into these structures, `time.ParseDuration` and the scheme that `url.Parse` finds are
-- the fields of `Decoders`.
use boilerhouse.Common.{String, List, Option, none, some, ◌<>◌}
use boilerhouse.Common.Int.{ℤ}
use boilerhouse.Common.Dict.{lookup}
use boilerhouse.Types.Workload.{SecretKeyRef}
use boilerhouse.Types.Json.{Object}
use boilerhouse.Sidecar.{quote}
use boilerhouse.Cluster.{M, message, Result, ◌>>=◌, pure, raise, call, or_fail, get_secret}

pub record WebhookConfig : Type 0 where
  pub path : String
  pub listen_addr : String

pub record CronConfig : Type 0 where
  pub interval : String
  pub payload : String

pub record AllowlistConfig : Type 0 where
  pub tenant_ids : List String
  pub deny_message : String

pub record ApiGuardConfig : Type 0 where
  pub url : String
  pub timeout_ms : ℤ
  pub secret_ref : Option SecretKeyRef

pub record OpenclawOptions : Type 0 where
  pub gateway_token : String
  pub gateway_token_secret_ref : Option SecretKeyRef

-- `misconfigured` is a `misconfiguredDriver` with its reason.
pub data Driver : Type 0 where
  default claude_code pi : Driver
  openclaw misconfigured : String → Driver

-- Decoding over given fields ignores its error; a map decodes to nil from `null`. A relative URL has the empty
-- scheme, and a text that is no URL none.
pub record Decoders : Type 0 where
  pub webhook_config : String → WebhookConfig → WebhookConfig
  pub cron_config : String → CronConfig → CronConfig
  pub allowlist_config : String → AllowlistConfig
  pub any_object : String → Option Object
  pub api_guard_config : String → Result ApiGuardConfig
  pub openclaw_options : String → Result OpenclawOptions
  pub parse_duration : String → Result ℤ
  pub url_scheme : String → Option String

-- `resolveSecret`
unfoldable pub resolve_secret : String → String → String → M String
unfolding lookup
resolve_secret ns name key = do
  answer ← call (get_secret (record { name = name; namespace = ns }))
  secret ← or_fail answer
  elim (lookup key secret.entries) [
    | none ↦ raise (message ("key " <> quote key <> " not found in secret " <> quote name))
    | some value ↦ pure value
  ]
