-- ===== src/Trigger/Telegram/Config.antt =====
-- `parseTelegramConfig` of go/internal/trigger/adapter_telegram.go.
use boilerhouse.Common.{String, List, [], ◌∷◌, Option, none, some, ◌==◌, ◌||◌, if◌then◌else◌}
use boilerhouse.Common.Int.{ℤ, pos}
use boilerhouse.Common.Dict.{lookup}
use boilerhouse.Types.Workload.{SecretKeyRef}
use boilerhouse.Types.Json.{
  Json, number, array, Object, items, as_text, with_value, text_at, object_at, or_empty,
}
use boilerhouse.Cluster.{Result, ok, err, message}

pub record TelegramConfig : Type 0 where
  pub bot_token : String
  pub secret_ref : Option SecretKeyRef
  pub update_types : List String
  pub poll_timeout : ℤ
  pub api_base_url : String

abbrev pub default_api_base_url : String
default_api_base_url = "https://api.telegram.org"

-- `getNumber`
unfoldable pub as_number : Json → Option ℤ
as_number (number n) = some n
as_number _ = none

unfoldable pub number_at : String → Object → Option ℤ
unfolding lookup with_value as_number
number_at name m = with_value (lookup name m) as_number

abbrev pub or_default : ℤ → Option ℤ → ℤ
or_default n none = n
or_default n (some m) = m

-- A text that is there and not empty.
unfoldable pub filled_at : String → Object → Option String
unfolding text_at
filled_at name m = let s = or_empty (text_at name m) in if s == "" then none else some s

abbrev pub or_else : String → Option String → String
or_else s none = s
or_else s (some t) = t

unfoldable pub texts_of : List Json → List String
unfolding as_text
texts_of [] = []
texts_of (j ∷ js) = let rest = texts_of js in elim (as_text j) [ none ↦ rest | some s ↦ s ∷ rest ]

unfoldable pub or_message : List String → List String
or_message [] = "message" ∷ []
or_message (t ∷ ts) = t ∷ ts

-- Only an array with some text in it replaces the default.
unfoldable pub types_of : Option Json → List String
unfolding texts_of items or_message
types_of (some (array js)) = or_message (texts_of (items js))
types_of _ = "message" ∷ []

unfoldable pub key_ref : Object → Result SecretKeyRef
unfolding text_at
key_ref m =
    let name = or_empty (text_at "name" m) in
    let key = or_empty (text_at "key" m) in
    if name == "" || key == ""
    then err (message "telegram adapter: botTokenSecretRef requires name and key")
    else ok (record { name = name; key = key })

unfoldable pub config_of : Object → String → Option SecretKeyRef → Result TelegramConfig
unfolding filled_at number_at types_of lookup
config_of raw token ref = ok (record {
  bot_token = token;
  secret_ref = ref;
  update_types = types_of (lookup "updateTypes" raw);
  poll_timeout = or_default (pos 30) (number_at "pollTimeoutSeconds" raw);
  api_base_url = or_else default_api_base_url (filled_at "apiBaseUrl" raw);
})

unfoldable pub with_ref :
    Object → Option String → Option (Result SecretKeyRef) → Result TelegramConfig
unfolding config_of
with_ref raw token (some (err e)) = err e
with_ref raw none (some (ok ref)) = config_of raw "" (some ref)
with_ref raw (some t) (some (ok ref)) =
    err (message "telegram adapter: botToken and botTokenSecretRef are mutually exclusive")
with_ref raw (some t) none = config_of raw t none
with_ref raw none none = err (message "telegram adapter: botToken or botTokenSecretRef is required")

abbrev pub ref_at : Option Object → Option (Result SecretKeyRef)
ref_at none = none
ref_at (some m) = some (key_ref m)

-- A configuration of `none` is a nil map.
unfoldable pub parse_telegram_config : Option Object → Result TelegramConfig
unfolding with_ref filled_at key_ref object_at
parse_telegram_config none = err (message "telegram adapter: config is required")
parse_telegram_config (some raw) =
    with_ref raw (filled_at "botToken" raw) (ref_at (object_at "botTokenSecretRef" raw))
