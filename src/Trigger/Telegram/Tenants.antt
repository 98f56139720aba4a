-- ===== src/Trigger/Telegram/Tenants.antt =====
-- The tenants that updates are resolved to by go/internal/trigger/tenant_resolution.go.
use boilerhouse.Common.{
  String, Bool, true, false, [], ◌∷◌, Option, none, some, ◌==◌, ◌<>◌, ◌≡◌, refl, ◌∙◌, if◌then◌else◌,
}
use boilerhouse.Common.Int.{ℤ}
use boilerhouse.Common.Dict.{Dict, lookup, insert, lookup-insert}
use boilerhouse.Types.Json.{entries-fields_of, Json, number, Object, entries}
use boilerhouse.Types.Trigger.{TriggerTenant}
use boilerhouse.Sidecar.{quote}
use boilerhouse.Cluster.{ok, err, message}
use boilerhouse.Trigger.Tenant.{
  Value, text, no_text, Raw, object, no_object, text_field, resolve_tenant_id,
}
use boilerhouse.Trigger.Telegram.Update.{
  ParsedUpdate, username_or_id, insert_number, insert_filled, enriched, telegram_update_to_payload,
}

-- A payload as the resolution of tenants reads it: `val.(string)` and `payload.Raw.(map[string]any)`.
unfoldable pub value_of : Json → Value
value_of (Json.text s) = text s
value_of _ = no_text

unfoldable pub values_of : Object → Dict Value
unfolding value_of
values_of [] = []
values_of ((name, j) ∷ rest) = (name, value_of j) ∷ values_of rest

unfoldable pub raw_of : Json → Raw
unfolding values_of entries
raw_of (Json.object fields) = object (values_of (entries fields))
raw_of _ = no_object

abbrev valued : Option Json → Option Value
unfolding value_of
valued none = none
valued (some j) = some (value_of j)

lookup-values_of : (name : String) (m : Object) → lookup name (values_of m) ≡ valued (lookup name m)
unfolding lookup values_of value_of
lookup-values_of name [] = refl
lookup-values_of name ((key, j) ∷ rest) = go (key == name) (lookup-values_of name rest)
  where
    go :
        (b : Bool)
        → lookup name (values_of rest) ≡ valued (lookup name rest)
        → (if b then some (value_of j) else lookup name (values_of rest))
          ≡ valued (if b then some j else lookup name rest)
    go true ih = refl
    go false ih = ih

-- Insertions under other names are not seen.
lookup-insert_filled :
    (name asked s : String) (m : Object)
    → (name == asked) ≡ false
    → lookup asked (insert_filled name s m) ≡ lookup asked m
lookup-insert_filled name asked s m other = go (s == "")
  where
    go : (b : Bool) → lookup asked (if b then m else insert name (Json.text s) m) ≡ lookup asked m
    go true = refl
    go false = rw (lookup-insert, other) refl

lookup-insert_number :
    (name asked : String) (o : Option ℤ) (m : Object)
    → (name == asked) ≡ false
    → lookup asked (insert_number name o m) ≡ lookup asked m
lookup-insert_number name asked none m other = refl
lookup-insert_number name asked (some n) m other = rw (lookup-insert, other) refl

enriched_name :
    (p : ParsedUpdate) (raw : Object)
    → lookup "usernameOrId" (enriched p raw) ≡ some (Json.text (username_or_id p))
unfolding enriched
enriched_name p raw =
    lookup-insert_filled "text" "usernameOrId" p.text _ refl
    ∙ rw (lookup-insert, lookup-insert) refl

enriched_chat :
    (p : ParsedUpdate) (raw : Object) (n : ℤ)
    → p.chat_id ≡ some n
    → lookup "chatId" (enriched p raw) ≡ some (number n)
unfolding enriched
enriched_chat p raw n is =
    lookup-insert_filled "text" "chatId" p.text _ refl
    ∙ (rw (lookup-insert, lookup-insert)
        (lookup-insert_filled "username" "chatId" p.sender_username _ refl
          ∙ (lookup-insert_number "userId" "chatId" p.user_id _ refl
              ∙ rw (is, lookup-insert) refl)))

-- Resolution from a field of the payload.
from_field : String → String → TriggerTenant
from_field name prefix = record { static = ""; from = name; prefix = prefix }

resolved :
    (name prefix : String) (p : ParsedUpdate) (raw : Object) (j : Json)
    → (name == "") ≡ false
    → lookup name (enriched p raw) ≡ some j
    → resolve_tenant_id
        (some (from_field name prefix))
        (raw_of (telegram_update_to_payload p raw).raw)
      ≡ text_field (from_field name prefix) (some (value_of j))
unfolding resolve_tenant_id raw_of telegram_update_to_payload from_field
resolved name prefix p raw j filled there =
    rw (filled, entries-fields_of, lookup-values_of, there) refl

pub telegram-resolve_tenant_id :
    (p : ParsedUpdate) (raw : Object) (prefix : String)
    → (resolve_tenant_id
          (some (record { static = ""; from = "usernameOrId"; prefix = prefix }))
          (raw_of (telegram_update_to_payload p raw).raw)
        ≡ ok (prefix <> username_or_id p))
      × ((n : ℤ)
          → p.chat_id ≡ some n
          → resolve_tenant_id
              (some (record { static = ""; from = "chatId"; prefix = prefix }))
              (raw_of (telegram_update_to_payload p raw).raw)
            ≡ err (message ("field " <> quote "chatId" <> " is not a string")))
unfolding text_field value_of from_field
telegram-resolve_tenant_id p raw prefix = (
  resolved "usernameOrId" prefix p raw _ refl (enriched_name p raw),
  λ n is. resolved "chatId" prefix p raw _ refl (enriched_chat p raw n is),
)
