-- ===== src/Api/Debug.antt =====
-- go/internal/api/routes_debug.go: the order of the groups of the debugging view, the ages, and the entries of Secrets
-- and of objects of other kinds. An object that is listed comes as its JSON.
pub mod Redaction
pub mod Order
use Prim.Native.Nat.{Ordering, ◌/◌}
use Prim.Native.String.{compare}
use boilerhouse.Common.{
  ℕ, zero, suc, ◌+◌, ◌-◌, ◌*◌, String, Bool, true, false, List, [], ◌∷◌, ◌++◌, Option, none, some,
  map, ◌==◌, ◌<>◌, ltb, nat_eq, if◌then◌else◌,
}
use boilerhouse.Common.Int.{ℤ, pos}
use boilerhouse.Common.Dict.{Dict, lookup, insert}
use boilerhouse.Common.Text.{show_ℕ, join, sort_entries}
use boilerhouse.Types.Meta.{second}
use boilerhouse.Types.Json.{
  Json, text, number, object, Object, fields_of, object_at, text_at, or_empty,
}
use boilerhouse.Types.Workload.{Workload}
use boilerhouse.Types.Pool.{Pool}
use boilerhouse.Types.Claim.{Claim}
use boilerhouse.Types.Trigger.{Trigger}

pub record ResourceEntry : Type 0 where
  pub name : String
  pub phase : String
  pub age : String
  pub summary : Object
  pub raw : Object

pub record KindGroup : Type 0 where
  pub kind : String
  pub api_version : String
  pub resources : List ResourceEntry

-- What an `unstructured.Unstructured` gives: its name, its creation time and its content.
pub record Unstructured : Type 0 where
  pub name : String
  pub created : Option ℕ
  pub content : Object

abbrev pub kind_order : List String
kind_order =
    "BoilerhouseWorkload" ∷ "BoilerhousePool" ∷ "BoilerhouseClaim" ∷ "BoilerhouseTrigger" ∷ "Pod"
    ∷ "Deployment" ∷ "ReplicaSet" ∷ "Service" ∷ "Endpoints" ∷ "PersistentVolumeClaim"
    ∷ "NetworkPolicy" ∷ "ConfigMap" ∷ "Secret" ∷ "ServiceAccount" ∷ "Event" ∷ []

unfoldable pub has_verb : List String → String → Bool
has_verb [] v = false
has_verb (x ∷ xs) v = if x == v then true else has_verb xs v

unfoldable pub priority : ℕ → List String → String → Option ℕ
priority i [] kind = none
priority i (k ∷ ks) kind = if k == kind then some i else priority (suc i) ks kind

unfoldable pub less_by : Option ℕ → Option ℕ → String → String → Bool
less_by (some i) (some j) a b = ltb i j
less_by (some i) none a b = true
less_by none (some j) a b = false
less_by none none a b = elim (compare a b) [ Ordering.lt ↦ true | _ ↦ false ]

unfoldable pub less_group : KindGroup → KindGroup → Bool
unfolding priority less_by
less_group a b = less_by (priority 0 kind_order a.kind) (priority 0 kind_order b.kind) a.kind b.kind

unfoldable pub place_group : KindGroup → List KindGroup → List KindGroup
unfolding less_group
place_group g [] = g ∷ []
place_group g (h ∷ hs) =
    let rest = place_group g hs in if less_group h g then h ∷ rest else g ∷ h ∷ hs

-- `sort.SliceStable`: groups that compare alike keep their order.
unfoldable pub sort_groups : List KindGroup → List KindGroup
unfolding place_group
sort_groups [] = []
sort_groups (g ∷ gs) = place_group g (sort_groups gs)

unfoldable pub show_days : ℕ → String
unfolding show_ℕ
show_days hours =
    let days = hours / 24 in
    let h = hours - days * 24 in
    if nat_eq h 0 then show_ℕ days <> "d" else show_ℕ days <> "d" <> show_ℕ h <> "h"

unfoldable pub show_hours : ℕ → String
unfolding show_ℕ
show_hours minutes =
    let h = minutes / 60 in
    let m = minutes - h * 60 in
    if nat_eq m 0 then show_ℕ h <> "h" else show_ℕ h <> "h" <> show_ℕ m <> "m"

unfoldable pub show_age : ℕ → String
unfolding show_days show_hours
show_age d =
    if ltb d (60 * second)
    then show_ℕ (d / second) <> "s"
    else if ltb d (3_600 * second)
    then show_ℕ (d / (60 * second)) <> "m"
    else if ltb d (86_400 * second)
    then show_hours (d / (60 * second))
    else show_days (d / (3_600 * second))

-- A time that is still to come has a negative age in seconds, cut towards 0.
unfoldable pub show_ahead : ℕ → String
unfolding show_ℕ
show_ahead n = if nat_eq n 0 then "0s" else "-" <> show_ℕ n <> "s"

unfoldable pub format_age : ℕ → Option ℕ → String
unfolding show_age show_ahead
format_age clock none = ""
format_age clock (some t) =
    if ltb clock t then show_ahead ((t - clock) / second) else show_age (clock - t)

abbrev pub redacted_text : Json
redacted_text = text "<redacted>"

unfoldable pub redact : Object → Object
redact [] = []
redact ((key, value) ∷ rest) = (key, redacted_text) ∷ redact rest

unfoldable pub redact_field : String → Object → Object
unfolding object_at insert redact fields_of
redact_field name content = elim (object_at name content) [
  | none ↦ content
  | some m ↦ insert name (object (fields_of (redact m))) content
]

unfoldable pub redact_fields : Object → Object
unfolding redact_field
redact_fields content = redact_field "stringData" (redact_field "data" content)

-- The keys of a field, as entries of the set `keySet`.
unfoldable pub add_keys : Option Object → Dict Bool → Dict Bool
unfolding insert
add_keys none keys = keys
add_keys (some []) keys = keys
add_keys (some ((key, value) ∷ rest)) keys = add_keys (some rest) (insert key true keys)

abbrev pub names_of : Dict Bool → List String
names_of [] = []
names_of ((key, held) ∷ rest) = key ∷ names_of rest

unfoldable pub secret_keys : Object → List String
unfolding add_keys object_at sort_entries
secret_keys content = names_of (
    sort_entries
      (add_keys (object_at "stringData" content) (add_keys (object_at "data" content) [])))

unfoldable pub redact_secret_values : Object → Object × List String
unfolding redact_fields secret_keys
redact_secret_values content = (redact_fields content, secret_keys content)

module _ (clock : ℕ) where
  unfoldable pub generic_entry : Unstructured → ResourceEntry
  unfolding format_age
  generic_entry u = record {
    name = u.name;
    phase = "";
    age = format_age clock u.created;
    summary = [];
    raw = u.content;
  }

  unfoldable pub secret_to_entry : Unstructured → ResourceEntry
  unfolding format_age redact_secret_values join text_at
  secret_to_entry u =
      let redacted = redact_secret_values u.content in
      record {
        name = u.name;
        phase = "";
        age = format_age clock u.created;
        summary =
            ("type", text (or_empty (text_at "type" redacted.0)))
            ∷ ("keys", text (join "," redacted.1))
            ∷ [];
        raw = redacted.0;
      }
