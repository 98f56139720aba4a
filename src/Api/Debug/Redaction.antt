-- ===== src/Api/Debug/Redaction.antt =====
-- What the debugging view (go/internal/api/routes_debug.go) shows of a Secret.
use boilerhouse.Common.{
  ℕ, String, Bool, true, false, [], ◌∷◌, Option, none, some, ◌==◌, ◌≡◌, ◌≢◌, refl, sym, ap, ◌∙◌,
  ◌⊎◌, inl, inr, ==_ne, ==_self, if◌then◌else◌,
}
use boilerhouse.Common.Dict.{lookup, insert, lookup-insert}
use boilerhouse.Types.Json.{
  Json, object, Object, fields_of, entries-fields_of, object_at, as_object, with_value,
}
use boilerhouse.Api.Debug.{
  Unstructured, redacted_text, redact, redact_field, redact_fields, redact_secret_values,
  secret_to_entry,
}

-- The value of a key in a field of the object.
abbrev pub within : String → Option Object → Option Json
within key none = none
within key (some m) = lookup key m

abbrev pub hidden : Option Json → Option Json
hidden none = none
hidden (some value) = some redacted_text

lookup-redact : (key : String) (m : Object) → lookup key (redact m) ≡ hidden (lookup key m)
unfolding lookup redact
lookup-redact key [] = refl
lookup-redact key ((name, value) ∷ rest) = go (name == key) (lookup-redact key rest)
  where
    go :
        (b : Bool)
        → lookup key (redact rest) ≡ hidden (lookup key rest)
        → (if b then some redacted_text else lookup key (redact rest))
          ≡ hidden (if b then some value else lookup key rest)
    go true ih = refl
    go false ih = ih

lookup-redact_field :
    (field asked : String) (content : Object)
    → (field == asked) ≡ false
    → lookup asked (redact_field field content) ≡ lookup asked content
unfolding redact_field
lookup-redact_field field asked content other = go (object_at field content)
  where
    go :
        (o : Option Object)
        → lookup asked (elim o as (λ _. Object) [
          | none ↦ content
          | some m ↦ insert field (object (fields_of (redact m))) content
        ])
          ≡ lookup asked content
    go none = refl
    go (some m) = rw (lookup-insert, other) refl

-- The object at a field, by what stands there.
object_there :
    (field : String) (content : Object) (value : Json)
    → lookup field content ≡ some value
    → object_at field content ≡ as_object value
unfolding object_at with_value
object_there field content value is = rw is refl

object-shown :
    (key : String) (m : Object) → within key (as_object (object (fields_of m))) ≡ lookup key m
unfolding as_object
object-shown key m = rw entries-fields_of refl

object_at-same :
    (field : String) (a b : Object)
    → lookup field a ≡ lookup field b
    → object_at field a ≡ object_at field b
unfolding object_at
object_at-same field a b same = ap (λ o. with_value o as_object) same

redact_field-hidden :
    (field key : String) (content : Object)
    → within key (object_at field (redact_field field content))
      ≡ hidden (within key (object_at field content))
unfolding redact_field
redact_field-hidden field key content = go (object_at field content) refl
  where
    go :
        (o : Option Object)
        → object_at field content ≡ o
        → within key (
            object_at field (elim o as (λ _. Object) [
              | none ↦ content
              | some m ↦ insert field (object (fields_of (redact m))) content
            ]))
          ≡ hidden (within key o)
    go none is = rw is refl
    go (some m) is =
        ap (within key) (
          object_there field (insert field (object (fields_of (redact m))) content)
            (object (fields_of (redact m)))
            (lookup-insert field field (object (fields_of (redact m))) content
              ∙ rw (==_self field) refl))
        ∙ object-shown key (redact m)
        ∙ lookup-redact key m

pub secret_to_entry-Hidden :
    (clock : ℕ) (u : Unstructured) (field key : String)
    → ((field ≡ "data") ⊎ (field ≡ "stringData")
        → within key (object_at field (secret_to_entry clock u).raw)
          ≡ hidden (within key (object_at field u.content)))
      × (field ≢ "data"
          → field ≢ "stringData"
          → lookup field (secret_to_entry clock u).raw ≡ lookup field u.content)
unfolding secret_to_entry redact_secret_values redact_fields
secret_to_entry-Hidden clock u field key = (
  hidden_in,
  λ no_data no_string.
      lookup-redact_field "stringData" field (redact_field "data" u.content)
        (==_ne "stringData" field (λ e. no_string (sym e)))
      ∙ lookup-redact_field "data" field u.content (==_ne "data" field (λ e. no_data (sym e))),
)
  where
    hidden_in :
        (field ≡ "data") ⊎ (field ≡ "stringData")
        → within key (object_at field (redact_field "stringData" (redact_field "data" u.content)))
          ≡ hidden (within key (object_at field u.content))
    hidden_in (inl is) = rw is (
        ap (within key) (
          object_at-same "data" (redact_field "stringData" (redact_field "data" u.content))
            (redact_field "data" u.content)
            (lookup-redact_field "stringData" "data" (redact_field "data" u.content) refl))
        ∙ redact_field-hidden "data" key u.content)
    hidden_in (inr is) = rw is (
        redact_field-hidden "stringData" key (redact_field "data" u.content)
        ∙ ap (λ o. hidden (within key o))
            (object_at-same "stringData" (redact_field "data" u.content) u.content
              (lookup-redact_field "data" "stringData" u.content refl)))
