-- ===== src/Types/Json.antt =====
-- Go's `any` as `encoding/json` decodes it. A number is known by its integer part, which is all that the
-- code reads of one, as long as it is one that a `float64` holds exactly.
use boilerhouse.Common.{String, Bool, List, [], ◌∷◌, Option, none, some, ◌≡◌, refl}
use boilerhouse.Common.Int.{ℤ}
use boilerhouse.Common.Dict.{Dict, lookup}

mutual
  pub data Json : Type 0 where
    null : Json
    bool : Bool → Json
    number : ℤ → Json
    text : String → Json
    array : Items → Json
    object : Fields → Json

  pub data Items : Type 0 where
    end : Items
    item : Json → Items → Items

  pub data Fields : Type 0 where
    nothing : Fields
    field : String → Json → Fields → Fields

-- `map[string]any`
abbrev pub Object : Type 0
Object = Dict Json

unfoldable pub entries : Fields → Object
entries nothing = []
entries (field name value rest) = (name, value) ∷ entries rest

-- An object as a JSON value.
unfoldable pub fields_of : Object → Fields
fields_of [] = nothing
fields_of ((name, value) ∷ rest) = field name value (fields_of rest)

pub entries-fields_of : (m : Object) → entries (fields_of m) ≡ m
unfolding entries fields_of
entries-fields_of [] = refl
entries-fields_of ((name, j) ∷ rest) = rw (entries-fields_of rest) refl

unfoldable pub items : Items → List Json
items end = []
items (item value rest) = value ∷ items rest

-- `v.(string)`
unfoldable pub as_text : Json → Option String
as_text (text s) = some s
as_text _ = none

-- `v.(map[string]any)`
unfoldable pub as_object : Json → Option Object
unfolding entries
as_object (object fields) = some (entries fields)
as_object _ = none

unfoldable pub with_value {ℓ} : {A : Type ℓ} → Option Json → (Json → Option A) → Option A
with_value none read = none
with_value (some value) read = read value

-- `m[k].(string)` and `m[k].(map[string]any)`
unfoldable pub text_at : String → Object → Option String
unfolding lookup with_value as_text
text_at name m = with_value (lookup name m) as_text

unfoldable pub object_at : String → Object → Option Object
unfolding lookup with_value as_object
object_at name m = with_value (lookup name m) as_object

abbrev pub or_empty : Option String → String
or_empty none = ""
or_empty (some s) = s
