-- ===== src/Common/Dict.antt =====
-- Go's `map[string]T`: an association list. The code never depends on the order of iteration where
-- this model is used.
use Prim.Native.String.{String}
use mathlib.Core.Path.{◌≡◌, refl}
use mathlib.Core.List.{List, [], ◌∷◌}
use mathlib.Core.Option.{Option, none, some}
use native.Mathlib.Omega.{arith}
use text.Mathlib.TextEquality.{eq_iff}
use boilerhouse.Common.Tests.{◌==◌, if◌then◌else◌}

abbrev pub Dict {ℓ} : Type ℓ → Type ℓ
Dict V = List (String × V)

module _ {ℓ} {Value : Type ℓ} where
  unfoldable pub lookup : String → Dict Value → Option Value
  lookup name [] = none
  lookup name ((key, held) ∷ rest) = if key == name then some held else lookup name rest

  unfoldable pub insert : String → Value → Dict Value → Dict Value
  insert name new [] = (name, new) ∷ []
  insert name new ((key, held) ∷ rest) =
      if key == name then (name, new) ∷ rest else (key, held) ∷ insert name new rest

  unfoldable pub remove : String → Dict Value → Dict Value
  remove name [] = []
  remove name ((key, held) ∷ rest) =
      let others = remove name rest in if key == name then others else (key, held) ∷ others

  pub lookup_empty : (name : String) → lookup name [] ≡ none
  unfolding lookup
  lookup_empty name = refl

  -- An insertion changes the value of its own key only.
  pub lookup-insert :
      (name asked : String) (new : Value) (entries : Dict Value)
      → lookup asked (insert name new entries)
        ≡ (if name == asked then some new else lookup asked entries)
  unfolding lookup insert
  lookup-insert name asked new [] = refl
  lookup-insert name asked new ((key, held) ∷ rest) = ground (
    lookup-insert name asked new rest,
    eq_iff key name,
    eq_iff key asked,
    eq_iff name asked,
    arith,
  )

  pub lookup-remove :
      (name asked : String) (entries : Dict Value)
      → lookup asked (remove name entries) ≡ (if name == asked then none else lookup asked entries)
  unfolding lookup remove
  lookup-remove name asked [] = ground arith
  lookup-remove name asked ((key, held) ∷ rest) =
      ground
        (lookup-remove name asked rest, eq_iff key name, eq_iff key asked, eq_iff name asked, arith)
