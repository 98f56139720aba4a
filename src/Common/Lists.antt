-- ===== src/Common/Lists.antt =====
-- Lists measured by native numbers, a predicate on all elements, and a test on some element.
use Prim.Native.Nat.{ℕ, suc, ◌+◌}
use mathlib.Core.Path.{◌≡◌}
use mathlib.Core.List.{List, [], ◌∷◌, ◌++◌}
use native.Mathlib.Omega.{arith}

module _ {ℓ} {A : Type ℓ} where
  abbrev pub length : List A → ℕ
  length [] = 0
  length (x ∷ xs) = suc (length xs)

  pub length-append : (xs ys : List A) → length (xs ++ ys) ≡ length xs + length ys
  length-append [] ys = omega arith
  length-append (x ∷ xs) ys = omega (arith, length-append xs ys)

-- Every element has the property.
abbrev pub All {ℓ κ} : {Elem : Type ℓ} → (Elem → Type κ) → List Elem → Type κ
All Good [] = Unit
All Good (first ∷ others) = Good first × All Good others

pub All-append {ℓ κ} :
    {Elem : Type ℓ} (Good : Elem → Type κ) (front back : List Elem)
    → All Good front
    → All Good back
    → All Good (front ++ back)
All-append Good [] back none_left rest = rest
All-append Good (first ∷ others) back (good, more) rest =
    (good, All-append Good others back more rest)
