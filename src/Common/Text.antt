-- ===== src/Common/Text.antt =====
-- Text as Go's `string`: joining, printing of numbers, sorting of map keys.
use Prim.Native.Nat.{ℕ, zero, suc, ◌+◌, ◌/◌, ◌%◌, Ordering}
use Prim.Native.String.{String, slice, compare}
use Prim.Native.String.{◌++◌ as text_append}
use mathlib.Core.List.{List, [], ◌∷◌}
use boilerhouse.Common.Tests.{ltb, if◌then◌else◌}
use boilerhouse.Common.Int.{ℤ, pos, negsuc}
use boilerhouse.Common.Dict.{Dict}

infixr 60 ◌<>◌
abbrev pub ◌<>◌ : String → String → String
s <> t = text_append s t

-- `strings.Join`
unfoldable pub join : String → List String → String
join sep [] = ""
join sep (s ∷ []) = s
join sep (s ∷ t ∷ rest) = s <> sep <> join sep (t ∷ rest)

-- Lines of a text, each behind its line break.
unfoldable pub lines : List String → String
lines [] = ""
lines (s ∷ rest) = "\n" <> s <> lines rest

digit : ℕ → String
digit d = slice "0123456789" d (d + 1)

-- `suc n` rounds are enough: each divides the number by ten.
show_digits : ℕ → ℕ → String → String
unfolding digit
show_digits zero n out = out
show_digits (suc fuel) n out =
    let rest = show_digits fuel (n / 10) (digit (n % 10) <> out) in
    if ltb n 10 then digit n <> out else rest

-- `%d`
unfoldable pub show_ℕ : ℕ → String
unfolding show_digits
show_ℕ n = show_digits (suc n) n ""

unfoldable pub show_ℤ : ℤ → String
unfolding show_ℕ
show_ℤ (pos n) = show_ℕ n
show_ℤ (negsuc n) = "-" <> show_ℕ (suc n)

module _ {ℓ} {V : Type ℓ} where
  insert_sorted : String → V → Dict V → Dict V
  insert_sorted k v [] = (k, v) ∷ []
  insert_sorted k v ((j, w) ∷ m) = elim (compare k j) [
    | Ordering.gt ↦ (j, w) ∷ insert_sorted k v m
    | _ ↦ (k, v) ∷ (j, w) ∷ m
  ]

  -- The entries of a map in the order of `sort.Strings` on its keys.
  unfoldable pub sort_entries : Dict V → Dict V
  unfolding insert_sorted
  sort_entries [] = []
  sort_entries ((k, v) ∷ m) = insert_sorted k v (sort_entries m)
