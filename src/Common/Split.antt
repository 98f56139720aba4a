-- ===== src/Common/Split.antt =====
-- `strings.Split` for a separator of one character, and `strings.TrimSpace`.
use Prim.Native.Nat.{ℕ}
use Prim.Native.Char.{Char, code}
use Prim.Native.String.append
use Prim.Native.String.{String, [] as empty, ◌∷◌ as ◌:>◌}
use mathlib.Core.Path.{◌≡◌, refl}
use mathlib.Core.Logic.{◌≢◌}
use mathlib.Core.Bool.{Bool, true, false, ◌&&◌, ◌||◌}
use mathlib.Core.List.{List, [], ◌∷◌}
use mathlib.Core.Option.{Option, none, some}
use boilerhouse.Common.Tests.{◌==◌, ==_ne, leb, nat_eq, if_same, if◌then◌else◌}
use boilerhouse.Common.Lists.{All}
use boilerhouse.Common.Text.{◌<>◌, join}

onto_first : Char → List String → List String
onto_first c [] = (c :> empty) ∷ []
onto_first c (p ∷ ps) = (c :> p) ∷ ps

unfoldable pub split : ℕ → String → List String
unfolding onto_first
split sep empty = "" ∷ []
split sep (c :> s) =
    let parts = split sep s in if nat_eq (code c) sep then "" ∷ parts else onto_first c parts

-- `unicode.IsSpace`
unfoldable pub is_space : ℕ → Bool
is_space n =
    (leb 9 n && leb n 13)
    || nat_eq n 32
    || nat_eq n 133
    || nat_eq n 160
    || nat_eq n 5760
    || (leb 8192 n && leb n 8202)
    || nat_eq n 8232
    || nat_eq n 8233
    || nat_eq n 8239
    || nat_eq n 8287
    || nat_eq n 12288

trim_left : String → String
unfolding is_space
trim_left empty = ""
trim_left (c :> s) = let rest = trim_left s in if is_space (code c) then rest else c :> s

trim_right : String → String
unfolding is_space
trim_right empty = ""
trim_right (c :> s) =
    let rest = trim_right s in
    if rest == "" then (if is_space (code c) then "" else c :> rest) else c :> rest

unfoldable pub trim_space : String → String
unfolding trim_left trim_right
trim_space s = trim_right (trim_left s)

unfoldable pub trim_slashes : String → String
trim_slashes empty = ""
trim_slashes (c :> s) =
    let rest = trim_slashes s in
    if rest == "" then (if nat_eq (code c) 47 then "" else c :> rest) else c :> rest

-- What is left of a text behind a prefix.
unfoldable pub after_prefix : String → String → Option String
after_prefix empty s = some s
after_prefix (c :> p) empty = none
after_prefix (c :> p) (d :> s) =
    let rest = after_prefix p s in if nat_eq (code c) (code d) then rest else none

-- No character of the text is the separator.
abbrev pub Lacks : ℕ → String → Type 0
Lacks sep empty = Unit
Lacks sep (c :> s) = (nat_eq (code c) sep ≡ false) × Lacks sep s

-- No character of the text is white space.
abbrev pub Solid : String → Type 0
Solid empty = Unit
Solid (c :> s) = (is_space (code c) ≡ false) × Solid s

split_whole : (sep : ℕ) (s : String) → Lacks sep s → split sep s ≡ s ∷ []
unfolding split
split_whole sep empty h = refl
split_whole sep (c :> s) h = rw (h.0, split_whole sep s h.1)

split_first :
    (sep : ℕ) (d : Char) (s rest : String)
    → nat_eq (code d) sep ≡ true
    → Lacks sep s
    → split sep (s <> (d :> rest)) ≡ s ∷ split sep rest
unfolding split
split_first sep d empty rest e h = rw (append.nil, e)
split_first sep d (c :> s) rest e h = rw (append.cons, h.0, split_first sep d s rest e h.1)

comma_append : (s : String) → "," <> s ≡ ("," :> s)
comma_append s = rw (append.cons, append.nil)

-- Splitting at the commas undoes joining with them.
pub split-join :
    (s : String) (rest : List String)
    → All (Lacks 44) (s ∷ rest)
    → split 44 (join "," (s ∷ rest)) ≡ s ∷ rest
unfolding join
split-join s [] h = split_whole 44 s h.0
split-join s (t ∷ rest) h =
    rw (comma_append, split_first 44 "," s (join "," (t ∷ rest)) refl h.0, split-join t rest h.1)

trim_right-Solid : (s : String) → Solid s → trim_right s ≡ s
unfolding trim_right
trim_right-Solid empty h = refl
trim_right-Solid (c :> s) h = rw (h.0, trim_right-Solid s h.1) (if_same (s == "") (c :> s))

trim_left-Solid : (s : String) → Solid s → trim_left s ≡ s
unfolding trim_left
trim_left-Solid empty h = refl
trim_left-Solid (c :> s) h = rw h.0

pub trim_space-Solid : (s : String) → Solid s → trim_space s ≡ s
unfolding trim_space
trim_space-Solid s h = rw (trim_left-Solid s h, trim_right-Solid s h)

pub cons-filled : (c : Char) (s : String) → (c :> s) ≢ empty
cons-filled c s h = absurd cc

pub filled-append : (a b : String) → (a == "") ≡ false → (a <> b == "") ≡ false
filled-append empty b h = absurd cc
filled-append (c :> a) b h = ==_ne ((c :> a) <> b) "" (rw append.cons (cons-filled c (a <> b)))
