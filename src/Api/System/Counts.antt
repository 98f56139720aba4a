-- ===== src/Api/System/Counts.antt =====
-- The counts by phase, against the list that they count.
use boilerhouse.Common.{
  ℕ, ◌+◌, String, Bool, true, false, List, [], ◌∷◌, some, ◌==◌, ◌≡◌, refl, ap, ◌∙◌, arith, length,
  ==_sound, if◌then◌else◌,
}
use boilerhouse.Common.Dict.{Dict, lookup, insert, lookup-insert}
use boilerhouse.Api.System.{or_zero, count_at, count_phases, stats_of}

-- How often the phase occurs.
abbrev pub occurrences : String → List String → ℕ
occurrences phase [] = 0
occurrences phase (p ∷ ps) =
    let others = occurrences phase ps in if p == phase then 1 + others else others

-- The sum of all counts.
abbrev pub sum_counts : Dict ℕ → ℕ
sum_counts [] = 0
sum_counts ((p, n) ∷ rest) = n + sum_counts rest

count-insert :
    (p asked : String) (n : ℕ) (m : Dict ℕ)
    → count_at asked (insert p n m) ≡ (if p == asked then n else count_at asked m)
unfolding count_at
count-insert p asked n m = ap or_zero (lookup-insert p asked n m) ∙ go (p == asked)
  where
    go :
        (b : Bool)
        → or_zero (if b then some n else lookup asked m)
          ≡ (if b then n else or_zero (lookup asked m))
    go true = refl
    go false = refl

step :
    (p asked : String) (others : ℕ) (m : Dict ℕ) (b : Bool)
    → (p == asked) ≡ b
    → count_at asked (insert p (count_at p m + 1) m) + others
      ≡ count_at asked m + (if b then 1 + others else others)
step p asked others m true same =
    let equal : p ≡ asked = ==_sound p asked same in rw (count-insert, same, equal) (omega arith)
step p asked others m false other = rw (count-insert, other) refl

counted :
    (asked : String) (ps : List String) (m : Dict ℕ)
    → count_at asked (count_phases ps m) ≡ count_at asked m + occurrences asked ps
unfolding count_phases
counted asked [] m = omega arith
counted asked (p ∷ ps) m =
    counted asked ps (insert p (count_at p m + 1) m)
    ∙ step p asked (occurrences asked ps) m (p == asked) refl

-- An increment adds one to the sum.
sum-insert :
    (p : String) (m : Dict ℕ) → sum_counts (insert p (count_at p m + 1) m) ≡ sum_counts m + 1
unfolding insert count_at lookup
sum-insert p [] = omega arith
sum-insert p ((q, n) ∷ rest) = go (q == p) (sum-insert p rest)
  where
    go :
        (b : Bool)
        → sum_counts (insert p (count_at p rest + 1) rest) ≡ sum_counts rest + 1
        → sum_counts (
            if b
            then (p, or_zero (if b then some n else lookup p rest) + 1) ∷ rest
            else (q, n) ∷ insert p (or_zero (if b then some n else lookup p rest) + 1) rest)
          ≡ n + sum_counts rest + 1
    go true ih = omega arith
    go false ih = omega (arith, ih)

sum_total :
    (ps : List String) (m : Dict ℕ) → sum_counts (count_phases ps m) ≡ sum_counts m + length ps
unfolding count_phases
sum_total [] m = omega arith
sum_total (p ∷ ps) m = omega (arith, sum_total ps (insert p (count_at p m + 1) m), sum-insert p m)

-- Of any list of phases the statistics count each phase as often as it occurs, and the counts add up to the
-- total.
pub stats_of-counts :
    (phases : List String) (asked : String)
    → (count_at asked (stats_of phases).by_phase ≡ occurrences asked phases)
      × (sum_counts (stats_of phases).by_phase ≡ (stats_of phases).total)
unfolding stats_of
stats_of-counts phases asked = (none_before ∙ omega arith, sum_total phases [] ∙ omega arith)
  where
    none_before : count_at asked (count_phases phases []) ≡ 0 + occurrences asked phases
    none_before = counted asked phases []
