-- ===== src/Common/TextOrder.antt =====
-- The order of texts.
use Prim.Native.Nat.{ℕ, zero, suc, Ordering, compare as compare_ℕ}
use Prim.Native.Nat.compare as ℕ_compare
use Prim.Native.String.{String, [], ◌∷◌, then, compare}
use Prim.Native.String.compare as text_compare
use Prim.Native.Char.{code}
use mathlib.Core.Path.{◌≡◌, refl}

abbrev pub turned : Ordering → Ordering
turned Ordering.lt = Ordering.gt
turned Ordering.eq = Ordering.eq
turned Ordering.gt = Ordering.lt

turned-then : (o p : Ordering) → then (turned o) (turned p) ≡ turned (then o p)
turned-then Ordering.lt p = refl
turned-then Ordering.eq p = refl
turned-then Ordering.gt p = refl

compare_ℕ-swap : (m n : ℕ) → compare_ℕ n m ≡ turned (compare_ℕ m n)
compare_ℕ-swap zero zero = rw (ℕ_compare.zero-zero) refl
compare_ℕ-swap zero (suc n) = rw (ℕ_compare.zero-suc n, ℕ_compare.suc-zero n) refl
compare_ℕ-swap (suc m) zero = rw (ℕ_compare.zero-suc m, ℕ_compare.suc-zero m) refl
compare_ℕ-swap (suc m) (suc n) =
    rw (ℕ_compare.suc-suc n m, ℕ_compare.suc-suc m n) (compare_ℕ-swap m n)

pub compare-swap : (a b : String) → compare b a ≡ turned (compare a b)
compare-swap [] [] = rw (text_compare.nil-nil) refl
compare-swap [] (d ∷ t) = rw (text_compare.nil-cons d t, text_compare.cons-nil d t) refl
compare-swap (c ∷ s) [] = rw (text_compare.nil-cons c s, text_compare.cons-nil c s) refl
compare-swap (c ∷ s) (d ∷ t) =
    rw
      (
        text_compare.cons-cons d c t s,
        text_compare.cons-cons c d s t,
        compare_ℕ-swap (code c) (code d),
        compare-swap s t,
      )
      (turned-then (compare_ℕ (code c) (code d)) (compare s t))
