-- ===== src/Api/Debug/Order.antt =====
-- The order of the groups, as sortGroups of go/internal/api/routes_debug.go leaves them.
use Prim.Native.Nat.{Ordering}
use Prim.Native.String.{compare}
use boilerhouse.Common.{
  ℕ, String, Bool, true, false, List, [], ◌∷◌, Option, none, some, ◌==◌, ltb, ◌≡◌, refl, sym, ap,
  ◌∙◌, ==_sound, if◌then◌else◌, arith,
}
use boilerhouse.Common.TextOrder.{turned, compare-swap}
use boilerhouse.Api.Debug.{
  KindGroup, kind_order, priority, less_by, less_group, place_group, sort_groups,
}

-- No group comes directly before one that is less than it.
abbrev pub InOrder : List KindGroup → Type 0
InOrder [] = Unit {0}
InOrder (g ∷ []) = Unit {0}
InOrder (g ∷ h ∷ gs) = (less_group h g ≡ false) × InOrder (h ∷ gs)

-- The groups of this kind, in order.
abbrev pub of_kind : String → List KindGroup → List KindGroup
of_kind kind [] = []
of_kind kind (g ∷ gs) = let rest = of_kind kind gs in if g.kind == kind then g ∷ rest else rest

ltb_asymm : (i j : ℕ) → ltb i j ≡ true → ltb j i ≡ false
ltb_asymm i j is = ground arith

abbrev is_lt : Ordering → Bool
is_lt o = elim o [ Ordering.lt ↦ true | _ ↦ false ]

is_lt-turned : (o : Ordering) → is_lt o ≡ true → is_lt (turned o) ≡ false
is_lt-turned Ordering.lt is = refl
is_lt-turned Ordering.eq is = refl
is_lt-turned Ordering.gt is = sym is

less_by_asymm : (p q : Option ℕ) (a b : String) → less_by p q a b ≡ true → less_by q p b a ≡ false
unfolding less_by
less_by_asymm (some i) (some j) a b is = ltb_asymm i j is
less_by_asymm (some i) none a b is = refl
less_by_asymm none (some j) a b is = sym is
less_by_asymm none none a b is = rw (less_by, compare-swap a b) (is_lt-turned (compare a b) is)

less_group_asymm : (g h : KindGroup) → less_group g h ≡ true → less_group h g ≡ false
unfolding less_group
less_group_asymm g h is =
    less_by_asymm (priority 0 kind_order g.kind) (priority 0 kind_order h.kind) g.kind h.kind is

place_group-InOrder :
    (g : KindGroup) (gs : List KindGroup) → InOrder gs → InOrder (place_group g gs)
unfolding place_group
place_group-InOrder g [] ordered = tt
place_group-InOrder g (h ∷ []) ordered = go (less_group h g) refl
  where
    go : (b : Bool) → less_group h g ≡ b → InOrder (if b then h ∷ g ∷ [] else g ∷ h ∷ [])
    go true is = (less_group_asymm h g is, tt)
    go false is = (is, tt)
place_group-InOrder g (h ∷ k ∷ gs) ordered =
    outer (less_group h g) refl (less_group k g) (place_group-InOrder g (k ∷ gs) ordered.1)
  where
    outer :
        (b : Bool)
        → less_group h g ≡ b
        → (c : Bool) → InOrder (if c then k ∷ place_group g gs else g ∷ k ∷ gs)
        → InOrder
            (if b then h ∷ (if c then k ∷ place_group g gs else g ∷ k ∷ gs) else g ∷ h ∷ k ∷ gs)
    outer true is true rest = (ordered.0, rest)
    outer true is false rest = (less_group_asymm h g is, rest)
    outer false is c rest = (is, ordered)

-- Whether one group is less than another depends on their kinds only.
less_group-same : (g h : KindGroup) → g.kind ≡ h.kind → less_group g h ≡ less_group h g
unfolding less_group
less_group-same g h same = rw (same) refl

true_false : {A : Type 0} (b : Bool) → b ≡ true → b ≡ false → A
true_false b is is_not = cc

of_kind-place_group :
    (kind : String) (g : KindGroup) (gs : List KindGroup)
    → of_kind kind (place_group g gs) ≡ of_kind kind (g ∷ gs)
unfolding place_group
of_kind-place_group kind g [] = refl
of_kind-place_group kind g (h ∷ hs) =
    go (less_group h g) refl (g.kind == kind) refl (h.kind == kind) refl
      (of_kind-place_group kind g hs)
  where
    go :
        (b : Bool)
        → less_group h g ≡ b
        → (c : Bool) → (g.kind == kind) ≡ c
        → (d : Bool) → (h.kind == kind) ≡ d
        → of_kind kind (place_group g hs) ≡ (if c then g ∷ of_kind kind hs else of_kind kind hs)
        → of_kind kind (if b then h ∷ place_group g hs else g ∷ h ∷ hs) ≡ (
            if c
            then g ∷ (if d then h ∷ of_kind kind hs else of_kind kind hs)
            else if d
            then h ∷ of_kind kind hs
            else of_kind kind hs)
    go false lt c g_is d h_is ih = rw (g_is, h_is) refl
    go true lt c g_is false h_is ih = rw (h_is) ih
    go true lt false g_is true h_is ih = rw (h_is) (ap (λ rest. h ∷ rest) ih)
    go true lt true g_is true h_is ih =
        let same = ==_sound g.kind kind g_is ∙ sym (==_sound h.kind kind h_is) in
        true_false (less_group h g) lt (sym (less_group-same g h same) ∙ less_group_asymm h g lt)

pub sort_groups-InOrder :
    (kind : String) (groups : List KindGroup)
    → InOrder (sort_groups groups) × (of_kind kind (sort_groups groups) ≡ of_kind kind groups)
unfolding sort_groups
sort_groups-InOrder kind [] = (tt, refl)
sort_groups-InOrder kind (g ∷ gs) =
    let rest = sort_groups-InOrder kind gs in
    (
      place_group-InOrder g (sort_groups gs) rest.0,
      of_kind-place_group kind g (sort_groups gs)
          ∙ ap (λ of_rest. if g.kind == kind then g ∷ of_rest else of_rest) rest.1,
    )
