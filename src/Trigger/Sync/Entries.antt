-- ===== src/Trigger/Sync/Entries.antt =====
-- The entries of the map of running adapters that a synchronisation (go/internal/trigger/gateway.go) keeps and removes.
use boilerhouse.Common.{
  String, Bool, true, false, List, ◌∷◌, none, some, ◌==◌, ◌≡◌, refl, sym, ◌∙◌, ap, ==_sound, inl,
  inr, Bool-cases, if◌then◌else◌,
}
use boilerhouse.Common.Dict.{lookup, insert, remove, lookup-insert, lookup-remove}
use boilerhouse.Trigger.Guards.{listed}
use boilerhouse.Trigger.Sync.State.{is_running, is_present, is_running-remove}
use boilerhouse.Trigger.Sync.{Adapters, RunningAdapter}

-- What ran is still there, unchanged.
abbrev pub Kept : Adapters → Adapters → Type 0
Kept before after =
    (name : String) (ra : RunningAdapter)
    → lookup name before ≡ some ra
    → lookup name after ≡ some ra

-- The entries that are left: all others are of triggers that are not active.
abbrev pub Left : List String → List String → Adapters → Adapters → Type 0
Left names rest before after =
    ((name : String)
      → is_running name after ≡ true
      → (is_running name before ≡ true) × (listed name rest ≡ true → listed name names ≡ true))
    × ((name : String) (ra : RunningAdapter)
        → lookup name before ≡ some ra
        → listed name names ≡ true
        → lookup name after ≡ some ra)

none-some : (ra : RunningAdapter) → none ≡ some ra → ⊥
none-some ra h = absurd cc

pub Kept-insert :
    (name : String) (ra : RunningAdapter) (adapters : Adapters)
    → lookup name adapters ≡ none
    → Kept adapters (insert name ra adapters)
Kept-insert name ra adapters absent other held is = elim (Bool-cases (name == other)) [
  | inl same ↦
      absurd
        (none-some held (sym absent ∙ ap (λ n. lookup n adapters) (==_sound name other same) ∙ is))
  | inr differs ↦ rw (lookup-insert name other ra adapters, differs) is
]

later : (b rest : Bool) → b ≡ false → (if b then true else rest) ≡ true → rest ≡ true
later true rest h among = absurd cc
later false rest h among = among

module _ (names : List String) (name : String) (rest : List String) where
  pub Left-absent :
      (before after : Adapters)
      → lookup name before ≡ none
      → Left names rest before after
      → Left names (name ∷ rest) before after
  unfolding listed
  Left-absent before after absent left = (
    λ other runs. (
      (left.0 other runs).0,
      λ among. elim (Bool-cases (name == other)) [
        | inl same ↦
            (let is : name ≡ other = ==_sound name other same in
              let gone : is_running other before ≡ false =
                ap (λ n. is_running n before) (sym is) ∙ ap is_present absent in
              let there = (left.0 other runs).0 in absurd cc)
        | inr differs ↦
            (left.0 other runs).1 (later (name == other) (listed other rest) differs among)
      ],
    ),
    left.1,
  )

  pub Left-active :
      (before after : Adapters)
      → listed name names ≡ true
      → Left names rest before after
      → Left names (name ∷ rest) before after
  unfolding listed
  Left-active before after is left = (
    λ other runs. (
      (left.0 other runs).0,
      λ among. elim (Bool-cases (name == other)) [
        | inl same ↦ ap (λ n. listed n names) (sym (==_sound name other same)) ∙ is
        | inr differs ↦
            (left.0 other runs).1 (later (name == other) (listed other rest) differs among)
      ],
    ),
    left.1,
  )

  pub Left-removed :
      (before after : Adapters)
      → listed name names ≡ false
      → Left names rest (remove name before) after
      → Left names (name ∷ rest) before after
  unfolding listed
  Left-removed before after gone left = (
    λ other runs. elim (Bool-cases (name == other)) [
      | inl same ↦
          (let there = (left.0 other runs).0 in
            let removed : is_running other (remove name before) ≡ false =
              is_running-remove name other before ∙ rw same refl in
            absurd cc)
      | inr differs ↦
          (let kept : is_running other (remove name before) ≡ is_running other before =
              is_running-remove name other before ∙ rw differs refl in
            (
              sym kept ∙ (left.0 other runs).0,
              λ among.
                  (left.0 other runs).1 (later (name == other) (listed other rest) differs among),
            ))
    ],
    λ other ra is active. elim (Bool-cases (name == other)) [
      | inl same ↦
          (let is_name : listed name names ≡ listed other names =
              ap (λ n. listed n names) (==_sound name other same) in
            absurd cc)
      | inr differs ↦
          left.1 other ra (lookup-remove name other before ∙ rw (differs, is) refl) active
    ],
  )
