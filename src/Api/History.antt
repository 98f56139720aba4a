-- ===== src/Api/History.antt =====
-- The index of API tokens against the history of the Secrets it was told of.
use boilerhouse.Common.{
  ℕ, String, false, List, [], ◌∷◌, Option, none, some, ◌==◌, ◌≡◌, refl, Bool-cases, ==_sound,
  ==_self, inl, inr, sym, ◌∙◌, if◌then◌else◌,
}
use boilerhouse.Common.Dict.{lookup, lookup_empty, lookup-insert, lookup-remove}
use boilerhouse.Common.Time.{TimeFormat}
use boilerhouse.Types.Pod.{Secret}
use boilerhouse.Api.Auth.{Context}
use boilerhouse.Api.TokenStore.{
  TokenEntry, Entries, token_of, secret_to_auth, on_add_or_update, on_delete, store_token,
  drop_token, find_token, hit_or_cold, is_expired, cold_lookup,
}

-- What the informer delivers; an update names the new object only, as `UpdateFunc` does.
pub data Change : Type 0 where
  added updated deleted : Secret → Change

module _ (hash : String → String) (time : TimeFormat) where
  unfoldable pub handle : Change → Entries → Entries
  handle (added s) entries = on_add_or_update hash time s entries
  handle (updated s) entries = on_add_or_update hash time s entries
  handle (deleted s) entries = on_delete hash time s entries

  -- The index after a history, newest change first.
  unfoldable pub index : List Change → Entries
  unfolding handle
  index [] = []
  index (c ∷ cs) = handle c (index cs)

  -- The specification: of all changes to Secrets with this token, the newest counts.
  abbrev pub counted :
      String → Option String → Option TokenEntry → Option TokenEntry → Option TokenEntry
  counted token none entry older = older
  counted token (some raw) entry older = if raw == token then entry else older

  abbrev pub newest : String → List Change → Option TokenEntry
  newest token [] = none
  newest token (added s ∷ cs) =
      counted token (token_of s) (some (secret_to_auth time s)) (newest token cs)
  newest token (updated s ∷ cs) =
      counted token (token_of s) (some (secret_to_auth time s)) (newest token cs)
  newest token (deleted s ∷ cs) = counted token (token_of s) none (newest token cs)

  module _ (injective : (s t : String) → hash s ≡ hash t → s ≡ t) (token : String) where
    same_hash : (raw : String) → (hash raw == hash token) ≡ (raw == token)
    same_hash raw = elim (Bool-cases (raw == token)) [
      | inl same ↦ rw (==_sound raw token same) (==_self (hash token) ∙ sym (==_self token))
      | inr other ↦ elim (Bool-cases (hash raw == hash token)) [
        | inl collide ↦
            rw (injective raw token (==_sound (hash raw) (hash token) collide))
              (==_self (hash token) ∙ sym (==_self token))
        | inr apart ↦ apart ∙ sym other
      ]
    ]

    store-lookup :
        (s : Secret) (o : Option String) (entries : Entries)
        → lookup (hash token) (store_token hash time s o entries)
          ≡ counted token o (some (secret_to_auth time s)) (lookup (hash token) entries)
    unfolding store_token
    store-lookup s none entries = refl
    store-lookup s (some raw) entries = rw (lookup-insert, same_hash raw)

    drop-lookup :
        (o : Option String) (entries : Entries)
        → lookup (hash token) (drop_token hash time o entries)
          ≡ counted token o none (lookup (hash token) entries)
    unfolding drop_token
    drop-lookup none entries = refl
    drop-lookup (some raw) entries = rw (lookup-remove, same_hash raw)

    pub index-newest : (cs : List Change) → lookup (hash token) (index cs) ≡ newest token cs
    unfolding index on_add_or_update on_delete
    index-newest [] = lookup_empty (hash token)
    index-newest (added s ∷ cs) = rw (store-lookup, index-newest cs)
    index-newest (updated s ∷ cs) = rw (store-lookup, index-newest cs)
    index-newest (deleted s ∷ cs) = rw (drop-lookup, index-newest cs)

  -- What the store answers for an entry of the index.
  abbrev pub answer : ℕ → Context → Option TokenEntry → Context
  answer clock cold none = cold
  answer clock cold (some entry) =
      if is_expired hash time clock entry.expires_at then none else some entry.auth

  hit_or_cold-answer :
      (clock : ℕ) (secrets : Option (List Secret)) (token : String) (entries : Entries)
      (o : Option TokenEntry)
      → (hit_or_cold hash time clock secrets token entries o).0
        ≡ answer clock (cold_lookup hash time clock secrets token entries).0 o
  unfolding hit_or_cold
  hit_or_cold-answer clock secrets token entries none = refl
  hit_or_cold-answer clock secrets token entries (some entry) =
      elim (Bool-cases (is_expired hash time clock entry.expires_at)) [
        | inl old ↦ rw old
        | inr valid ↦ rw valid
      ]

pub find_token-newest :
    (hash : String → String) (time : TimeFormat)
    (injective : (s t : String) → hash s ≡ hash t → s ≡ t) (clock : ℕ)
    (secrets : Option (List Secret)) (token : String) (cs : List Change)
    → (token == "") ≡ false
    → (find_token hash time clock secrets token (index hash time cs)).0
      ≡ answer hash time clock
          (cold_lookup hash time clock secrets token (index hash time cs)).0
          (newest hash time token cs)
unfolding find_token
find_token-newest hash time injective clock secrets token cs nonempty =
    rw (nonempty, index-newest hash time injective token cs)
      (hit_or_cold-answer hash time clock secrets token _ _)
