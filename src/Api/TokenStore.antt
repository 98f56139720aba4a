-- ===== src/Api/TokenStore.antt =====
-- go/internal/api/token_store.go: the index of API tokens. `sha256.Sum256` is the parameter `hash`; the
-- clock and the answer of the cached client are arguments.
use boilerhouse.Common.{
  ℕ, String, Bool, false, List, [], ◌∷◌, Option, none, some, ◌==◌, ltb, if◌then◌else◌,
}
use boilerhouse.Common.Dict.{Dict, lookup, insert, remove}
use boilerhouse.Common.Split.{split, trim_space}
use boilerhouse.Common.Time.{TimeFormat}
use boilerhouse.Types.Pod.{Secret}
use boilerhouse.Scope
use boilerhouse.Api.Auth.{AuthContext, scoped, Context}

-- An expiry of `none` is Go's zero time: no hard expiry.
pub record TokenEntry : Type 0 where
  pub auth : AuthContext
  pub expires_at : Option ℕ

abbrev pub Entries : Type 0
Entries = Dict TokenEntry

-- `m[k]` on a map of strings.
unfoldable pub value_at : String → Dict String → String
unfolding lookup
value_at k m = elim (lookup k m) [ none ↦ "" | some v ↦ v ]

unfoldable pub trimmed_parts : List String → List String
trimmed_parts [] = []
trimmed_parts (p ∷ ps) =
    let rest = trimmed_parts ps in let q = trim_space p in if q == "" then rest else q ∷ rest

unfoldable pub parse_scope_csv : String → List String
unfolding trimmed_parts
parse_scope_csv csv = if csv == "" then [] else trimmed_parts (split 44 csv)

unfoldable pub secret_to_auth : TimeFormat → Secret → TokenEntry
unfolding value_at parse_scope_csv
secret_to_auth time s = record {
  auth = record {
    kind = scoped;
    tenant_id = value_at Scope.label_tenant s.meta.labels;
    workload = value_at Scope.label_workload s.meta.labels;
    claim_id = value_at Scope.label_claim s.meta.labels;
    scopes = parse_scope_csv (value_at Scope.annotation_scopes s.meta.annotations);
  };
  expires_at =
      let text = value_at Scope.annotation_expires_at s.meta.annotations in
      if text == "" then none else time.parse text;
}

-- `sec.Data[claimtoken.DataKey]`
unfoldable pub token_of : Secret → Option String
unfolding lookup
token_of s = lookup Scope.data_key s.entries

module _ (hash : String → String) (time : TimeFormat) where
  -- `raw, ok := sec.Data[…]`: without a token, nothing happens.
  unfoldable pub store_token : Secret → Option String → Entries → Entries
  unfolding insert
  store_token s none entries = entries
  store_token s (some raw) entries = insert (hash raw) (secret_to_auth time s) entries

  unfoldable pub on_add_or_update : Secret → Entries → Entries
  unfolding store_token
  on_add_or_update s entries = store_token s (token_of s) entries

  unfoldable pub drop_token : Option String → Entries → Entries
  unfolding remove
  drop_token none entries = entries
  drop_token (some raw) entries = remove (hash raw) entries

  unfoldable pub on_delete : Secret → Entries → Entries
  unfolding drop_token
  on_delete s entries = drop_token (token_of s) entries

  -- `!exp.IsZero() && time.Now().After(exp)`
  unfoldable pub is_expired : ℕ → Option ℕ → Bool
  is_expired clock none = false
  is_expired clock (some t) = ltb t clock

  unfoldable pub cold_scan : ℕ → String → Entries → List Secret → Context × Entries
  unfolding token_of secret_to_auth insert is_expired
  cold_scan clock token entries [] = (none, entries)
  cold_scan clock token entries (s ∷ rest) =
      let further = cold_scan clock token entries rest in
      elim (token_of s) [
        | none ↦ further
        | some raw ↦
            if raw == token
            then (let entry = secret_to_auth time s in
                if is_expired clock entry.expires_at
                then (none, entries)
                else (some entry.auth, insert (hash raw) entry entries))
            else further
      ]

  -- The Secrets are what the list call answers, `none` where it fails.
  unfoldable pub cold_lookup : ℕ → Option (List Secret) → String → Entries → Context × Entries
  unfolding cold_scan
  cold_lookup clock none token entries = (none, entries)
  cold_lookup clock (some secrets) token entries = cold_scan clock token entries secrets

  -- The entry in memory if there is one, the cold path otherwise.
  unfoldable pub hit_or_cold :
      ℕ → Option (List Secret) → String → Entries → Option TokenEntry → Context × Entries
  unfolding cold_lookup is_expired
  hit_or_cold clock secrets token entries none = cold_lookup clock secrets token entries
  hit_or_cold clock secrets token entries (some entry) =
      if is_expired clock entry.expires_at then (none, entries) else (some entry.auth, entries)

  -- `Lookup`
  unfoldable pub find_token : ℕ → Option (List Secret) → String → Entries → Context × Entries
  unfolding lookup hit_or_cold
  find_token clock secrets token entries =
      if token == ""
      then (none, entries)
      else hit_or_cold clock secrets token entries (lookup (hash token) entries)
